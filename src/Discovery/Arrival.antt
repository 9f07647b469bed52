-- ===== src/Discovery/Arrival.antt =====
-- An endpoint and its service may arrive in either order.
use agentproxy.Prelude.{
  ◌≡◌, none, some, [], ◌∷◌, Str, str_eq, ==_refl, Bool-cases, if◌then◌else◌, arith, inl, inr,
}
use agentproxy.Prelude.Map.{Map, get, insert, remove, get-insert, get-remove}
use agentproxy.Route.{NamespacedHostname}
use agentproxy.Discovery.{
  Service, Endpoint, namespaced_hostname, namespaced_hostname_eq, should_include_endpoint,
}
use agentproxy.Discovery.Services.{
  ServiceStore, get_by_namespaced_host, take_up, insert_new, insert_internal,
  insert_endpoint_update, insert_endpoint,
}
use agentproxy.Discovery.Store.{insert_service_internal}
use agentproxy.Discovery.ByHost.{get-insert_endpoint_update, remove_service-none}

-- The service with an endpoint that it may take up.
abbrev pub with_endpoint : Endpoint → Service → Service
with_endpoint ep s =
    if should_include_endpoint s ep.status
    then record s { endpoints = insert ep.workload_uid ep s.endpoints }
    else s

insert_endpoint_known :
    (host : NamespacedHostname) (s : Service) (ep : Endpoint) (st : ServiceStore)
    → get_by_namespaced_host host st ≡ some s
    → insert_endpoint host ep st ≡ (
        if should_include_endpoint s ep.status
        then insert_endpoint_update
            (record s { endpoints = insert ep.workload_uid ep s.endpoints })
            st
        else st)
unfolding insert_endpoint insert_internal
insert_endpoint_known host s ep st e = ground arith

-- What became of the two, in a store that the service was put in.
abbrev Arrived : Service → Endpoint → ServiceStore → Type 0
Arrived s ep st =
    (get_by_namespaced_host (namespaced_hostname s) st ≡ some (with_endpoint ep s))
    × (get (namespaced_hostname s) st.staged_services ≡ none)

put_Arrived :
    (s : Service) (ep : Endpoint) (st : ServiceStore)
    → get (namespaced_hostname s) st.staged_services ≡ none
    → Arrived s ep (insert_endpoint_update (with_endpoint ep s) st)
unfolding insert_endpoint_update
put_Arrived s ep st h = elim (Bool-cases (should_include_endpoint s ep.status)) [
  | inl e ↦ rw e (
    get-insert_endpoint_update (record s { endpoints = insert ep.workload_uid ep s.endpoints }) st,
    h,
  )
  | inr e ↦ rw e (get-insert_endpoint_update s st, h)
]

unstaged_after :
    (host : NamespacedHostname) (s : Service) (st : ServiceStore)
    → get host st.staged_services ≡ none
    → get host (insert_endpoint_update s st).staged_services ≡ none
unfolding insert_endpoint_update
unstaged_after host s st h = h

known_Arrived :
    (s : Service) (ep : Endpoint) (st : ServiceStore)
    → get (namespaced_hostname s) st.staged_services ≡ none
    → Arrived s ep (insert_endpoint (namespaced_hostname s) ep (insert_endpoint_update s st))
known_Arrived s ep st h =
    let there = insert_endpoint_update s st in
    let f =
      insert_endpoint_known (namespaced_hostname s) s ep there (get-insert_endpoint_update s st) in
    elim (Bool-cases (should_include_endpoint s ep.status)) [
      | inl e ↦
          rw (f, e)
            (
              get-insert_endpoint_update
                  (record s { endpoints = insert ep.workload_uid ep s.endpoints }) there,
              unstaged_after _ _ _ (unstaged_after _ _ _ h),
            )
      | inr e ↦ rw (f, e) (get-insert_endpoint_update s st, unstaged_after _ s st h)
    ]

module _ (s : Service) (ep : Endpoint) (st : ServiceStore)
    (unknown : get_by_namespaced_host (namespaced_hostname s) st ≡ none)
    (unstaged : get (namespaced_hostname s) st.staged_services ≡ none) where
  abbrev key : NamespacedHostname
  key = namespaced_hostname s

  -- The staged endpoint.
  abbrev staged : ServiceStore
  staged = record st {
    staged_services = insert key ((ep.workload_uid, ep) ∷ []) st.staged_services;
  }

  endpoint_is_staged : insert_endpoint key ep st ≡ staged
  unfolding insert_endpoint insert
  endpoint_is_staged = ground arith

  service_takes_up :
      insert_service_internal s staged
      ≡ insert_endpoint_update
          (with_endpoint ep s)
          (record st { staged_services = remove key staged.staged_services })
  unfolding insert_service_internal insert_internal insert_new take_up get_by_namespaced_host
  service_takes_up = ground (
    arith,
    get-insert key key ((ep.workload_uid, ep) ∷ []) st.staged_services,
    ==_refl key,
    remove_service-none key (record staged { staged_services = remove key staged.staged_services })
        unknown,
  )

  service_arrives :
      insert_service_internal s st
      ≡ insert_endpoint_update s (record st { staged_services = remove key st.staged_services })
  unfolding insert_service_internal insert_internal insert_new take_up get_by_namespaced_host
  service_arrives = ground (
    arith,
    remove_service-none key (record st { staged_services = remove key st.staged_services }) unknown,
  )

  none_left : (m : Map NamespacedHostname (Map Str Endpoint)) → get key (remove key m) ≡ none
  none_left m = rw (get-remove key key m, ==_refl key)

  -- A service is not there, nor is anything staged for it. Whether an endpoint of it arrives before it
  -- or after, the service is then found by its name, with the endpoint if the service takes up
  -- endpoints of that health, and nothing is left staged for it.
  pub endpoint_arrival :
      (get_by_namespaced_host
          (namespaced_hostname s)
          (insert_service_internal s (insert_endpoint (namespaced_hostname s) ep st))
        ≡ some (with_endpoint ep s))
      × (get_by_namespaced_host
            (namespaced_hostname s)
            (insert_endpoint (namespaced_hostname s) ep (insert_service_internal s st))
          ≡ some (with_endpoint ep s))
      × (get
            (namespaced_hostname s)
            (insert_service_internal s
              (insert_endpoint (namespaced_hostname s) ep st)).staged_services
          ≡ none)
      × (get
            (namespaced_hostname s)
            (insert_endpoint
              (namespaced_hostname s)
              ep
              (insert_service_internal s st)).staged_services
          ≡ none)
  endpoint_arrival =
      let (a, b) = put_Arrived s ep _ (none_left staged.staged_services) in
      let (c, d) = known_Arrived s ep _ (none_left st.staged_services) in
      rw (endpoint_is_staged, service_takes_up, service_arrives) (a, c, b, d)
