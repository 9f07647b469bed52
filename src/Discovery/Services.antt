-- ===== src/Discovery/Services.antt =====
-- The store of services, `ServiceStore` of crates/agentgateway/src/store/discovery.rs.
use agentproxy.Prelude.{
  ℕ, Bool, true, false, Option, none, some, List, [], ◌∷◌, Str, str_eq, ◌==◌, find, if◌then◌else◌,
}
use agentproxy.Prelude.Map.{Map, get, insert, remove, add}
use agentproxy.Route.{NamespacedHostname}
use agentproxy.RouteSet.{or_default}
use agentproxy.Select.{NetworkAddress}
use agentproxy.Discovery.{
  Workload, Service, Endpoint, network_address_eq, namespaced_hostname_eq, namespaced_hostname,
  should_include_endpoint,
}

pub record ServiceStore : Type 0 where
  pub staged_services : Map NamespacedHostname (Map Str Endpoint)
  pub by_vip : Map NetworkAddress Service
  pub by_host : Map Str (List Service)

abbrev pub in_namespace : Str → Service → Bool
in_namespace ns s = s.namespace == ns

unfoldable pub get_by_namespaced_host : NamespacedHostname → ServiceStore → Option Service
get_by_namespaced_host host st =
    find (in_namespace host.namespace) (or_default (get host.hostname st.by_host))

-- The loop of `remove`: the first service of the namespace, and the others.
unfoldable pub take_service : Str → List Service → Option (Service × List Service)
take_service ns [] = none
take_service ns (s ∷ ss) =
    let rest = take_service ns ss in
    if in_namespace ns s
    then some (s, ss)
    else elim rest [ none ↦ none | some (t, ts) ↦ some (t, s ∷ ts) ]

unfoldable pub remove_vips :
    List NetworkAddress → Map NetworkAddress Service → Map NetworkAddress Service
remove_vips [] m = m
remove_vips (v ∷ vs) m = remove_vips vs (remove v m)

-- An entry of `by_host` that is left without services goes.
abbrev pub keep_services : Str → List Service → Map Str (List Service) → Map Str (List Service)
keep_services host [] m = remove host m
keep_services host (s ∷ ss) m = insert host (s ∷ ss) m

unfoldable pub remove_service : NamespacedHostname → ServiceStore → ServiceStore × Bool
remove_service host st =
    elim (take_service host.namespace (or_default (get host.hostname st.by_host))) [
      | none ↦ (st, false)
      | some (prev, rest) ↦ (
        record {
          staged_services = remove host st.staged_services;
          by_vip = remove_vips prev.vips st.by_vip;
          by_host = keep_services host.hostname rest st.by_host;
        },
        true,
      )
    ]

-- The loop over endpoints that a service may take up.
unfoldable pub take_up : Map Str Endpoint → Service → Service
take_up [] s = s
take_up ((uid, ep) ∷ eps) s = take_up eps (
    if should_include_endpoint s ep.status
    then record s { endpoints = insert uid ep s.endpoints }
    else s)

unfoldable pub insert_vips :
    List NetworkAddress → Service → Map NetworkAddress Service → Map NetworkAddress Service
insert_vips [] s m = m
insert_vips (v ∷ vs) s m = insert_vips vs s (insert v s m)

-- The slot of the namespace is replaced, or the service is appended.
unfoldable pub put_service : Service → List Service → List Service
put_service s [] = s ∷ []
put_service s (t ∷ ts) =
    let rest = put_service s ts in if in_namespace s.namespace t then s ∷ ts else t ∷ rest

-- The end of `insert_internal`, which is all of it for an update of the endpoints.
unfoldable pub insert_endpoint_update : Service → ServiceStore → ServiceStore
insert_endpoint_update s st = record st {
  by_vip = insert_vips s.vips s st.by_vip;
  by_host = insert s.hostname (put_service s (or_default (get s.hostname st.by_host))) st.by_host;
}

-- `insert`: the staged endpoints are taken up, and what was there is removed.
unfoldable pub insert_new : Service → ServiceStore → ServiceStore
insert_new s st =
    let key = namespaced_hostname s in
    let whole = take_up (or_default (get key st.staged_services)) s in
    let unstaged = record st { staged_services = remove key st.staged_services } in
    insert_endpoint_update whole (remove_service key unstaged).0

unfoldable pub insert_internal : Service → Bool → ServiceStore → ServiceStore
insert_internal s endpoint_update_only st =
    if endpoint_update_only then insert_endpoint_update s st else insert_new s st

unfoldable pub insert_endpoint : NamespacedHostname → Endpoint → ServiceStore → ServiceStore
insert_endpoint host ep st = elim (get_by_namespaced_host host st) [
  | some s ↦
      if should_include_endpoint s ep.status
      then insert_internal (record s { endpoints = insert ep.workload_uid ep s.endpoints }) true st
      else st
  | none ↦ record st {
    staged_services =
        insert host (insert ep.workload_uid ep (or_default (get host st.staged_services)))
          st.staged_services;
  }
]

-- The loop stops at a host that is not parsed; `parse` is `NamespacedHostname::from_str`.
unfoldable pub insert_endpoint_for_services :
    (Str → Option NamespacedHostname)
    → Workload
    → List (Str × Map ℕ ℕ)
    → ServiceStore
    → ServiceStore
insert_endpoint_for_services parse w [] st = st
insert_endpoint_for_services parse w ((host, ports) ∷ rest) st = elim (parse host) [
  | none ↦ st
  | some name ↦
      let ep : Endpoint = record { workload_uid = w.uid; port = ports; status = w.status } in
      insert_endpoint_for_services parse w rest (insert_endpoint name ep st)
]

abbrev kept_staged :
    NamespacedHostname
    → Map Str Endpoint
    → Map NamespacedHostname (Map Str Endpoint)
    → Map NamespacedHostname (Map Str Endpoint)
kept_staged host [] m = remove host m
kept_staged host (e ∷ es) m = insert host (e ∷ es) m

-- The first loop of `remove_endpoint`.
unfoldable pub unstage_endpoint : Str → List NamespacedHostname → ServiceStore → ServiceStore
unstage_endpoint uid [] st = st
unstage_endpoint uid (host ∷ hosts) st = unstage_endpoint uid hosts (record st {
  staged_services =
      kept_staged host (remove uid (or_default (get host st.staged_services))) st.staged_services;
})

-- The hosts as a set.
abbrev distinct : List NamespacedHostname → List NamespacedHostname → List NamespacedHostname
distinct [] set = set
distinct (h ∷ hs) set = distinct hs (add h set)

-- The second loop.
unfoldable pub withdraw_endpoint : Str → List NamespacedHostname → ServiceStore → ServiceStore
withdraw_endpoint uid [] st = st
withdraw_endpoint uid (host ∷ hosts) st = elim (get_by_namespaced_host host st) [
  | none ↦ withdraw_endpoint uid hosts st
  | some s ↦
      let next = record s { endpoints = remove uid s.endpoints } in
      withdraw_endpoint uid hosts (insert_internal next true st)
]

unfoldable pub remove_endpoint : Workload → ServiceStore → ServiceStore
remove_endpoint prev st =
    withdraw_endpoint prev.uid (distinct prev.services [])
      (unstage_endpoint prev.uid prev.services st)
