-- ===== src/Discovery/ByHost.antt =====
-- A service is found by its host name after it was inserted.
use agentproxy.Prelude.{
  ◌≡◌, refl, false, none, some, List, [], ◌∷◌, Str, str_eq, ==_refl, find, arith,
}
use agentproxy.Prelude.Map.{get, get-insert}
use agentproxy.Route.{NamespacedHostname}
use agentproxy.RouteSet.{or_default}
use agentproxy.Discovery.{Service, namespaced_hostname}
use agentproxy.Discovery.Services.{
  ServiceStore, in_namespace, get_by_namespaced_host, take_service, remove_service, put_service,
  insert_endpoint_update,
}

find-put_service :
    (s : Service) (ss : List Service) → find (in_namespace s.namespace) (put_service s ss) ≡ some s
unfolding put_service
find-put_service s [] = ground (arith, ==_refl s.namespace)
find-put_service s (t ∷ ts) = ground (arith, ==_refl s.namespace, find-put_service s ts)

pub get-insert_endpoint_update :
    (s : Service) (st : ServiceStore)
    → get_by_namespaced_host (namespaced_hostname s) (insert_endpoint_update s st) ≡ some s
unfolding get_by_namespaced_host insert_endpoint_update
get-insert_endpoint_update s st =
    rw
      (
        get-insert s.hostname s.hostname (put_service s (or_default (get s.hostname st.by_host)))
            st.by_host,
        ==_refl s.hostname,
      )
      (find-put_service s (or_default (get s.hostname st.by_host)))

-- A service that is not found is not removed.
take_service-none :
    (ns : Str) (ss : List Service) → find (in_namespace ns) ss ≡ none → take_service ns ss ≡ none
unfolding take_service
take_service-none ns [] h = refl
take_service-none ns (s ∷ ss) h = ground (arith, take_service-none ns ss)

pub remove_service-none :
    (host : NamespacedHostname) (st : ServiceStore)
    → get_by_namespaced_host host st ≡ none
    → remove_service host st ≡ (st, false)
unfolding get_by_namespaced_host remove_service
remove_service-none host st h =
    ground (arith, take_service-none host.namespace (or_default (get host.hostname st.by_host)))
