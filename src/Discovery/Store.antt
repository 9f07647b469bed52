-- ===== src/Discovery/Store.antt =====
-- The store of workloads and services together, `Store` of crates/agentgateway/src/store/discovery.rs. The
-- conversions of the wire format are left out: a workload comes with its services' ports.
use agentproxy.Prelude.{
  ℕ, Bool, true, false, Option, none, some, List, [], map, Str, str_eq, nat_eq, if◌then◌else◌,
}
use agentproxy.Prelude.Map.{Map, values, member}
use agentproxy.Route.{NamespacedHostname}
use agentproxy.Discovery.{Workload, Service, Endpoint, namespaced_hostname}
use agentproxy.Discovery.Formats.{slash, parse_hostname}
use agentproxy.Discovery.Services.{
  ServiceStore, get_by_namespaced_host, take_up, insert_internal, insert_endpoint_for_services,
  remove_endpoint, remove_service,
}
use agentproxy.Discovery.Workloads.{
  WorkloadStore, insert_workload as store_workload, remove_workload,
}

pub record Store : Type 0 where
  pub workloads : WorkloadStore
  pub services : ServiceStore

unfoldable pub new_store : Store
new_store = record {
  workloads = record { local_node = none; by_addr = []; by_uid = [] };
  services = record { staged_services = []; by_vip = []; by_host = [] };
}

-- The endpoints that a service has, by their uids.
abbrev pub endpoints_of : Option Service → Map Str Endpoint
endpoints_of none = []
endpoints_of (some prev) = map (λ ep. (ep.workload_uid, ep)) (values prev.endpoints)

unfoldable pub insert_service_internal : Service → ServiceStore → ServiceStore
insert_service_internal s st =
    insert_internal (take_up (endpoints_of (get_by_namespaced_host (namespaced_hostname s) st)) s)
      false st

-- What is removed if no workload has the name.
unfoldable pub remove_named_service : Option NamespacedHostname → ServiceStore → ServiceStore
remove_named_service none st = st
remove_named_service (some name) st =
    if member slash name.hostname then st else (remove_service name st).0

unfoldable pub remove_internal : Str → Bool → Store → Store
remove_internal xds_name for_workload_insert st =
    let (left, prev) = remove_workload xds_name st.workloads in
    elim prev [
      | some w ↦ record { workloads = left; services = remove_endpoint w st.services }
      | none ↦ record {
        workloads = left;
        services =
            if for_workload_insert
            then st.services
            else remove_named_service (parse_hostname xds_name) st.services;
      }
    ]

unfoldable pub insert_workload : Workload → List (Str × Map ℕ ℕ) → Store → Store
insert_workload w services st =
    let cleaned = remove_internal w.uid true st in
    record {
      workloads = store_workload w cleaned.workloads;
      services = insert_endpoint_for_services parse_hostname w services cleaned.services;
    }
