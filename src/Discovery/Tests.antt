-- ===== src/Discovery/Tests.antt =====
-- The theorems on discovery at concrete workloads and services, and runs of the operations.
use agentproxy.Prelude.{◌≡◌, refl, ◌↔◌, Option, none, some, List, [], ◌∷◌, Str, str_eq, codes}
use agentproxy.Prelude.Map.{get, insert, remove}
use agentproxy.Select.{NetworkAddress, network_address_beq}
use agentproxy.Discovery.{
  Workload, Service, Endpoint, standard, tcp, healthy, namespaced_hostname, network_address_eq,
  namespaced_hostname_eq,
}
use agentproxy.Discovery.Formats.{Identity, parse_identity, print_identity}
use agentproxy.Discovery.RoundTrip.{NoSlash, parse_identity-print_identity}
use agentproxy.Discovery.Services.{
  ServiceStore, get_by_namespaced_host, insert_endpoint, remove_service, take_service,
  insert_internal, insert_new, insert_endpoint_update, take_up, put_service, remove_vips,
  insert_vips,
}
use agentproxy.Discovery.Store.{insert_service_internal}
use agentproxy.Discovery.Arrival.{with_endpoint, endpoint_arrival}
use agentproxy.Discovery.Workloads.{find_address}
use agentproxy.Discovery.Lookup.{
  Change, inserted, removed, changes, no_workloads, Finds, find_address-Finds,
}

abbrev no_services : ServiceStore
no_services = record { staged_services = []; by_vip = []; by_host = [] }

abbrev vip : NetworkAddress
vip = record { network = []; address = 10 ∷ 0 ∷ 0 ∷ 9 ∷ [] }

abbrev web_in : Str → Service
web_in namespace = record {
  name = codes "web";
  namespace = namespace;
  hostname = codes "web.example.com";
  vips = vip ∷ [];
  ports = [];
  app_protocols = [];
  endpoints = [];
  subject_alt_names = [];
  waypoint = none;
  load_balancer = none;
  ip_families = none;
}

abbrev web : Service
web = web_in (codes "shop")

abbrev backend : Endpoint
backend = record { workload_uid = codes "w1"; port = (80, 8080) ∷ []; status = healthy }

endpoint_arrival_example :
    (get_by_namespaced_host (namespaced_hostname web) (
        insert_service_internal web (insert_endpoint (namespaced_hostname web) backend no_services))
      ≡ some (with_endpoint backend web))
    × (get_by_namespaced_host (namespaced_hostname web) (
          insert_endpoint
            (namespaced_hostname web)
            backend
            (insert_service_internal web no_services))
        ≡ some (with_endpoint backend web))
    × (get
          (namespaced_hostname web)
          (insert_service_internal web
            (insert_endpoint (namespaced_hostname web) backend no_services)).staged_services
        ≡ none)
    × (get
          (namespaced_hostname web)
          (insert_endpoint
            (namespaced_hostname web)
            backend
            (insert_service_internal web no_services)).staged_services
        ≡ none)
unfolding get_by_namespaced_host get
endpoint_arrival_example = endpoint_arrival web backend no_services refl refl

-- Two services of different namespaces share an address. When one of them is removed, the address finds
-- neither.
shared_vip :
    get vip
      (remove_service (namespaced_hostname (web_in (codes "a"))) (
        insert_service_internal web
          (insert_service_internal (web_in (codes "a")) no_services))).0.by_vip
    ≡ none
unfolding remove_service insert_service_internal get_by_namespaced_host get take_service
    insert_internal insert_new insert_endpoint_update insert take_up put_service remove remove_vips
    insert_vips network_address_beq
shared_vip = refl

abbrev pod : Str → Workload
pod uid = record {
  workload_ips = (10 ∷ 0 ∷ 0 ∷ 1 ∷ []) ∷ [];
  waypoint = none;
  network_gateway = none;
  protocol = tcp;
  network_mode = standard;
  uid = uid;
  name = uid;
  namespace = codes "shop";
  trust_domain = codes "cluster.local";
  service_account = codes "sa";
  network = [];
  workload_name = uid;
  workload_type = [];
  canonical_name = [];
  canonical_revision = [];
  hostname = [];
  node = [];
  authorization_policies = [];
  status = healthy;
  cluster_id = [];
  locality = record { region = []; zone = []; subzone = [] };
  services = [];
  capacity = 1;
}

abbrev address : NetworkAddress
address = record { network = []; address = 10 ∷ 0 ∷ 0 ∷ 1 ∷ [] }

-- A pod, an entry for the same address, and a pod that is removed again.
abbrev history : List Change
history =
    inserted (pod (codes "c//Pod/a"))
    ∷ inserted (pod (codes "c/entry"))
    ∷ inserted (pod (codes "c//Pod/b"))
    ∷ removed (codes "c//Pod/b")
    ∷ []

find_address-Finds_example :
    (r : Option Workload) × (find_address address (changes history no_workloads) ≡ some r)
    × Finds (changes history no_workloads) address r
find_address-Finds_example = find_address-Finds history address

abbrev spiffe : Identity
spiffe = record {
  trust_domain = codes "td";
  namespace = codes "shop";
  service_account = codes "web";
}

parse_identity-print_identity_example :
    (parse_identity (codes "spiffe://td/ns/shop/sa/web") ≡ some spiffe)
    ↔ ((codes "spiffe://td/ns/shop/sa/web" ≡ print_identity spiffe) × NoSlash spiffe)
parse_identity-print_identity_example =
    parse_identity-print_identity (codes "spiffe://td/ns/shop/sa/web") spiffe
