-- ===== src/Discovery.antt =====
-- Workloads, services and endpoints of crates/agentgateway/src/types/discovery.rs. IP addresses are
-- their bytes, as in `NetworkAddress`.
pub mod Formats
pub mod Services
pub mod Workloads
pub mod Store
mod RoundTrip
mod ByHost
mod Arrival
mod Entries
mod Indexed
mod Filled
mod Lookup
mod Tests
use agentproxy.Prelude.{
  ℕ, ◌≡◌, ◌↔◌, Bool, true, false, ◌&&◌, ◌||◌, Option, none, some, List, [], ◌∷◌, Str, str_eq, Eq,
  ◌==◌, ==_iff, arith,
}
use agentproxy.Prelude.Map.{Map}
use agentproxy.Route.{NamespacedHostname}
use agentproxy.Select.{NetworkAddress, GatewayAddress, network_address_beq}

pub network_address_beq_iff : (a b : NetworkAddress) → (network_address_beq a b ≡ true) ↔ (a ≡ b)
unfolding network_address_beq
network_address_beq_iff a b = ground (arith, ==_iff a.network b.network, ==_iff a.address b.address)

instance abbrev pub network_address_eq : Eq NetworkAddress
network_address_eq = record { beq = network_address_beq; beq_iff = network_address_beq_iff }

abbrev pub hostname_beq : NamespacedHostname → NamespacedHostname → Bool
hostname_beq a b = a.namespace == b.namespace && a.hostname == b.hostname

pub hostname_beq_iff : (a b : NamespacedHostname) → (hostname_beq a b ≡ true) ↔ (a ≡ b)
hostname_beq_iff a b = ground (arith, ==_iff a.namespace b.namespace, ==_iff a.hostname b.hostname)

instance abbrev pub namespaced_hostname_eq : Eq NamespacedHostname
namespaced_hostname_eq = record { beq = hostname_beq; beq_iff = hostname_beq_iff }

pub data NetworkMode : Type 0 where
  standard host_network : NetworkMode

pub data HealthStatus : Type 0 where
  healthy unhealthy : HealthStatus

pub data InboundProtocol : Type 0 where
  tcp hbone legacy_istio_mtls : InboundProtocol

pub record Locality : Type 0 where
  pub region : Str
  pub zone : Str
  pub subzone : Str

pub record Workload : Type 0 where
  pub workload_ips : List Str
  pub waypoint : Option GatewayAddress
  pub network_gateway : Option GatewayAddress
  pub protocol : InboundProtocol
  pub network_mode : NetworkMode
  pub uid : Str
  pub name : Str
  pub namespace : Str
  pub trust_domain : Str
  pub service_account : Str
  pub network : Str
  pub workload_name : Str
  pub workload_type : Str
  pub canonical_name : Str
  pub canonical_revision : Str
  pub hostname : Str
  pub node : Str
  pub authorization_policies : List Str
  pub status : HealthStatus
  pub cluster_id : Str
  pub locality : Locality
  pub services : List NamespacedHostname
  pub capacity : ℕ

pub data AppProtocol : Type 0 where
  http11 http2 grpc : AppProtocol

pub data IpFamily : Type 0 where
  dual ipv4 ipv6 : IpFamily

pub data LoadBalancerScopes : Type 0 where
  region zone subzone node cluster network : LoadBalancerScopes

pub data LoadBalancerMode : Type 0 where
  standard strict failover : LoadBalancerMode

pub data LoadBalancerHealthPolicy : Type 0 where
  only_healthy allow_all : LoadBalancerHealthPolicy

pub record LoadBalancer : Type 0 where
  pub routing_preferences : List LoadBalancerScopes
  pub mode : LoadBalancerMode
  pub health_policy : LoadBalancerHealthPolicy

pub record Endpoint : Type 0 where
  pub workload_uid : Str
  pub port : Map ℕ ℕ
  pub status : HealthStatus

-- `EndpointSet` is a map by the uid of the workload.
abbrev pub EndpointSet : Type 0
EndpointSet = Map Str Endpoint

pub record Service : Type 0 where
  pub name : Str
  pub namespace : Str
  pub hostname : Str
  pub vips : List NetworkAddress
  pub ports : Map ℕ ℕ
  pub app_protocols : Map ℕ AppProtocol
  pub endpoints : EndpointSet
  pub subject_alt_names : List Str
  pub waypoint : Option GatewayAddress
  pub load_balancer : Option LoadBalancer
  pub ip_families : Option IpFamily

abbrev pub namespaced_hostname : Service → NamespacedHostname
namespaced_hostname s = record { namespace = s.namespace; hostname = s.hostname }

abbrev pub is_healthy : HealthStatus → Bool
is_healthy healthy = true
is_healthy unhealthy = false

abbrev allows_all : Option LoadBalancer → Bool
allows_all none = false
allows_all (some lb) = elim lb.health_policy [ only_healthy ↦ false | allow_all ↦ true ]

unfoldable pub should_include_endpoint : Service → HealthStatus → Bool
should_include_endpoint s health = is_healthy health || allows_all s.load_balancer
