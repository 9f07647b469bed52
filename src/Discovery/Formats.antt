-- ===== src/Discovery/Formats.antt =====
-- The texts of identities, host names and addresses in crates/agentgateway/src/types/discovery.rs.
use agentproxy.Prelude.{
  ℕ, ◌&&◌, Option, none, some, List, [], ◌∷◌, ◌++◌, Str, str_eq, codes, ◌==◌, strip_prefix, split,
  split_once, if◌then◌else◌,
}
use agentproxy.Route.{NamespacedHostname}
use agentproxy.Select.{NetworkAddress}
use agentproxy.Discovery.{Workload}

-- `/`.
abbrev pub slash : ℕ
slash = 47

-- `Identity::Spiffe`, the only kind.
pub record Identity : Type 0 where
  pub trust_domain : Str
  pub namespace : Str
  pub service_account : Str

abbrev pub uri_prefix : Str
uri_prefix = codes "spiffe://"

abbrev pub identity_of : List Str → Option Identity
identity_of (td ∷ n ∷ ns ∷ s ∷ sa ∷ []) =
    if n == codes "ns" && s == codes "sa"
    then some (record { trust_domain = td; namespace = ns; service_account = sa })
    else none
identity_of _ = none

unfoldable pub parse_identity : Str → Option Identity
parse_identity s = elim (strip_prefix uri_prefix s) [
  | none ↦ none
  | some rest ↦ identity_of (split slash rest)
]

unfoldable pub print_identity : Identity → Str
print_identity i =
    uri_prefix
    ++ (i.trust_domain ++ (codes "/ns/" ++ (i.namespace ++ (codes "/sa/" ++ i.service_account))))

-- `Workload::identity`.
unfoldable pub identity : Workload → Identity
identity w = record {
  trust_domain = w.trust_domain;
  namespace = w.namespace;
  service_account = w.service_account;
}

abbrev hostname_of : Option (Str × Str) → Option NamespacedHostname
hostname_of none = none
hostname_of (some (namespace, hostname)) =
    some (record { namespace = namespace; hostname = hostname })

unfoldable pub parse_hostname : Str → Option NamespacedHostname
parse_hostname s = hostname_of (split_once slash s)

unfoldable pub print_hostname : NamespacedHostname → Str
print_hostname h = h.namespace ++ slash ∷ h.hostname

-- The parser and the printer of IP addresses are parameters.
abbrev address_of : (Str → Option Str) → Option (Str × Str) → Option NetworkAddress
address_of parse_ip none = none
address_of parse_ip (some (network, address)) = elim (parse_ip address) [
  | none ↦ none
  | some ip ↦ some (record { network = network; address = ip })
]

unfoldable pub parse_address : (Str → Option Str) → Str → Option NetworkAddress
parse_address parse_ip s = address_of parse_ip (split_once slash s)

unfoldable pub print_address : (Str → Str) → NetworkAddress → Str
print_address print_ip a = a.network ++ slash ∷ print_ip a.address
