-- ===== src/Discovery/Workloads.antt =====
-- The store of workloads, `WorkloadStore` and `WorkloadByAddr` of crates/agentgateway/src/store/discovery.rs.
-- The notification of watchers after an insertion is left out.
use agentproxy.Prelude.{
  ℕ, Bool, true, false, not, ◌||◌, Option, none, some, List, [], ◌∷◌, ◌++◌, Str, str_eq, codes,
  ◌==◌, retain, leb, is_empty, starts_with, if◌then◌else◌,
}
use agentproxy.Prelude.Map.{Map, get, insert, remove}
use agentproxy.Select.{NetworkAddress}
use agentproxy.Discovery.{
  Workload, NetworkMode, standard, host_network, InboundProtocol, tcp, hbone, legacy_istio_mtls,
  network_address_eq,
}

pub data WorkloadByAddr : Type 0 where
  single : Workload → WorkloadByAddr
  many : List Workload → WorkloadByAddr

unfoldable pub insert_workload_at : Workload → WorkloadByAddr → WorkloadByAddr
insert_workload_at w (single v) = many (v ∷ w ∷ [])
insert_workload_at w (many ws) = many (ws ++ w ∷ [])

abbrev pub one_or_many : List Workload → WorkloadByAddr × Bool
one_or_many [] = (many [], true)
one_or_many (w ∷ []) = (single w, false)
one_or_many (v ∷ w ∷ ws) = (many (v ∷ w ∷ ws), false)

-- The flag says that no workload remains.
unfoldable pub remove_uid : Str → WorkloadByAddr → WorkloadByAddr × Bool
remove_uid uid (single w) = (single w, w.uid == uid)
remove_uid uid (many ws) = one_or_many (retain (λ w. not (w.uid == uid)) ws)

-- `str::contains`.
abbrev contains_str : Str → Str → Bool
contains_str p [] = is_empty p
contains_str p (c ∷ s) = starts_with p (c ∷ s) || contains_str p s

abbrev is_hbone : InboundProtocol → Bool
is_hbone hbone = true
is_hbone tcp = false
is_hbone legacy_istio_mtls = false

abbrev rank_of : Bool → Bool → ℕ
rank_of true true = 3
rank_of true false = 2
rank_of false true = 1
rank_of false false = 0

unfoldable pub rank : Workload → ℕ
rank w = rank_of (contains_str (codes "//Pod/") w.uid) (is_hbone w.protocol)

-- `max_by_key` gives the last of the greatest.
unfoldable pub max_from : Workload → List Workload → Workload
max_from best [] = best
max_from best (w ∷ ws) = max_from (if leb (rank best) (rank w) then w else best) ws

-- `WorkloadByAddr::get`; `none` is a panic.
unfoldable pub get_workload : WorkloadByAddr → Option Workload
get_workload (single w) = some w
get_workload (many []) = none
get_workload (many (w ∷ ws)) = some (max_from w ws)

pub record WorkloadStore : Type 0 where
  pub local_node : Option Str
  pub by_addr : Map NetworkAddress WorkloadByAddr
  pub by_uid : Map Str Workload

-- `network_addr`.
abbrev pub network_addr : Str → Str → NetworkAddress
network_addr network vip = record { network = network; address = vip }

abbrev pub is_host_network : NetworkMode → Bool
is_host_network standard = false
is_host_network host_network = true

abbrev pub occupied :
    NetworkAddress
    → WorkloadByAddr × Bool
    → Map NetworkAddress WorkloadByAddr
    → Map NetworkAddress WorkloadByAddr
occupied k (ws, true) m = remove k m
occupied k (ws, false) m = insert k ws m

-- What `remove` does for an address.
unfoldable pub remove_at :
    Str → NetworkAddress → Map NetworkAddress WorkloadByAddr → Map NetworkAddress WorkloadByAddr
remove_at uid k m = elim (get k m) [ none ↦ m | some ws ↦ occupied k (remove_uid uid ws) m ]

unfoldable pub remove_addresses :
    Str → Str → List Str → Map NetworkAddress WorkloadByAddr → Map NetworkAddress WorkloadByAddr
remove_addresses uid network [] m = m
remove_addresses uid network (ip ∷ ips) m =
    remove_addresses uid network ips (remove_at uid (network_addr network ip) m)

unfoldable pub remove_workload : Str → WorkloadStore → WorkloadStore × Option Workload
remove_workload uid st = elim (get uid st.by_uid) [
  | none ↦ (record st { by_uid = remove uid st.by_uid }, none)
  | some prev ↦ (
    record st {
      by_uid = remove uid st.by_uid;
      by_addr =
          if is_host_network prev.network_mode
          then st.by_addr
          else remove_addresses prev.uid prev.network prev.workload_ips st.by_addr;
    },
    some prev,
  )
]

-- What `insert` does for an address.
unfoldable pub insert_address :
    Workload
    → NetworkAddress
    → Map NetworkAddress WorkloadByAddr
    → Map NetworkAddress WorkloadByAddr
insert_address w k m = elim (get k m) [
  | none ↦ insert k (single w) m
  | some ws ↦ insert k (insert_workload_at w ws) m
]

unfoldable pub insert_addresses :
    Workload → List Str → Map NetworkAddress WorkloadByAddr → Map NetworkAddress WorkloadByAddr
insert_addresses w [] m = m
insert_addresses w (ip ∷ ips) m =
    insert_addresses w ips (insert_address w (network_addr w.network ip) m)

unfoldable pub insert_workload : Workload → WorkloadStore → WorkloadStore
insert_workload w st =
    let cleaned = (remove_workload w.uid st).0 in
    record cleaned {
      by_addr =
          if is_host_network w.network_mode
          then cleaned.by_addr
          else insert_addresses w w.workload_ips cleaned.by_addr;
      by_uid = insert w.uid w cleaned.by_uid;
    }

unfoldable pub find_uid : Str → WorkloadStore → Option Workload
find_uid uid st = get uid st.by_uid

-- The outer `none` is a panic.
abbrev pub found : Option WorkloadByAddr → Option (Option Workload)
found none = some none
found (some ws) = elim (get_workload ws) [ none ↦ none | some w ↦ some (some w) ]

unfoldable pub find_address : NetworkAddress → WorkloadStore → Option (Option Workload)
find_address k st = found (get k st.by_addr)
