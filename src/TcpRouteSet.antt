-- ===== src/TcpRouteSet.antt =====
-- `TCPRouteSet` of crates/agentgateway/src/types/agent.rs: TCP routes by hostname key, under each key
-- in the order of their own keys. Its unused `compare_route` is left out. `none` is a panic.
pub mod Insert
pub mod Lookup
mod Tests
use Prim.Native.Nat.{Ordering}
use agentproxy.Prelude.{
  ℕ, Bool, not, Option, none, some, List, [], ◌∷◌, map, if◌then◌else◌, length, get_elem?, head?,
  retain, is_empty, Str, str_eq, ◌==◌, str_cmp,
}
use agentproxy.Prelude.Map.{Map, get, insert, remove, contains}
use agentproxy.Prelude.Ordering.{reverse_order}
use agentproxy.Prelude.Search.{binary_search}
use agentproxy.Prelude.Sorted.{insert_at}
use agentproxy.Hostname.{HostnameMatch, hostname_eq, any_host, from_hostname}
use agentproxy.Route.{NamespacedHostname}
use agentproxy.RouteSet.{or_default}

pub data SimpleBackendReference : Type 0 where
  service : NamespacedHostname → (port : ℕ) → SimpleBackendReference
  backend : Str → SimpleBackendReference
  invalid : SimpleBackendReference

pub record TcpRouteBackendReference : Type 0 where
  pub weight : ℕ
  pub backend : SimpleBackendReference

pub record TcpRoute : Type 0 where
  pub key : Str
  pub route_name : Str
  pub hostnames : List Str
  pub rule_name : Option Str
  pub backends : List TcpRouteBackendReference

pub record TcpRouteSet : Type 0 where
  pub inner : Map HostnameMatch (List Str)
  pub all : Map Str TcpRoute

abbrev pub empty : TcpRouteSet
empty = record { inner = []; all = [] }

unfoldable pub hostname_matchers : TcpRoute → List HostnameMatch
unfolding from_hostname
hostname_matchers r = if is_empty r.hostnames then any_host ∷ [] else map from_hostname r.hostnames

-- How the key at `i` compares with a new key.
pub probe_key : Map Str TcpRoute → List Str → (new : Str) → ℕ → Option Ordering
unfolding get str_cmp
probe_key routes v new i = elim (get_elem? v i) [
  | none ↦ none
  | some existing ↦ elim (get existing routes) [
    | none ↦ none
    | some have ↦ some (reverse_order (str_cmp new existing))
  ]
]

pub insert_hosts :
    Map Str TcpRoute
    → (key : Str) → List HostnameMatch
    → Map HostnameMatch (List Str)
    → Option (Map HostnameMatch (List Str))
unfolding probe_key get insert
insert_hosts routes key [] inner = some inner
insert_hosts routes key (hm ∷ hms) inner =
    let v = or_default (get hm inner) in
    elim (binary_search (probe_key routes v key) (length v)) [
      | none ↦ none
      | some place ↦ insert_hosts routes key hms (insert hm (insert_at place key v) inner)
    ]

unfoldable pub insert_route : TcpRoute → TcpRouteSet → Option TcpRouteSet
unfolding insert_hosts hostname_matchers insert
insert_route r s =
    let all = insert r.key r s.all in
    elim (insert_hosts all r.key (hostname_matchers r) s.inner) [
      | none ↦ none
      | some inner ↦ some (record { inner = inner; all = all })
    ]

insert_all : List TcpRoute → TcpRouteSet → Option TcpRouteSet
unfolding insert_route
insert_all [] s = some s
insert_all (r ∷ rs) s = elim (insert_route r s) [ none ↦ none | some s' ↦ insert_all rs s' ]

unfoldable pub from_list : List TcpRoute → Option TcpRouteSet
unfolding insert_all
from_list l = insert_all l empty

unfoldable pub get_hostname : HostnameMatch → TcpRouteSet → Option TcpRoute
unfolding get
get_hostname hm s = elim (get hm s.inner) [
  | none ↦ none
  | some v ↦ elim (head? v) [ none ↦ none | some key ↦ get key s.all ]
]

pub remove_hosts :
    Str → List HostnameMatch → Map HostnameMatch (List Str) → Map HostnameMatch (List Str)
unfolding get insert remove
remove_hosts key [] inner = inner
remove_hosts key (hm ∷ hms) inner = remove_hosts key hms (elim (get hm inner) [
  | none ↦ inner
  | some v ↦
      let kept = retain (λ r. not (r == key)) v in
      if is_empty kept then remove hm inner else insert hm kept inner
])

unfoldable pub remove_route : Str → TcpRouteSet → TcpRouteSet
unfolding remove_hosts hostname_matchers get remove
remove_route key s = elim (get key s.all) [
  | none ↦ s
  | some old ↦ record {
    inner = remove_hosts key (hostname_matchers old) s.inner;
    all = remove key s.all;
  }
]

unfoldable pub contains_route : Str → TcpRouteSet → Bool
unfolding contains
contains_route key s = contains key s.all

unfoldable pub is_empty_set : TcpRouteSet → Bool
is_empty_set s = is_empty s.inner
