-- ===== src/RouteSet.antt =====
-- `RouteSet` of crates/agentgateway/src/types/agent.rs: the routes of a listener, and under each
-- hostname key their matches in the order in which a request tries them. A lookup that the source
-- marks "corrupted state" panics.
pub mod Order
pub mod Invariant
pub mod Entries
pub mod Insert
pub mod Remove
pub mod Lookup
pub mod Reinsert
pub mod Tests
use mathlib.Core.Option
use Prim.Native.Nat.{compare, Ordering}
use agentproxy.Prelude.{
  ℕ, zero, suc, ◌+◌, Bool, true, false, not, Option, none, some, List, [], ◌∷◌, ◌++◌, if◌then◌else◌,
  nat_beq, length, get_elem?, take, drop, retain, is_empty, is_some, Str, str_eq, ◌==◌, str_cmp,
}
use agentproxy.Prelude.Map.{Map, get, insert, remove, contains}
use agentproxy.Prelude.Ordering.{reverse_order}
use agentproxy.Prelude.Search.{binary_search}
use agentproxy.Prelude.Sorted.{insert_at}
use agentproxy.Hostname.{HostnameMatch, hostname_eq}
use agentproxy.Route.{Route, RouteMatch, hostname_matchers, get_path_rank, get_path_length}

pub record SingleRouteMatch : Type 0 where
  pub key : Str
  pub index : ℕ

pub record RouteSet : Type 0 where
  pub inner : Map HostnameMatch (List SingleRouteMatch)
  pub all : Map Str Route

abbrev pub empty : RouteSet
empty = record { inner = []; all = [] }

abbrev bool_rank : Bool → ℕ
bool_rank false = 0
bool_rank true = 1

abbrev descending : ℕ → ℕ → Ordering
descending a b = reverse_order (compare a b)

unfoldable pub compare_route : RouteMatch × Str → RouteMatch × Str → Ordering
unfolding get_path_rank get_path_length
compare_route (a, a_key) (b, b_key) =
    if not (nat_beq (get_path_rank a.path) (get_path_rank b.path))
    then descending (get_path_rank a.path) (get_path_rank b.path)
    else if not (nat_beq (get_path_length a.path) (get_path_length b.path))
    then descending (get_path_length a.path) (get_path_length b.path)
    else if not (nat_beq (bool_rank (is_some a.method)) (bool_rank (is_some b.method)))
    then descending (bool_rank (is_some a.method)) (bool_rank (is_some b.method))
    else if not (nat_beq (length a.headers) (length b.headers))
    then descending (length a.headers) (length b.headers)
    else if not (nat_beq (length a.query) (length b.query))
    then descending (length a.query) (length b.query)
    else str_cmp a_key b_key

-- The match that an entry stands for; `none` is the panic of a corrupted state.
unfoldable pub entry_match : Map Str Route → SingleRouteMatch → Option RouteMatch
unfolding get
entry_match routes e = elim (get e.key routes) [
  | none ↦ none
  | some r ↦ get_elem? r.matches e.index
]

-- How entry `i` compares with the match that is looked for.
pub probe_entry : Map Str Route → List SingleRouteMatch → RouteMatch × Str → ℕ → Option Ordering
unfolding entry_match
probe_entry routes v new i = elim (get_elem? v i) [
  | none ↦ none
  | some existing ↦ elim (entry_match routes existing) [
    | none ↦ none
    | some have ↦ some (reverse_order (compare_route new (have, existing.key)))
  ]
]

-- The inner loop of `insert`, over the matches from number `idx` on.
pub insert_matches :
    Map Str Route
    → (key : Str) → List RouteMatch
    → (idx : ℕ) → List SingleRouteMatch
    → Option (List SingleRouteMatch)
unfolding probe_entry
insert_matches routes key [] idx v = some v
insert_matches routes key (m ∷ ms) idx v =
    elim (binary_search (probe_entry routes v (m, key)) (length v)) [
      | none ↦ none
      | some place ↦
          insert_matches routes key ms (suc idx)
            (insert_at place (record { key = key; index = idx }) v)
    ]

abbrev pub or_default {ℓ} : {A : Type ℓ} → Option (List A) → List A
or_default none = []
or_default (some l) = l

-- The outer loop of `insert`, over the hostname keys.
pub insert_hosts :
    Map Str Route
    → Route
    → List HostnameMatch
    → Map HostnameMatch (List SingleRouteMatch)
    → Option (Map HostnameMatch (List SingleRouteMatch))
unfolding insert_matches
insert_hosts routes r [] inner = some inner
insert_hosts routes r (hm ∷ hms) inner =
    elim (insert_matches routes r.key r.matches 0 (or_default (get hm inner))) [
      | none ↦ none
      | some v ↦ insert_hosts routes r hms (insert hm v inner)
    ]

-- `RouteSet::insert`; `none` is a panic.
unfoldable pub insert_route : Route → RouteSet → Option RouteSet
unfolding insert_hosts insert hostname_matchers
insert_route r s =
    let all = insert r.key r s.all in
    elim (insert_hosts all r (hostname_matchers r) s.inner) [
      | none ↦ none
      | some inner ↦ some (record { inner = inner; all = all })
    ]

-- `RouteSet::from_list`.
insert_all : List Route → RouteSet → Option RouteSet
unfolding insert_route
insert_all [] s = some s
insert_all (r ∷ rs) s = elim (insert_route r s) [ none ↦ none | some s' ↦ insert_all rs s' ]

unfoldable pub from_list : List Route → Option RouteSet
unfolding insert_all
from_list l = insert_all l empty

-- One round of the loop of `remove`: an entry that becomes empty is taken out.
pub remove_host :
    Str
    → HostnameMatch
    → Map HostnameMatch (List SingleRouteMatch)
    → Map HostnameMatch (List SingleRouteMatch)
unfolding get insert remove
remove_host key hm inner = elim (get hm inner) [
  | none ↦ inner
  | some v ↦
      let kept = retain (λ e. not (e.key == key)) v in
      if is_empty kept then remove hm inner else insert hm kept inner
]

pub remove_hosts :
    Str
    → List HostnameMatch
    → Map HostnameMatch (List SingleRouteMatch)
    → Map HostnameMatch (List SingleRouteMatch)
unfolding remove_host
remove_hosts key [] inner = inner
remove_hosts key (hm ∷ hms) inner = remove_hosts key hms (remove_host key hm inner)

-- `RouteSet::remove`.
unfoldable pub remove_route : Str → RouteSet → RouteSet
unfolding remove_hosts hostname_matchers
remove_route key s = elim (get key s.all) [
  | none ↦ s
  | some old ↦ record {
    inner = remove_hosts key (hostname_matchers old) s.inner;
    all = remove key s.all;
  }
]

unfoldable pub contains_route : Str → RouteSet → Bool
unfolding contains
contains_route key s = contains key s.all

unfoldable pub is_empty_set : RouteSet → Bool
is_empty_set s = is_empty s.inner

-- `get_hostname` is a lazy iterator: an entry with no route is passed over, and `none` is an entry
-- at which it panics if it gets there.
pub candidates : Map Str Route → List SingleRouteMatch → List (Option (Route × RouteMatch))
unfolding get
candidates routes [] = []
candidates routes (e ∷ es) =
    let rest = candidates routes es in
    elim (get e.key routes) [
      | none ↦ rest
      | some r ↦ Option.map (λ m. (r, m)) (get_elem? r.matches e.index) ∷ rest
    ]

unfoldable pub get_hostname : HostnameMatch → RouteSet → List (Option (Route × RouteMatch))
unfolding candidates
get_hostname hm s = candidates s.all (or_default (get hm s.inner))
