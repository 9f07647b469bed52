-- ===== src/Listener.antt =====
-- Listeners and `ListenerSet` of crates/agentgateway/src/types/agent.rs. A TLS configuration is kept
-- as its text.
pub mod BestMatch
mod Tests
use Prim.Native.Nat.{compare, Ordering}
use agentproxy.Prelude.{
  ℕ, Bool, true, false, ◌&&◌, Option, none, some, List, [], ◌∷◌, if◌then◌else◌, leb, nat_beq,
  length, drop, find, head?, is_empty, or_else, Str, str_eq, Eq, ◌==◌, codes, starts_with,
  ends_with,
}
use agentproxy.Prelude.Map.{Map, get, insert, remove, contains, values}
use agentproxy.RouteSet.{RouteSet}
use agentproxy.TcpRouteSet.{TcpRouteSet}

pub data ListenerProtocol : Type 0 where
  http tcp hbone : ListenerProtocol
  https tls : Str → ListenerProtocol

pub record Listener : Type 0 where
  pub key : Str
  pub name : Str
  pub gateway_name : Str
  pub hostname : Str
  pub protocol : ListenerProtocol
  pub routes : RouteSet
  pub tcp_routes : TcpRouteSet

abbrev pub ListenerSet : Type 0
ListenerSet = Map Str Listener

unfoldable pub insert_listener : Listener → ListenerSet → ListenerSet
unfolding insert
insert_listener l s = insert l.key l s

insert_all : List Listener → ListenerSet → ListenerSet
unfolding insert_listener
insert_all [] s = s
insert_all (l ∷ ls) s = insert_all ls (insert_listener l s)

unfoldable pub from_list : List Listener → ListenerSet
unfolding insert_all
from_list l = insert_all l []

-- One step of `sorted_by_key(|l| -(l.hostname.len() as i64))`, a stable sort: longer names first.
pub insert_longest : Listener → List Listener → List Listener
insert_longest l [] = l ∷ []
insert_longest l (m ∷ ms) =
    let rest = insert_longest l ms in
    if leb (length m.hostname) (length l.hostname) then l ∷ m ∷ ms else m ∷ rest

pub sort_longest : List Listener → List Listener
unfolding insert_longest
sort_longest [] = []
sort_longest (l ∷ ls) = insert_longest l (sort_longest ls)

abbrev pub star : Str
star = codes "*"

-- `l.hostname.starts_with("*") && host.ends_with(&l.hostname.as_str()[1..])`.
abbrev pub is_suffix_of : Str → Listener → Bool
is_suffix_of host l = starts_with star l.hostname && ends_with (drop 1 l.hostname) host

-- The set's listeners come in the order of the map's entries.
unfoldable pub best_match : ListenerSet → (host : Str) → Option Listener
unfolding sort_longest starts_with ends_with
best_match s host = elim (find (λ l. l.hostname == host) (values s)) [
  | some best ↦ some best
  | none ↦ elim (find (is_suffix_of host) (sort_longest (values s))) [
    | some best ↦ some best
    | none ↦ find (λ l. is_empty l.hostname) (values s)
  ]
]

unfoldable pub contains_listener : Str → ListenerSet → Bool
unfolding contains
contains_listener key s = contains key s

unfoldable pub get_listener : Str → ListenerSet → Option Listener
unfolding get
get_listener key s = get key s

-- `get_exactly_one`; `none` is its error.
unfoldable pub get_exactly_one : ListenerSet → Option Listener
get_exactly_one s = if nat_beq (length s) 1 then head? (values s) else none

unfoldable pub remove_listener : Str → ListenerSet → ListenerSet × Option Listener
unfolding get remove
remove_listener key s = (remove key s, get key s)
