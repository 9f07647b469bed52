-- ===== src/RouteSet/Invariant.antt =====
-- When a route set is in order: what its invariant says, and when its parts keep it.
use agentproxy.Prelude.{
  ℕ, zero, suc, ◌<◌, ◌≡◌, refl, inl, inr, arith, none, some, List, [], ◌∷◌, length, All, In, Str,
  str_eq, ==_iff, Option-cases,
}
use agentproxy.Prelude.Map.{Map, get, insert, get-insert}
use agentproxy.Prelude.Sorted.{Sorted, insert_at, probe_of}
use agentproxy.Hostname.{HostnameMatch, hostname_eq}
use agentproxy.Route.{Route, RouteMatch, hostname_matchers}
use agentproxy.RouteSet.{SingleRouteMatch, RouteSet, compare_route, entry_match, probe_entry}
use agentproxy.RouteSet.Order.{Keyed}

-- An entry under a hostname key stands for a match of a route that has the key.
abbrev pub IsLive : Map Str Route → HostnameMatch → SingleRouteMatch → Type 0
IsLive routes hm e =
    (r : Route) × (get e.key routes ≡ some r)
    × (e.index < length r.matches)
    × In hm (hostname_matchers r)

-- The matches that the entries stand for, each with its route's key.
abbrev pub Resolved : Map Str Route → List SingleRouteMatch → List Keyed → Type 0
Resolved routes [] [] = Unit
Resolved routes [] (k ∷ ks) = ⊥
Resolved routes (e ∷ es) [] = ⊥
Resolved routes (e ∷ es) (k ∷ ks) =
    (entry_match routes e ≡ some k.0) × (e.key ≡ k.1) × Resolved routes es ks

-- The entries under a hostname key are live, and in the order of their precedence.
pub record IsOrdered (routes : Map Str Route) (hm : HostnameMatch) (v : List SingleRouteMatch)
    : Type 0 where
  pub matches : List Keyed
  pub resolved : Resolved routes v matches
  pub sorted : Sorted compare_route matches
  pub live : All (IsLive routes hm) v

abbrev pub entry : Str → ℕ → SingleRouteMatch
entry key index = record { key = key; index = index }

-- Routes stand under their keys, entries are in order, and each match of each route has an entry
-- under each hostname key of the route.
pub record IsValid (s : RouteSet) : Type 0 where
  pub keyed : (k : Str) (r : Route) → get k s.all ≡ some r → r.key ≡ k
  pub ordered :
      (hm : HostnameMatch) (v : List SingleRouteMatch)
      → get hm s.inner ≡ some v
      → IsOrdered s.all hm v
  pub complete :
      (k : Str) (r : Route) (hm : HostnameMatch) (i : ℕ)
      → get k s.all ≡ some r
      → In hm (hostname_matchers r)
      → i < length r.matches
      → (v : List SingleRouteMatch) × (get hm s.inner ≡ some v) × In (entry k i) v

abbrev pub Extends : Map Str Route → Map Str Route → Type 0
Extends routes more = (k : Str) (r : Route) → get k routes ≡ some r → get k more ≡ some r

pub Extends-insert :
    (routes : Map Str Route) (key : Str) (r : Route)
    → get key routes ≡ none
    → Extends routes (insert key r routes)
Extends-insert routes key r fresh k x h = ground (arith, get-insert key k r routes, ==_iff key k)

entry_match-Extends :
    (routes more : Map Str Route) (e : SingleRouteMatch) (m : RouteMatch)
    → Extends routes more
    → entry_match routes e ≡ some m
    → entry_match more e ≡ some m
unfolding entry_match
entry_match-Extends routes more e m x h = elim (Option-cases (get e.key routes)) [
  | inl missing ↦ ground arith
  | inr (r, f) ↦ ground (arith, x e.key r f)
]

Resolved-Extends :
    (routes more : Map Str Route) (v : List SingleRouteMatch) (ks : List Keyed)
    → Extends routes more
    → Resolved routes v ks
    → Resolved more v ks
Resolved-Extends routes more [] [] x h = tt
Resolved-Extends routes more [] (k ∷ ks) x h = h
Resolved-Extends routes more (e ∷ es) [] x h = h
Resolved-Extends routes more (e ∷ es) (k ∷ ks) x (h, i, j) =
    (entry_match-Extends routes more e k.0 x h, i, Resolved-Extends routes more es ks x j)

All-IsLive-Extends :
    (routes more : Map Str Route) (hm : HostnameMatch) (v : List SingleRouteMatch)
    → Extends routes more
    → All (IsLive routes hm) v
    → All (IsLive more hm) v
All-IsLive-Extends routes more hm [] x h = tt
All-IsLive-Extends routes more hm (e ∷ es) x ((r, f, i, j), hs) =
    ((r, x e.key r f, i, j), All-IsLive-Extends routes more hm es x hs)

-- More routes leave the entries in order.
pub IsOrdered-Extends :
    (routes more : Map Str Route) (hm : HostnameMatch) (v : List SingleRouteMatch)
    → Extends routes more
    → IsOrdered routes hm v
    → IsOrdered more hm v
IsOrdered-Extends routes more hm v x o = record {
  matches = o.matches;
  resolved = Resolved-Extends routes more v o.matches x o.resolved;
  sorted = o.sorted;
  live = All-IsLive-Extends routes more hm v x o.live;
}

pub length-Resolved :
    (routes : Map Str Route) (v : List SingleRouteMatch) (ks : List Keyed)
    → Resolved routes v ks
    → length v ≡ length ks
length-Resolved routes [] [] h = refl
length-Resolved routes [] (k ∷ ks) h = absurd h
length-Resolved routes (e ∷ es) [] h = absurd h
length-Resolved routes (e ∷ es) (k ∷ ks) (_, _, h) = omega (arith, length-Resolved routes es ks h)

-- A probe of the entries is a probe of the matches that they stand for.
pub probe_entry-Resolved :
    (routes : Map Str Route) (v : List SingleRouteMatch) (ks : List Keyed) (new : Keyed) (i : ℕ)
    → Resolved routes v ks
    → probe_entry routes v new i ≡ probe_of compare_route new ks i
unfolding probe_entry
probe_entry-Resolved routes [] [] new i h = refl
probe_entry-Resolved routes [] (k ∷ ks) new i h = absurd h
probe_entry-Resolved routes (e ∷ es) [] new i h = absurd h
probe_entry-Resolved routes (e ∷ es) ((m, k) ∷ ks) new zero (h, j, hs) = ground arith
probe_entry-Resolved routes (e ∷ es) (k ∷ ks) new (suc i) (h, j, hs) =
    probe_entry-Resolved routes es ks new i hs

pub insert_at-Resolved :
    (routes : Map Str Route) (p : ℕ) (e : SingleRouteMatch) (k : Keyed) (v : List SingleRouteMatch)
    (ks : List Keyed)
    → entry_match routes e ≡ some k.0
    → e.key ≡ k.1
    → Resolved routes v ks
    → Resolved routes (insert_at p e v) (insert_at p k ks)
insert_at-Resolved routes zero e k v ks a b h = (a, b, h)
insert_at-Resolved routes (suc p) e k [] [] a b h = (a, b, h)
insert_at-Resolved routes (suc p) e k [] (j ∷ ks) a b h = absurd h
insert_at-Resolved routes (suc p) e k (f ∷ es) [] a b h = absurd h
insert_at-Resolved routes (suc p) e k (f ∷ es) (j ∷ ks) a b (x, y, h) =
    (x, y, insert_at-Resolved routes p e k es ks a b h)
