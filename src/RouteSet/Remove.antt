-- ===== src/RouteSet/Remove.antt =====
-- Removing a route takes out its entries and no others, and keeps the set in order.
use agentproxy.Prelude.{
  ℕ, ◌<◌, ◌≡◌, refl, sym, ap, ◌∙◌, subst, inl, inr, arith, Bool, true, false, not, none, some, List,
  [], ◌∷◌, length, retain, if◌then◌else◌, All, In, Str, str_eq, ◌==◌, ==_iff, ==_eq, Option-cases,
  Bool-cases,
}
use agentproxy.Prelude.Map.{Map, get, remove, get-insert, get-remove, member}
use agentproxy.Prelude.Sorted.{some_injective}
use agentproxy.Hostname.{HostnameMatch, hostname_eq}
use agentproxy.Route.{Route, hostname_matchers}
use agentproxy.RouteSet.{
  SingleRouteMatch, RouteSet, compare_route, entry_match, remove_host, remove_hosts, remove_route,
  or_default,
}
use agentproxy.RouteSet.Order.{Keyed}
use agentproxy.RouteSet.Invariant.{IsLive, Resolved, IsOrdered, IsValid, entry}
use agentproxy.RouteSet.Insert.{In-default}
use agentproxy.Prelude.Retain.{Sorted-retain, retain_twice, In-retain}

abbrev pub is_other : Str → SingleRouteMatch → Bool
is_other key e = not (e.key == key)

abbrev pub without : Str → List SingleRouteMatch → List SingleRouteMatch
without key v = retain (is_other key) v

remove_host_entries :
    (key : Str) (h hm : HostnameMatch) (inner : Map HostnameMatch (List SingleRouteMatch))
    → or_default (get hm (remove_host key h inner))
      ≡ (if h == hm then without key (or_default (get hm inner)) else or_default (get hm inner))
unfolding remove_host
remove_host_entries key h hm inner = elim (Bool-cases (h == hm)) [
  | inl same ↦ elim (Option-cases (get h inner)) [
    | inl missing ↦ ground (arith, ==_eq h hm same)
    | inr (v, e) ↦
        ground
          (arith, ==_eq h hm same, get-remove h hm inner, get-insert h hm (without key v) inner)
  ]
  | inr other ↦ elim (Option-cases (get h inner)) [
    | inl missing ↦ ground arith
    | inr (v, e) ↦ ground (arith, get-remove h hm inner, get-insert h hm (without key v) inner)
  ]
]

remove_hosts_entries :
    (key : Str) (hms : List HostnameMatch) (hm : HostnameMatch)
    (inner : Map HostnameMatch (List SingleRouteMatch))
    → or_default (get hm (remove_hosts key hms inner)) ≡ (
        if member hm hms
        then without key (or_default (get hm inner))
        else or_default (get hm inner))
unfolding remove_hosts member
remove_hosts_entries key [] hm inner = refl
remove_hosts_entries key (h ∷ hms) hm inner = ground (
  arith,
  remove_hosts_entries key hms hm (remove_host key h inner),
  remove_host_entries key h hm inner,
  retain_twice (is_other key) (or_default (get hm inner)),
  ==_iff h hm,
  ==_iff hm h,
)

In-member : (hm : HostnameMatch) (hms : List HostnameMatch) → In hm hms → member hm hms ≡ true
unfolding member
In-member hm [] i = absurd i
In-member hm (h ∷ hms) (inl e) = ground (arith, ==_iff h hm)
In-member hm (h ∷ hms) (inr i) = ground (arith, In-member hm hms i)

-- An entry of another key stands for the same match without the route.
entry_match-remove :
    (key : Str) (routes : Map Str Route) (e : SingleRouteMatch)
    → (e.key == key) ≡ false
    → entry_match (remove key routes) e ≡ entry_match routes e
unfolding entry_match
entry_match-remove key routes e other =
    ground (arith, get-remove key e.key routes, ==_iff key e.key, ==_iff e.key key)

Resolved-retain :
    (key : Str) (routes : Map Str Route) (v : List SingleRouteMatch) (ks : List Keyed)
    → Resolved routes v ks
    → Resolved (remove key routes) (without key v) (retain (λ k. not (k.1 == key)) ks)
Resolved-retain key routes [] [] h = tt
Resolved-retain key routes [] (k ∷ ks) h = absurd h
Resolved-retain key routes (e ∷ es) [] h = absurd h
Resolved-retain key routes (e ∷ es) (k ∷ ks) (m, j, h) = elim (Bool-cases (e.key == key)) [
  | inl same ↦
      let f : (k.1 == key) ≡ true = subst (λ x. (x == key) ≡ true) j same in
      rw (same, f) (Resolved-retain key routes es ks h)
  | inr other ↦
      let f : (k.1 == key) ≡ false = subst (λ x. (x == key) ≡ false) j other in
      rw (other, f)
        (entry_match-remove key routes e other ∙ m, j, Resolved-retain key routes es ks h)
]

IsLive-retain :
    (key : Str) (routes : Map Str Route) (hm : HostnameMatch) (v : List SingleRouteMatch)
    → All (IsLive routes hm) v
    → All (IsLive (remove key routes) hm) (without key v)
IsLive-retain key routes hm [] h = tt
IsLive-retain key routes hm (e ∷ es) ((r, f, i, j), hs) = elim (Bool-cases (e.key == key)) [
  | inl same ↦ rw same (IsLive-retain key routes hm es hs)
  | inr other ↦ rw other ((r, still other, i, j), IsLive-retain key routes hm es hs)
]
  where
    still : (e.key == key) ≡ false → get e.key (remove key routes) ≡ some r
    still other = ground (arith, get-remove key e.key routes, ==_iff key e.key, ==_iff e.key key)

IsOrdered-retain :
    (key : Str) (routes : Map Str Route) (hm : HostnameMatch) (v : List SingleRouteMatch)
    → IsOrdered routes hm v
    → IsOrdered (remove key routes) hm (without key v)
IsOrdered-retain key routes hm v o = record {
  matches = retain (λ k. not (k.1 == key)) o.matches;
  resolved = Resolved-retain key routes v o.matches o.resolved;
  sorted = Sorted-retain (λ k. not (k.1 == key)) compare_route o.matches o.sorted;
  live = IsLive-retain key routes hm v o.live;
}

-- Under a hostname key that the route does not name, or if there is no route, no entry has the key.
without_none :
    (key : Str) (routes : Map Str Route) (hm : HostnameMatch) (v : List SingleRouteMatch)
    → All (IsLive routes hm) v
    → ((r : Route) → get key routes ≡ some r → member hm (hostname_matchers r) ≡ false)
    → without key v ≡ v
without_none key routes hm [] h out_of = refl
without_none key routes hm (e ∷ es) ((r, f, i, j), hs) out_of = elim (Bool-cases (e.key == key)) [
  | inl same ↦
      let here : get key routes ≡ some r =
        subst (λ k. get k routes ≡ some r) (==_eq e.key key same) f in
      let named = In-member hm (hostname_matchers r) j in let out = out_of r here in absurd (cc)
  | inr other ↦ rw (other, without_none key routes hm es hs out_of)
]

default-IsLive :
    (s : RouteSet) (hm : HostnameMatch)
    → IsValid s
    → All (IsLive s.all hm) (or_default (get hm s.inner))
default-IsLive s hm v = elim (Option-cases (get hm s.inner)) [
  | inl missing ↦ rw missing tt
  | inr (w, e) ↦ rw e ((v.ordered hm w e).live)
]

remove_route_missing : (key : Str) (s : RouteSet) → get key s.all ≡ none → remove_route key s ≡ s
unfolding remove_route
remove_route_missing key s e = ground arith

remove_route_found :
    (key : Str) (s : RouteSet) (old : Route)
    → get key s.all ≡ some old
    → remove_route key s
      ≡ record { inner = remove_hosts key (hostname_matchers old) s.inner; all = remove key s.all }
unfolding remove_route
remove_route_found key s old e = ground arith

entries_missing :
    (key : Str) (s : RouteSet) (hm : HostnameMatch)
    → IsValid s
    → get key s.all ≡ none
    → or_default (get hm s.inner) ≡ without key (or_default (get hm s.inner))
entries_missing key s hm v e = sym (
    without_none key s.all hm (or_default (get hm s.inner)) (default-IsLive s hm v)
      (λ r f. absurd (cc)))

entries_found :
    (key : Str) (s : RouteSet) (old : Route) (hm : HostnameMatch)
    → IsValid s
    → get key s.all ≡ some old
    → or_default (get hm (remove_hosts key (hostname_matchers old) s.inner))
      ≡ without key (or_default (get hm s.inner))
entries_found key s old hm v e =
    let given = remove_hosts_entries key (hostname_matchers old) hm s.inner in
    elim (Bool-cases (member hm (hostname_matchers old))) [
      | inl named ↦ ground arith
      | inr other ↦ ground (
        arith,
        without_none key s.all hm (or_default (get hm s.inner)) (default-IsLive s hm v) (λ r f.
            subst (λ x. member hm (hostname_matchers x) ≡ false) (some_injective (sym e ∙ f))
              other),
      )
    ]

-- What stays after the removal of a route that the set has.
module _ (key : Str) (s : RouteSet) (old : Route) (v : IsValid s)
    (e : get key s.all ≡ some old) where
  abbrev left : Map HostnameMatch (List SingleRouteMatch)
  left = remove_hosts key (hostname_matchers old) s.inner

  -- A route that is left is an old one with another key.
  left_old :
      (k : Str) (r : Route)
      → get k (remove key s.all) ≡ some r
      → (get k s.all ≡ some r) × ((k == key) ≡ false)
  left_old k r h = ground (arith, get-remove key k s.all, ==_iff key k, ==_iff k key)

  left-IsOrdered :
      (hm : HostnameMatch) (w : List SingleRouteMatch)
      → get hm left ≡ some w
      → IsOrdered (remove key s.all) hm w
  left-IsOrdered hm w h =
      subst (λ x. IsOrdered (remove key s.all) hm x)
        (sym (entries_found key s old hm v e) ∙ ap or_default h)
        (elim (Option-cases (get hm s.inner)) [
          | inl missing ↦
              rw missing (record { matches = []; resolved = tt; sorted = tt; live = tt })
          | inr (u, f) ↦ rw f (IsOrdered-retain key s.all hm u (v.ordered hm u f))
        ])

  left_complete :
      (k : Str) (r : Route) (hm : HostnameMatch) (i : ℕ)
      → get k (remove key s.all) ≡ some r
      → In hm (hostname_matchers r)
      → i < length r.matches
      → (w : List SingleRouteMatch) × (get hm left ≡ some w) × In (entry k i) w
  left_complete k r hm i h named inside =
      let (had, other) = left_old k r h in
      let (u, f, j) = v.complete k r hm i had named inside in
      let here : In (entry k i) (or_default (get hm s.inner)) = rw f j in
      In-default (entry k i) (get hm left) (
        rw (entries_found key s old hm v e)
          (In-retain (is_other key) (entry k i) (or_default (get hm s.inner)) (rw other) here))

  left-IsValid : IsValid (record { inner = left; all = remove key s.all })
  left-IsValid = record {
    keyed = λ k r h. v.keyed k r (left_old k r h).0;
    ordered = left-IsOrdered;
    complete = left_complete;
  }

-- Removing a key from a valid set keeps the set valid. The set then has no route of the key, and
-- under each hostname key just the entries of other keys, in their old order.
pub remove_route-IsValid :
    (key : Str) (s : RouteSet)
    → IsValid s
    → IsValid (remove_route key s)
      × ((k : Str) → get k (remove_route key s).all ≡ (if key == k then none else get k s.all))
      × ((hm : HostnameMatch)
          → or_default (get hm (remove_route key s).inner)
            ≡ without key (or_default (get hm s.inner)))
remove_route-IsValid key s v = elim (Option-cases (get key s.all)) [
  | inl missing ↦
      rw (remove_route_missing key s missing)
        (v, (λ k. ground (arith, ==_iff key k)), λ hm. entries_missing key s hm v missing)
  | inr (old, e) ↦ rw (remove_route_found key s old e) (
    left-IsValid key s old v e,
    (λ k. get-remove key k s.all),
    λ hm. entries_found key s old hm v e,
  )
]
