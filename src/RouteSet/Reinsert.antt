-- ===== src/RouteSet/Reinsert.antt =====
-- What happens when a route is put in twice.
use mathlib.Core.Option
use agentproxy.Prelude.{
  ℕ, zero, suc, ◌≤◌, ◌<◌, ◌≡◌, refl, sym, subst, ◌⊎◌, inl, inr, arith, Option, none, some, List, [],
  ◌∷◌, length, get_elem?, In, Str, str_eq, ◌==◌, ==_refl, ==_eq, Option-cases, Bool-cases,
}
use agentproxy.Prelude.Map.{Map, get, insert, get-insert}
use agentproxy.Prelude.Search.{binary_search}
use agentproxy.Prelude.Sorted.{insert_at, In-insert_at_old, some_injective}
use agentproxy.Hostname.{HostnameMatch, hostname_eq}
use agentproxy.Route.{Route, RouteMatch, hostname_matchers}
use agentproxy.RouteSet.{
  SingleRouteMatch, RouteSet, probe_entry, insert_matches, insert_hosts, insert_route, candidates,
  get_hostname, or_default,
}
use agentproxy.RouteSet.Invariant.{IsValid, entry}

-- Where the route of a key is put in again.
module _ (routes : Map Str Route) (r : Route) where
  insert_matches-keeps :
      (e : SingleRouteMatch) (key : Str) (ms : List RouteMatch) (idx : ℕ)
      (v w : List SingleRouteMatch)
      → insert_matches routes key ms idx v ≡ some w
      → In e v
      → In e w
  unfolding insert_matches
  insert_matches-keeps e key [] idx v w h j = subst (In e) (some_injective h) j
  insert_matches-keeps e key (m ∷ ms) idx v w h j =
      elim (Option-cases (binary_search (probe_entry routes v (m, key)) (length v))) [
        | inl panicked ↦ absurd (ground arith)
        | inr (p, f) ↦
            insert_matches-keeps e key ms (suc idx) (insert_at p (entry key idx) v) w (ground arith)
              (In-insert_at_old p (entry key idx) e v j)
      ]

  insert_hosts-keeps :
      (e : SingleRouteMatch) (hm : HostnameMatch) (hms : List HostnameMatch)
      (before after : Map HostnameMatch (List SingleRouteMatch))
      → insert_hosts routes r hms before ≡ some after
      → In e (or_default (get hm before))
      → In e (or_default (get hm after))
  unfolding insert_hosts
  insert_hosts-keeps e hm [] before after h j =
      subst (λ i. In e (or_default (get hm i))) (some_injective h) j
  insert_hosts-keeps e hm (k ∷ hms) before after h j =
      elim (Option-cases (insert_matches routes r.key r.matches 0 (or_default (get k before)))) [
        | inl panicked ↦ absurd (ground arith)
        | inr (v, f) ↦
            insert_hosts-keeps e hm hms (insert k v before) after (ground arith) (still v f)
      ]
    where
      still :
          (v : List SingleRouteMatch)
          → insert_matches routes r.key r.matches 0 (or_default (get k before)) ≡ some v
          → In e (or_default (get hm (insert k v before)))
      still v f = elim (Bool-cases (k == hm)) [
        | inl same ↦
            rw (get-insert k hm v before, same)
              (insert_matches-keeps e r.key r.matches 0 (or_default (get k before)) v f
                (subst (λ x. In e (or_default (get x before))) (sym (==_eq k hm same)) j))
        | inr other ↦ rw (get-insert k hm v before, other) j
      ]

candidates-none :
    (routes : Map Str Route) (r : Route) (e : SingleRouteMatch) (es : List SingleRouteMatch)
    → get e.key routes ≡ some r
    → get_elem? r.matches e.index ≡ none
    → candidates routes (e ∷ es) ≡ none ∷ candidates routes es
unfolding candidates
candidates-none routes r e es f g = ground arith

candidates_later :
    (routes : Map Str Route) (e : SingleRouteMatch) (es : List SingleRouteMatch)
    (c : Option (Route × RouteMatch))
    → In c (candidates routes es)
    → In c (candidates routes (e ∷ es))
unfolding candidates
candidates_later routes e es c j = elim (Option-cases (get e.key routes)) [
  | inl missing ↦
      let same : candidates routes (e ∷ es) ≡ candidates routes es = ground arith in
      subst (In c) (sym same) j
  | inr (y, h) ↦
      let more : candidates routes (e ∷ es)
          ≡ Option.map (λ m. (y, m)) (get_elem? y.matches e.index) ∷ candidates routes es =
        ground arith in
      subst (In c) (sym more) (inr j)
]

-- An entry whose match is gone makes the iterator panic when it gets there.
candidates-panics :
    (routes : Map Str Route) (r : Route) (e : SingleRouteMatch) (es : List SingleRouteMatch)
    → get e.key routes ≡ some r
    → get_elem? r.matches e.index ≡ none
    → In e es
    → In none (candidates routes es)
unfolding candidates
candidates-panics routes r e [] f g j = absurd j
candidates-panics routes r e (x ∷ xs) f g (inl same) =
    subst (In none) (sym (candidates-none routes r x xs (ground arith) (ground arith))) (inl refl)
candidates-panics routes r e (x ∷ xs) f g (inr later) =
    candidates_later routes x xs none (candidates-panics routes r e xs f g later)

get_elem?-none : {A : Type 0} (l : List A) (i : ℕ) → length l ≤ i → get_elem? l i ≡ none
get_elem?-none [] i h = refl
get_elem?-none (x ∷ xs) zero h = absurd (omega arith)
get_elem?-none (x ∷ xs) (suc i) h = get_elem?-none xs i (omega arith)

-- A route of a valid set is put in again under its key, now with fewer matches. Either this panics,
-- or the set that it gives panics at each lookup under a hostname key of the old route that goes
-- far enough: the entry of a match that is gone is still there.
pub reinsert_panics :
    (s : RouteSet) (old new : Route) (hm : HostnameMatch)
    → IsValid s
    → get new.key s.all ≡ some old
    → In hm (hostname_matchers old)
    → length new.matches < length old.matches
    → (insert_route new s ≡ none)
      ⊎ ((t : RouteSet) × (insert_route new s ≡ some t) × In none (get_hostname hm t))
unfolding insert_route get_hostname
reinsert_panics s old new hm v had named fewer =
    let routes = insert new.key new s.all in
    let last = length new.matches in
    let (w, f, j) = v.complete new.key old hm last had named fewer in
    elim (Option-cases (insert_hosts routes new (hostname_matchers new) s.inner)) [
      | inl panicked ↦ inl (ground arith)
      | inr (after, g) ↦ inr (
        record { inner = after; all = routes },
        ground (arith, g),
        candidates-panics routes new (entry new.key last) (or_default (get hm after))
            (ground (arith, get-insert new.key new.key new s.all, ==_refl new.key))
            (get_elem?-none new.matches last (omega arith))
            (insert_hosts-keeps routes new (entry new.key last) hm (hostname_matchers new) s.inner
              after g (rw f j)),
      )
    ]
