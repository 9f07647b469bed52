-- ===== src/RouteSet/Entries.antt =====
-- The inner loop of `RouteSet::insert`: the matches of one route under one hostname key.
use agentproxy.Prelude.{
  ℕ, zero, suc, ◌+◌, ◌<◌, ◌≡◌, refl, ◌∙◌, subst, arith, Option, some, List, [], ◌∷◌, length,
  get_elem?, In, Str, str_eq,
}
use mathlib.Core.Path.{fun_ext}
use agentproxy.Prelude.Map.{Map, get}
use agentproxy.Prelude.Search.{binary_search}
use agentproxy.Prelude.Sorted.{
  insert_at, binary_insert-Sorted, All-insert_at, In-insert_at_new, In-insert_at_old, get_elem?_lt,
}
use agentproxy.Hostname.{HostnameMatch, hostname_eq}
use agentproxy.Route.{Route, RouteMatch, hostname_matchers}
use agentproxy.RouteSet.{SingleRouteMatch, compare_route, entry_match, probe_entry, insert_matches}
use agentproxy.RouteSet.Order.{compare_route-IsLawful}
use agentproxy.RouteSet.Invariant.{
  IsLive, IsOrdered, entry, length-Resolved, probe_entry-Resolved, insert_at-Resolved,
}

entry_match_at :
    (routes : Map Str Route) (r : Route) (idx : ℕ)
    → get r.key routes ≡ some r
    → entry_match routes (entry r.key idx) ≡ get_elem? r.matches idx
unfolding entry_match
entry_match_at routes r idx here = ground arith

insert_matches_step :
    (routes : Map Str Route) (key : Str) (m : RouteMatch) (ms : List RouteMatch) (idx p : ℕ)
    (v : List SingleRouteMatch)
    → binary_search (probe_entry routes v (m, key)) (length v) ≡ some p
    → insert_matches routes key (m ∷ ms) idx v
      ≡ insert_matches routes key ms (suc idx) (insert_at p (entry key idx) v)
unfolding insert_matches
insert_matches_step routes key m ms idx p v e = ground arith

-- What holds at `idx` and at the `n` numbers after it.
count_from :
    (idx n : ℕ) (P : ℕ → Type 0)
    → P idx
    → ((i : ℕ) → i < n → P (suc idx + i))
    → (i : ℕ) → i < suc n
    → P (idx + i)
count_from idx n P first later zero h = let e : idx ≡ idx + 0 = omega arith in subst P e first
count_from idx n P first later (suc i) h =
    let e : suc idx + i ≡ idx + suc i = omega arith in subst P e (later i (omega arith))

module _ (routes : Map Str Route) (r : Route) (hm : HostnameMatch)
    (here : get r.key routes ≡ some r) (named : In hm (hostname_matchers r)) where
  -- What the inner loop gives for the matches from number `idx` on.
  abbrev pub Inserts :
      (idx count : ℕ) → (v : List SingleRouteMatch) → Option (List SingleRouteMatch) → Type 0
  Inserts idx count v o =
      (v' : List SingleRouteMatch) × (o ≡ some v')
      × IsOrdered routes hm v'
      × ((e : SingleRouteMatch) → In e v → In e v')
      × ((i : ℕ) → i < count → In (entry r.key (idx + i)) v')

  one_more :
      (idx : ℕ) (m : RouteMatch) (v : List SingleRouteMatch)
      → get_elem? r.matches idx ≡ some m
      → idx < length r.matches
      → IsOrdered routes hm v
      → (p : ℕ) × (binary_search (probe_entry routes v (m, r.key)) (length v) ≡ some p)
        × IsOrdered routes hm (insert_at p (entry r.key idx) v)
  one_more idx m v found inside o =
      let (p, e, s) =
        binary_insert-Sorted compare_route compare_route-IsLawful (m, r.key) o.matches o.sorted in
      let same = fun_ext (λ i. probe_entry-Resolved routes v o.matches (m, r.key) i o.resolved) in
      (
        p,
        rw (same, length-Resolved routes v o.matches o.resolved) e,
        record {
          matches = insert_at p (m, r.key) o.matches;
          resolved =
              insert_at-Resolved routes p (entry r.key idx) (m, r.key) v o.matches
                (entry_match_at routes r idx here ∙ found) refl o.resolved;
          sorted = s;
          live =
              All-insert_at (IsLive routes hm) p (entry r.key idx) v (r, here, inside, named)
                o.live;
        },
      )

  pub insert_matches-Inserts :
      (ms : List RouteMatch) (idx : ℕ) (v : List SingleRouteMatch)
      → ((i : ℕ) (m : RouteMatch)
          → get_elem? ms i ≡ some m
          → get_elem? r.matches (idx + i) ≡ some m)
      → IsOrdered routes hm v
      → Inserts idx (length ms) v (insert_matches routes r.key ms idx v)
  unfolding insert_matches
  insert_matches-Inserts [] idx v at o = (v, refl, o, λ e h. h, λ i h. absurd (omega arith))
  insert_matches-Inserts (m ∷ ms) idx v at o =
      let e0 : idx + 0 ≡ idx = omega arith in
      let found = subst (λ n. get_elem? r.matches n ≡ some m) e0 (at 0 m refl) in
      let (p, e, o') = one_more idx m v found (get_elem?_lt r.matches idx m found) o in
      let w = insert_at p (entry r.key idx) v in
      let (v', f, o'', keep, new) =
        insert_matches-Inserts ms (suc idx) w (λ i n h. shifted i n (at (suc i) n h)) o' in
      (
        v',
        insert_matches_step routes r.key m ms idx p v e ∙ f,
        o'',
        λ x h. keep x (In-insert_at_old p (entry r.key idx) x v h),
        count_from idx (length ms) (λ n. In (entry r.key n) v')
            (keep (entry r.key idx) (In-insert_at_new p (entry r.key idx) v)) new,
      )
    where
      shifted :
          (i : ℕ) (n : RouteMatch)
          → get_elem? r.matches (idx + suc i) ≡ some n
          → get_elem? r.matches (suc idx + i) ≡ some n
      shifted i n h =
          let e : idx + suc i ≡ suc idx + i = omega arith in
          subst (λ k. get_elem? r.matches k ≡ some n) e h
