-- ===== src/RouteSet/Lookup.antt =====
-- What `RouteSet::get_hostname` gives.
use agentproxy.Prelude.{
  ℕ, ◌≡◌, refl, sym, ap, ◌∙◌, subst, ◌↔◌, inl, inr, arith, some, List, [], ◌∷◌, map, get_elem?, All,
  In, Str, str_eq, Option-cases,
}
use agentproxy.Prelude.Map.{Map, get}
use agentproxy.Prelude.Sorted.{Sorted, get_elem?_lt, get_elem?-some, some_injective}
use agentproxy.Hostname.{HostnameMatch, hostname_eq}
use agentproxy.Route.{Route, RouteMatch, hostname_matchers}
use agentproxy.RouteSet.{
  SingleRouteMatch, RouteSet, compare_route, entry_match, candidates, get_hostname, or_default,
}
use agentproxy.RouteSet.Order.{Keyed}
use agentproxy.RouteSet.Invariant.{IsLive, Resolved, IsOrdered, IsValid, entry}

-- A match of a route of the set that has the hostname key.
abbrev pub Serves : RouteSet → HostnameMatch → Route × RouteMatch → Type 0
Serves s hm (r, m) =
    (get r.key s.all ≡ some r)
    × In hm (hostname_matchers r)
    × (i : ℕ) × (get_elem? r.matches i ≡ some m)

abbrev pub keyed_match : Route × RouteMatch → Keyed
keyed_match (r, m) = (m, r.key)

candidates_step :
    (routes : Map Str Route) (e : SingleRouteMatch) (es : List SingleRouteMatch) (r : Route)
    (m : RouteMatch)
    → get e.key routes ≡ some r
    → get_elem? r.matches e.index ≡ some m
    → candidates routes (e ∷ es) ≡ some (r, m) ∷ candidates routes es
unfolding candidates
candidates_step routes e es r m f g = ground arith

entry_match_found :
    (routes : Map Str Route) (e : SingleRouteMatch) (r : Route) (m : RouteMatch)
    → get e.key routes ≡ some r
    → get_elem? r.matches e.index ≡ some m
    → entry_match routes e ≡ some m
unfolding entry_match
entry_match_found routes e r m f g = ground arith

module _ (s : RouteSet) (hm : HostnameMatch) (v : IsValid s) where
  -- The candidates that a list of entries gives.
  abbrev Gives : List SingleRouteMatch → List Keyed → List (Route × RouteMatch) → Type 0
  Gives es ks l =
      (candidates s.all es ≡ map some l)
      × (map keyed_match l ≡ ks)
      × All (Serves s hm) l
      × ((k : Str) (i : ℕ) (r : Route) (m : RouteMatch)
          → In (entry k i) es
          → get k s.all ≡ some r
          → get_elem? r.matches i ≡ some m
          → In (r, m) l)

  candidates-Gives :
      (es : List SingleRouteMatch) (ks : List Keyed)
      → Resolved s.all es ks
      → All (IsLive s.all hm) es
      → (l : List (Route × RouteMatch)) × Gives es ks l
  candidates-Gives [] [] h live = ([], (unfold candidates in refl, refl, tt, λ k i r m j. absurd j))
  candidates-Gives [] (k ∷ ks) h live = absurd h
  candidates-Gives (e ∷ es) [] h live = absurd h
  candidates-Gives (e ∷ es) ((n, j) ∷ ks) (found, same, h) ((r, f, inside, named), lives) =
      let (l, (gives, keys, serves, all)) = candidates-Gives es ks h lives in
      let (m, g) = get_elem?-some r.matches e.index inside in
      let own : r.key ≡ e.key = v.keyed e.key r f in
      let is_n : m ≡ n = some_injective (sym (entry_match_found s.all e r m f g) ∙ found) in
      (
        (r, m) ∷ l,
        (
          candidates_step s.all e es r m f g ∙ ap (λ t. some (r, m) ∷ t) gives,
          cc,
          ((subst (λ k. get k s.all ≡ some r) (sym own) f, named, e.index, g), serves),
          λ k i x y w a b. elim w [
            | inl here ↦
                let same_route : x ≡ r =
                  some_injective
                    (sym a ∙ (ap (λ (z : SingleRouteMatch). get z.key s.all) here ∙ f)) in
                inl (first x y r m e.index k i here same_route b g)
            | inr later ↦ inr (all k i x y later a b)
          ],
        ),
      )
    where
      first :
          (x : Route) (y : RouteMatch) (q : Route) (m : RouteMatch) (index : ℕ) (k : Str) (i : ℕ)
          → entry k i ≡ e
          → x ≡ q
          → get_elem? x.matches i ≡ some y
          → get_elem? q.matches e.index ≡ some m
          → ◌≡◌ {A = Route × RouteMatch} (x, y) (q, m)
      first x y q m index k i here same_route b g =
          let same_index : i ≡ e.index = ap (λ (z : SingleRouteMatch). z.index) here in cc

  matches_under :
      (k : Str) (r : Route) (i : ℕ) (m : RouteMatch)
      → get k s.all ≡ some r
      → In hm (hostname_matchers r)
      → get_elem? r.matches i ≡ some m
      → In (entry k i) (or_default (get hm s.inner))
  matches_under k r i m f named g =
      let (w, h, j) = v.complete k r hm i f named (get_elem?_lt r.matches i m g) in rw h j

  -- In a valid set no lookup panics. It gives just the matches of the set's routes that have the
  -- hostname key, in the order of their precedence.
  pub get_hostname_lem :
      (l : List (Route × RouteMatch)) × (get_hostname hm s ≡ map some l)
      × Sorted compare_route (map keyed_match l)
      × ((r : Route) (m : RouteMatch) → In (r, m) l ↔ Serves s hm (r, m))
  unfolding get_hostname
  get_hostname_lem =
      let o : IsOrdered s.all hm (or_default (get hm s.inner)) =
        elim (Option-cases (get hm s.inner)) [
          | inl missing ↦
              rw missing (record { matches = []; resolved = tt; sorted = tt; live = tt })
          | inr (w, e) ↦ rw e (v.ordered hm w e)
        ] in
      let (l, (gives, keys, serves, all)) =
        candidates-Gives (or_default (get hm s.inner)) o.matches o.resolved o.live in
      (
        l,
        gives,
        rw keys o.sorted,
        λ r m. (
          served l serves r m,
          λ (f, named, i, g). all r.key i r m (matches_under r.key r i m f named g) f g,
        ),
      )
    where
      served :
          (l : List (Route × RouteMatch))
          → All (Serves s hm) l
          → (r : Route) (m : RouteMatch) → In (r, m) l
          → Serves s hm (r, m)
      served [] h r m i = absurd i
      served (x ∷ xs) (h, hs) r m (inl e) = subst (Serves s hm) (sym e) h
      served (x ∷ xs) (h, hs) r m (inr i) = served xs hs r m i
