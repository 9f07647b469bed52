-- ===== src/RouteSet/Insert.antt =====
-- Inserting a route under a new key does not panic and keeps the set in order.
use agentproxy.Prelude.{
  ℕ, ◌+◌, ◌<◌, ◌≡◌, refl, sym, ◌∙◌, subst, ◌⊎◌, inl, inr, arith, Option, none, some, List, [], ◌∷◌,
  length, get_elem?, In, Str, str_eq, ◌==◌, ==_eq, ==_refl, Option-cases, Bool-cases,
}
use agentproxy.Prelude.Map.{Map, get, insert, get-insert}
use agentproxy.Prelude.Sorted.{some_injective}
use agentproxy.Hostname.{HostnameMatch, hostname_eq}
use agentproxy.Route.{Route, hostname_matchers}
use agentproxy.RouteSet.{
  SingleRouteMatch, RouteSet, insert_matches, insert_hosts, insert_route, or_default,
}
use agentproxy.RouteSet.Invariant.{IsOrdered, IsValid, entry, Extends-insert, IsOrdered-Extends}
use agentproxy.RouteSet.Entries.{insert_matches-Inserts}

insert_hosts_step :
    (routes : Map Str Route) (r : Route) (hm : HostnameMatch) (hms : List HostnameMatch)
    (inner : Map HostnameMatch (List SingleRouteMatch)) (v : List SingleRouteMatch)
    → insert_matches routes r.key r.matches 0 (or_default (get hm inner)) ≡ some v
    → insert_hosts routes r (hm ∷ hms) inner ≡ insert_hosts routes r hms (insert hm v inner)
unfolding insert_hosts
insert_hosts_step routes r hm hms inner v e = ground arith

insert_at_host :
    (routes : Map Str Route) (r : Route) (here : get r.key routes ≡ some r) (hm : HostnameMatch)
    (inner : Map HostnameMatch (List SingleRouteMatch))
    → In hm (hostname_matchers r)
    → IsOrdered routes hm (or_default (get hm inner))
    → (v : List SingleRouteMatch) × (insert_matches routes r.key r.matches 0
          (or_default (get hm inner))
        ≡ some v)
      × IsOrdered routes hm v
      × ((e : SingleRouteMatch) → In e (or_default (get hm inner)) → In e v)
      × ((i : ℕ) → i < length r.matches → In (entry r.key i) v)
insert_at_host routes r here hm inner named o =
    let zero_add : (i : ℕ) → 0 + i ≡ i = λ i. omega arith in
    let (v, e, ov, keep, new) =
      insert_matches-Inserts routes r hm here named r.matches 0 (or_default (get hm inner))
        (λ i m h. subst (λ k. get_elem? r.matches k ≡ some m) (sym (zero_add i)) h) o in
    (v, e, ov, keep, λ i l. subst (λ k. In (entry r.key k) v) (zero_add i) (new i l))

-- The hostname map after the outer loop over `hms`.
module _ (routes : Map Str Route) (r : Route) (here : get r.key routes ≡ some r) where
  abbrev InOrder : Map HostnameMatch (List SingleRouteMatch) → Type 0
  InOrder inner =
      (hm : HostnameMatch) (v : List SingleRouteMatch)
      → get hm inner ≡ some v
      → IsOrdered routes hm v

  abbrev Keeps : (before after : Map HostnameMatch (List SingleRouteMatch)) → Type 0
  Keeps before after =
      (hm : HostnameMatch) (e : SingleRouteMatch)
      → In e (or_default (get hm before))
      → In e (or_default (get hm after))

  abbrev AllIn : List HostnameMatch → Map HostnameMatch (List SingleRouteMatch) → Type 0
  AllIn hms inner =
      (hm : HostnameMatch) (i : ℕ)
      → In hm hms
      → i < length r.matches
      → In (entry r.key i) (or_default (get hm inner))

  nothing-IsOrdered : (hm : HostnameMatch) → IsOrdered routes hm []
  nothing-IsOrdered hm = record { matches = []; resolved = tt; sorted = tt; live = tt }

  default-IsOrdered :
      (hm : HostnameMatch) (inner : Map HostnameMatch (List SingleRouteMatch))
      → InOrder inner
      → IsOrdered routes hm (or_default (get hm inner))
  default-IsOrdered hm inner o = elim (Option-cases (get hm inner)) [
    | inl e ↦ rw e (nothing-IsOrdered hm)
    | inr (v, e) ↦ rw e (o hm v e)
  ]

  insert-InOrder :
      (hm : HostnameMatch) (v : List SingleRouteMatch)
      (inner : Map HostnameMatch (List SingleRouteMatch))
      → IsOrdered routes hm v
      → InOrder inner
      → InOrder (insert hm v inner)
  insert-InOrder hm v inner o os j w e = elim (Bool-cases (hm == j)) [
    | inl same ↦
        let f : some v ≡ some w = ground (arith, get-insert hm j v inner) in
        subst (λ k. IsOrdered routes k w) (==_eq hm j same)
          (subst (IsOrdered routes hm) (some_injective f) o)
    | inr other ↦ os j w (ground (arith, get-insert hm j v inner))
  ]

  insert-Keeps :
      (hm : HostnameMatch) (v : List SingleRouteMatch)
      (inner : Map HostnameMatch (List SingleRouteMatch))
      → ((e : SingleRouteMatch) → In e (or_default (get hm inner)) → In e v)
      → Keeps inner (insert hm v inner)
  insert-Keeps hm v inner keep j e h = elim (Bool-cases (hm == j)) [
    | inl same ↦
        let f : get j (insert hm v inner) ≡ some v = ground (arith, get-insert hm j v inner) in
        rw f (keep e (subst (λ k. In e (or_default (get k inner))) (sym (==_eq hm j same)) h))
    | inr other ↦
        let f : get j (insert hm v inner) ≡ get j inner = ground (arith, get-insert hm j v inner) in
        rw f h
  ]

  cons-AllIn :
      (hm : HostnameMatch) (hms : List HostnameMatch) (v : List SingleRouteMatch)
      (inner after : Map HostnameMatch (List SingleRouteMatch))
      → ((i : ℕ) → i < length r.matches → In (entry r.key i) v)
      → Keeps (insert hm v inner) after
      → AllIn hms after
      → AllIn (hm ∷ hms) after
  cons-AllIn hm hms v inner after new keep rest j i (inr h) l = rest j i h l
  cons-AllIn hm hms v inner after new keep rest j i (inl e) l =
      let f : get hm (insert hm v inner) ≡ some v =
        ground (arith, get-insert hm hm v inner, ==_refl hm) in
      subst (λ k. In (entry r.key i) (or_default (get k after))) (sym e)
        (keep hm (entry r.key i) (rw f (new i l)))

  insert_hosts_lem :
      (hms : List HostnameMatch) (inner : Map HostnameMatch (List SingleRouteMatch))
      → ((hm : HostnameMatch) → In hm hms → In hm (hostname_matchers r))
      → InOrder inner
      → (after : Map HostnameMatch (List SingleRouteMatch)) × (insert_hosts routes r hms inner
          ≡ some after)
        × InOrder after
        × Keeps inner after
        × AllIn hms after
  insert_hosts_lem [] inner sub o =
      (inner, unfold insert_hosts in refl, o, λ hm e h. h, λ hm i h. absurd h)
  insert_hosts_lem (hm ∷ hms) inner sub o =
      let (v, e, ov, keep, new) =
        insert_at_host routes r here hm inner (sub hm (inl refl)) (default-IsOrdered hm inner o) in
      let mid = insert hm v inner in
      let (after, f, oa, keep_after, all_after) =
        insert_hosts_lem hms mid (λ k h. sub k (inr h)) (insert-InOrder hm v inner ov o) in
      (
        after,
        insert_hosts_step routes r hm hms inner v e ∙ f,
        oa,
        λ k x h. keep_after k x (insert-Keeps hm v inner keep k x h),
        cons-AllIn hm hms v inner after new keep_after all_after,
      )

pub In-default :
    {A : Type 0} (e : A) (o : Option (List A))
    → In e (or_default o)
    → (v : List A) × (o ≡ some v) × In e v
In-default e none h = absurd h
In-default e (some v) h = (v, refl, h)

get-insert_self : (routes : Map Str Route) (r : Route) → get r.key (insert r.key r routes) ≡ some r
get-insert_self routes r = ground (arith, get-insert r.key r.key r routes, ==_refl r.key)

-- After the insertion each key's route is the new one or an old one.
inserted_cases :
    (routes : Map Str Route) (r x : Route) (k : Str)
    → get k (insert r.key r routes) ≡ some x
    → ((r.key ≡ k) × (r ≡ x)) ⊎ (get k routes ≡ some x)
inserted_cases routes r x k h = elim (Bool-cases (r.key == k)) [
  | inl same ↦
      inl (==_eq r.key k same, some_injective (ground (arith, get-insert r.key k r routes)))
  | inr other ↦ inr (ground (arith, get-insert r.key k r routes))
]

module _ (r : Route) (s : RouteSet) (v : IsValid s)
    (after : Map HostnameMatch (List SingleRouteMatch)) where
  inserted-keyed : (k : Str) (x : Route) → get k (insert r.key r s.all) ≡ some x → x.key ≡ k
  inserted-keyed k x h = elim (inserted_cases s.all r x k h) [
    | inl (e, f) ↦ subst (λ (y : Route). y.key ≡ k) f e
    | inr old ↦ v.keyed k x old
  ]

  inserted_complete :
      (here : get r.key (insert r.key r s.all) ≡ some r)
      → Keeps (insert r.key r s.all) r here s.inner after
      → AllIn (insert r.key r s.all) r here (hostname_matchers r) after
      → (k : Str) (x : Route) (hm : HostnameMatch) (i : ℕ) → get k (insert r.key r s.all) ≡ some x
      → In hm (hostname_matchers x)
      → i < length x.matches
      → (w : List SingleRouteMatch) × (get hm after ≡ some w) × In (entry k i) w
  inserted_complete here keep all k x hm i h named l = elim (inserted_cases s.all r x k h) [
    | inl (e, f) ↦ In-default (entry k i) (get hm after) (
        subst (λ j. In (entry j i) (or_default (get hm after))) e
          (all hm i (subst (λ y. In hm (hostname_matchers y)) (sym f) named)
            (subst (λ (y : Route). i < length y.matches) (sym f) l)))
    | inr old ↦
        let (w, g, j) = v.complete k x hm i old named l in
        In-default (entry k i) (get hm after)
          (keep hm (entry k i) (subst (λ o. In (entry k i) (or_default o)) (sym g) j))
  ]

-- A route whose key a valid set does not have can be inserted: there is no panic, and the set that
-- it gives has the route under its key and is valid.
pub insert_route-IsValid :
    (r : Route) (s : RouteSet)
    → IsValid s
    → get r.key s.all ≡ none
    → (t : RouteSet) × (insert_route r s ≡ some t) × (t.all ≡ insert r.key r s.all) × IsValid t
unfolding insert_route
insert_route-IsValid r s v fresh =
    let routes = insert r.key r s.all in
    let here = get-insert_self s.all r in
    let (after, e, o, keep, all) =
      insert_hosts_lem routes r here (hostname_matchers r) s.inner (λ h x. x)
        (λ hm w f.
          IsOrdered-Extends s.all routes hm w (Extends-insert s.all r.key r fresh)
            (v.ordered hm w f)) in
    (
      record { inner = after; all = routes },
      ground (arith, e),
      refl,
      record {
        keyed = inserted-keyed r s v after;
        ordered = o;
        complete = inserted_complete r s v after here keep all;
      },
    )
