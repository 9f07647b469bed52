-- ===== src/Select/Best.antt =====
-- The route that a request gets is the best of those that match it.
use Prim.Native.Nat.{Ordering}
use agentproxy.Prelude.{
  ℕ, ◌≡◌, refl, sym, ap, ◌∙◌, subst, ◌≢◌, ◌⊎◌, inl, inr, arith, Bool, true, false, Option, none,
  some, List, [], ◌∷◌, ◌++◌, map, All, In, Str, Bool-cases,
}
use agentproxy.Prelude.Outcome.{ok}
use agentproxy.Prelude.Sorted.{Sorted}
use agentproxy.Filters.Uris.{PathMatch}
use agentproxy.Filters.Headers.{HeaderLib}
use agentproxy.Hostname.{HostnameMatch, all_matches}
use agentproxy.Route.{Route, RouteMatch}
use agentproxy.RouteSet.{RouteSet, compare_route, get_hostname}
use agentproxy.RouteSet.Order.{compare_route-IsLawful}
use agentproxy.RouteSet.Invariant.{IsValid}
use agentproxy.RouteSet.Lookup.{Serves, keyed_match, get_hostname_lem}
use agentproxy.Listener.{Listener}
use agentproxy.Select.{
  MatchLib, NetworkAddress, Service, RouteRequest, get_host, matches_request, find_candidate,
  route_for, is_waypoint, select_best_route,
}

abbrev pub NotAfter : Route × RouteMatch → Route × RouteMatch → Type 0
NotAfter x y = compare_route (keyed_match x) (keyed_match y) ≢ Ordering.gt

NotAfter-refl : (x : Route × RouteMatch) → NotAfter x x
NotAfter-refl x h = let f = compare_route-IsLawful.flip (keyed_match x) (keyed_match x) in cc

-- The first of the candidates that passes a test.
abbrev Finds :
    (Route × RouteMatch → Bool)
    → List (Route × RouteMatch)
    → Option (Option (Route × RouteMatch))
    → Type 0
Finds p l o =
    ((o ≡ some none) × ((x : Route × RouteMatch) → In x l → p x ≡ false))
    ⊎ ((x : Route × RouteMatch) × (o ≡ some (some x))
        × In x l
        × (p x ≡ true)
        × ((y : Route × RouteMatch) → In y l → p y ≡ true → NotAfter x y))

find_candidate_hit :
    (p : Route × RouteMatch → Bool) (x : Route × RouteMatch)
    (l : List (Option (Route × RouteMatch)))
    → p x ≡ true
    → find_candidate p (some x ∷ l) ≡ some (some x)
unfolding find_candidate
find_candidate_hit p x l h = ground arith

find_candidate_miss :
    (p : Route × RouteMatch → Bool) (x : Route × RouteMatch)
    (l : List (Option (Route × RouteMatch)))
    → p x ≡ false
    → find_candidate p (some x ∷ l) ≡ find_candidate p l
unfolding find_candidate
find_candidate_miss p x l h = ground arith

All_In : {A : Type 0} (P : A → Type 0) (l : List A) (a : A) → All P l → In a l → P a
All_In P [] a h i = absurd i
All_In P (x ∷ xs) a (h, hs) (inl e) = subst P (sym e) h
All_In P (x ∷ xs) a (h, hs) (inr i) = All_In P xs a hs i

All-of_keys :
    (x : Route × RouteMatch) (l : List (Route × RouteMatch))
    → All (λ k. compare_route (keyed_match x) k ≢ Ordering.gt) (map keyed_match l)
    → All (NotAfter x) l
All-of_keys x [] h = tt
All-of_keys x (y ∷ ys) (h, hs) = (h, All-of_keys x ys hs)

find_candidate-Finds :
    (p : Route × RouteMatch → Bool) (l : List (Route × RouteMatch))
    → Sorted compare_route (map keyed_match l)
    → Finds p l (find_candidate p (map some l))
find_candidate-Finds p [] s = inl (unfold find_candidate in refl, λ x i. absurd i)
find_candidate-Finds p (x ∷ xs) (first, s) = elim (Bool-cases (p x)) [
  | inl hit ↦ inr (
    x,
    find_candidate_hit p x (map some xs) hit,
    inl refl,
    hit,
    λ y i h. elim i [
      | inl e ↦ subst (NotAfter x) (sym e) (NotAfter-refl x)
      | inr j ↦ All_In (NotAfter x) xs y (All-of_keys x xs first) j
    ],
  )
  | inr miss ↦ elim (find_candidate-Finds p xs s) [
    | inl (e, none_of) ↦ inl (
      find_candidate_miss p x (map some xs) miss ∙ e,
      λ y i. elim i [ inl f ↦ subst (λ z. p z ≡ false) (sym f) miss | inr j ↦ none_of y j ],
    )
    | inr (w, e, i, hit, best) ↦ inr (
      w,
      find_candidate_miss p x (map some xs) miss ∙ e,
      inr i,
      hit,
      λ y j h. elim j [
        | inl f ↦ absurd (let g = subst (λ z. p z ≡ false) (sym f) miss in cc)
        | inr k ↦ best y k h
      ],
    )
  ]
]

-- No match of the set under one of the hostname keys passes the test.
abbrev pub NoneServes : RouteSet → (Route × RouteMatch → Bool) → List HostnameMatch → Type 0
NoneServes s p hosts =
    (hm : HostnameMatch) (x : Route × RouteMatch) → In hm hosts → Serves s hm x → p x ≡ false

-- The match passes the test under the first hostname key that has one that does, and none of that
-- key takes precedence over it.
abbrev pub IsBest :
    RouteSet → (Route × RouteMatch → Bool) → List HostnameMatch → Route × RouteMatch → Type 0
IsBest s p hosts x =
    (before : List HostnameMatch) × (hm : HostnameMatch) × (after : List HostnameMatch) × (hosts
      ≡ before ++ hm ∷ after)
    × NoneServes s p before
    × Serves s hm x
    × (p x ≡ true)
    × ((y : Route × RouteMatch) → Serves s hm y → p y ≡ true → NotAfter x y)

abbrev pub Chooses :
    RouteSet
    → (Route × RouteMatch → Bool)
    → List HostnameMatch
    → Option (Option (Route × PathMatch))
    → Type 0
Chooses s p hosts o =
    ((o ≡ some none) × NoneServes s p hosts)
    ⊎ ((r : Route) × (m : RouteMatch) × (o ≡ some (some (r, m.path))) × IsBest s p hosts (r, m))

module _ (s : RouteSet) (valid : IsValid s) (p : Route × RouteMatch → Bool) where
  find_under :
      (hm : HostnameMatch)
      → ((find_candidate p (get_hostname hm s) ≡ some none)
          × ((x : Route × RouteMatch) → Serves s hm x → p x ≡ false))
        ⊎ ((x : Route × RouteMatch) × (find_candidate p (get_hostname hm s) ≡ some (some x))
            × Serves s hm x
            × (p x ≡ true)
            × ((y : Route × RouteMatch) → Serves s hm y → p y ≡ true → NotAfter x y))
  find_under hm =
      let (l, e, sorted, same) = get_hostname_lem s hm valid in
      elim (find_candidate-Finds p l sorted) [
        | inl (f, none_of) ↦
            inl (ap (find_candidate p) e ∙ f, λ x h. none_of x ((same x.0 x.1).1 h))
        | inr (x, f, i, hit, best) ↦ inr (
          x,
          ap (find_candidate p) e ∙ f,
          (same x.0 x.1).0 i,
          hit,
          λ y h. best y ((same y.0 y.1).1 h),
        )
      ]

  route_for_hit :
      (hm : HostnameMatch) (hms : List HostnameMatch) (r : Route) (m : RouteMatch)
      → find_candidate p (get_hostname hm s) ≡ some (some (r, m))
      → route_for p s (hm ∷ hms) ≡ some (some (r, m.path))
  unfolding route_for
  route_for_hit hm hms r m e = ground arith

  route_for_miss :
      (hm : HostnameMatch) (hms : List HostnameMatch)
      → find_candidate p (get_hostname hm s) ≡ some none
      → route_for p s (hm ∷ hms) ≡ route_for p s hms
  unfolding route_for
  route_for_miss hm hms e = ground arith

  route_for-Chooses : (hosts : List HostnameMatch) → Chooses s p hosts (route_for p s hosts)
  route_for-Chooses [] = inl (unfold route_for in refl, λ hm x i. absurd i)
  route_for-Chooses (hm ∷ hms) = elim (find_under hm) [
    | inr (x, e, serves, hit, best) ↦ inr (
      x.0,
      x.1,
      route_for_hit hm hms x.0 x.1 e,
      ([], hm, hms, refl, (λ k y i. absurd i), serves, hit, best),
    )
    | inl (e, none_of) ↦ elim (route_for-Chooses hms) [
      | inl (f, rest) ↦ inl (
        route_for_miss hm hms e ∙ f,
        λ k y i h. elim i [
          | inl same ↦ none_of y (subst (λ z. Serves s z y) same h)
          | inr j ↦ rest k y j h
        ],
      )
      | inr (r, m, f, (before, k, after, split, none_before, serves, hit, best)) ↦ inr (
        r,
        m,
        route_for_miss hm hms e ∙ f,
        (
          hm ∷ before,
          k,
          after,
          ap (λ t. hm ∷ t) split,
          (λ j y i h. elim i [
            | inl same ↦ none_of y (subst (λ z. Serves s z y) same h)
            | inr q ↦ none_before j y q h
          ]),
          serves,
          hit,
          best,
        ),
      )
    ]
  ]

module _ (lib : HeaderLib) (texts : MatchLib) where
  -- A listener that is no waypoint and whose routes are a valid set gets a request with a host. The
  -- choice does not panic. It finds no route only if no match of a route under a hostname key of the
  -- host matches the request, and else the best match: the one of the most specific key with any,
  -- that no other match of the key takes precedence over.
  pub select_best_route-Chooses :
      (services : List (NetworkAddress × Service)) (network : Str) (self_addr : Option Str)
      (dst : Str) (port : ℕ) (l : Listener) (req : RouteRequest lib texts) (host : Str)
      → IsValid l.routes
      → is_waypoint l ≡ false
      → get_host lib texts req ≡ ok host
      → Chooses l.routes
          (matches_request lib texts req)
          (all_matches host)
          (select_best_route lib texts services network self_addr dst port l req)
  unfolding select_best_route
  select_best_route-Chooses services network self_addr dst port l req host valid plain found =
      let e : select_best_route lib texts services network self_addr dst port l req
          ≡ route_for (matches_request lib texts req) l.routes (all_matches host) =
        ground arith in
      subst (Chooses l.routes (matches_request lib texts req) (all_matches host)) (sym e)
        (route_for-Chooses l.routes valid (matches_request lib texts req) (all_matches host))
