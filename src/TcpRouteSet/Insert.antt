-- ===== src/TcpRouteSet/Insert.antt =====
-- Inserting a TCP route, new or again, does not panic and keeps the keys in order.
use mathlib.Core.Path.{fun_ext}
use agentproxy.Prelude.{
  if◌then◌else◌, ℕ, zero, suc, ◌≡◌, refl, ◌∙◌, inl, inr, arith, some, List, [], ◌∷◌, length, All,
  Str, str_eq, ◌==◌, ==_refl, str_cmp, Bool-cases, In, ==_iff, subst, sym, ◌↔◌, Option-cases, ◌⊎◌,
}
use agentproxy.Prelude.Map.{Map, get, insert, get-insert}
use agentproxy.Prelude.Ordering.{str_cmp-IsLawful}
use agentproxy.Prelude.Search.{binary_search}
use agentproxy.Prelude.Sorted.{
  Sorted, insert_at, probe_of, binary_insert-Sorted, All-insert_at, some_injective,
}
use agentproxy.Hostname.{HostnameMatch, hostname_eq}
use agentproxy.RouteSet.{or_default}
use agentproxy.TcpRouteSet.{
  TcpRoute, TcpRouteSet, hostname_matchers, probe_key, insert_hosts, insert_route,
}

abbrev pub IsPresent : Map Str TcpRoute → Str → Type 0
IsPresent routes k = (r : TcpRoute) × (get k routes ≡ some r)

-- The keys under a hostname key are those of routes, in their order.
abbrev pub IsOrdered : Map Str TcpRoute → List Str → Type 0
IsOrdered routes v = Sorted str_cmp v × All (IsPresent routes) v

abbrev pub IsValid : Map Str TcpRoute → Map HostnameMatch (List Str) → Type 0
IsValid routes inner = (hm : HostnameMatch) → IsOrdered routes (or_default (get hm inner))

probe_key-Present :
    (routes : Map Str TcpRoute) (v : List Str) (new : Str) (i : ℕ)
    → All (IsPresent routes) v
    → probe_key routes v new i ≡ probe_of str_cmp new v i
unfolding probe_key
probe_key-Present routes [] new i h = refl
probe_key-Present routes (k ∷ ks) new zero ((r, e), hs) = ground arith
probe_key-Present routes (k ∷ ks) new (suc i) (h, hs) = probe_key-Present routes ks new i hs

insert_hosts_step :
    (routes : Map Str TcpRoute) (key : Str) (hm : HostnameMatch) (hms : List HostnameMatch)
    (inner : Map HostnameMatch (List Str)) (p : ℕ)
    → binary_search
        (probe_key routes (or_default (get hm inner)) key)
        (length (or_default (get hm inner)))
      ≡ some p
    → insert_hosts routes key (hm ∷ hms) inner
      ≡ insert_hosts routes key hms (insert hm (insert_at p key (or_default (get hm inner))) inner)
unfolding insert_hosts
insert_hosts_step routes key hm hms inner p e = ground arith

insert-IsValid :
    (routes : Map Str TcpRoute) (hm : HostnameMatch) (v : List Str)
    (inner : Map HostnameMatch (List Str))
    → IsOrdered routes v
    → IsValid routes inner
    → IsValid routes (insert hm v inner)
insert-IsValid routes hm v inner o valid j = elim (Bool-cases (hm == j)) [
  | inl same ↦ rw (get-insert hm j v inner, same) o
  | inr other ↦ rw (get-insert hm j v inner, other) (valid j)
]

insert_hosts-IsValid :
    (routes : Map Str TcpRoute) (key : Str) (hms : List HostnameMatch)
    (inner : Map HostnameMatch (List Str))
    → IsPresent routes key
    → IsValid routes inner
    → (after : Map HostnameMatch (List Str)) × (insert_hosts routes key hms inner ≡ some after)
      × IsValid routes after
insert_hosts-IsValid routes key [] inner h valid = (inner, unfold insert_hosts in refl, valid)
insert_hosts-IsValid routes key (hm ∷ hms) inner h valid =
    let v = or_default (get hm inner) in
    let (sorted, present) = valid hm in
    let (p, e, s) = binary_insert-Sorted str_cmp str_cmp-IsLawful key v sorted in
    let same = fun_ext (λ i. probe_key-Present routes v key i present) in
    let o : IsOrdered routes (insert_at p key v) =
      (s, All-insert_at (IsPresent routes) p key v h present) in
    let (after, f, w) =
      insert_hosts-IsValid routes key hms (insert hm (insert_at p key v) inner) h
        (insert-IsValid routes hm (insert_at p key v) inner o valid) in
    (after, insert_hosts_step routes key hm hms inner p (rw same e) ∙ f, w)

-- A key that is present stays so when a route is inserted.
IsPresent-insert :
    (routes : Map Str TcpRoute) (r : TcpRoute) (k : Str)
    → IsPresent routes k
    → IsPresent (insert r.key r routes) k
IsPresent-insert routes r k (x, e) = elim (Bool-cases (r.key == k)) [
  | inl same ↦ (r, rw (get-insert r.key k r routes, same))
  | inr other ↦ (x, rw (get-insert r.key k r routes, other) e)
]

All-IsPresent-insert :
    (routes : Map Str TcpRoute) (r : TcpRoute) (v : List Str)
    → All (IsPresent routes) v
    → All (IsPresent (insert r.key r routes)) v
All-IsPresent-insert routes r [] h = tt
All-IsPresent-insert routes r (k ∷ ks) (h, hs) =
    (IsPresent-insert routes r k h, All-IsPresent-insert routes r ks hs)

insert_route_step :
    (r : TcpRoute) (s : TcpRouteSet) (after : Map HostnameMatch (List Str))
    → insert_hosts (insert r.key r s.all) r.key (hostname_matchers r) s.inner ≡ some after
    → insert_route r s ≡ some (record { inner = after; all = insert r.key r s.all })
unfolding insert_route
insert_route_step r s after e = ground arith

-- What the lists of the hostname keys hold after a key was filed under some of them.
abbrev Filed : Str → List HostnameMatch → (before after : Map HostnameMatch (List Str)) → Type 0
Filed key hms before after =
    (hm : HostnameMatch) (k : Str)
    → In k (or_default (get hm after))
      ↔ (In k (or_default (get hm before)) ⊎ (In hm hms × (k ≡ key)))

In-insert_at : (p : ℕ) (x k : Str) (v : List Str) → In k (insert_at p x v) ↔ (In k v ⊎ (k ≡ x))
In-insert_at zero x k v = ground arith
In-insert_at (suc p) x k [] = ground arith
In-insert_at (suc p) x k (y ∷ ys) = ground (arith, In-insert_at p x k ys)

Filed-insert :
    (key : Str) (hm : HostnameMatch) (p : ℕ) (inner : Map HostnameMatch (List Str))
    → Filed key (hm ∷ []) inner (insert hm (insert_at p key (or_default (get hm inner))) inner)
Filed-insert key hm p inner j k =
    let v = or_default (get hm inner) in
    elim (Bool-cases (hm == j)) [
      | inl same ↦
          let e : hm ≡ j = (==_iff hm j).0 same in
          let (f, g) = In-insert_at p key k v in
          rw (get-insert hm j (insert_at p key v) inner, same, ← e)
            (
              λ h. elim (f h) [ inl i ↦ inl i | inr q ↦ inr (inl refl, q) ],
              λ h. elim h [ inl i ↦ g (inl i) | inr (_, q) ↦ g (inr q) ],
            )
      | inr other ↦
          rw (get-insert hm j (insert_at p key v) inner, other)
            (
              λ h. inl h,
              λ h. elim h [
                | inl i ↦ i
                | inr (i, _) ↦ elim i [
                  | inl q ↦ absurd (cc (other, (==_iff hm j).1 (sym q)))
                  | inr n ↦ absurd n
                ]
              ],
            )
    ]

Filed-trans :
    (key : Str) (hm : HostnameMatch) (hms : List HostnameMatch)
    (a b c : Map HostnameMatch (List Str))
    → Filed key (hm ∷ []) a b
    → Filed key hms b c
    → Filed key (hm ∷ hms) a c
Filed-trans key hm hms a b c f g j k = ground (arith, f j k, g j k)

insert_hosts-Filed :
    (routes : Map Str TcpRoute) (key : Str) (hms : List HostnameMatch)
    (inner after : Map HostnameMatch (List Str))
    → insert_hosts routes key hms inner ≡ some after
    → Filed key hms inner after
unfolding insert_hosts
insert_hosts-Filed routes key [] inner after e =
    subst (Filed key [] inner) (some_injective e)
      (λ j k. (λ h. inl h, λ h. elim h [ inl i ↦ i | inr (n, _) ↦ absurd n ]))
insert_hosts-Filed routes key (hm ∷ hms) inner after e =
    let v = or_default (get hm inner) in
    elim (Option-cases (binary_search (probe_key routes v key) (length v))) [
      | inl n ↦ absurd (ground arith)
      | inr (p, f) ↦
          let middle = insert hm (insert_at p key v) inner in
          Filed-trans key hm hms inner middle after (Filed-insert key hm p inner) (
            insert_hosts-Filed routes key hms middle after
              (sym (insert_hosts_step routes key hm hms inner p f) ∙ e))
    ]

-- In a set of TCP routes the keys under each hostname key are those of routes of the set, in their
-- order. A route, new or under a key that the set has, is inserted without a panic, and the set that
-- this gives is again of that form. It has the route under its key and the other routes as before.
-- Under each hostname key stand the keys that stood there and, if it is one of the route's hostname
-- keys, also the key of the route.
pub insert_tcp_route-IsValid :
    (r : TcpRoute) (s : TcpRouteSet)
    → IsValid s.all s.inner
    → (t : TcpRouteSet) × (insert_route r s ≡ some t)
      × ((k : Str) → get k t.all ≡ (if r.key == k then some r else get k s.all))
      × ((hm : HostnameMatch) (k : Str)
          → In k (or_default (get hm t.inner))
            ↔ (In k (or_default (get hm s.inner)) ⊎ (In hm (hostname_matchers r) × (k ≡ r.key))))
      × IsValid t.all t.inner
insert_tcp_route-IsValid r s valid =
    let routes = insert r.key r s.all in
    let here : get r.key routes ≡ some r = rw (get-insert r.key r.key r s.all, ==_refl r.key) in
    let (after, e, w) =
      insert_hosts-IsValid routes r.key (hostname_matchers r) s.inner (r, here)
        (λ hm. (
          (valid hm).0,
          All-IsPresent-insert s.all r (or_default (get hm s.inner)) (valid hm).1,
        )) in
    (
      record { inner = after; all = routes },
      insert_route_step r s after e,
      λ k. get-insert r.key k r s.all,
      insert_hosts-Filed routes r.key (hostname_matchers r) s.inner after e,
      w,
    )
