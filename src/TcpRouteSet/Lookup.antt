-- ===== src/TcpRouteSet/Lookup.antt =====
-- Which TCP route a hostname key gives.
use Prim.Native.Nat.{Ordering}
use agentproxy.Prelude.{
  ◌≡◌, refl, sym, subst, ◌≢◌, ◌⊎◌, inl, inr, arith, none, some, List, [], ◌∷◌, All, In, Str, str_eq,
  str_cmp, str_cmp_refl, Option-cases,
}
use agentproxy.Prelude.Map.{get}
use agentproxy.Hostname.{HostnameMatch, hostname_eq}
use agentproxy.RouteSet.{or_default}
use agentproxy.TcpRouteSet.{TcpRoute, TcpRouteSet, get_hostname}
use agentproxy.TcpRouteSet.Insert.{IsOrdered, IsValid}

get_hostname_missing :
    (hm : HostnameMatch) (s : TcpRouteSet) → get hm s.inner ≡ none → get_hostname hm s ≡ none
unfolding get_hostname
get_hostname_missing hm s e = ground arith

get_hostname_empty :
    (hm : HostnameMatch) (s : TcpRouteSet) → get hm s.inner ≡ some [] → get_hostname hm s ≡ none
unfolding get_hostname
get_hostname_empty hm s e = ground arith

get_hostname_first :
    (hm : HostnameMatch) (s : TcpRouteSet) (k : Str) (ks : List Str)
    → get hm s.inner ≡ some (k ∷ ks)
    → get_hostname hm s ≡ get k s.all
unfolding get_hostname
get_hostname_first hm s k ks e = ground arith

NotAfter-In :
    (k : Str) (ks : List Str)
    → All (λ j. str_cmp k j ≢ Ordering.gt) ks
    → (j : Str) → In j ks
    → str_cmp k j ≢ Ordering.gt
NotAfter-In k [] h j i = absurd i
NotAfter-In k (x ∷ xs) (h, hs) j (inl e) = subst (λ y. str_cmp k y ≢ Ordering.gt) (sym e) h
NotAfter-In k (x ∷ xs) (h, hs) j (inr i) = NotAfter-In k xs hs j i

-- What a hostname key with these keys gives.
abbrev pub Gives : TcpRouteSet → HostnameMatch → List Str → Type 0
Gives s hm v =
    ((get_hostname hm s ≡ none) × (v ≡ []))
    ⊎ ((k : Str) × (r : TcpRoute) × (get k s.all ≡ some r)
        × (get_hostname hm s ≡ some r)
        × In k v
        × ((j : Str) → In j v → str_cmp k j ≢ Ordering.gt))

keys_give :
    (s : TcpRouteSet) (hm : HostnameMatch) (v : List Str)
    → get hm s.inner ≡ some v
    → IsOrdered s.all v
    → Gives s hm v
keys_give s hm [] e o = inl (get_hostname_empty hm s e, refl)
keys_give s hm (k ∷ ks) e ((first, sorted), ((r, f), present)) = inr (
  k,
  r,
  f,
  rw (get_hostname_first hm s k ks e) f,
  inl refl,
  λ j i. elim i [
    | inl same ↦ λ h. let g = str_cmp_refl k in absurd (ground arith)
    | inr later ↦ NotAfter-In k ks first j later
  ],
)

-- In a set of TCP routes whose keys are those of routes and in their order, a hostname key gives no
-- route only if there is no key under it, and else the route of the least key under it.
pub get_tcp_hostname-Gives :
    (s : TcpRouteSet) (hm : HostnameMatch)
    → IsValid s.all s.inner
    → Gives s hm (or_default (get hm s.inner))
get_tcp_hostname-Gives s hm valid = elim (Option-cases (get hm s.inner)) [
  | inl missing ↦ rw missing (inl (get_hostname_missing hm s missing, refl))
  | inr (v, e) ↦
      rw e (keys_give s hm v e (subst (λ o. IsOrdered s.all (or_default o)) e (valid hm)))
]
