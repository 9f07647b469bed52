-- ===== src/Discovery/Entries.antt =====
-- The workloads that are stored under an address.
use agentproxy.Prelude.{
  ◌≡◌, refl, sym, ◌≢◌, ◌⊎◌, ◌↔◌, inl, inr, Bool, true, false, not, Option, none, some, List, [],
  ◌∷◌, ◌++◌, map, Str, str_eq, ◌==◌, ==_iff, retain, In, In-append, In-retain, Bool-cases,
  if◌then◌else◌, arith, ==_eq, subst,
}
use agentproxy.Prelude.Map.{Map, get, insert, get-insert, get-remove}
use agentproxy.Select.{NetworkAddress}
use agentproxy.Discovery.{Workload, network_address_eq}
use agentproxy.Discovery.Workloads.{
  WorkloadByAddr, single, many, insert_workload_at, remove_uid, one_or_many, occupied, network_addr,
  remove_at, remove_addresses, insert_address, insert_addresses,
}

abbrev pub members : WorkloadByAddr → List Workload
members (single w) = w ∷ []
members (many ws) = ws

abbrev pub members_of : Option WorkloadByAddr → List Workload
members_of none = []
members_of (some ws) = members ws

abbrev pub ByAddr : Type 0
ByAddr = Map NetworkAddress WorkloadByAddr

abbrev pub entries : NetworkAddress → ByAddr → List Workload
entries k m = members_of (get k m)

abbrev other_than : Str → Workload → Bool
other_than uid w = not (w.uid == uid)

insert_workload_at-members :
    (w : Workload) (ws : WorkloadByAddr) → members (insert_workload_at w ws) ≡ members ws ++ w ∷ []
unfolding insert_workload_at
insert_workload_at-members w (single v) = refl
insert_workload_at-members w (many ws) = refl

entries-insert :
    (k j : NetworkAddress) (ws : WorkloadByAddr) (m : ByAddr)
    → entries j (insert k ws m) ≡ (if k == j then members ws else entries j m)
entries-insert k j ws m = elim (Bool-cases (k == j)) [
  | inl e ↦ rw (get-insert k j ws m, e)
  | inr e ↦ rw (get-insert k j ws m, e)
]

insert_address-step :
    (o : Option WorkloadByAddr) (w : Workload) (k : NetworkAddress) (m : ByAddr)
    → get k m ≡ o
    → (ws : WorkloadByAddr) × (insert_address w k m ≡ insert k ws m)
      × (members ws ≡ members_of o ++ w ∷ [])
unfolding insert_address
insert_address-step none w k m e = (single w, ground arith, refl)
insert_address-step (some ws) w k m e =
    (insert_workload_at w ws, ground arith, insert_workload_at-members w ws)

entries-insert_address :
    (w : Workload) (k j : NetworkAddress) (m : ByAddr)
    → entries j (insert_address w k m) ≡ (if k == j then entries k m ++ w ∷ [] else entries j m)
entries-insert_address w k j m =
    let (ws, e, f) = insert_address-step (get k m) w k m refl in
    rw (e, ← f) (entries-insert k j ws m)

one_or_many-members :
    (k j : NetworkAddress) (ws : List Workload) (m : ByAddr)
    → entries j (occupied k (one_or_many ws) m) ≡ (if k == j then ws else entries j m)
one_or_many-members k j [] m = elim (Bool-cases (k == j)) [
  | inl e ↦ rw (get-remove k j m, e)
  | inr e ↦ rw (get-remove k j m, e)
]
one_or_many-members k j (w ∷ []) m = entries-insert k j (single w) m
one_or_many-members k j (v ∷ w ∷ ws) m = entries-insert k j (many (v ∷ w ∷ ws)) m

remove_uid-members :
    (uid : Str) (k j : NetworkAddress) (ws : WorkloadByAddr) (m : ByAddr)
    → entries j (occupied k (remove_uid uid ws) m)
      ≡ (if k == j then retain (other_than uid) (members ws) else entries j m)
unfolding remove_uid
remove_uid-members uid k j (many ws) m = one_or_many-members k j (retain (other_than uid) ws) m
remove_uid-members uid k j (single w) m = elim (Bool-cases (w.uid == uid)) [
  | inl e ↦ rw e (one_or_many-members k j [] m)
  | inr e ↦ rw e (entries-insert k j (single w) m)
]

remove_at-none :
    (uid : Str) (k : NetworkAddress) (m : ByAddr) → get k m ≡ none → remove_at uid k m ≡ m
unfolding remove_at
remove_at-none uid k m e = ground arith

remove_at-some :
    (uid : Str) (k : NetworkAddress) (m : ByAddr) (ws : WorkloadByAddr)
    → get k m ≡ some ws
    → remove_at uid k m ≡ occupied k (remove_uid uid ws) m
unfolding remove_at
remove_at-some uid k m ws e = ground arith

entries-none :
    (k j : NetworkAddress) (m : ByAddr)
    → get k m ≡ none
    → entries j m ≡ (if k == j then [] else entries j m)
entries-none k j m e = elim (Bool-cases (k == j)) [
  | inl f ↦ rw (f, ← ==_eq k j f, e)
  | inr f ↦ rw f
]

remove_at-step :
    (o : Option WorkloadByAddr) (uid : Str) (k j : NetworkAddress) (m : ByAddr)
    → get k m ≡ o
    → entries j (remove_at uid k m)
      ≡ (if k == j then retain (other_than uid) (members_of o) else entries j m)
remove_at-step none uid k j m e = rw (remove_at-none uid k m e) (entries-none k j m e)
remove_at-step (some ws) uid k j m e =
    rw (remove_at-some uid k m ws e) (remove_uid-members uid k j ws m)

entries-remove_at :
    (uid : Str) (k j : NetworkAddress) (m : ByAddr)
    → entries j (remove_at uid k m)
      ≡ (if k == j then retain (other_than uid) (entries k m) else entries j m)
entries-remove_at uid k j m = remove_at-step (get k m) uid k j m refl

abbrev pub addresses : Str → List Str → List NetworkAddress
addresses network ips = map (network_addr network) ips

same_uid : (v : Workload) (uid : Str) → v.uid ≡ uid → other_than uid v ≡ false
same_uid v uid r = ground (arith, ==_iff v.uid uid)

other_uid : (v : Workload) (uid : Str) → v.uid ≢ uid → other_than uid v ≡ true
other_uid v uid n = ground (arith, ==_iff v.uid uid)

not_same : (k j : NetworkAddress) → (k == j) ≡ false → j ≢ k
not_same k j e q = ground (arith, ==_iff k j)

In-insert_address :
    (w v : Workload) (k j : NetworkAddress) (m : ByAddr)
    → In v (entries j (insert_address w k m)) ↔ (In v (entries j m) ⊎ ((v ≡ w) × (j ≡ k)))
In-insert_address w v k j m = elim (Bool-cases (k == j)) [
  | inl e ↦
      let q = ==_eq k j e in
      let (f, g) = In-append v (entries k m) (w ∷ []) in
      rw (entries-insert_address w k j m, e)
        (
          λ h. elim (f h) [
            | inl i ↦ inl (subst (λ x. In v (entries x m)) q i)
            | inr (inl r) ↦ inr (r, sym q)
            | inr (inr b) ↦ elim b [ ]
          ],
          λ h. elim h [
            | inl i ↦ g (inl (subst (λ x. In v (entries x m)) (sym q) i))
            | inr (r, s) ↦ g (inr (inl r))
          ],
        )
  | inr e ↦
      rw (entries-insert_address w k j m, e)
        (λ h. inl h, λ h. elim h [ inl i ↦ i | inr (r, s) ↦ absurd (not_same k j e s) ])
]

-- After the loop of `insert` the workload is stored under its addresses too.
pub In-insert_addresses :
    (w v : Workload) (ips : List Str) (j : NetworkAddress) (m : ByAddr)
    → In v (entries j (insert_addresses w ips m))
      ↔ (In v (entries j m) ⊎ ((v ≡ w) × In j (addresses w.network ips)))
unfolding insert_addresses
In-insert_addresses w v [] j m = (λ h. inl h, λ h. elim h [ inl i ↦ i | inr (q, b) ↦ elim b [ ] ])
In-insert_addresses w v (ip ∷ ips) j m =
    let k = network_addr w.network ip in
    let (f, g) = In-insert_addresses w v ips j (insert_address w k m) in
    let (f', g') = In-insert_address w v k j m in
    (
      λ h. elim (f h) [
        | inl i ↦ elim (f' i) [ inl x ↦ inl x | inr (q, r) ↦ inr (q, inl r) ]
        | inr (q, i) ↦ inr (q, inr i)
      ],
      λ h. elim h [
        | inl i ↦ g (inl (g' (inl i)))
        | inr (q, inl r) ↦ g (inl (g' (inr (q, r))))
        | inr (q, inr i) ↦ g (inr (q, i))
      ],
    )

In-remove_at :
    (uid : Str) (v : Workload) (k j : NetworkAddress) (m : ByAddr)
    → In v (entries j (remove_at uid k m)) ↔ (In v (entries j m) × (j ≡ k → v.uid ≢ uid))
In-remove_at uid v k j m = elim (Bool-cases (k == j)) [
  | inl e ↦
      let q = ==_eq k j e in
      let (f, g) = In-retain (other_than uid) v (entries k m) in
      rw (entries-remove_at uid k j m, e)
        (
          λ h.
              let (i, t) = f h in
              (subst (λ x. In v (entries x m)) q i, λ s r. cc (same_uid v uid r)),
          λ (i, n). g (subst (λ x. In v (entries x m)) (sym q) i, other_uid v uid (n (sym q))),
        )
  | inr e ↦
      rw (entries-remove_at uid k j m, e) (λ h. (h, λ s r. absurd (not_same k j e s)), λ (i, n). i)
]

-- After the loop of `remove` no workload of the uid is stored under the addresses.
pub In-remove_addresses :
    (uid network : Str) (v : Workload) (ips : List Str) (j : NetworkAddress) (m : ByAddr)
    → In v (entries j (remove_addresses uid network ips m))
      ↔ (In v (entries j m) × (In j (addresses network ips) → v.uid ≢ uid))
unfolding remove_addresses
In-remove_addresses uid network v [] j m = (λ h. (h, λ b. elim b [ ]), λ (i, n). i)
In-remove_addresses uid network v (ip ∷ ips) j m =
    let k = network_addr network ip in
    let (f, g) = In-remove_addresses uid network v ips j (remove_at uid k m) in
    let (f', g') = In-remove_at uid v k j m in
    (
      λ h.
          let (i, n) = f h in
          let (i', n') = f' i in (i', λ s. elim s [ inl q ↦ n' q | inr r ↦ n r ]),
      λ (i, n). g (g' (i, λ q. n (inl q)), λ r. n (inr r)),
    )
