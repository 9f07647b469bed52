-- ===== src/Discovery/Indexed.antt =====
-- The index of workloads by address agrees with the workloads by uid, after any operations.
use agentproxy.Prelude.{
  ◌≡◌, refl, sym, ap, ◌∙◌, ◌≢◌, ◌⊎◌, ◌↔◌, inl, inr, false, none, some, Str, str_eq, ◌==◌, ==_refl,
  ==_eq, ==_iff, In, Bool-cases, Option-cases, if◌then◌else◌, arith, subst,
}
use agentproxy.Prelude.Map.{get, remove, get-insert, get-remove}
use agentproxy.Select.{NetworkAddress}
use agentproxy.Discovery.{Workload, network_address_eq}
use agentproxy.Discovery.Workloads.{
  WorkloadStore, is_host_network, remove_workload, remove_addresses, insert_workload,
}
use agentproxy.Discovery.Entries.{
  ByAddr, entries, addresses, In-insert_addresses, In-remove_addresses,
}

-- The workload is to be found under the address.
abbrev pub Claims : Workload → NetworkAddress → Type 0
Claims w k = (is_host_network w.network_mode ≡ false) × In k (addresses w.network w.workload_ips)

-- The workloads are stored by their uids, and under an address are those that claim it.
pub record IsIndexed (st : WorkloadStore) : Type 0 where
  pub keyed : (uid : Str) (w : Workload) → get uid st.by_uid ≡ some w → w.uid ≡ uid
  pub sound :
      (k : NetworkAddress) (w : Workload)
      → In w (entries k st.by_addr)
      → (get w.uid st.by_uid ≡ some w) × Claims w k
  pub complete :
      (k : NetworkAddress) (w : Workload)
      → get w.uid st.by_uid ≡ some w
      → Claims w k
      → In w (entries k st.by_addr)

-- What `remove` leaves under the addresses.
abbrev Cleaned : Str → ByAddr → ByAddr → Type 0
Cleaned uid m m' =
    (k : NetworkAddress) (w : Workload) → In w (entries k m') ↔ (In w (entries k m) × (w.uid ≢ uid))

remove_workload-by_uid :
    (uid : Str) (st : WorkloadStore) → (remove_workload uid st).0.by_uid ≡ remove uid st.by_uid
unfolding remove_workload
remove_workload-by_uid uid st = elim (Option-cases (get uid st.by_uid)) [
  | inl e ↦ ground arith
  | inr (w, e) ↦ ground arith
]

remove_workload-none :
    (uid : Str) (st : WorkloadStore)
    → get uid st.by_uid ≡ none
    → (remove_workload uid st).0.by_addr ≡ st.by_addr
unfolding remove_workload
remove_workload-none uid st e = ground arith

remove_workload-some :
    (uid : Str) (st : WorkloadStore) (prev : Workload)
    → get uid st.by_uid ≡ some prev
    → (remove_workload uid st).0.by_addr ≡ (
        if is_host_network prev.network_mode
        then st.by_addr
        else remove_addresses prev.uid prev.network prev.workload_ips st.by_addr)
unfolding remove_workload
remove_workload-some uid st prev e = ground arith

module _ (uid : Str) (st : WorkloadStore) (v : IsIndexed st) where
  -- A workload of the uid that is stored under an address is the one that is stored by the uid.
  stored_uid :
      (k : NetworkAddress) (w : Workload)
      → In w (entries k st.by_addr)
      → w.uid ≡ uid
      → (get uid st.by_uid ≡ some w) × Claims w k
  stored_uid k w i q = let (g, c) = v.sound k w i in (subst (λ x. get x st.by_uid ≡ some w) q g, c)

  some_injective :
      (a b : Workload) → get uid st.by_uid ≡ some a → get uid st.by_uid ≡ some b → a ≡ b
  some_injective a b e f = cc

  remove_addresses-Cleaned :
      (prev : Workload)
      → get uid st.by_uid ≡ some prev
      → Cleaned uid st.by_addr (remove_addresses prev.uid prev.network prev.workload_ips st.by_addr)
  remove_addresses-Cleaned prev e k w =
      let (f, g) = In-remove_addresses prev.uid prev.network w prev.workload_ips k st.by_addr in
      let u = v.keyed uid prev e in
      (
        λ h.
            let (i, n) = f h in
            (
              i,
              λ q.
                  let (s, c) = stored_uid k w i q in
                  let r = some_injective w prev s e in
                  n (subst (λ x. In k (addresses x.network x.workload_ips)) r c.1) (q ∙ sym u),
            ),
        λ (i, n). g (i, λ a q. n (q ∙ u)),
      )

  remove_workload-Cleaned : Cleaned uid st.by_addr (remove_workload uid st).0.by_addr
  remove_workload-Cleaned k w = elim (Option-cases (get uid st.by_uid)) [
    | inl e ↦
        rw (remove_workload-none uid st e) (λ i. (i, λ q. cc (stored_uid k w i q).0), λ (i, n). i)
    | inr (prev, e) ↦ elim (Bool-cases (is_host_network prev.network_mode)) [
      | inl host ↦
          rw (remove_workload-some uid st prev e, host)
            (
              λ i. (
                i,
                λ q.
                    let (s, c) = stored_uid k w i q in
                    let r = some_injective w prev s e in
                    let h = c.0 in cc (ap (λ x. is_host_network x.network_mode) r),
              ),
              λ (i, n). i,
            )
      | inr shared ↦
          rw (remove_workload-some uid st prev e, shared) (remove_addresses-Cleaned prev e k w)
    ]
  ]

  gone : get uid (remove_workload uid st).0.by_uid ≡ none
  gone = rw (remove_workload-by_uid uid st, get-remove uid uid st.by_uid, ==_refl uid)

  -- A workload that is left is not of the uid, and was there.
  left_uid :
      (j : Str) (w : Workload)
      → get j (remove_workload uid st).0.by_uid ≡ some w
      → (j ≢ uid) × (get j st.by_uid ≡ some w)
  left_uid j w h =
      let h' : (if uid == j then none else get j st.by_uid) ≡ some w =
        sym (get-remove uid j st.by_uid) ∙ (ap (get j) (sym (remove_workload-by_uid uid st)) ∙ h) in
      ground (arith, ==_iff uid j)

  kept_uid :
      (j : Str) (w : Workload)
      → j ≢ uid
      → get j st.by_uid ≡ some w
      → get j (remove_workload uid st).0.by_uid ≡ some w
  kept_uid j w n h =
      ap (get j) (remove_workload-by_uid uid st)
      ∙ (get-remove uid j st.by_uid ∙ ground (arith, ==_iff uid j))

  pub remove_workload-IsIndexed : IsIndexed (remove_workload uid st).0
  remove_workload-IsIndexed = record {
    keyed = λ j w h. v.keyed j w (left_uid j w h).1;
    sound = λ k w h.
        let (i, n) = (remove_workload-Cleaned k w).0 h in
        let (g, c) = v.sound k w i in (kept_uid w.uid w n g, c);
    complete = λ k w h c.
        let (n, g) = left_uid w.uid w h in (remove_workload-Cleaned k w).1 (v.complete k w g c, n);
  }

  pub remove_workload-gone : get uid (remove_workload uid st).0.by_uid ≡ none
  remove_workload-gone = gone

module _ (w : Workload) (st : WorkloadStore) where
  abbrev cleaned : WorkloadStore
  cleaned = (remove_workload w.uid st).0

  insert_workload-entries :
      (k : NetworkAddress) (u : Workload)
      → In u (entries k (insert_workload w st).by_addr)
        ↔ (In u (entries k cleaned.by_addr) ⊎ ((u ≡ w) × Claims w k))
  unfolding insert_workload
  insert_workload-entries k u = elim (Bool-cases (is_host_network w.network_mode)) [
    | inl e ↦ rw e (λ i. inl i, λ s. elim s [ inl i ↦ i | inr (q, c) ↦ let h = c.0 in absurd (cc) ])
    | inr e ↦
        let (f, g) = In-insert_addresses w u w.workload_ips k cleaned.by_addr in
        rw e (
          λ i. elim (f i) [ inl j ↦ inl j | inr (q, j) ↦ inr (q, (refl, j)) ],
          λ s. elim s [ inl j ↦ g (inl j) | inr (q, c) ↦ g (inr (q, c.1)) ],
        )
  ]

  insert_workload-by_uid :
      (j : Str)
      → get j (insert_workload w st).by_uid ≡ (if w.uid == j then some w else get j cleaned.by_uid)
  unfolding insert_workload
  insert_workload-by_uid j = get-insert w.uid j w cleaned.by_uid

  -- A workload that is stored by its uid is the new one, or was there.
  inserted_uid :
      (j : Str) (u : Workload)
      → get j (insert_workload w st).by_uid ≡ some u
      → ((u ≡ w) × (j ≡ w.uid)) ⊎ (get j cleaned.by_uid ≡ some u)
  inserted_uid j u h =
      let h' = sym (insert_workload-by_uid j) ∙ h in
      elim (Bool-cases (w.uid == j)) [
        | inl e ↦ inl (ground arith, sym (==_eq w.uid j e))
        | inr e ↦ inr (ground arith)
      ]

  kept_others :
      (j : Str) (u : Workload)
      → get w.uid cleaned.by_uid ≡ none
      → get j cleaned.by_uid ≡ some u
      → get j (insert_workload w st).by_uid ≡ some u
  kept_others j u n h = elim (Bool-cases (w.uid == j)) [
    | inl e ↦ absurd (cc (ap (λ x. get x cleaned.by_uid) (==_eq w.uid j e)))
    | inr e ↦ rw (insert_workload-by_uid j, e) h
  ]

  stored_new : get w.uid (insert_workload w st).by_uid ≡ some w
  stored_new = rw (insert_workload-by_uid w.uid, ==_refl w.uid)

  pub insert_workload-IsIndexed : IsIndexed st → IsIndexed (insert_workload w st)
  insert_workload-IsIndexed v =
      let c = remove_workload-IsIndexed w.uid st v in
      record {
        keyed = λ j u h. elim (inserted_uid j u h) [
          | inl (q, r) ↦ ap (λ x. x.uid) q ∙ sym r
          | inr g ↦ c.keyed j u g
        ];
        sound = λ k u h. elim ((insert_workload-entries k u).0 h) [
          | inl i ↦
              let (g, d) = c.sound k u i in
              (kept_others u.uid u (remove_workload-gone w.uid st v) g, d)
          | inr (q, d) ↦ rw q (stored_new, d)
        ];
        complete = λ k u h d. (insert_workload-entries k u).1 (elim (inserted_uid u.uid u h) [
          | inl (q, r) ↦ inr (q, subst (λ x. Claims x k) q d)
          | inr g ↦ inl (c.complete k u g d)
        ]);
      }
