-- ===== src/Discovery/Filled.antt =====
-- No address is stored without a workload.
use agentproxy.Prelude.{
  sym, ◌∙◌, ◌≢◌, inl, inr, Bool, true, false, some, List, [], ◌∷◌, Str, str_eq, ◌==◌, retain,
  Bool-cases, Option-cases, if◌then◌else◌, arith,
}
use agentproxy.Prelude.Map.{get, insert, remove, get-insert, get-remove}
use agentproxy.Select.{NetworkAddress}
use agentproxy.Discovery.{Workload, network_address_eq}
use agentproxy.Discovery.Workloads.{
  WorkloadByAddr, single, many, WorkloadStore, insert_workload_at, remove_uid, one_or_many,
  occupied, remove_at, remove_addresses, insert_address, insert_addresses, remove_workload,
  insert_workload, network_addr, is_host_network,
}
use agentproxy.Discovery.Entries.{ByAddr}

-- Under no address is there an empty list.
abbrev pub Filled : ByAddr → Type 0
Filled m = (k : NetworkAddress) → get k m ≢ some (many [])

insert-Filled :
    (k : NetworkAddress) (ws : WorkloadByAddr) (m : ByAddr)
    → ws ≢ many []
    → Filled m
    → Filled (insert k ws m)
insert-Filled k ws m n f j h =
    let h' = sym (get-insert k j ws m) ∙ h in
    elim (Bool-cases (k == j)) [ inl e ↦ n (ground arith) | inr e ↦ f j (ground arith) ]

remove-Filled : (k : NetworkAddress) (m : ByAddr) → Filled m → Filled (remove k m)
remove-Filled k m f j h =
    let h' = sym (get-remove k j m) ∙ h in
    elim (Bool-cases (k == j)) [ inl e ↦ ground arith | inr e ↦ f j (ground arith) ]

insert_workload_at_filled : (w : Workload) (ws : WorkloadByAddr) → insert_workload_at w ws ≢ many []
unfolding insert_workload_at
insert_workload_at_filled w (single v) h = cc
insert_workload_at_filled w (many []) h = cc
insert_workload_at_filled w (many (v ∷ vs)) h = cc

insert_address-Filled :
    (w : Workload) (k : NetworkAddress) (m : ByAddr) → Filled m → Filled (insert_address w k m)
unfolding insert_address
insert_address-Filled w k m f = elim (Option-cases (get k m)) [
  | inl e ↦ rw (e, insert_address) (insert-Filled k (single w) m (λ q. cc) f)
  | inr (ws, e) ↦
      rw (e, insert_address)
        (insert-Filled k (insert_workload_at w ws) m (insert_workload_at_filled w ws) f)
]

insert_addresses-Filled :
    (w : Workload) (ips : List Str) (m : ByAddr) → Filled m → Filled (insert_addresses w ips m)
unfolding insert_addresses
insert_addresses-Filled w [] m f = f
insert_addresses-Filled w (ip ∷ ips) m f =
    let k = network_addr w.network ip in
    insert_addresses-Filled w ips (insert_address w k m) (insert_address-Filled w k m f)

one_or_many-Filled :
    (k : NetworkAddress) (ws : List Workload) (m : ByAddr)
    → Filled m
    → Filled (occupied k (one_or_many ws) m)
one_or_many-Filled k [] m f = remove-Filled k m f
one_or_many-Filled k (w ∷ []) m f = insert-Filled k (single w) m (λ q. cc) f
one_or_many-Filled k (v ∷ w ∷ ws) m f = insert-Filled k (many (v ∷ w ∷ ws)) m (λ q. cc) f

single-Filled :
    (k : NetworkAddress) (w : Workload) (b : Bool) (m : ByAddr)
    → Filled m
    → Filled (occupied k (single w, b) m)
single-Filled k w true m f = remove-Filled k m f
single-Filled k w false m f = insert-Filled k (single w) m (λ q. cc) f

remove_uid-Filled :
    (uid : Str) (k : NetworkAddress) (ws : WorkloadByAddr) (m : ByAddr)
    → Filled m
    → Filled (occupied k (remove_uid uid ws) m)
unfolding remove_uid
remove_uid-Filled uid k (single w) m f = single-Filled k w (w.uid == uid) m f
remove_uid-Filled uid k (many ws) m f = one_or_many-Filled k (retain _ ws) m f

remove_at-Filled :
    (uid : Str) (k : NetworkAddress) (m : ByAddr) → Filled m → Filled (remove_at uid k m)
unfolding remove_at
remove_at-Filled uid k m f = elim (Option-cases (get k m)) [
  | inl e ↦ rw (e, remove_at) f
  | inr (ws, e) ↦ rw (e, remove_at) (remove_uid-Filled uid k ws m f)
]

remove_addresses-Filled :
    (uid network : Str) (ips : List Str) (m : ByAddr)
    → Filled m
    → Filled (remove_addresses uid network ips m)
unfolding remove_addresses
remove_addresses-Filled uid network [] m f = f
remove_addresses-Filled uid network (ip ∷ ips) m f =
    let k = network_addr network ip in
    remove_addresses-Filled uid network ips (remove_at uid k m) (remove_at-Filled uid k m f)

if_Filled : (b : Bool) (m m' : ByAddr) → Filled m → Filled m' → Filled (if b then m else m')
if_Filled true m m' f g = f
if_Filled false m m' f g = g

pub remove_workload-Filled :
    (uid : Str) (st : WorkloadStore) → Filled st.by_addr → Filled (remove_workload uid st).0.by_addr
unfolding remove_workload
remove_workload-Filled uid st f = elim (Option-cases (get uid st.by_uid)) [
  | inl e ↦ rw (e, remove_workload) f
  | inr (prev, e) ↦
      rw (e, remove_workload)
        (if_Filled (is_host_network prev.network_mode) _ _ f
          (remove_addresses-Filled prev.uid prev.network prev.workload_ips st.by_addr f))
]

pub insert_workload-Filled :
    (w : Workload) (st : WorkloadStore) → Filled st.by_addr → Filled (insert_workload w st).by_addr
unfolding insert_workload
insert_workload-Filled w st f =
    let g = remove_workload-Filled w.uid st f in
    if_Filled (is_host_network w.network_mode) _ _ g
      (insert_addresses-Filled w w.workload_ips (remove_workload w.uid st).0.by_addr g)
