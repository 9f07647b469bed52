-- ===== src/Discovery/Lookup.antt =====
-- What is found by an address after any insertions and removals of workloads.
use agentproxy.Prelude.{
  ◌≤◌, ◌≡◌, refl, sym, ap, ◌≢◌, inl, inr, true, false, Option, none, some, List, [], ◌∷◌, Str,
  str_eq, leb, leb→le, In, Bool-cases, arith, subst,
}
use agentproxy.Prelude.Map.{get}
use agentproxy.Select.{NetworkAddress}
use agentproxy.Discovery.{Workload, network_address_eq}
use agentproxy.Discovery.Workloads.{
  WorkloadByAddr, single, many, WorkloadStore, rank, max_from, get_workload, remove_workload,
  insert_workload, found, find_address, find_uid,
}
use agentproxy.Discovery.Entries.{members, members_of, entries}
use agentproxy.Discovery.Indexed.{
  Claims, IsIndexed, remove_workload-IsIndexed, insert_workload-IsIndexed,
}
use agentproxy.Discovery.Filled.{Filled, remove_workload-Filled, insert_workload-Filled}

-- One of the workloads, and no other ranks higher.
abbrev IsBest : Workload → List Workload → Type 0
IsBest w ws = In w ws × ((v : Workload) → In v ws → rank v ≤ rank w)

max_from_up :
    (best w : Workload) (ws : List Workload)
    → leb (rank best) (rank w) ≡ true
    → max_from best (w ∷ ws) ≡ max_from w ws
unfolding max_from
max_from_up best w ws e = rw e

max_from_stay :
    (best w : Workload) (ws : List Workload)
    → leb (rank best) (rank w) ≡ false
    → max_from best (w ∷ ws) ≡ max_from best ws
unfolding max_from
max_from_stay best w ws e = rw e

max_from_end : (best : Workload) → max_from best [] ≡ best
unfolding max_from
max_from_end best = refl

single-IsBest : (w : Workload) → IsBest w (w ∷ [])
single-IsBest w =
    (inl refl, λ v h. elim h [ inl q ↦ omega (arith, ap rank q) | inr b ↦ elim b [ ] ])

max_from-IsBest : (best : Workload) (ws : List Workload) → IsBest (max_from best ws) (best ∷ ws)
max_from-IsBest best [] = rw (max_from_end best) (single-IsBest best)
max_from-IsBest best (w ∷ ws) = elim (Bool-cases (leb (rank best) (rank w))) [
  | inl e ↦
      let (i, m) = max_from-IsBest w ws in
      let l = m w (inl refl) in
      subst (λ x. IsBest x (best ∷ w ∷ ws)) (sym (max_from_up best w ws e))
        (
          inr i,
          λ v h. elim h [
            | inl q ↦ omega (arith, ap rank q, leb→le (rank best) (rank w) e)
            | inr j ↦ m v j
          ],
        )
  | inr e ↦
      let (i, m) = max_from-IsBest best ws in
      let l = m best (inl refl) in
      let k : rank w ≤ rank best = ground arith in
      subst (λ x. IsBest x (best ∷ w ∷ ws)) (sym (max_from_stay best w ws e))
        (
          elim i [ inl q ↦ inl q | inr j ↦ inr (inr j) ],
          λ v h. elim h [
            | inl q ↦ m v (inl q)
            | inr (inl q) ↦ omega (arith, ap rank q)
            | inr (inr j) ↦ m v (inr j)
          ],
        )
]

get_workload-IsBest :
    (ws : WorkloadByAddr)
    → ws ≢ many []
    → (w : Workload) × (get_workload ws ≡ some w) × IsBest w (members ws)
unfolding get_workload
get_workload-IsBest (single w) n = (w, refl, single-IsBest w)
get_workload-IsBest (many []) n = absurd (n refl)
get_workload-IsBest (many (w ∷ ws)) n = (max_from w ws, refl, max_from-IsBest w ws)

-- What the search gives for the workloads under an address.
abbrev BestOf : Option Workload → List Workload → Type 0
BestOf none ws = (v : Workload) → ¬ In v ws
BestOf (some w) ws = IsBest w ws

found-BestOf :
    (o : Option WorkloadByAddr)
    → o ≢ some (many [])
    → (r : Option Workload) × (found o ≡ some r) × BestOf r (members_of o)
found-BestOf none n = (none, refl, λ v h. elim h [ ])
found-BestOf (some ws) n =
    let (w, e, b) = get_workload-IsBest ws (λ q. n (ap some q)) in (some w, ground arith, b)

-- What is done to the store.
pub data Change : Type 0 where
  inserted : Workload → Change
  removed : Str → Change

abbrev pub change : Change → WorkloadStore → WorkloadStore
change (inserted w) st = insert_workload w st
change (removed uid) st = (remove_workload uid st).0

abbrev pub changes : List Change → WorkloadStore → WorkloadStore
changes [] st = st
changes (c ∷ cs) st = changes cs (change c st)

abbrev IsGood : WorkloadStore → Type 0
IsGood st = IsIndexed st × Filled st.by_addr

change-IsGood : (c : Change) (st : WorkloadStore) → IsGood st → IsGood (change c st)
change-IsGood (inserted w) st (v, f) =
    (insert_workload-IsIndexed w st v, insert_workload-Filled w st f)
change-IsGood (removed uid) st (v, f) =
    (remove_workload-IsIndexed uid st v, remove_workload-Filled uid st f)

changes-IsGood : (cs : List Change) (st : WorkloadStore) → IsGood st → IsGood (changes cs st)
changes-IsGood [] st g = g
changes-IsGood (c ∷ cs) st g = changes-IsGood cs (change c st) (change-IsGood c st g)

abbrev pub no_workloads : WorkloadStore
no_workloads = record { local_node = none; by_addr = []; by_uid = [] }

no_workloads-IsGood : IsGood no_workloads
unfolding get
no_workloads-IsGood = (
  record { keyed = λ uid w h. cc; sound = λ k w h. elim h [ ]; complete = λ k w h c. cc },
  λ k h. cc,
)

-- What an address finds: nothing if no stored workload claims it, and else a stored workload that
-- claims it, of the greatest rank.
abbrev pub Finds : WorkloadStore → NetworkAddress → Option Workload → Type 0
Finds st k none = (v : Workload) → find_uid v.uid st ≡ some v → ¬ Claims v k
Finds st k (some w) =
    (find_uid w.uid st ≡ some w)
    × Claims w k
    × ((v : Workload) → find_uid v.uid st ≡ some v → Claims v k → rank v ≤ rank w)

BestOf-Finds :
    (st : WorkloadStore) (k : NetworkAddress) (r : Option Workload)
    → IsIndexed st
    → BestOf r (entries k st.by_addr)
    → Finds st k r
unfolding find_uid
BestOf-Finds st k none v b = λ w g c. b w (v.complete k w g c)
BestOf-Finds st k (some w) v (i, m) =
    let (g, c) = v.sound k w i in (g, c, λ u h d. m u (v.complete k u h d))

-- After any insertions and removals of workloads in an empty store, a search by an address does not
-- panic. It finds nothing if no workload that is stored claims the address, by its network and IPs and
-- not being on the host's network, and else such a workload of the greatest rank.
pub find_address-Finds :
    (cs : List Change) (k : NetworkAddress)
    → (r : Option Workload) × (find_address k (changes cs no_workloads) ≡ some r)
      × Finds (changes cs no_workloads) k r
unfolding find_address
find_address-Finds cs k =
    let st = changes cs no_workloads in
    let (v, f) = changes-IsGood cs no_workloads no_workloads-IsGood in
    let (r, e, b) = found-BestOf (get k st.by_addr) (f k) in (r, e, BestOf-Finds st k r v b)
