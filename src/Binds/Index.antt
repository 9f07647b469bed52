-- ===== src/Binds/Index.antt =====
-- The index of policies by target agrees with the policies.
use agentproxy.Prelude.{
  ◌≡◌, refl, sym, ◌∙◌, subst, inl, inr, arith, Bool, true, false, ◌&&◌, Option, none, some, List,
  [], if◌then◌else◌, Str, str_eq, ◌==◌, ==_eq, Option-cases, Bool-cases,
}
use agentproxy.Prelude.Map.{
  Map, get, insert, remove, add, discard, member, get-insert, get-remove, member-add,
  member-discard,
}
use agentproxy.Prelude.Sorted.{some_injective}
use agentproxy.RouteSet.{or_default}
use agentproxy.Binds.Targets.{PolicyTarget, target_eq}
use agentproxy.Binds.{TargetedPolicy, Store, forget_name, insert_policy, remove_policy}

member-insert :
    (t u : PolicyTarget) (n : Str) (names : List Str) (index : Map PolicyTarget (List Str))
    → member n (or_default (get u (insert t names index)))
      ≡ (if t == u then member n names else member n (or_default (get u index)))
member-insert t u n names index = elim (Bool-cases (t == u)) [
  | inl same ↦ rw (get-insert t u names index, same)
  | inr other ↦ rw (get-insert t u names index, other)
]

forget_name_missing :
    (t : PolicyTarget) (name : Str) (index : Map PolicyTarget (List Str))
    → get t index ≡ none
    → forget_name t name index ≡ index
unfolding forget_name
forget_name_missing t name index e = ground arith

forget_name_found :
    (t : PolicyTarget) (name : Str) (index : Map PolicyTarget (List Str)) (names : List Str)
    → get t index ≡ some names
    → forget_name t name index ≡ insert t (discard name names) index
unfolding forget_name
forget_name_found t name index names e = ground arith

member-nil : (n : Str) → member n [] ≡ false
unfolding member
member-nil n = refl

member-forget_name :
    (t u : PolicyTarget) (name n : Str) (index : Map PolicyTarget (List Str))
    → member n (or_default (get u (forget_name t name index)))
      ≡ (if (t == u) && (name == n) then false else member n (or_default (get u index)))
member-forget_name t u name n index = elim (Option-cases (get t index)) [
  | inl missing ↦ elim (Bool-cases (t == u)) [
    | inl same ↦
        let e : get u index ≡ none = subst (λ x. get x index ≡ none) (==_eq t u same) missing in
        rw (forget_name_missing t name index missing, e, member-nil n) (ground arith)
    | inr other ↦ rw (forget_name_missing t name index missing, other)
  ]
  | inr (names, found) ↦ elim (Bool-cases (t == u)) [
    | inl same ↦
        let e : get u index ≡ some names =
          subst (λ x. get x index ≡ some names) (==_eq t u same) found in
        rw
          (
            forget_name_found t name index names found,
            member-insert t u n (discard name names) index,
            same,
            e,
          )
          (member-discard name n names)
    | inr other ↦ rw (
      forget_name_found t name index names found,
      member-insert t u n (discard name names) index,
      other,
    )
  ]
]

module _ {Policy : Type 0} where
  abbrev pub has_target : PolicyTarget → Option (TargetedPolicy Policy) → Bool
  has_target t none = false
  has_target t (some p) = p.target == t

  -- Whether the policies have one with the name and the target.
  abbrev pub targets : PolicyTarget → Str → Map Str (TargetedPolicy Policy) → Bool
  targets t n policies = has_target t (get n policies)

  targets-remove :
      (t : PolicyTarget) (name n : Str) (policies : Map Str (TargetedPolicy Policy))
      → targets t n (remove name policies) ≡ (if name == n then false else targets t n policies)
  targets-remove t name n policies = elim (Bool-cases (name == n)) [
    | inl h ↦ rw (get-remove name n policies, h)
    | inr h ↦ rw (get-remove name n policies, h)
  ]

  targets-insert :
      (t : PolicyTarget) (n : Str) (p : TargetedPolicy Policy)
      (policies : Map Str (TargetedPolicy Policy))
      → targets t n (insert p.name p policies)
        ≡ (if p.name == n then p.target == t else targets t n policies)
  targets-insert t n p policies = elim (Bool-cases (p.name == n)) [
    | inl h ↦ rw (get-insert p.name n p policies, h)
    | inr h ↦ rw (get-insert p.name n p policies, h)
  ]

module _ {Policy Backend : Type 0} where
  -- Policies stand under their names, and the index has a name under a target exactly if the policy
  -- of the name has the target.
  pub record IsIndexed (s : Store Policy Backend) : Type 0 where
    pub keyed :
        (n : Str) (p : TargetedPolicy Policy) → get n s.policies_by_name ≡ some p → p.name ≡ n
    pub agrees :
        (t : PolicyTarget) (n : Str)
        → member n (or_default (get t s.policies_by_target)) ≡ targets t n s.policies_by_name

  -- Without the policy of a name, the index has the name nowhere and the others as before.
  forgotten :
      (s : Store Policy Backend) (old : TargetedPolicy Policy) (name : Str)
      → IsIndexed s
      → get name s.policies_by_name ≡ some old
      → (t : PolicyTarget) (n : Str)
      → member n (or_default (get t (forget_name old.target name s.policies_by_target)))
        ≡ (if name == n then false else targets t n s.policies_by_name)
  forgotten s old name v e t n =
      let given = v.agrees t n in
      let same : (name == n) ≡ true → targets t n s.policies_by_name ≡ (old.target == t) = λ h.
        subst (λ k. targets t k s.policies_by_name ≡ (old.target == t)) (==_eq name n h) (rw e) in
      elim (Bool-cases (name == n)) [
        | inl h ↦
            rw (member-forget_name old.target t name n s.policies_by_target, h)
              (let g = same h in ground arith)
        | inr h ↦ rw (member-forget_name old.target t name n s.policies_by_target, h) (ground arith)
      ]

  remove_policy_found :
      (name : Str) (s : Store Policy Backend) (old : TargetedPolicy Policy)
      → get name s.policies_by_name ≡ some old
      → remove_policy name s ≡ record s {
        policies_by_name = remove name s.policies_by_name;
        policies_by_target = forget_name old.target name s.policies_by_target;
      }
  unfolding remove_policy
  remove_policy_found name s old e = ground arith

  remove_policy_missing :
      (name : Str) (s : Store Policy Backend)
      → get name s.policies_by_name ≡ none
      → remove_policy name s ≡ s
  unfolding remove_policy
  remove_policy_missing name s e = ground arith

  -- Removing a policy's name from a store whose index agrees with its policies keeps it so.
  pub remove_policy-IsIndexed :
      (name : Str) (s : Store Policy Backend) → IsIndexed s → IsIndexed (remove_policy name s)
  remove_policy-IsIndexed name s v = elim (Option-cases (get name s.policies_by_name)) [
    | inl missing ↦ rw (remove_policy_missing name s missing) v
    | inr (old, e) ↦ rw (remove_policy_found name s old e) (record {
      keyed = λ n p h. v.keyed n p (ground (arith, get-remove name n s.policies_by_name));
      agrees =
          λ t n. forgotten s old name v e t n ∙ sym (targets-remove t name n s.policies_by_name);
    })
  ]

  -- The index before the new name is added.
  cleared :
      (s : Store Policy Backend) (pol : TargetedPolicy Policy)
      → IsIndexed s
      → (index : Map PolicyTarget (List Str)) × (insert_policy pol s ≡ record s {
        policies_by_name = insert pol.name pol s.policies_by_name;
        policies_by_target =
            insert pol.target (add pol.name (or_default (get pol.target index))) index;
      })
        × ((t : PolicyTarget) (n : Str)
            → member n (or_default (get t index))
              ≡ (if pol.name == n then false else targets t n s.policies_by_name))
  unfolding insert_policy
  cleared s pol v = elim (Option-cases (get pol.name s.policies_by_name)) [
    | inl missing ↦ (
      s.policies_by_target,
      ground arith,
      λ t n. elim (Bool-cases (pol.name == n)) [
        | inl h ↦
            let e : get n s.policies_by_name ≡ none =
              subst (λ k. get k s.policies_by_name ≡ none) (==_eq pol.name n h) missing in
            v.agrees t n ∙ rw (e, h)
        | inr h ↦ rw h (v.agrees t n)
      ],
    )
    | inr (old, e) ↦ (
      forget_name old.target pol.name s.policies_by_target,
      ground arith,
      forgotten s old pol.name v e,
    )
  ]

  -- Inserting a policy, new or an update, into a store whose index agrees with its policies keeps
  -- it so.
  pub insert_policy-IsIndexed :
      (pol : TargetedPolicy Policy) (s : Store Policy Backend)
      → IsIndexed s
      → IsIndexed (insert_policy pol s)
  insert_policy-IsIndexed pol s v =
      let (index, e, clear) = cleared s pol v in
      rw e (record {
        keyed = λ n p h. elim (Bool-cases (pol.name == n)) [
          | inl same ↦
              let f : some pol ≡ some p =
                ground (arith, get-insert pol.name n pol s.policies_by_name) in
              subst (λ (x : TargetedPolicy Policy). x.name ≡ n) (some_injective f)
                (==_eq pol.name n same)
          | inr other ↦ v.keyed n p (ground (arith, get-insert pol.name n pol s.policies_by_name))
        ];
        agrees = λ t n.
            member-insert pol.target t n (add pol.name (or_default (get pol.target index))) index
            ∙ (entries index clear t n ∙ sym (targets-insert t n pol s.policies_by_name));
      })
    where
      entries :
          (index : Map PolicyTarget (List Str))
          → ((t : PolicyTarget) (n : Str)
              → member n (or_default (get t index))
                ≡ (if pol.name == n then false else targets t n s.policies_by_name))
          → (t : PolicyTarget) (n : Str)
          → (if pol.target == t
              then member n (add pol.name (or_default (get pol.target index)))
              else member n (or_default (get t index)))
            ≡ (if pol.name == n then pol.target == t else targets t n s.policies_by_name)
      entries index clear t n = elim (Bool-cases (pol.target == t)) [
        | inl same ↦
            let c =
              subst
                (λ x.
                  member n (or_default (get x index))
                  ≡ (if pol.name == n then false else targets t n s.policies_by_name))
                (sym (==_eq pol.target t same)) (clear t n) in
            ground (arith, member-add pol.name n (or_default (get pol.target index)))
        | inr other ↦ let c = clear t n in ground arith
      ]
