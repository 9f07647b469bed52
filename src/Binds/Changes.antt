-- ===== src/Binds/Changes.antt =====
-- Any insertions and removals of policies.
use agentproxy.Prelude.{List, [], ◌∷◌, Str}
use agentproxy.Binds.{Store, TargetedPolicy, insert_policy, remove_policy}
use agentproxy.Binds.Index.{IsIndexed, insert_policy-IsIndexed, remove_policy-IsIndexed}

pub data PolicyChange (Policy : Type 0) : Type 0 where
  put : TargetedPolicy Policy → PolicyChange Policy
  dropped : Str → PolicyChange Policy

module _ {Policy Backend : Type 0} where
  abbrev pub change_policy : PolicyChange Policy → Store Policy Backend → Store Policy Backend
  change_policy (put pol) s = insert_policy pol s
  change_policy (dropped name) s = remove_policy name s

  abbrev pub change_policies :
      List (PolicyChange Policy) → Store Policy Backend → Store Policy Backend
  change_policies [] s = s
  change_policies (c ∷ cs) s = change_policies cs (change_policy c s)

  change_policy-IsIndexed :
      (c : PolicyChange Policy) (s : Store Policy Backend)
      → IsIndexed s
      → IsIndexed (change_policy c s)
  change_policy-IsIndexed (put pol) s v = insert_policy-IsIndexed pol s v
  change_policy-IsIndexed (dropped name) s v = remove_policy-IsIndexed name s v

  -- Any insertions of policies, new or updates, and removals of names keep a store whose index by
  -- target agrees with its policies so.
  pub change_policies-IsIndexed :
      (cs : List (PolicyChange Policy)) (s : Store Policy Backend)
      → IsIndexed s
      → IsIndexed (change_policies cs s)
  change_policies-IsIndexed [] s v = v
  change_policies-IsIndexed (c ∷ cs) s v =
      change_policies-IsIndexed cs (change_policy c s) (change_policy-IsIndexed c s v)
