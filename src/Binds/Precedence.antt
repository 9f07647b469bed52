-- ===== src/Binds/Precedence.antt =====
-- Which policies apply to a route: those of its rule before those of the route and of the gateway.
use agentproxy.Prelude.{
  ◌≡◌, refl, sym, ap, ◌∙◌, ◌⊎◌, inl, inr, true, Option, none, some, List, [], ◌∷◌, ◌++◌, Str,
  str_eq, ◌==◌, ==_eq, ==_refl, ==_iff, or_else, Bool-cases, Option-cases, arith,
}
use agentproxy.Prelude.Map.{Map, get, member}
use agentproxy.RateLimit.{RateLimit}
use agentproxy.RouteSet.{or_default}
use agentproxy.Binds.{Store, TargetedPolicy}
use agentproxy.Binds.Targets.{PolicyTarget, gateway, route, route_rule, target_eq}
use agentproxy.Binds.Index.{IsIndexed, has_target}
use agentproxy.Binds.Policies.{
  Payload, Policy, as_local_rate_limit, as_jwt, as_ext_authz, as_remote_rate_limit,
  as_transformation, names_at, lookup_all, first_of, route_rules, route_policies,
}

module _ {Expr A : Type 0} {P : Payload} (kind : Policy Expr P → Option A) where
  first_of-append :
      (m : Map Str (TargetedPolicy (Policy Expr P))) (ns ks : List Str)
      → first_of kind (lookup_all m (ns ++ ks))
        ≡ or_else (first_of kind (lookup_all m ns)) (first_of kind (lookup_all m ks))
  first_of-append m [] ks = refl
  first_of-append m (n ∷ ns) ks = ground (arith, first_of-append m ns ks)

  -- A policy of the kind among the names.
  abbrev Among : Map Str (TargetedPolicy (Policy Expr P)) → List Str → A → Type 0
  Among m ns a =
      (n : Str) × (p : TargetedPolicy (Policy Expr P)) × (member n ns ≡ true)
      × (get n m ≡ some p)
      × (kind p.policy ≡ some a)

  abbrev NoneAmong : Map Str (TargetedPolicy (Policy Expr P)) → List Str → Type 0
  NoneAmong m ns =
      (n : Str) (p : TargetedPolicy (Policy Expr P))
      → member n ns ≡ true
      → get n m ≡ some p
      → kind p.policy ≡ none

  abbrev Searched : Map Str (TargetedPolicy (Policy Expr P)) → List Str → Option A → Type 0
  Searched m ns none = NoneAmong m ns
  Searched m ns (some a) = Among m ns a

  -- What the names before found is found among more names.
  later :
      (m : Map Str (TargetedPolicy (Policy Expr P))) (n : Str) (ns : List Str) (o : Option A)
      → ((p : TargetedPolicy (Policy Expr P)) → get n m ≡ some p → kind p.policy ≡ none)
      → Searched m ns o
      → Searched m (n ∷ ns) o
  unfolding member
  later m n ns none f h = λ k p i e. elim (Bool-cases (n == k)) [
    | inl q ↦ f p (ap (λ x. get x m) (==_eq n k q) ∙ e)
    | inr q ↦ h k p (ground arith) e
  ]
  later m n ns (some a) f (k, p, i, e, g) = (k, p, ground arith, e, g)

  step_none :
      (m : Map Str (TargetedPolicy (Policy Expr P))) (n : Str) (ns : List Str)
      → get n m ≡ none
      → first_of kind (lookup_all m (n ∷ ns)) ≡ first_of kind (lookup_all m ns)
  step_none m n ns e = ground arith

  step_other :
      (m : Map Str (TargetedPolicy (Policy Expr P))) (n : Str) (ns : List Str)
      (p : TargetedPolicy (Policy Expr P))
      → get n m ≡ some p
      → kind p.policy ≡ none
      → first_of kind (lookup_all m (n ∷ ns)) ≡ first_of kind (lookup_all m ns)
  step_other m n ns p e f = ground arith

  step_found :
      (m : Map Str (TargetedPolicy (Policy Expr P))) (n : Str) (ns : List Str)
      (p : TargetedPolicy (Policy Expr P)) (a : A)
      → get n m ≡ some p
      → kind p.policy ≡ some a
      → first_of kind (lookup_all m (n ∷ ns)) ≡ some a
  step_found m n ns p a e f = ground arith

  first_of-Searched :
      (m : Map Str (TargetedPolicy (Policy Expr P))) (ns : List Str)
      → Searched m ns (first_of kind (lookup_all m ns))
  unfolding member
  first_of-Searched m [] = λ n p i e. cc
  first_of-Searched m (n ∷ ns) = elim (Option-cases (get n m)) [
    | inl e ↦ rw (step_none m n ns e) (later m n ns _ (λ p f. cc) (first_of-Searched m ns))
    | inr (p, e) ↦ elim (Option-cases (kind p.policy)) [
      | inl f ↦
          rw (step_other m n ns p e f)
            (later m n ns _ (λ q g. ground arith) (first_of-Searched m ns))
      | inr (a, f) ↦ rw (step_found m n ns p a e f) (n, p, ground (arith, ==_refl n), e, f)
    ]
  ]

  -- A policy of the kind is attached to the target, or none is.
  abbrev AtTarget : Map Str (TargetedPolicy (Policy Expr P)) → PolicyTarget → A → Type 0
  AtTarget m t a =
      (n : Str) × (p : TargetedPolicy (Policy Expr P)) × (get n m ≡ some p)
      × (p.target ≡ t)
      × (kind p.policy ≡ some a)

  abbrev NoneAt : Map Str (TargetedPolicy (Policy Expr P)) → PolicyTarget → Type 0
  NoneAt m t =
      (n : Str) (p : TargetedPolicy (Policy Expr P))
      → get n m ≡ some p
      → p.target ≡ t
      → kind p.policy ≡ none

  abbrev Attached : Map Str (TargetedPolicy (Policy Expr P)) → PolicyTarget → Option A → Type 0
  Attached m t none = NoneAt m t
  Attached m t (some a) = AtTarget m t a

  -- The policy is one of the first target that has a policy of the kind.
  abbrev pub Chosen :
      Map Str (TargetedPolicy (Policy Expr P))
      → (first second third : PolicyTarget) → Option A
      → Type 0
  Chosen m first second third none = NoneAt m first × NoneAt m second × NoneAt m third
  Chosen m first second third (some a) =
      AtTarget m first a
      ⊎ ((NoneAt m first × AtTarget m second a)
          ⊎ (NoneAt m first × NoneAt m second × AtTarget m third a))

  Attached-Chosen :
      (m : Map Str (TargetedPolicy (Policy Expr P))) (t u v : PolicyTarget) (a b c : Option A)
      → Attached m t a
      → Attached m u b
      → Attached m v c
      → Chosen m t u v (or_else a (or_else b c))
  Attached-Chosen m t u v (some a) b c f g h = inl f
  Attached-Chosen m t u v none (some b) c f g h = inr (inl (f, g))
  Attached-Chosen m t u v none none (some c) f g h = inr (inr (f, g, h))
  Attached-Chosen m t u v none none none f g h = (f, g, h)

  module _ {Backend : Type 0} (s : Store (Policy Expr P) Backend) (v : IsIndexed s) where
    names_have_target :
        (t : PolicyTarget) (n : Str) (p : TargetedPolicy (Policy Expr P))
        → get n s.policies_by_name ≡ some p
        → member n (names_at t s) ≡ (p.target == t)
    names_have_target t n p e = v.agrees t n ∙ ap (has_target t) e

    Searched-Attached :
        (t : PolicyTarget) (o : Option A)
        → Searched s.policies_by_name (names_at t s) o
        → Attached s.policies_by_name t o
    Searched-Attached t none h =
        λ n p e q. h n p (names_have_target t n p e ∙ ground (arith, ==_iff p.target t)) e
    Searched-Attached t (some a) (n, p, i, e, f) =
        (n, p, e, ==_eq p.target t (sym (names_have_target t n p e) ∙ i), f)

    first_of-Attached :
        (t : PolicyTarget)
        → Attached s.policies_by_name t
            (first_of kind (lookup_all s.policies_by_name (names_at t s)))
    first_of-Attached t =
        Searched-Attached t _ (first_of-Searched s.policies_by_name (names_at t s))

    first_of-Chosen :
        (rule_key route_name gateway_name : Str)
        → Chosen s.policies_by_name
            (route_rule rule_key)
            (route route_name)
            (gateway gateway_name)
            (first_of kind (route_rules s rule_key route_name gateway_name))
    unfolding route_rules
    first_of-Chosen rule_key route_name gateway_name =
        let t = route_rule rule_key in
        let u = route route_name in
        let w = gateway gateway_name in
        rw
          (
            first_of-append s.policies_by_name (names_at t s) (names_at u s ++ names_at w s),
            first_of-append s.policies_by_name (names_at u s) (names_at w s),
          )
          (Attached-Chosen s.policies_by_name t u w _ _ _ (first_of-Attached t)
            (first_of-Attached u) (first_of-Attached w))

module _ {Expr Backend : Type 0} {P : Payload} (s : Store (Policy Expr P) Backend) where
  -- The index of the policies by target agrees with the policies. Then, of each kind, the policy that
  -- applies to a route is one that is attached to its rule; only if there is none there it is one
  -- attached to the route, and only if there is none there either one attached to the gateway. If no
  -- policy of the kind is attached to any of the three, none applies.
  pub route_policies-Chosen :
      (rule_key route_name gateway_name : Str)
      → IsIndexed s
      → let rules = route_rule rule_key in
        let of_route = route route_name in
        let of_gateway = gateway gateway_name in
        let applied = route_policies s rule_key route_name gateway_name in
        Chosen as_jwt s.policies_by_name rules of_route of_gateway applied.jwt
        × Chosen as_ext_authz s.policies_by_name rules of_route of_gateway applied.authz
        × Chosen as_remote_rate_limit s.policies_by_name rules of_route of_gateway
            applied.remote_limit
        × Chosen as_transformation s.policies_by_name rules of_route of_gateway applied.transformer
        × ((limits : Option (List RateLimit)) × Chosen as_local_rate_limit s.policies_by_name rules
              of_route of_gateway limits
            × (applied.rate_limits ≡ or_default limits))
  unfolding route_policies
  route_policies-Chosen rule_key route_name gateway_name v = (
    first_of-Chosen as_jwt s v rule_key route_name gateway_name,
    first_of-Chosen as_ext_authz s v rule_key route_name gateway_name,
    first_of-Chosen as_remote_rate_limit s v rule_key route_name gateway_name,
    first_of-Chosen as_transformation s v rule_key route_name gateway_name,
    (_, first_of-Chosen as_local_rate_limit s v rule_key route_name gateway_name, refl),
  )
