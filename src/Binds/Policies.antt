-- ===== src/Binds/Policies.antt =====
-- The policies that apply to a route and to a backend, of crates/agentgateway/src/store/binds.rs, with
-- `Policy` of crates/agentgateway/src/types/agent.rs. What most policies say is left open (`Payload`).
use agentproxy.Prelude.{
  Bool, true, false, Option, none, some, List, [], ◌∷◌, ◌++◌, Str, str_eq, ◌==◌, find_map, or_else,
  retain,
}
use agentproxy.Prelude.Map.{Map, get, values}
use agentproxy.RateLimit.{RateLimit, requests, tokens}
use agentproxy.RouteSet.{or_default}
use agentproxy.Mcp.Rbac.{RuleSet, RuleSets}
use agentproxy.Binds.{Store, TargetedPolicy}
use agentproxy.Binds.Targets.{PolicyTarget, gateway, route, route_rule, backend, target_eq}

-- What is left open, by its kind: the types of the configurations, and of LLM providers.
pub data OpenKind : Type 0 where
  mcp_authentication_kind a2a_kind backend_tls_kind backend_auth_kind ai_kind : OpenKind
  ext_authz_kind remote_rate_limit_kind jwt_kind transformation_kind provider_kind : OpenKind

abbrev pub Payload : Type 1
Payload = OpenKind → Type 0

pub data Policy (Expr : Type 0) (P : Payload) : Type 0 where
  mcp_authorization : RuleSet Expr → Policy Expr P
  mcp_authentication : P mcp_authentication_kind → Policy Expr P
  a2a : P a2a_kind → Policy Expr P
  backend_tls : P backend_tls_kind → Policy Expr P
  backend_auth : P backend_auth_kind → Policy Expr P
  ai : P ai_kind → Policy Expr P
  local_rate_limit : List RateLimit → Policy Expr P
  ext_authz : P ext_authz_kind → Policy Expr P
  remote_rate_limit : P remote_rate_limit_kind → Policy Expr P
  jwt_auth : P jwt_kind → Policy Expr P
  transformation : P transformation_kind → Policy Expr P

pub record BackendPolicies (P : Payload) : Type 0 where
  pub tls_policy : Option (P backend_tls_kind)
  pub auth_policy : Option (P backend_auth_kind)
  pub a2a_policy : Option (P a2a_kind)
  pub llm_provider : Option (P provider_kind × Bool)
  pub llm_policy : Option (P ai_kind)

-- `BackendPolicies::merge`.
unfoldable pub merge : {P : Payload} → BackendPolicies P → BackendPolicies P → BackendPolicies P
merge own given = record {
  tls_policy = or_else given.tls_policy own.tls_policy;
  auth_policy = or_else given.auth_policy own.auth_policy;
  a2a_policy = or_else given.a2a_policy own.a2a_policy;
  llm_provider = or_else given.llm_provider own.llm_provider;
  llm_policy = or_else given.llm_policy own.llm_policy;
}

pub record RoutePolicies (P : Payload) : Type 0 where
  pub rate_limits : List RateLimit
  pub remote_limit : Option (P remote_rate_limit_kind)
  pub jwt : Option (P jwt_kind)
  pub authz : Option (P ext_authz_kind)
  pub transformer : Option (P transformation_kind)

abbrev counts_tokens : RateLimit → Bool
counts_tokens l = elim l.limit_type [ requests ↦ false | tokens ↦ true ]

-- `LLMRoutePolicies::from`.
unfoldable pub llm_route_policies : {P : Payload} → RoutePolicies P → List RateLimit
llm_route_policies p = retain counts_tokens p.rate_limits

module _ {Expr : Type 0} {P : Payload} where
  abbrev pub as_local_rate_limit : Policy Expr P → Option (List RateLimit)
  as_local_rate_limit (local_rate_limit l) = some l
  as_local_rate_limit _ = none

  abbrev pub as_jwt : Policy Expr P → Option (P jwt_kind)
  as_jwt (jwt_auth j) = some j
  as_jwt _ = none

  abbrev pub as_ext_authz : Policy Expr P → Option (P ext_authz_kind)
  as_ext_authz (ext_authz e) = some e
  as_ext_authz _ = none

  abbrev pub as_remote_rate_limit : Policy Expr P → Option (P remote_rate_limit_kind)
  as_remote_rate_limit (remote_rate_limit r) = some r
  as_remote_rate_limit _ = none

  abbrev pub as_transformation : Policy Expr P → Option (P transformation_kind)
  as_transformation (transformation t) = some t
  as_transformation _ = none

  abbrev as_backend_tls : Policy Expr P → Option (P backend_tls_kind)
  as_backend_tls (backend_tls t) = some t
  as_backend_tls _ = none

  abbrev as_backend_auth : Policy Expr P → Option (P backend_auth_kind)
  as_backend_auth (backend_auth a) = some a
  as_backend_auth _ = none

  abbrev as_a2a : Policy Expr P → Option (P a2a_kind)
  as_a2a (a2a a) = some a
  as_a2a _ = none

  abbrev as_ai : Policy Expr P → Option (P ai_kind)
  as_ai (ai a) = some a
  as_ai _ = none

  abbrev as_mcp_authentication : Policy Expr P → Option (P mcp_authentication_kind)
  as_mcp_authentication (mcp_authentication a) = some a
  as_mcp_authentication _ = none

  abbrev as_mcp_authorization : Policy Expr P → Option (RuleSet Expr)
  as_mcp_authorization (mcp_authorization r) = some r
  as_mcp_authorization _ = none

module _ {Expr Backend : Type 0} {P : Payload} where
  -- The names that are filed under a target.
  abbrev pub names_at : PolicyTarget → Store (Policy Expr P) Backend → List Str
  names_at t s = or_default (get t s.policies_by_target)

module _ {Expr : Type 0} {P : Payload} where
  abbrev pub lookup_all :
      Map Str (TargetedPolicy (Policy Expr P)) → List Str → List (TargetedPolicy (Policy Expr P))
  lookup_all m [] = []
  lookup_all m (n ∷ ns) =
      let rest = lookup_all m ns in elim (get n m) [ none ↦ rest | some p ↦ p ∷ rest ]

  -- The first of a kind.
  abbrev pub first_of :
      {A : Type 0} → (Policy Expr P → Option A) → List (TargetedPolicy (Policy Expr P)) → Option A
  first_of kind ps = find_map (λ p. kind p.policy) ps

module _ {Expr Backend : Type 0} {P : Payload} (s : Store (Policy Expr P) Backend) where
  -- The policies of the rule, then those of the route, then those of the gateway.
  unfoldable pub route_rules : Str → Str → Str → List (TargetedPolicy (Policy Expr P))
  route_rules rule_key route_name gateway_name = lookup_all s.policies_by_name (
      names_at (route_rule rule_key) s
      ++ (names_at (route route_name) s ++ names_at (gateway gateway_name) s))

  unfoldable pub route_policies : Str → Str → Str → RoutePolicies P
  route_policies rule_key route_name gateway_name =
      let rules = route_rules rule_key route_name gateway_name in
      record {
        rate_limits = or_default (first_of as_local_rate_limit rules);
        remote_limit = first_of as_remote_rate_limit rules;
        jwt = first_of as_jwt rules;
        authz = first_of as_ext_authz rules;
        transformer = first_of as_transformation rules;
      }

  abbrev pub at_target : PolicyTarget → List (TargetedPolicy (Policy Expr P))
  at_target t = retain (λ p. p.target == t) (values s.policies_by_name)

  unfoldable pub backend_policies : PolicyTarget → BackendPolicies P
  backend_policies t = record {
    tls_policy = first_of as_backend_tls (at_target t);
    auth_policy = first_of as_backend_auth (at_target t);
    a2a_policy = first_of as_a2a (at_target t);
    llm_provider = none;
    llm_policy = first_of as_ai (at_target t);
  }

  abbrev all_rule_sets : List (TargetedPolicy (Policy Expr P)) → RuleSets Expr
  all_rule_sets [] = []
  all_rule_sets (p ∷ ps) = elim (as_mcp_authorization p.policy) [
    | none ↦ all_rule_sets ps
    | some r ↦ r ∷ all_rule_sets ps
  ]

  unfoldable pub mcp_policies : Str → RuleSets Expr × Option (P mcp_authentication_kind)
  mcp_policies name =
      let ps = at_target (backend name) in (all_rule_sets ps, first_of as_mcp_authentication ps)
