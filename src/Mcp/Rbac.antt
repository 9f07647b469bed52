-- ===== src/Mcp/Rbac.antt =====
-- Authorisation of MCP requests, crates/agentgateway/src/mcp/rbac.rs. The expression language is a
-- parameter: how a context is built for a resource, and what an expression evaluates to in it.
use agentproxy.Prelude.{
  Bool, true, false, Option, none, some, List, [], ◌∷◌, ◌++◌, Str, any, is_empty, if◌then◌else◌,
}

pub record ResourceId : Type 0 where
  pub target : Str
  pub id : Str

pub data ResourceType : Type 0 where
  tool : ResourceId → ResourceType
  prompt : ResourceId → ResourceType
  resource : ResourceId → ResourceType

-- `ResourceType::target`.
abbrev pub resource_target : ResourceType → Str
resource_target (tool r) = r.target
resource_target (prompt r) = r.target
resource_target (resource r) = r.target

-- A value of the expression language: a Boolean or not.
pub data Value : Type 0 where
  bool : Bool → Value
  other : Value

-- `ContextBuilder::build_with_mcp` and `Executor::eval`; `none` is an error.
pub record Cel (Ctx Expr Exec : Type 0) : Type 0 where
  pub build : Ctx → ResourceType → Option Exec
  pub eval : Exec → Expr → Option Value

pub record RuleSet (Expr : Type 0) : Type 0 where
  pub rules : List Expr

abbrev pub RuleSets : Type 0 → Type 0
RuleSets Expr = List (RuleSet Expr)

-- `PolicySet::add`, with the parser of expressions as a parameter; `none` is an error.
abbrev pub add_policy : {T Expr : Type 0} → (T → Option Expr) → T → List Expr → Option (List Expr)
add_policy parse p ps = elim (parse p) [ none ↦ none | some e ↦ some (ps ++ e ∷ []) ]

module _ {Ctx Expr Exec : Type 0} (cel : Cel Ctx Expr Exec) where
  abbrev is_true : Option Value → Bool
  is_true (some (bool b)) = b
  is_true (some other) = false
  is_true none = false

  -- `Executor::eval_bool`.
  unfoldable pub eval_bool : Exec → Expr → Bool
  eval_bool exec e = is_true (cel.eval exec e)

  -- The loop over the rules returns at the first that holds.
  unfoldable pub validate_rules : RuleSet Expr → Exec → Bool
  unfolding eval_bool
  validate_rules s exec = if is_empty s.rules then true else any (eval_bool exec) s.rules

  unfoldable pub validate : RuleSets Expr → ResourceType → Ctx → Bool
  unfolding validate_rules
  validate sets res ctx = if is_empty sets then true else elim (cel.build ctx res) [
    | none ↦ false
    | some exec ↦ any (λ s. validate_rules s exec) sets
  ]
