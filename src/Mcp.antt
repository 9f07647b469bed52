-- ===== src/Mcp.antt =====
-- The relay of MCP requests, crates/agentgateway/src/mcp/relay/mod.rs, with its pool of connections,
-- mcp/relay/pool.rs, and its authorisation, mcp/rbac.rs. An upstream is a value of a type `U`; what it
-- lists and how a connection to it is opened are parameters.
pub mod Rbac
mod Names
mod Access
mod Listed
mod Tests
use agentproxy.Prelude.{
  ℕ, Bool, true, false, Option, none, some, List, [], ◌∷◌, ◌++◌, map, Str, str_eq, codes,
  split_once, length, retain, if◌then◌else◌,
}
use agentproxy.Prelude.Map.{Map, get, insert, remove, contains}
use agentproxy.Prelude.Outcome.{Outcome, ok, err, panic, ok_or, ◌>>=◌}
use Rbac.{RuleSets, ResourceType, ResourceId, tool, prompt, resource, Cel, validate}

-- `McpError` with the messages of the relay, and the errors of an upstream.
pub data McpError (E : Type 0) : Type 0 where
  invalid_resource_name : McpError E
  not_allowed : McpError E
  service_not_found : Str → McpError E
  upstream_error : E → McpError E

-- `_`, the delimiter.
abbrev pub delimiter : ℕ
delimiter = 95

-- A target: its name, and what it is connected by.
pub record Target (S : Type 0) : Type 0 where
  pub name : Str
  pub spec : S

pub record ConnectionPool (S U : Type 0) : Type 0 where
  pub targets : List (Target S)
  pub by_name : Map Str U

-- The default target name is there if there is one target only.
pub record Relay (S U Expr : Type 0) : Type 0 where
  pub pool : ConnectionPool S U
  pub policies : RuleSets Expr
  pub default_target_name : Option Str

abbrev pub single_name : {S : Type 0} → List (Target S) → Option Str
single_name (t ∷ []) = some t.name
single_name _ = none

-- What the relay looks at in a tool or a prompt; the rest is the detail.
pub record Tool (D A : Type 0) : Type 0 where
  pub name : Str
  pub detail : D
  pub annotations : Option A

pub record Prompt (D : Type 0) : Type 0 where
  pub name : Str
  pub detail : D

-- The request that the relay sends on.
pub record Forwarded (U Args : Type 0) : Type 0 where
  pub upstream : U
  pub name : Str
  pub arguments : Args

abbrev pub parse_with : {E : Type 0} → Option Str → Str → Outcome (McpError E) (Str × Str)
parse_with (some target) res = ok (target, res)
parse_with none res = ok_or (split_once delimiter res) invalid_resource_name

abbrev pub name_with : Option Str → Str → Str → Str
name_with none target name = target ++ delimiter ∷ name
name_with (some default) target name = name

module _ {S U Expr : Type 0} where
  unfoldable pub new_relay : List (Target S) → RuleSets Expr → Relay S U Expr
  new_relay targets policies = record {
    pool = record { targets = targets; by_name = [] };
    policies = policies;
    default_target_name = single_name targets;
  }

  unfoldable pub parse_resource_name :
      {E : Type 0} → Relay S U Expr → Str → Outcome (McpError E) (Str × Str)
  parse_resource_name r res = parse_with r.default_target_name res

  unfoldable pub resource_name : Relay S U Expr → Str → Str → Str
  resource_name r target name = name_with r.default_target_name target name

-- A target is listed if it is connected.
abbrev pub connection : {U : Type 0} → Str → Option U → List (Str × U)
connection name none = []
connection name (some u) = (name, u) ∷ []

module _ {S U : Type 0} where
  -- `ConnectionPool::get`: its error is turned into `service_not_found` by every caller.
  unfoldable pub get_connection : Str → ConnectionPool S U → Option U
  get_connection name p = get name p.by_name

  abbrev pub list_from : List (Target S) → Map Str U → List (Str × U)
  list_from [] m = []
  list_from (t ∷ ts) m = connection t.name (get t.name m) ++ list_from ts m

  unfoldable pub remove_connection : Str → ConnectionPool S U → ConnectionPool S U × Option U
  remove_connection name p = (record p { by_name = remove name p.by_name }, get name p.by_name)

  -- `ConnectionPool::list`, in the order of the targets.
  unfoldable pub list_connections : ConnectionPool S U → List (Str × U)
  list_connections p = list_from p.targets p.by_name

  -- `connect`, with the opened upstream or its failure as a parameter.
  unfoldable pub connect :
      (Target S → Option U) → Target S → ConnectionPool S U → Option (ConnectionPool S U)
  connect start t p = if contains t.name p.by_name then some p else elim (start t) [
    | none ↦ none
    | some u ↦ some (record p { by_name = insert t.name u p.by_name })
  ]

  -- The loop of `initialize`: the pool as it is left, and whether every target was connected.
  unfoldable pub initialize_from :
      (Target S → Option U) → List (Target S) → ConnectionPool S U → ConnectionPool S U × Bool
  unfolding connect contains
  initialize_from start [] p = (p, true)
  initialize_from start (t ∷ ts) p =
      if contains t.name p.by_name
      then (p, false)
      else elim (connect start t p) [ none ↦ (p, false) | some q ↦ initialize_from start ts q ]

  unfoldable pub initialize : (Target S → Option U) → ConnectionPool S U → ConnectionPool S U × Bool
  unfolding initialize_from
  initialize start p = initialize_from start p.targets p

-- The upstream's answer is passed on.
abbrev pub pass_on : {E R : Type 0} → Outcome E R → Outcome (McpError E) R
pass_on (ok a) = ok a
pass_on (err e) = err (upstream_error e)
pass_on panic = panic

-- The checks before a request is sent on: the policies first, then the connection.
abbrev pub admit :
    {E U Args : Type 0}
    → Bool
    → Option U
    → Str
    → Str
    → Args
    → Outcome (McpError E) (Forwarded U Args)
admit false connection target id args = err not_allowed
admit true none target id args = err (service_not_found target)
admit true (some u) target id args = ok (record { upstream = u; name = id; arguments = args })

module _ {S U Ctx Expr Exec : Type 0} (cel : Cel Ctx Expr Exec) where
  module _ {D A : Type 0} where
    -- The tools of one upstream: those that the policies let the caller use, under their full names.
    abbrev pub shown_tools : Relay S U Expr → Ctx → Str → List (Tool D A) → List (Tool D A)
    shown_tools r ctx target ts =
        map
          (λ t. record {
            name = resource_name r target t.name;
            detail = t.detail;
            annotations = none;
          })
          (retain
            (λ t. validate cel r.policies (tool (record { target = target; id = t.name })) ctx) ts)

    -- The answers that are errors are left out.
    abbrev pub shown_answer :
        Relay S U Expr → Ctx → Str → Option (List (Tool D A)) → List (Tool D A)
    shown_answer r ctx target none = []
    shown_answer r ctx target (some ts) = shown_tools r ctx target ts

    abbrev pub merge_tools :
        Relay S U Expr → Ctx → (U → Option (List (Tool D A))) → List (Str × U) → List (Tool D A)
    merge_tools r ctx tools_of [] = []
    merge_tools r ctx tools_of ((target, u) ∷ us) =
        shown_answer r ctx target (tools_of u) ++ merge_tools r ctx tools_of us

    -- `tools_of` is an upstream's answer.
    unfoldable pub list_tools :
        Relay S U Expr → Ctx → (U → Option (List (Tool D A))) → List (Tool D A)
    list_tools r ctx tools_of = merge_tools r ctx tools_of (list_connections r.pool)

module _ {S U Expr D : Type 0} where
  abbrev named_prompts : Relay S U Expr → Str → Option (List (Prompt D)) → List (Prompt D)
  named_prompts r target none = []
  named_prompts r target (some ps) =
      map (λ p. record { name = resource_name r target p.name; detail = p.detail }) ps

  abbrev merge_prompts :
      Relay S U Expr → (U → Option (List (Prompt D))) → List (Str × U) → List (Prompt D)
  merge_prompts r prompts_of [] = []
  merge_prompts r prompts_of ((target, u) ∷ us) =
      named_prompts r target (prompts_of u) ++ merge_prompts r prompts_of us

  -- The prompts are not checked by the policies.
  unfoldable pub list_prompts : Relay S U Expr → (U → Option (List (Prompt D))) → List (Prompt D)
  list_prompts r prompts_of = merge_prompts r prompts_of (list_connections r.pool)

abbrev or_nothing : {D : Type 0} → Option (List D) → List D
or_nothing none = []
or_nothing (some ds) = ds

abbrev merge_answers : {U D : Type 0} → (U → Option (List D)) → List (Str × U) → List D
merge_answers answer_of [] = []
merge_answers answer_of ((target, u) ∷ us) = or_nothing (answer_of u) ++ merge_answers answer_of us

module _ {S U Expr D : Type 0} where
  -- Resources and their templates are merged as the upstreams give them.
  unfoldable pub list_resources : Relay S U Expr → (U → Option (List D)) → List D
  list_resources r resources_of = merge_answers resources_of (list_connections r.pool)

  unfoldable pub list_resource_templates : Relay S U Expr → (U → Option (List D)) → List D
  list_resource_templates r templates_of = merge_answers templates_of (list_connections r.pool)

module _ {S U Ctx Expr Exec : Type 0} (cel : Cel Ctx Expr Exec) where
  module _ {E Args : Type 0} where
    -- What comes before the call of the upstream.
    unfoldable pub forward :
        (ResourceId → ResourceType)
        → Relay S U Expr
        → Ctx
        → Str
        → Args
        → Outcome (McpError E) (Forwarded U Args)
    forward kind r ctx name args = do
      (target, id) ← parse_resource_name r name
      admit (validate cel r.policies (kind (record { target = target; id = id })) ctx)
          (get_connection target r.pool) target id args

    module _ {R : Type 0} (answer : Forwarded U Args → Outcome E R) (r : Relay S U Expr) where
      unfoldable pub call_tool : Ctx → Str → Args → Outcome (McpError E) R
      call_tool ctx name args = forward tool r ctx name args >>= λ req. pass_on (answer req)

      unfoldable pub get_prompt : Ctx → Str → Args → Outcome (McpError E) R
      get_prompt ctx name args = forward prompt r ctx name args >>= λ req. pass_on (answer req)

      unfoldable pub read_resource : Ctx → Str → Args → Outcome (McpError E) R
      read_resource ctx uri args = forward resource r ctx uri args >>= λ req. pass_on (answer req)
