-- ===== src/Mcp/Tests.antt =====
-- The theorems on the relay at two targets, and runs of the operations.
use agentproxy.Prelude.{
  ℕ, ◌+◌, ◌≡◌, refl, ◌↔◌, inl, true, Option, none, some, List, [], ◌∷◌, Str, str_eq, codes, In,
  arith,
}
use agentproxy.Prelude.{split_once}
use agentproxy.Prelude.Map.{get}
use agentproxy.Prelude.Outcome.{Outcome, ok, err}
use agentproxy.Mcp.Rbac.{ResourceType, tool, prompt, resource, Cel, bool, validate, resource_target}
use agentproxy.Mcp.{
  not_allowed, invalid_resource_name, Relay, Tool, Forwarded, list_tools, forward, call_tool,
  get_prompt, read_resource, parse_resource_name, resource_name, get_connection, list_connections,
}
use agentproxy.Mcp.Names.{parse-resource_name, Resolves}
use agentproxy.Mcp.Access.{Answered, calls_iff}
use agentproxy.Mcp.Listed.{listed_tools_callable}

-- An expression is a target's name: it holds of that target's resources.
abbrev by_target : Cel ℕ Str ResourceType
by_target = record {
  build = λ ctx res. some res;
  eval = λ res target. some (bool (str_eq.beq (resource_target res) target));
}

abbrev git : Str
git = codes "git"

abbrev db : Str
db = codes "db"

-- Both targets are connected, and the rules allow the resources of one.
abbrev relay : Relay ℕ ℕ Str
relay = record {
  pool = record {
    targets = record { name = git; spec = 0 } ∷ record { name = db; spec = 1 } ∷ [];
    by_name = (git, 10) ∷ (db, 11) ∷ [];
  };
  policies = record { rules = git ∷ [] } ∷ [];
  default_target_name = none;
}

abbrev plain : Str → Tool ℕ ℕ
plain name = record { name = name; detail = 0; annotations = none }

abbrev tools : ℕ → Option (List (Tool ℕ ℕ))
tools u = some (plain (codes "list_all") ∷ [])

abbrev call_arguments : ℕ
call_arguments = 5

shown : list_tools by_target relay 0 tools ≡ plain (codes "git_list_all") ∷ []
unfolding list_tools list_connections get validate resource_name
shown = refl

hidden :
    forward by_target {E = ℕ} tool relay 0 (codes "db_list_all") call_arguments ≡ err not_allowed
unfolding forward parse_resource_name get_connection get validate split_once
hidden = refl

unknown :
    forward by_target {E = ℕ} tool relay 0 (codes "list") call_arguments ≡ err invalid_resource_name
unfolding forward parse_resource_name get_connection get validate split_once
unknown = refl

listed_tools_callable_example :
    (target : Str) × (u : ℕ) × (ts : List (Tool ℕ ℕ)) × (own : Tool ℕ ℕ) × (tools u ≡ some ts)
    × In own ts
    × (validate by_target relay.policies (tool (record { target = target; id = own.name })) 0
        ≡ true)
    × (forward by_target {E = ℕ} tool relay 0 (codes "git_list_all") call_arguments
        ≡ ok (record { upstream = u; name = own.name; arguments = call_arguments }))
unfolding list_tools list_connections get validate resource_name
listed_tools_callable_example =
    listed_tools_callable by_target relay 0 tools (plain (codes "git_list_all")) call_arguments refl
      (λ e. ground arith) (inl refl)

parse-resource_name_example :
    (parse_resource_name {E = ℕ} relay (resource_name relay git (codes "list_all"))
      ≡ ok (git, codes "list_all"))
    ↔ Resolves none git
parse-resource_name_example = parse-resource_name relay git (codes "list_all")

abbrev echo : Forwarded ℕ ℕ → Outcome ℕ ℕ
echo req = ok (req.upstream + req.arguments)

calls_iff_example :
    ((call_tool by_target echo relay 0 (codes "git_a") call_arguments ≡ ok 15)
      ↔ Answered by_target echo relay 0 (codes "git_a") call_arguments 15 tool)
    × ((get_prompt by_target echo relay 0 (codes "git_a") call_arguments ≡ ok 15)
        ↔ Answered by_target echo relay 0 (codes "git_a") call_arguments 15 prompt)
    × ((read_resource by_target echo relay 0 (codes "git_a") call_arguments ≡ ok 15)
        ↔ Answered by_target echo relay 0 (codes "git_a") call_arguments 15 resource)
calls_iff_example = calls_iff by_target echo relay 0 (codes "git_a") call_arguments 15

called : call_tool by_target echo relay 0 (codes "git_a") call_arguments ≡ ok 15
unfolding call_tool forward parse_resource_name get_connection get validate split_once
called = refl

-- A target whose name holds the delimiter is not found again.
misdirected :
    parse_resource_name {E = ℕ} relay (resource_name relay (codes "my_db") (codes "q"))
    ≡ ok (codes "my", codes "db_q")
unfolding parse_resource_name resource_name split_once
misdirected = refl
