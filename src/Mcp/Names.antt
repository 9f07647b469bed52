-- ===== src/Mcp/Names.antt =====
-- Full names of resources, and the targets that they resolve to.
use agentproxy.Prelude.{
  ◌≡◌, refl, ◌⊎◌, ◌↔◌, inl, inr, Option, none, some, ◌∷◌, ◌++◌, Str, split_once, split_once_sound,
  split_once-append, Free, arith,
}
use agentproxy.Prelude.Outcome.{ok, ok_or}
use agentproxy.Mcp.{
  McpError, delimiter, Relay, parse_with, parse_resource_name, name_with, resource_name,
  invalid_resource_name,
}

-- A target is told from a full name: it is the only one, or its name does not hold the delimiter.
abbrev pub Resolves : Option Str → Str → Type 0
Resolves default target = (default ≡ some target) ⊎ ((default ≡ none) × Free delimiter target)

module _ {E : Type 0} where
  ok_or-ok :
      (o : Option (Str × Str)) (e : McpError E) (p : Str × Str) → ok_or o e ≡ ok p → o ≡ some p
  ok_or-ok none e p h = cc
  ok_or-ok (some q) e p h = cc

  pub parse_with-name_with :
      (default : Option Str) (target name : Str)
      → (parse_with {E = E} default (name_with default target name) ≡ ok (target, name))
        ↔ Resolves default target
  parse_with-name_with (some d) target name = ground arith
  parse_with-name_with none target name = (
    λ h. inr (
      refl,
      (split_once_sound delimiter (target ++ delimiter ∷ name) target name (
          ok_or-ok (split_once delimiter (target ++ delimiter ∷ name)) invalid_resource_name
            (target, name) h)).1,
    ),
    λ h. elim h [ inl d ↦ cc | inr (d, f) ↦ rw (split_once-append delimiter target name f) ],
  )

  -- The full name that the relay gives to a target's resource is resolved to the target and the
  -- resource exactly if the target is the only one of the relay, or the relay has no default target and
  -- the target's name does not hold the delimiter.
  pub parse-resource_name :
      {S U Expr : Type 0} (r : Relay S U Expr) (target name : Str)
      → (parse_resource_name {E = E} r (resource_name r target name) ≡ ok (target, name))
        ↔ Resolves r.default_target_name target
  unfolding parse_resource_name resource_name
  parse-resource_name r target name = parse_with-name_with r.default_target_name target name
