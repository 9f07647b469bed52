-- ===== src/Hostname.antt =====
-- `HostnameMatch` of crates/agentgateway/src/types/agent.rs: the hostname keys of a listener's routes
-- and the order in which a request's host tries them.
pub mod Cover
mod Tests
use agentproxy.Prelude.{
  ℕ, ◌≡◌, ◌↔◌, arith, Bool, true, false, ◌&&◌, Option, none, some, List, [], ◌∷◌, ◌++◌, map,
  if◌then◌else◌, Eq, ◌==◌, ==_iff, str_eq, Str, codes, strip_prefix, starts_with, split, join, drop,
}

pub data HostnameMatch : Type 0 where
  exact : Str → HostnameMatch
  -- *.example.com -> wildcard example.com
  wildcard : Str → HostnameMatch
  any_host : HostnameMatch

abbrev pub hostname_beq : HostnameMatch → HostnameMatch → Bool
hostname_beq (exact s) (exact t) = s == t
hostname_beq (wildcard s) (wildcard t) = s == t
hostname_beq any_host any_host = true
hostname_beq _ _ = false

pub hostname_beq_iff : (a b : HostnameMatch) → (hostname_beq a b ≡ true) ↔ (a ≡ b)
hostname_beq_iff (exact s) (exact t) = ground (arith, ==_iff s t)
hostname_beq_iff (exact s) (wildcard t) = ground arith
hostname_beq_iff (exact s) any_host = ground arith
hostname_beq_iff (wildcard s) (exact t) = ground arith
hostname_beq_iff (wildcard s) (wildcard t) = ground (arith, ==_iff s t)
hostname_beq_iff (wildcard s) any_host = ground arith
hostname_beq_iff any_host (exact t) = ground arith
hostname_beq_iff any_host (wildcard t) = ground arith
hostname_beq_iff any_host any_host = ground arith

instance abbrev pub hostname_eq : Eq HostnameMatch
hostname_eq = record { beq = hostname_beq; beq_iff = hostname_beq_iff }

abbrev pub wildcard_prefix : Str
wildcard_prefix = codes "*."

abbrev pub dot : ℕ
dot = b'.'

-- `From<Strng>`.
unfoldable pub from_hostname : Str → HostnameMatch
unfolding strip_prefix
from_hostname s = elim (strip_prefix wildcard_prefix s) [ some t ↦ wildcard t | none ↦ exact s ]

-- `parts[i..]` for each `i`.
abbrev pub suffixes : List Str → List (List Str)
suffixes [] = []
suffixes (p ∷ ps) = (p ∷ ps) ∷ suffixes ps

wildcards : Str → List HostnameMatch
unfolding split join
wildcards hostname = map (λ ps. wildcard (join dot ps)) (suffixes (drop 1 (split dot hostname)))

all_actual_matches : Str → List HostnameMatch
unfolding wildcards starts_with
all_actual_matches hostname =
    (if starts_with wildcard_prefix hostname then [] else exact hostname ∷ []) ++ wildcards hostname

unfoldable pub all_matches : Str → List HostnameMatch
unfolding all_actual_matches
all_matches hostname = all_actual_matches hostname ++ any_host ∷ []

unfoldable pub all_matches_or_none : Option Str → List HostnameMatch
unfolding all_matches
all_matches_or_none none = any_host ∷ []
all_matches_or_none (some h) = all_matches h
