-- ===== src/Filters/Headers.antt =====
-- The header half of filters.rs: `HeaderModifier`. Header maps are those of the `http` crate, taken
-- as an interface with their documented laws.
pub mod Modify
use agentproxy.Prelude.{
  ◌≡◌, Option, none, some, List, [], ◌∷◌, ◌++◌, if◌then◌else◌, Str, str_eq, ◌==◌,
}
use agentproxy.Prelude.Outcome.{Outcome, ok, err, panic}
use agentproxy.Filters.Uris.{Error, invalid_header_name, invalid_header_value}

-- A header map has a list of values for each name. A name is looked up in the form that
-- `header_name` gives it; both parsers answer `none` where they return an error.
pub record HeaderLib : Type 1 where
  pub Headers : Type 0
  pub header_name : Str → Option Str
  pub header_value : Str → Option Str
  pub empty : Headers
  pub get_all : Headers → Str → List Str
  pub append : Headers → (name value : Str) → Headers
  pub insert : Headers → (name value : Str) → Headers
  pub remove : Headers → (name : Str) → Headers
  pub get_all-empty : (n : Str) → get_all empty n ≡ []
  pub get_all-append :
      (h : Headers) (k v n : Str)
      → get_all (append h k v) n ≡ (if k == n then get_all h n ++ v ∷ [] else get_all h n)
  pub get_all-insert :
      (h : Headers) (k v n : Str)
      → get_all (insert h k v) n ≡ (if k == n then v ∷ [] else get_all h n)
  pub get_all-remove :
      (h : Headers) (k n : Str) → get_all (remove h k) n ≡ (if k == n then [] else get_all h n)

-- Names and values as configured, not yet parsed.
pub record HeaderModifier : Type 0 where
  pub add : List (Str × Str)
  pub set : List (Str × Str)
  pub remove : List Str

module _ (lib : HeaderLib) where
  open lib use {Headers, header_name, header_value, append, insert, remove as remove_name}

  -- The three loops; each stops at its first error, and what was done before stays done.
  apply_add : Headers → List (Str × Str) → Headers × Outcome Error (Unit {0})
  apply_add h [] = (h, ok tt)
  apply_add h ((k, v) ∷ rest) = elim (header_name k) [
    | none ↦ (h, err invalid_header_name)
    | some n ↦ elim (header_value v) [
      | none ↦ (h, err invalid_header_value)
      | some w ↦ apply_add (append h n w) rest
    ]
  ]

  apply_set : Headers → List (Str × Str) → Headers × Outcome Error (Unit {0})
  apply_set h [] = (h, ok tt)
  apply_set h ((k, v) ∷ rest) = elim (header_name k) [
    | none ↦ (h, err invalid_header_name)
    | some n ↦ elim (header_value v) [
      | none ↦ (h, err invalid_header_value)
      | some w ↦ apply_set (insert h n w) rest
    ]
  ]

  apply_remove : Headers → List Str → Headers × Outcome Error (Unit {0})
  apply_remove h [] = (h, ok tt)
  apply_remove h (k ∷ rest) = elim (header_name k) [
    | none ↦ (h, err invalid_header_name)
    | some n ↦ apply_remove (remove_name h n) rest
  ]

  abbrev pub and_then :
      Headers × Outcome Error (Unit {0})
      → (Headers → Headers × Outcome Error (Unit {0}))
      → Headers × Outcome Error (Unit {0})
  and_then (h, ok u) next = next h
  and_then (h, err e) next = (h, err e)
  and_then (h, panic) next = (h, panic)

  -- `HeaderModifier::apply`.
  unfoldable pub modify_headers : HeaderModifier → Headers → Headers × Outcome Error (Unit {0})
  unfolding apply_add apply_set apply_remove
  modify_headers m h =
      and_then (and_then (apply_add h m.add) (λ g. apply_set g m.set))
        (λ g. apply_remove g m.remove)
