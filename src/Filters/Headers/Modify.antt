-- ===== src/Filters/Headers/Modify.antt =====
-- What a header modifier leaves under each name.
use agentproxy.Prelude.{
  ◌≡◌, refl, inl, inr, arith, Bool, false, ◌||◌, Option, none, some, List, [], ◌∷◌, ◌++◌,
  if◌then◌else◌, Str, str_eq, ◌==◌, or_else, Option-cases,
}
use agentproxy.Prelude.Outcome.{Outcome, ok, err, panic}
use agentproxy.Filters.Uris.{Error}
use agentproxy.Filters.Headers.{
  HeaderLib, HeaderModifier, apply_add, apply_set, apply_remove, and_then, modify_headers,
}
use mathlib.Core.List.{append_assoc, append-nil}

module _ (lib : HeaderLib) where
  open lib use {
    Headers, header_name, header_value, get_all, append, insert, remove as remove_name,
    get_all-append, get_all-insert, get_all-remove,
  }

  -- The parsed value, if the parsed name is `n`.
  abbrev value_for : Str → Str → Str → Option Str
  value_for n k v = elim (header_name k) [
    | none ↦ none
    | some m ↦ if m == n then header_value v else none
  ]

  -- All values that are added under `n`.
  abbrev pub added_for : Str → List (Str × Str) → List Str
  added_for n [] = []
  added_for n ((k, v) ∷ rest) = elim (value_for n k v) [
    | none ↦ added_for n rest
    | some w ↦ w ∷ added_for n rest
  ]

  -- The value that is set last under `n`.
  abbrev pub set_for : Str → List (Str × Str) → Option Str
  set_for n [] = none
  set_for n ((k, v) ∷ rest) = or_else (set_for n rest) (value_for n k v)

  abbrev name_is : Str → Option Str → Bool
  name_is n none = false
  name_is n (some m) = m == n

  abbrev pub is_removed : Str → List Str → Bool
  is_removed n [] = false
  is_removed n (k ∷ rest) = name_is n (header_name k) || is_removed n rest

  abbrev pub set_over : Option Str → List Str → List Str
  set_over none old = old
  set_over (some w) old = w ∷ []

  get_all-apply_add :
      (n : Str) (h : Headers) (l : List (Str × Str))
      → (apply_add lib h l).1 ≡ ok tt
      → get_all (apply_add lib h l).0 n ≡ get_all h n ++ added_for n l
  unfolding apply_add
  get_all-apply_add n h [] e = ground (arith, append-nil (get_all h n))
  get_all-apply_add n h ((k, v) ∷ rest) e = elim (Option-cases (header_name k)) [
    | inl bad ↦ ground arith
    | inr (m, em) ↦ elim (Option-cases (header_value v)) [
      | inl bad ↦ ground arith
      | inr (w, ew) ↦ ground (
        arith,
        get_all-apply_add n (append h m w) rest,
        get_all-append h m w n,
        append_assoc (get_all h n) (w ∷ []) (added_for n rest),
      )
    ]
  ]

  get_all-apply_set :
      (n : Str) (h : Headers) (l : List (Str × Str))
      → (apply_set lib h l).1 ≡ ok tt
      → get_all (apply_set lib h l).0 n ≡ set_over (set_for n l) (get_all h n)
  unfolding apply_set
  get_all-apply_set n h [] e = refl
  get_all-apply_set n h ((k, v) ∷ rest) e = elim (Option-cases (header_name k)) [
    | inl bad ↦ ground arith
    | inr (m, em) ↦ elim (Option-cases (header_value v)) [
      | inl bad ↦ ground arith
      | inr (w, ew) ↦
          ground (arith, get_all-apply_set n (insert h m w) rest, get_all-insert h m w n)
    ]
  ]

  get_all-apply_remove :
      (n : Str) (h : Headers) (l : List Str)
      → (apply_remove lib h l).1 ≡ ok tt
      → get_all (apply_remove lib h l).0 n ≡ (if is_removed n l then [] else get_all h n)
  unfolding apply_remove
  get_all-apply_remove n h [] e = refl
  get_all-apply_remove n h (k ∷ rest) e = elim (Option-cases (header_name k)) [
    | inl bad ↦ ground arith
    | inr (m, em) ↦
        ground (arith, get_all-apply_remove n (remove_name h m) rest, get_all-remove h m n)
  ]

  and_then-ok :
      (p : Headers × Outcome Error (Unit {0})) (next : Headers → Headers × Outcome Error (Unit {0}))
      → (and_then lib p next).1 ≡ ok tt
      → (p.1 ≡ ok tt) × (and_then lib p next ≡ next p.0)
  and_then-ok (h, ok tt) next e = (refl, refl)
  and_then-ok (h, err x) next e = absurd (cc)
  and_then-ok (h, panic) next e = absurd (cc)

  -- A modifier that succeeds leaves under each name: nothing, if the name is to be removed; else
  -- the value that is set last, if the name is set; else the old values and after them those added.
  pub get_all-modify_headers :
      (m : HeaderModifier) (h : Headers) (n : Str)
      → (modify_headers lib m h).1 ≡ ok tt
      → get_all (modify_headers lib m h).0 n ≡ (
          if is_removed n m.remove
          then []
          else set_over (set_for n m.set) (get_all h n ++ added_for n m.add))
  unfolding modify_headers
  get_all-modify_headers m h n e =
      let added = apply_add lib h m.add in
      let both = and_then lib added (λ g. apply_set lib g m.set) in
      let (ok_both, whole) = and_then-ok both (λ g. apply_remove lib g m.remove) e in
      let (ok_added, mid) = and_then-ok added (λ g. apply_set lib g m.set) ok_both in
      ground (
        arith,
        whole,
        mid,
        get_all-apply_add n h m.add ok_added,
        get_all-apply_set n added.0 m.set,
        get_all-apply_remove n both.0 m.remove,
      )
