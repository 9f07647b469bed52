-- ===== src/Prelude/Text.antt =====
-- Strings of the source (`Strng`, `&str`, header values) as lists of bytes, with the standard
-- library's operations on them that the program uses.
use Prim.Native.Nat.{ℕ, compare, Ordering}
use Prim.Native.Char.{code}
use Prim.Native.String.{String}
use mathlib.Core.Path.{◌≡◌, refl, ◌∙◌, ap}
use mathlib.Core.Logic.{inl, inr, ◌≢◌}
use mathlib.Core.Bool.{Bool, ◌&&◌}
use mathlib.Core.List.{List, [], ◌∷◌, ◌++◌, reverse}
use mathlib.Core.Option.{Option, none, some}
use native.Mathlib.Omega.{arith}
use agentproxy.Prelude.Tests.{nat_beq, if◌then◌else◌, Bool-cases, Option-cases}
use agentproxy.Prelude.Equality.{Eq, nat_eq, list_eq}
use agentproxy.Prelude.Lists.{is_empty, is_some, All}

abbrev pub Str : Type 0
Str = List ℕ

instance abbrev pub str_eq : Eq Str
str_eq = list_eq

-- The bytes of an ASCII literal.
abbrev pub codes : String → Str
codes String.[] = []
codes (String.◌∷◌ c s) = code c ∷ codes s

-- `str::strip_prefix`.
unfoldable pub strip_prefix : Str → Str → Option Str
strip_prefix [] s = some s
strip_prefix (c ∷ p) [] = none
strip_prefix (c ∷ p) (d ∷ s) = if nat_beq c d then strip_prefix p s else none

pub strip_prefix_sound : (p s t : Str) → strip_prefix p s ≡ some t → s ≡ p ++ t
unfolding strip_prefix
strip_prefix_sound [] s t h = ground arith
strip_prefix_sound (c ∷ p) [] t h = cc
strip_prefix_sound (c ∷ p) (d ∷ s) t h = ground (arith, strip_prefix_sound p s t)

pub strip_prefix_complete : (p t : Str) → strip_prefix p (p ++ t) ≡ some t
unfolding strip_prefix
strip_prefix_complete [] t = refl
strip_prefix_complete (c ∷ p) t = ground (arith, strip_prefix_complete p t)

-- `str::starts_with` and `str::ends_with`.
unfoldable pub starts_with : Str → Str → Bool
unfolding strip_prefix
starts_with p s = is_some (strip_prefix p s)

unfoldable pub ends_with : Str → Str → Bool
unfolding starts_with
ends_with p s = starts_with (reverse p) (reverse s)

-- `str::trim_end_matches` with a character.
unfoldable pub trim_end_matches : ℕ → Str → Str
trim_end_matches c [] = []
trim_end_matches c (x ∷ xs) =
    let rest = trim_end_matches c xs in if nat_beq x c && is_empty rest then [] else x ∷ rest

-- `n` times the character `c`.
abbrev pub replicate : ℕ → ℕ → Str
replicate ℕ.zero c = []
replicate (ℕ.suc n) c = c ∷ replicate n c

trim_step :
    (c x n : ℕ) (t xs : Str)
    → xs ≡ t ++ replicate n c
    → (m : ℕ) × (x ∷ xs ≡ (if nat_beq x c && is_empty t then [] else x ∷ t) ++ replicate m c)
trim_step c x n (y ∷ t) xs e = (n, ground arith)
trim_step c x n [] xs e = elim (Bool-cases (nat_beq x c)) [
  | inl same ↦ (ℕ.suc n, ground arith)
  | inr other ↦ (n, ground arith)
]

-- What is trimmed is a run of the character.
pub trim_end_matches_run : (c : ℕ) (s : Str) → (n : ℕ) × (s ≡ trim_end_matches c s ++ replicate n c)
unfolding trim_end_matches
trim_end_matches_run c [] = (0, refl)
trim_end_matches_run c (x ∷ xs) =
    let (n, e) = trim_end_matches_run c xs in trim_step c x n (trim_end_matches c xs) xs e

-- `str::split` on a character: the parts between its occurrences, always at least one.
abbrev pub push_first : ℕ → List Str → List Str
push_first c [] = (c ∷ []) ∷ []
push_first c (p ∷ ps) = (c ∷ p) ∷ ps

unfoldable pub split : ℕ → Str → List Str
split c [] = [] ∷ []
split c (x ∷ xs) = let parts = split c xs in if nat_beq x c then [] ∷ parts else push_first x parts

-- `[&str]::join` with a character.
unfoldable pub join : ℕ → List Str → Str
join c [] = []
join c (p ∷ []) = p
join c (p ∷ q ∷ ps) = p ++ (c ∷ join c (q ∷ ps))

join-push_first : (c x : ℕ) (ps : List Str) → join c (push_first x ps) ≡ x ∷ join c ps
unfolding join
join-push_first c x [] = refl
join-push_first c x (p ∷ []) = refl
join-push_first c x (p ∷ q ∷ ps) = refl

join_nil_first : (c : ℕ) (ps : List Str) → ps ≢ [] → join c ([] ∷ ps) ≡ c ∷ join c ps
unfolding join
join_nil_first c [] h = absurd (h refl)
join_nil_first c (q ∷ ps) h = refl

pub split-ne-nil : (c : ℕ) (s : Str) → split c s ≢ []
unfolding split
split-ne-nil c [] h = cc
split-ne-nil c (x ∷ xs) h = ground (arith, split-ne-nil c xs)

pub join-split : (c : ℕ) (s : Str) → join c (split c s) ≡ s
unfolding split
join-split c [] = unfold join in refl
join-split c (x ∷ xs) = ground (
  arith,
  join-split c xs,
  join-push_first c x (split c xs),
  join_nil_first c (split c xs),
  split-ne-nil c xs,
)

-- `str::split_once` with a character: what is before its first occurrence and what is after it.
abbrev pub with_first : ℕ → Option (Str × Str) → Option (Str × Str)
with_first x none = none
with_first x (some (a, b)) = some (x ∷ a, b)

unfoldable pub split_once : ℕ → Str → Option (Str × Str)
split_once c [] = none
split_once c (x ∷ xs) =
    let rest = split_once c xs in if nat_beq x c then some ([], xs) else with_first x rest

-- The character does not occur.
abbrev pub Free : ℕ → Str → Type 0
Free c s = All (λ x. x ≢ c) s

pub split_once-append : (c : ℕ) (a b : Str) → Free c a → split_once c (a ++ c ∷ b) ≡ some (a, b)
unfolding split_once
split_once-append c [] b f = ground arith
split_once-append c (x ∷ a) b (n, f) = ground (arith, split_once-append c a b f)

pub split_once_sound :
    (c : ℕ) (s a b : Str) → split_once c s ≡ some (a, b) → (s ≡ a ++ c ∷ b) × Free c a
unfolding split_once
split_once_sound c [] a b e = cc
split_once_sound c (x ∷ xs) a b e = elim (Bool-cases (nat_beq x c)) [
  | inl same ↦
      let w : a ≡ [] = ground arith in let v : x ∷ xs ≡ [] ++ c ∷ b = ground arith in rw w (v, tt)
  | inr other ↦ elim (Option-cases (split_once c xs)) [
    | inl n ↦ absurd (ground arith)
    | inr ((a', b'), g) ↦
        let (h, f) = split_once_sound c xs a' b' g in
        let w : a ≡ x ∷ a' = ground arith in
        let v : x ∷ xs ≡ x ∷ (a' ++ c ∷ b) = ground arith in rw w (v, (λ q. ground arith, f))
  ]
]

pub split_whole : (c : ℕ) (s : Str) → Free c s → split c s ≡ s ∷ []
unfolding split
split_whole c [] f = refl
split_whole c (x ∷ xs) (n, f) = ground (arith, split_whole c xs f)

pub split-append : (c : ℕ) (a b : Str) → Free c a → split c (a ++ c ∷ b) ≡ a ∷ split c b
unfolding split
split-append c [] b f = ground arith
split-append c (x ∷ a) b (n, f) = ground (arith, split-append c a b f)

-- What was joined is split into its parts, if none of them holds the character.
pub split-join :
    (c : ℕ) (p : Str) (ps : List Str) → All (Free c) (p ∷ ps) → split c (join c (p ∷ ps)) ≡ p ∷ ps
unfolding join
split-join c p [] (f, h) = split_whole c p f
split-join c p (q ∷ ps) (f, h) =
    split-append c p (join c (q ∷ ps)) f ∙ ap (λ qs. p ∷ qs) (split-join c q ps h)

push_first-Free :
    (c x : ℕ) (ps : List Str) → x ≢ c → All (Free c) ps → All (Free c) (push_first x ps)
push_first-Free c x [] n h = ((n, tt), tt)
push_first-Free c x (p ∷ ps) n (f, h) = ((n, f), h)

pub split-Free : (c : ℕ) (s : Str) → All (Free c) (split c s)
unfolding split
split-Free c [] = (tt, tt)
split-Free c (x ∷ xs) = elim (Bool-cases (nat_beq x c)) [
  | inl same ↦ rw same (tt, split-Free c xs)
  | inr other ↦ rw other (push_first-Free c x (split c xs) (λ q. ground arith) (split-Free c xs))
]

-- The byte order of `str::cmp`.
unfoldable pub str_cmp : Str → Str → Ordering
str_cmp [] [] = Ordering.eq
str_cmp [] (d ∷ t) = Ordering.lt
str_cmp (c ∷ s) [] = Ordering.gt
str_cmp (c ∷ s) (d ∷ t) = elim (compare c d) [
  | Ordering.lt ↦ Ordering.lt
  | Ordering.eq ↦ str_cmp s t
  | Ordering.gt ↦ Ordering.gt
]

pub str_cmp-eq : (s t : Str) → str_cmp s t ≡ Ordering.eq → s ≡ t
unfolding str_cmp
str_cmp-eq [] [] h = refl
str_cmp-eq [] (d ∷ t) h = cc
str_cmp-eq (c ∷ s) [] h = cc
str_cmp-eq (c ∷ s) (d ∷ t) h = ground (arith, str_cmp-eq s t)

pub str_cmp_refl : (s : Str) → str_cmp s s ≡ Ordering.eq
unfolding str_cmp
str_cmp_refl [] = refl
str_cmp_refl (c ∷ s) = ground (arith, str_cmp_refl s)
