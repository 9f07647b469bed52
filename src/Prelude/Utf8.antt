-- ===== src/Prelude/Utf8.antt =====
-- Characters in the bytes of a string: where they begin (`str::is_char_boundary`), and which bytes
-- make up whole characters.
use agentproxy.Prelude.{
  ℕ, zero, suc, ◌≤◌, ◌<◌, ◌≡◌, ◌⊎◌, ◌↔◌, inl, inr, arith, Bool, true, false, not, ◌&&◌, Option,
  none, some, [], ◌∷◌, ◌++◌, length, get_elem?, if◌then◌else◌, nat_beq, leb, ltb, Str, Option-cases,
  refl, sym, ◌∙◌,
}
use mathlib.Core.List.{append-nil}
use agentproxy.Prelude.Sorted.{get_elem?_lt, some_injective}

-- A byte that goes on with a character: 10xxxxxx.
abbrev pub is_continuation : ℕ → Bool
is_continuation b = leb 128 b && ltb b 192

unfoldable pub is_char_boundary : Str → ℕ → Bool
is_char_boundary s i =
    if nat_beq i 0
    then true
    else elim (get_elem? s i) [ none ↦ nat_beq i (length s) | some b ↦ not (is_continuation b) ]

-- How many bytes follow the first byte of a character.
abbrev following : ℕ → Option ℕ
following b =
    if ltb b 128
    then some 0
    else if leb 194 b && ltb b 224
    then some 1
    else if leb 224 b && ltb b 240
    then some 2
    else if leb 240 b && ltb b 245
    then some 3
    else none

-- Whole characters, after so many bytes of the one that was begun. Which bytes may follow a first
-- byte is not looked at: this holds of all UTF-8, and of more.
utf8_from : ℕ → Str → Bool
utf8_from zero [] = true
utf8_from (suc n) [] = false
utf8_from zero (b ∷ s) = elim (following b) [ none ↦ false | some n ↦ utf8_from n s ]
utf8_from (suc n) (b ∷ s) = is_continuation b && utf8_from n s

unfoldable pub is_utf8 : Str → Bool
unfolding utf8_from
is_utf8 s = utf8_from 0 s

rest_of_utf8 :
    (n : ℕ) (pfx rest : Str)
    → utf8_from n pfx ≡ true
    → utf8_from n (pfx ++ rest) ≡ true
    → utf8_from 0 rest ≡ true
unfolding utf8_from
rest_of_utf8 zero [] rest h k = k
rest_of_utf8 (suc n) [] rest h k = cc
rest_of_utf8 zero (b ∷ pfx) rest h k = elim (Option-cases (following b)) [
  | inl e ↦ absurd (ground arith)
  | inr (n, e) ↦ rest_of_utf8 n pfx rest (ground arith) (ground arith)
]
rest_of_utf8 (suc n) (b ∷ pfx) rest h k = rest_of_utf8 n pfx rest (ground arith) (ground arith)

begins_character : (b : ℕ) (s : Str) → utf8_from 0 (b ∷ s) ≡ true → is_continuation b ≡ false
unfolding utf8_from
begins_character b s h = ground arith

get_elem?-none : (s : Str) (i : ℕ) → get_elem? s i ≡ none → length s ≤ i
get_elem?-none [] i h = omega arith
get_elem?-none (b ∷ s) zero h = cc
get_elem?-none (b ∷ s) (suc i) h = omega (arith, get_elem?-none s i h)

get_elem?-append_nil : (s : Str) → get_elem? s (length s) ≡ none
get_elem?-append_nil [] = refl
get_elem?-append_nil (b ∷ s) = get_elem?-append_nil s

get_elem?-append_next : (s t : Str) (b : ℕ) → get_elem? (s ++ b ∷ t) (length s) ≡ some b
get_elem?-append_next [] t b = refl
get_elem?-append_next (c ∷ s) t b = get_elem?-append_next s t b

boundary_at_end :
    (s : Str) (i : ℕ) → get_elem? s i ≡ none → i ≡ length s → is_char_boundary s i ≡ true
unfolding is_char_boundary
boundary_at_end s i e f = rw e (ground arith)

boundary_before :
    (s : Str) (i b : ℕ)
    → get_elem? s i ≡ some b
    → is_continuation b ≡ false
    → is_char_boundary s i ≡ true
unfolding is_char_boundary
boundary_before s i b e f = rw e (ground arith)

-- After a whole number of characters comes the next, or the end.
pub is_char_boundary-append :
    (pfx rest : Str)
    → is_utf8 pfx ≡ true
    → is_utf8 (pfx ++ rest) ≡ true
    → is_char_boundary (pfx ++ rest) (length pfx) ≡ true
unfolding is_utf8
is_char_boundary-append pfx [] h k =
    rw (append-nil pfx) (boundary_at_end pfx (length pfx) (get_elem?-append_nil pfx) refl)
is_char_boundary-append pfx (b ∷ rest) h k =
    let c = begins_character b rest (rest_of_utf8 0 pfx (b ∷ rest) h k) in
    boundary_before (pfx ++ b ∷ rest) (length pfx) b (get_elem?-append_next pfx rest b) c

-- A place is no boundary exactly if it is beyond the end or inside a character.
pub is_char_boundary-false :
    (s : Str) (i : ℕ)
    → (is_char_boundary s i ≡ false)
      ↔ ((length s < i) ⊎ ((0 < i) × (b : ℕ) × (get_elem? s i ≡ some b) × (128 ≤ b) × (b < 192)))
unfolding is_char_boundary
is_char_boundary-false s i = elim (Option-cases (get_elem? s i)) [
  | inl e ↦ (
    λ h. inl (ground (arith, get_elem?-none s i)),
    λ h. elim h [ inl l ↦ ground arith | inr (p, b, f, lo, hi) ↦ absurd (cc) ],
  )
  | inr (b, e) ↦ (
    λ h. inr (ground arith, b, e, ground arith, ground arith),
    λ h. elim h [
      | inl l ↦ absurd (omega (arith, get_elem?_lt s i b e))
      | inr (p, c, f, lo, hi) ↦ let q : b ≡ c = some_injective (sym e ∙ f) in ground arith
    ],
  )
]
