-- ===== src/Prelude/Search.antt =====
-- `slice::binary_search_by` of the standard library: the place where it finds an entry, or where one
-- belongs. `probe i` compares entry `i` with what is looked for; `none` is a panic of the comparison.
use Prim.Native.Nat.{ℕ, zero, suc, ◌+◌, ◌-◌, ◌/◌, ◌≤◌, ◌<◌, Ordering}
use mathlib.Core.Path.{◌≡◌, refl}
use mathlib.Core.Logic.{◌≢◌}
use mathlib.Core.Bool.{true, false}
use mathlib.Core.Option.{Option, none, some}
use native.Mathlib.Omega.{arith}
use agentproxy.Prelude.Tests.{ltb, Option-cases, Bool-cases, ltb→lt}
use mathlib.Core.Logic.{inl, inr}

-- One round of the loop moves the base, unless the entry is greater.
abbrev next_base : Ordering → (base mid : ℕ) → ℕ
next_base Ordering.gt base mid = base
next_base _ base mid = mid

abbrev last_place : ℕ → Ordering → ℕ
last_place base Ordering.eq = base
last_place base Ordering.lt = base + 1
last_place base Ordering.gt = base

-- The comparison after the loop.
abbrev finish : (ℕ → Option Ordering) → ℕ → Option ℕ
finish probe base = elim (probe base) [ none ↦ none | some o ↦ some (last_place base o) ]

-- The loop halves `size` until one entry is left; `fuel` bounds its rounds.
search_loop : (ℕ → Option Ordering) → (fuel size base : ℕ) → Option ℕ
search_loop probe zero size base = finish probe base
search_loop probe (suc fuel) size base = elim (ltb 1 size) [
  | true ↦ elim (probe (base + size / 2)) [
    | none ↦ none
    | some o ↦ search_loop probe fuel (size - size / 2) (next_base o base (base + size / 2))
  ]
  | false ↦ finish probe base
]

search_loop_last :
    (probe : ℕ → Option Ordering) (fuel size base : ℕ)
    → ltb 1 size ≡ false
    → search_loop probe (suc fuel) size base ≡ finish probe base
unfolding search_loop
search_loop_last probe fuel size base h = ground arith

search_loop_more :
    (probe : ℕ → Option Ordering) (fuel size base : ℕ) (o : Ordering)
    → ltb 1 size ≡ true
    → probe (base + size / 2) ≡ some o
    → search_loop probe (suc fuel) size base
      ≡ search_loop probe fuel (size - size / 2) (next_base o base (base + size / 2))
unfolding search_loop
search_loop_more probe fuel size base o h e = ground arith

-- The place, for `Ok` and for `Err`.
unfoldable pub binary_search : (ℕ → Option Ordering) → (length : ℕ) → Option ℕ
unfolding search_loop
binary_search probe zero = some 0
binary_search probe (suc n) = search_loop probe (suc n) (suc n) 0

-- The entries are in order: none is greater before one that is not.
pub record IsMonotone (probe : ℕ → Option Ordering) (length : ℕ) : Type 0 where
  pub total : (i : ℕ) → i < length → probe i ≢ none
  pub up : (i j : ℕ) → i ≤ j → j < length → probe i ≡ some Ordering.gt → probe j ≡ some Ordering.gt
  pub down :
      (i j : ℕ) → i ≤ j → j < length → probe j ≡ some Ordering.lt → probe i ≡ some Ordering.lt

-- Every entry before the place is not greater, and every entry from the place on is not less.
pub record IsPlace (probe : ℕ → Option Ordering) (length place : ℕ) : Type 0 where
  pub inside : place ≤ length
  pub before : (i : ℕ) → i < place → probe i ≢ some Ordering.gt
  pub after : (i : ℕ) → place ≤ i → i < length → probe i ≢ some Ordering.lt

module _ (probe : ℕ → Option Ordering) (length : ℕ) (m : IsMonotone probe length) where
  IsPlace-found :
      (base : ℕ) (o : Ordering)
      → base < length
      → ((i : ℕ) → i < base → probe i ≢ some Ordering.gt)
      → ((i : ℕ) → base + 1 ≤ i → i < length → probe i ≡ some Ordering.gt)
      → probe base ≡ some o
      → IsPlace probe length (last_place base o)
  IsPlace-found base Ordering.lt h lo hi e = record {
    inside = omega arith;
    before = λ i k b. cc (m.up i base (omega arith) h b);
    after = λ i k l b. cc (hi i k l);
  }
  IsPlace-found base Ordering.eq h lo hi e = record {
    inside = omega arith;
    before = lo;
    after = λ i k l b. cc (m.down base i k l b);
  }
  IsPlace-found base Ordering.gt h lo hi e = record {
    inside = omega arith;
    before = lo;
    after = λ i k l b. cc (m.up base i k l e);
  }

  abbrev Found : Option ℕ → Type 0
  Found r = (p : ℕ) × (r ≡ some p) × IsPlace probe length p

  finish-Found :
      (base : ℕ)
      → base < length
      → ((i : ℕ) → i < base → probe i ≢ some Ordering.gt)
      → ((i : ℕ) → base + 1 ≤ i → i < length → probe i ≡ some Ordering.gt)
      → Found (finish probe base)
  finish-Found base h lo hi = elim (Option-cases (probe base)) [
    | inl e ↦ absurd (m.total base h e)
    | inr (o, e) ↦ (last_place base o, ground arith, IsPlace-found base o h lo hi e)
  ]

  search_loop-Found :
      (fuel size base : ℕ)
      → size ≤ fuel + 1
      → 0 < size
      → base + size ≤ length
      → ((i : ℕ) → i < base → probe i ≢ some Ordering.gt)
      → ((i : ℕ) → base + size ≤ i → i < length → probe i ≡ some Ordering.gt)
      → Found (search_loop probe fuel size base)
  unfolding search_loop
  search_loop-Found zero size base f p h lo hi =
      finish-Found base (omega arith) lo (λ i k l. hi i (omega arith) l)
  search_loop-Found (suc fuel) size base f p h lo hi = elim (Bool-cases (ltb 1 size)) [
    | inr last ↦
        let one : size ≤ 1 = ground arith in
        rw (search_loop_last probe fuel size base last)
          (finish-Found base (omega arith) lo (λ i k l. hi i (omega arith) l))
    | inl more ↦
        let two : 1 < size = ltb→lt 1 size more in
        let mid = base + size / 2 in
        let inside : mid < length = omega arith in
        let next = search_loop-Found fuel (size - size / 2) in
        elim (Option-cases (probe mid)) [
          | inl e ↦ absurd (m.total mid inside e)
          | inr (Ordering.gt, e) ↦ rw (search_loop_more probe fuel size base Ordering.gt more e) (
              next base (omega arith) (omega arith) (omega arith) lo
                (λ i k l. m.up mid i (omega arith) l e))
          | inr (Ordering.eq, e) ↦ rw (search_loop_more probe fuel size base Ordering.eq more e) (
              next mid (omega arith) (omega arith) (omega arith)
                (λ i k b. cc (m.up i mid (omega arith) inside b)) (λ i k l. hi i (omega arith) l))
          | inr (Ordering.lt, e) ↦ rw (search_loop_more probe fuel size base Ordering.lt more e) (
              next mid (omega arith) (omega arith) (omega arith)
                (λ i k b. cc (m.up i mid (omega arith) inside b)) (λ i k l. hi i (omega arith) l))
        ]
  ]

-- On entries in order the search ends with a place, in as many rounds as there are entries at most.
pub binary_search_found :
    (probe : ℕ → Option Ordering) (length : ℕ)
    → IsMonotone probe length
    → (p : ℕ) × (binary_search probe length ≡ some p) × IsPlace probe length p
unfolding binary_search
binary_search_found probe zero m = (
  0,
  refl,
  record {
    inside = omega arith;
    before = λ i h. absurd (omega arith);
    after = λ i k l. absurd (omega arith);
  },
)
binary_search_found probe (suc n) m =
    search_loop-Found probe (suc n) m (suc n) (suc n) 0 (omega arith) (omega arith) (omega arith)
      (λ i h. absurd (omega arith)) (λ i k l. absurd (omega arith))
