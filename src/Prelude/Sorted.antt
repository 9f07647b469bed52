-- ===== src/Prelude/Sorted.antt =====
-- Lists in order of a comparison, and insertion at the place that a binary search finds.
use Prim.Native.Nat.{Ordering}
use mathlib.Core.Option
use agentproxy.Prelude.Lists.{length, get_elem?, take, drop, All, In}
use agentproxy.Prelude.Ordering.{IsLawful, reverse_order}
use agentproxy.Prelude.Search.{binary_search, IsMonotone, IsPlace, binary_search_found}
use Prim.Native.Nat.{ℕ, zero, suc, ◌≤◌, ◌<◌}
use mathlib.Core.Path.{◌≡◌, refl, subst}
use mathlib.Core.Logic.{inl, inr, ◌≢◌}
use mathlib.Core.List.{List, [], ◌∷◌, ◌++◌}
use mathlib.Core.Option.{Option, none, some}
use native.Mathlib.Omega.{arith}
use native.Mathlib.Decide.{dec_lt}

-- `Vec::insert`.
abbrev pub insert_at {ℓ} : {A : Type ℓ} → ℕ → A → List A → List A
insert_at i a l = take i l ++ a ∷ drop i l

pub some_injective {ℓ} : {A : Type ℓ} {a b : A} → some a ≡ some b → a ≡ b
some_injective e = cc

pub get_elem?-some {ℓ} :
    {A : Type ℓ} (xs : List A) (i : ℕ) → i < length xs → (a : A) × (get_elem? xs i ≡ some a)
get_elem?-some [] i h = absurd (omega arith)
get_elem?-some (x ∷ xs) zero h = (x, refl)
get_elem?-some (x ∷ xs) (suc i) h = get_elem?-some xs i (omega arith)

pub get_elem?_lt {ℓ} :
    {A : Type ℓ} (xs : List A) (i : ℕ) (a : A) → get_elem? xs i ≡ some a → i < length xs
get_elem?_lt [] i a h = cc
get_elem?_lt (x ∷ xs) zero a h = omega arith
get_elem?_lt (x ∷ xs) (suc i) a h = omega (arith, get_elem?_lt xs i a h)

module _ {ℓ κ} {A : Type ℓ} (P : A → Type κ) where
  pub All-get_elem? : (xs : List A) (i : ℕ) (a : A) → All P xs → get_elem? xs i ≡ some a → P a
  All-get_elem? [] i a h e = cc
  All-get_elem? (x ∷ xs) zero a (p, h) e = subst P (some_injective e) p
  All-get_elem? (x ∷ xs) (suc i) a (p, h) e = All-get_elem? xs i a h e

  pub All-of_get_elem? :
      (xs : List A) → ((i : ℕ) (a : A) → get_elem? xs i ≡ some a → P a) → All P xs
  All-of_get_elem? [] h = tt
  All-of_get_elem? (x ∷ xs) h = (h 0 x refl, All-of_get_elem? xs (λ i. h (suc i)))

  pub All-insert_at : (p : ℕ) (x : A) (xs : List A) → P x → All P xs → All P (insert_at p x xs)
  All-insert_at zero x xs h k = (h, k)
  All-insert_at (suc p) x [] h k = (h, k)
  All-insert_at (suc p) x (y ∷ ys) h (ky, k) = (ky, All-insert_at p x ys h k)

module _ {ℓ} {A : Type ℓ} (c : A → A → Ordering) where
  abbrev pub Sorted : List A → Type 0
  Sorted [] = Unit
  Sorted (x ∷ xs) = All (λ y. c x y ≢ Ordering.gt) xs × Sorted xs

  pub Sorted-get :
      (xs : List A) (i j : ℕ) (a b : A)
      → Sorted xs
      → i < j
      → get_elem? xs i ≡ some a
      → get_elem? xs j ≡ some b
      → c a b ≢ Ordering.gt
  Sorted-get [] i j a b s h e f = cc
  Sorted-get (x ∷ xs) i zero a b s h e f = absurd (omega arith)
  Sorted-get (x ∷ xs) zero (suc j) a b (s, t) h e f =
      subst (λ z. c z b ≢ Ordering.gt) (some_injective e)
        (All-get_elem? (λ y. c x y ≢ Ordering.gt) xs j b s f)
  Sorted-get (x ∷ xs) (suc i) (suc j) a b (s, t) h e f = Sorted-get xs i j a b t (omega arith) e f

  insert_at-Sorted :
      (p : ℕ) (x : A) (xs : List A)
      → Sorted xs
      → p ≤ length xs
      → ((i : ℕ) (a : A) → i < p → get_elem? xs i ≡ some a → c a x ≢ Ordering.gt)
      → ((i : ℕ) (a : A) → p ≤ i → get_elem? xs i ≡ some a → c x a ≢ Ordering.gt)
      → Sorted (insert_at p x xs)
  insert_at-Sorted zero x xs s h lo hi =
      (All-of_get_elem? (λ y. c x y ≢ Ordering.gt) xs (λ i a. hi i a (omega arith)), s)
  insert_at-Sorted (suc p) x [] s h lo hi = absurd (omega arith)
  insert_at-Sorted (suc p) x (y ∷ ys) (s, t) h lo hi = (
    All-insert_at (λ z. c y z ≢ Ordering.gt) p x ys (lo 0 y (omega arith) refl) s,
    insert_at-Sorted p x ys t (omega arith) (λ i a k. lo (suc i) a (omega arith))
        (λ i a k. hi (suc i) a (omega arith)),
  )

-- How entry `i` of a list compares with `x`.
abbrev pub probe_of {ℓ} : {A : Type ℓ} → (A → A → Ordering) → A → List A → ℕ → Option Ordering
probe_of c x xs i = Option.map (λ y. reverse_order (c x y)) (get_elem? xs i)

module _ {ℓ} {A : Type ℓ} (c : A → A → Ordering) (law : IsLawful c) where
  probe_up :
      (x : A) (xs : List A) (i j : ℕ)
      → Sorted c xs
      → i ≤ j
      → j < length xs
      → probe_of c x xs i ≡ some Ordering.gt
      → probe_of c x xs j ≡ some Ordering.gt
  probe_up x xs i j s h l g = elim (dec_lt i j) [
    | no same ↦ subst (λ k. probe_of c x xs k ≡ some Ordering.gt) (omega arith) g
    | yes before ↦
        let (a, e) = get_elem?-some xs i (omega arith) in
        let (b, f) = get_elem?-some xs j l in
        ground (arith, law.chain x a b, Sorted-get c xs i j a b s before e f)
  ]

  probe_down :
      (x : A) (xs : List A) (i j : ℕ)
      → Sorted c xs
      → i ≤ j
      → j < length xs
      → probe_of c x xs j ≡ some Ordering.lt
      → probe_of c x xs i ≡ some Ordering.lt
  probe_down x xs i j s h l g = elim (dec_lt i j) [
    | no same ↦ let e : j ≡ i = omega arith in subst (λ k. probe_of c x xs k ≡ some Ordering.lt) e g
    | yes before ↦
        let (a, e) = get_elem?-some xs i (omega arith) in
        let (b, f) = get_elem?-some xs j l in
        ground
          (arith, law.flip x b, law.chain a b x, law.flip a x, Sorted-get c xs i j a b s before e f)
  ]

  probe_of-IsMonotone :
      (x : A) (xs : List A) → Sorted c xs → IsMonotone (probe_of c x xs) (length xs)
  probe_of-IsMonotone x xs s = record {
    total = λ i h n. let (a, e) = get_elem?-some xs i h in ground arith;
    up = λ i j. probe_up x xs i j s;
    down = λ i j. probe_down x xs i j s;
  }

  place-Sorted :
      (x : A) (xs : List A) (p : ℕ)
      → Sorted c xs
      → IsPlace (probe_of c x xs) (length xs) p
      → Sorted c (insert_at p x xs)
  place-Sorted x xs p s here =
      insert_at-Sorted c p x xs s here.inside
        (λ i a h e. ground (arith, here.before i h, law.flip x a))
        (λ i a h e. ground (arith, here.after i h (get_elem?_lt xs i a e)))

  -- A binary search for `x` in a list in order finds a place at which `x` keeps the order.
  pub binary_insert-Sorted :
      (x : A) (xs : List A)
      → Sorted c xs
      → (p : ℕ) × (binary_search (probe_of c x xs) (length xs) ≡ some p)
        × Sorted c (insert_at p x xs)
  binary_insert-Sorted x xs s =
      let (p, e, here) =
        binary_search_found (probe_of c x xs) (length xs) (probe_of-IsMonotone x xs s) in
      (p, e, place-Sorted x xs p s here)

-- What is inserted is there, and nothing is lost.
pub In-insert_at_new : {A : Type 0} (p : ℕ) (x : A) (xs : List A) → In x (insert_at p x xs)
In-insert_at_new zero x xs = inl refl
In-insert_at_new (suc p) x [] = inl refl
In-insert_at_new (suc p) x (y ∷ ys) = inr (In-insert_at_new p x ys)

pub In-insert_at_old :
    {A : Type 0} (p : ℕ) (x a : A) (xs : List A) → In a xs → In a (insert_at p x xs)
In-insert_at_old zero x a xs h = inr h
In-insert_at_old (suc p) x a [] h = absurd h
In-insert_at_old (suc p) x a (y ∷ ys) (inl e) = inl e
In-insert_at_old (suc p) x a (y ∷ ys) (inr h) = inr (In-insert_at_old p x a ys h)
