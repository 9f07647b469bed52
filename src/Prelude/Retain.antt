-- ===== src/Prelude/Retain.antt =====
-- What `retain` keeps of a list's properties.
use Prim.Native.Nat.{Ordering}
use mathlib.Core.Path.{◌≡◌, refl}
use mathlib.Core.Logic.{inl, inr, ◌≢◌}
use mathlib.Core.Bool.{Bool, true}
use mathlib.Core.List.{List, [], ◌∷◌}
use native.Mathlib.Omega.{arith}
use agentproxy.Prelude.Tests.{Bool-cases}
use agentproxy.Prelude.Lists.{retain, All, In}
use agentproxy.Prelude.Sorted.{Sorted}

module _ {A : Type 0} (p : A → Bool) where
  pub All-retain : (P : A → Type 0) (l : List A) → All P l → All P (retain p l)
  All-retain P [] h = tt
  All-retain P (x ∷ xs) (h, hs) = elim (Bool-cases (p x)) [
    | inl e ↦ rw e (h, All-retain P xs hs)
    | inr e ↦ rw e (All-retain P xs hs)
  ]

  pub Sorted-retain : (c : A → A → Ordering) (l : List A) → Sorted c l → Sorted c (retain p l)
  Sorted-retain c [] h = tt
  Sorted-retain c (x ∷ xs) (h, hs) = elim (Bool-cases (p x)) [
    | inl e ↦ rw e (All-retain (λ y. c x y ≢ Ordering.gt) xs h, Sorted-retain c xs hs)
    | inr e ↦ rw e (Sorted-retain c xs hs)
  ]

  pub retain-All : (l : List A) → All (λ x. p x ≡ true) l → retain p l ≡ l
  retain-All [] h = refl
  retain-All (x ∷ xs) (h, hs) = rw (h, retain-All xs hs)

  pub retain_twice : (l : List A) → retain p (retain p l) ≡ retain p l
  retain_twice [] = refl
  retain_twice (x ∷ xs) = ground (arith, retain_twice xs)

  pub In-retain : (a : A) (l : List A) → p a ≡ true → In a l → In a (retain p l)
  In-retain a [] h i = i
  In-retain a (x ∷ xs) h (inl e) = elim (Bool-cases (p x)) [
    | inl f ↦ rw f (inl e)
    | inr f ↦ absurd (cc)
  ]
  In-retain a (x ∷ xs) h (inr i) = elim (Bool-cases (p x)) [
    | inl f ↦ rw f (inr (In-retain a xs h i))
    | inr f ↦ rw f (In-retain a xs h i)
  ]
