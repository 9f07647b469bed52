-- ===== src/Prelude/Ordering.antt =====
-- Comparison functions: what makes one a total preorder, and their lexicographic combination.
use Prim.Native.Nat.{compare, Ordering}
use mathlib.Core.Path.{◌≡◌, refl}
use mathlib.Core.Logic.{◌≢◌}
use native.Mathlib.Omega.{arith}
use agentproxy.Prelude.Text.{Str, str_cmp}
use mathlib.Core.List.{[], ◌∷◌}

-- `Ordering::reverse`.
abbrev pub reverse_order : Ordering → Ordering
reverse_order Ordering.lt = Ordering.gt
reverse_order Ordering.eq = Ordering.eq
reverse_order Ordering.gt = Ordering.lt

-- The result of comparing first by one comparison, then by another.
abbrev pub then_order : Ordering → Ordering → Ordering
then_order Ordering.lt o = Ordering.lt
then_order Ordering.eq o = o
then_order Ordering.gt o = Ordering.gt

-- A comparison can be turned round, and two steps that do not go down compose.
pub record IsLawful {ℓ} {A : Type ℓ} (c : A → A → Ordering) : Type ℓ where
  pub flip : (a b : A) → c b a ≡ reverse_order (c a b)
  pub chain :
      (x y z : A) → c x y ≢ Ordering.gt → c y z ≢ Ordering.gt → c x z ≡ then_order (c x y) (c y z)

pub compare-IsLawful : IsLawful compare
compare-IsLawful = record { flip = λ a b. ground arith; chain = λ x y z h k. ground arith }

module _ {ℓ} {A : Type ℓ} (c d : A → A → Ordering) (lc : IsLawful c) (ld : IsLawful d) where
  pub then_order-IsLawful : IsLawful (λ a b. then_order (c a b) (d a b))
  then_order-IsLawful = record {
    flip = λ a b. ground (arith, lc.flip a b, ld.flip a b);
    chain = λ x y z h k. ground (arith, lc.chain x y z, ld.chain x y z);
  }

module _ {ℓ} {A : Type ℓ} (c : A → A → Ordering) (lc : IsLawful c) where
  pub reverse_order-IsLawful : IsLawful (λ a b. reverse_order (c a b))
  reverse_order-IsLawful = record {
    flip = λ a b. ground (arith, lc.flip a b);
    chain = λ x y z h k. ground (arith, lc.flip x y, lc.flip y z, lc.flip x z, lc.chain z y x);
  }

  pub on-IsLawful {κ} : {B : Type κ} (f : B → A) → IsLawful (λ a b. c (f a) (f b))
  on-IsLawful f = record {
    flip = λ a b. lc.flip (f a) (f b);
    chain = λ x y z. lc.chain (f x) (f y) (f z);
  }

str_cmp_flip : (s t : Str) → str_cmp t s ≡ reverse_order (str_cmp s t)
unfolding str_cmp
str_cmp_flip [] [] = refl
str_cmp_flip [] (d ∷ t) = refl
str_cmp_flip (c ∷ s) [] = refl
str_cmp_flip (c ∷ s) (d ∷ t) = ground (arith, str_cmp_flip s t)

str_cmp_chain :
    (x y z : Str)
    → str_cmp x y ≢ Ordering.gt
    → str_cmp y z ≢ Ordering.gt
    → str_cmp x z ≡ then_order (str_cmp x y) (str_cmp y z)
unfolding str_cmp
str_cmp_chain [] [] z h k = refl
str_cmp_chain [] (d ∷ y) [] h k = absurd (k refl)
str_cmp_chain [] (d ∷ y) (e ∷ z) h k = refl
str_cmp_chain (c ∷ x) [] z h k = absurd (h refl)
str_cmp_chain (c ∷ x) (d ∷ y) [] h k = absurd (k refl)
str_cmp_chain (c ∷ x) (d ∷ y) (e ∷ z) h k = ground (arith, str_cmp_chain x y z)

pub str_cmp-IsLawful : IsLawful str_cmp
str_cmp-IsLawful = record { flip = str_cmp_flip; chain = str_cmp_chain }
