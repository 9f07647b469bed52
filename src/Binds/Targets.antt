-- ===== src/Binds/Targets.antt =====
-- `PolicyTarget` of crates/agentgateway/src/types/agent.rs and its equality.
use agentproxy.Prelude.{
  ℕ, zero, suc, ◌≡◌, refl, sym, ap, ◌∙◌, ◌↔◌, arith, Bool, true, ◌&&◌, nat_beq, nat_beq_iff, Str,
  str_eq, Eq, ◌==◌, ==_iff,
}

pub data PolicyTarget : Type 0 where
  gateway listener route route_rule backend : Str → PolicyTarget

abbrev tag : PolicyTarget → ℕ
tag (gateway s) = 0
tag (listener s) = 1
tag (route s) = 2
tag (route_rule s) = 3
tag (backend s) = 4

abbrev name : PolicyTarget → Str
name (gateway s) = s
name (listener s) = s
name (route s) = s
name (route_rule s) = s
name (backend s) = s

abbrev from_tag : ℕ → Str → PolicyTarget
from_tag zero s = gateway s
from_tag (suc zero) s = listener s
from_tag (suc (suc zero)) s = route s
from_tag (suc (suc (suc zero))) s = route_rule s
from_tag _ s = backend s

from_tag_lem : (t : PolicyTarget) → from_tag (tag t) (name t) ≡ t
from_tag_lem (gateway s) = refl
from_tag_lem (listener s) = refl
from_tag_lem (route s) = refl
from_tag_lem (route_rule s) = refl
from_tag_lem (backend s) = refl

abbrev pub target_beq : PolicyTarget → PolicyTarget → Bool
target_beq a b = nat_beq (tag a) (tag b) && name a == name b

pub target_beq_iff : (a b : PolicyTarget) → (target_beq a b ≡ true) ↔ (a ≡ b)
target_beq_iff a b = (
  λ h.
      let e : tag a ≡ tag b = ground (arith, nat_beq_iff (tag a) (tag b)) in
      let f : name a ≡ name b = ground (arith, ==_iff (name a) (name b)) in
      sym (from_tag_lem a)
      ∙ (ap (λ n. from_tag n (name a)) e ∙ (ap (from_tag (tag b)) f ∙ from_tag_lem b)),
  λ h. ground (arith, nat_beq_iff (tag a) (tag b), ==_iff (name a) (name b), ap tag h, ap name h),
)

instance abbrev pub target_eq : Eq PolicyTarget
target_eq = record { beq = target_beq; beq_iff = target_beq_iff }
