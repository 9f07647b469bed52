-- ===== src/RouteSet/Order.antt =====
-- The precedence of route matches is a total preorder.
use Prim.Native.Nat.{compare, Ordering}
use agentproxy.Prelude.{ℕ, ◌≡◌, sym, arith, length, is_some, Str, str_cmp, subst}
use mathlib.Core.Path.{fun_ext}
use agentproxy.Prelude.Ordering.{
  IsLawful, then_order, compare-IsLawful, then_order-IsLawful, reverse_order-IsLawful, on-IsLawful,
  str_cmp-IsLawful,
}
use agentproxy.Route.{RouteMatch, get_path_rank, get_path_length}
use agentproxy.RouteSet.{compare_route, descending, bool_rank}

abbrev pub Keyed : Type 0
Keyed = RouteMatch × Str

abbrev by : (Keyed → ℕ) → Keyed → Keyed → Ordering
by f a b = descending (f a) (f b)

-- The comparison as one lexicographic chain.
abbrev pub precedence : Keyed → Keyed → Ordering
precedence a b = then_order (by (λ k. get_path_rank k.0.path) a b) (
    then_order (by (λ k. get_path_length k.0.path) a b) (
      then_order (by (λ k. bool_rank (is_some k.0.method)) a b) (
        then_order (by (λ k. length k.0.headers) a b)
          (then_order (by (λ k. length k.0.query) a b) (str_cmp a.1 b.1)))))

compare_route-eq-precedence : (a b : Keyed) → compare_route a b ≡ precedence a b
unfolding compare_route
compare_route-eq-precedence (m, k) (n, j) = ground arith

by-IsLawful : (f : Keyed → ℕ) → IsLawful (by f)
by-IsLawful f = on-IsLawful descending (reverse_order-IsLawful compare compare-IsLawful) f

precedence-IsLawful : IsLawful precedence
precedence-IsLawful = then_order-IsLawful _ _ (by-IsLawful (λ k. get_path_rank k.0.path)) (
    then_order-IsLawful _ _ (by-IsLawful (λ k. get_path_length k.0.path)) (
      then_order-IsLawful _ _ (by-IsLawful (λ k. bool_rank (is_some k.0.method))) (
        then_order-IsLawful _ _ (by-IsLawful (λ k. length k.0.headers)) (
          then_order-IsLawful _ _ (by-IsLawful (λ k. length k.0.query))
            (on-IsLawful str_cmp str_cmp-IsLawful (λ k. k.1))))))

-- The comparison of two route matches with their keys is a total preorder: it turns round when its
-- arguments are swapped, and steps that do not go down compose.
pub compare_route-IsLawful : IsLawful compare_route
compare_route-IsLawful =
    subst IsLawful (sym (fun_ext (λ a. fun_ext (λ b. compare_route-eq-precedence a b))))
      precedence-IsLawful
