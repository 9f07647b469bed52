-- ===== src/RateLimit/Acquire.antt =====
-- What one call of `try_wait_n` does: its account, its end, and when it succeeds.
use native.Mathlib.Nat.{mul-le-mul_right}
use agentproxy.Prelude.{
  ℕ, ◌+◌, ◌-◌, ◌*◌, ◌≤◌, ◌<◌, ◌≡◌, refl, ◌≢◌, ◌⊎◌, inl, inr, arith, Bool-cases, ltb, List, [], ◌∷◌,
  All, length, nat_beq, ◌||◌, subst, sym,
}
use agentproxy.RateLimit.{
  Ratelimiter, Parameters, Refilled, refilled, too_early, Waited, acquired, no_more_readings,
  acquire, wait_loop, try_wait_n, elapsed_intervals,
}
use agentproxy.RateLimit.Refill.{
  IsValid, IsBounded, due_refill, due_refill-IsValid, due_refill_next, refill_cases,
}

abbrev pub granted : ℕ → Waited → ℕ
granted n acquired = n
granted n _ = 0

-- From `rl` to `after`, `g` tokens were given out. What was given out and what is left is paid for
-- by what was there and by one refill amount for each interval by which the refill time moved.
pub record Credit (p : Parameters) (end : ℕ) (rl after : Ratelimiter) (g : ℕ) : Type 0 where
  pub same : after.parameters ≡ p
  pub valid : IsValid after
  pub paid :
      (after.available + g) * p.refill_interval + p.refill_amount * rl.refill_at
      ≤ rl.available * p.refill_interval + p.refill_amount * after.refill_at
  pub latest : (after.refill_at ≡ rl.refill_at) ⊎ (after.refill_at ≤ end + p.refill_interval)

Credit-none : (end : ℕ) (rl : Ratelimiter) → IsValid rl → Credit rl.parameters end rl rl 0
Credit-none end rl v = record { same = refl; valid = v; paid = omega arith; latest = inl refl }

Credit-take :
    (p : Parameters) (end n : ℕ) (rl r : Ratelimiter)
    → n ≤ r.available
    → Credit p end rl r 0
    → Credit p end rl (record r { available = r.available - n }) n
Credit-take p end n rl r h c =
    let e : r.available - n + n ≡ r.available + 0 = omega arith in
    record { same = c.same; valid = ground (arith, c.valid); paid = rw e c.paid; latest = c.latest }

-- Accounts of successive steps add up.
pub Credit-trans :
    (p : Parameters) (end g k : ℕ) (rl r s : Ratelimiter)
    → Credit p end rl r g
    → Credit p end r s k
    → Credit p end rl s (g + k)
Credit-trans p end g k rl r s c d = record {
  same = d.same;
  valid = d.valid;
  paid = omega (arith, c.paid, d.paid);
  latest = ground (arith, c.latest, d.latest);
}

Credit-first :
    (p : Parameters) (end k : ℕ) (rl r s : Ratelimiter)
    → Credit p end rl r 0
    → Credit r.parameters end r s k
    → Credit p end rl s k
Credit-first p end k rl r s c d =
    let e : 0 + k ≡ k = omega arith in
    subst (Credit p end rl s) e
      (Credit-trans p end 0 k rl r s c (subst (λ q. Credit q end r s k) c.same d))

pay_intervals : (m av k a i r : ℕ) → m ≤ av + k * a → (m + 0) * i + a * r ≤ av * i + a * (r + k * i)
pay_intervals m av k a i r h = omega (arith, mul-le-mul_right i h)

Credit-refill :
    (rl : Ratelimiter) (t end : ℕ)
    → IsValid rl
    → IsBounded end rl.parameters
    → rl.refill_at ≤ t
    → t ≤ end
    → Credit rl.parameters end rl (due_refill rl t) 0
unfolding due_refill
Credit-refill rl t end v b due h = record {
  same = refl;
  valid = due_refill-IsValid rl t end v b due h;
  paid = pay_intervals _ _ (elapsed_intervals rl t) _ _ _ (omega arith);
  latest = inr (omega (arith, (due_refill_next rl t end v b due h).1));
}

acquire-Credit :
    (p : Parameters) (end n : ℕ) (rl r : Ratelimiter) (o : Refilled) (rest : Ratelimiter × Waited)
    → Credit p end rl r 0
    → Credit p end rl rest.0 (granted n rest.1)
    → Credit p end rl (acquire r o n rest).0 (granted n (acquire r o n rest).1)
unfolding acquire
acquire-Credit p end n rl r Refilled.panicked rest c d = c
acquire-Credit p end n rl r refilled rest c d = elim (Bool-cases (ltb r.available n)) [
  | inl short ↦ rw short d
  | inr enough ↦ rw enough (Credit-take p end n rl r (ground arith) c)
]
acquire-Credit p end n rl r (too_early hint) rest c d = elim (Bool-cases (ltb r.available n)) [
  | inl short ↦ rw short c
  | inr enough ↦ rw enough (Credit-take p end n rl r (ground arith) c)
]

wait_loop-Credit :
    (end : ℕ) (rl : Ratelimiter) (n : ℕ) (ts : List ℕ)
    → IsValid rl
    → IsBounded end rl.parameters
    → All (λ t. t ≤ end) ts
    → Credit rl.parameters end rl (wait_loop rl n ts).0 (granted n (wait_loop rl n ts).1)
unfolding wait_loop
wait_loop-Credit end rl n [] v b h = Credit-none end rl v
wait_loop-Credit end rl n (t ∷ ts) v b (h, hs) = elim (refill_cases rl t end v b h) [
  | inl (early, e) ↦ rw e (
      acquire-Credit rl.parameters end n rl rl (too_early (rl.refill_at - t)) (wait_loop rl n ts)
        (Credit-none end rl v) (wait_loop-Credit end rl n ts v b hs))
  | inr (due, e) ↦
      let r = due_refill rl t in
      let c = Credit-refill rl t end v b due h in
      let d = wait_loop-Credit end r n ts c.valid (subst (IsBounded end) (sym c.same) b) hs in
      rw e (
        acquire-Credit rl.parameters end n rl r refilled (wait_loop r n ts) c (
          Credit-first rl.parameters end (granted n (wait_loop r n ts).1) rl r (wait_loop r n ts).0
            c d))
]

-- One call keeps the bucket valid, and pays for the tokens that it gives out.
pub try_wait_n-Credit :
    (end : ℕ) (rl : Ratelimiter) (n : ℕ) (ts : List ℕ)
    → IsValid rl
    → IsBounded end rl.parameters
    → All (λ t. t ≤ end) ts
    → Credit rl.parameters end rl (try_wait_n rl n ts).0 (granted n (try_wait_n rl n ts).1)
unfolding try_wait_n
try_wait_n-Credit end rl n ts v b h = elim (Bool-cases (nat_beq n 0 || ltb rl.capacity n)) [
  | inl no_way ↦ rw no_way (Credit-none end rl v)
  | inr asked ↦ rw asked (wait_loop-Credit end rl n ts v b h)
]

-- Each refill that is not enough adds a token at least, so the readings suffice.
due_refill_more :
    (rl : Ratelimiter) (t : ℕ)
    → 0 < rl.refill_amount
    → rl.available < rl.capacity
    → rl.available < (due_refill rl t).available
unfolding due_refill
due_refill_more rl t h k = grind arith

wait_loop_ends :
    (end : ℕ) (rl : Ratelimiter) (n : ℕ) (ts : List ℕ)
    → IsValid rl
    → IsBounded end rl.parameters
    → All (λ t. t ≤ end) ts
    → 0 < rl.refill_amount
    → n ≤ rl.capacity
    → rl.capacity < rl.available + length ts
    → ((wait_loop rl n ts).1 ≢ no_more_readings) × ((wait_loop rl n ts).1 ≢ Waited.panicked)
unfolding wait_loop acquire due_refill
wait_loop_ends end rl n [] v b h pos fits more = absurd (omega (arith, v.within))
wait_loop_ends end rl n (t ∷ ts) v b (h, hs) pos fits more = elim (refill_cases rl t end v b h) [
  | inl (early, e) ↦ rw e (ground arith)
  | inr (due, e) ↦ rw e (
      ground (
        arith,
        due_refill_more rl t pos,
        (Credit-refill rl t end v b due h).valid,
        wait_loop_ends end (due_refill rl t) n ts (Credit-refill rl t end v b due h).valid b hs pos
            fits,
      ))
]

-- A valid limiter, whose numbers up to the time `end` fit into 64 bits, has a positive refill
-- amount. With readings of the clock up to `end`, more of them than the bucket has room for, a call
-- ends: it neither runs out of readings nor panics.
pub try_wait_n_ends :
    (end : ℕ) (rl : Ratelimiter) (n : ℕ) (ts : List ℕ)
    → IsValid rl
    → IsBounded end rl.parameters
    → All (λ t. t ≤ end) ts
    → 0 < rl.refill_amount
    → rl.capacity < rl.available + length ts
    → ((try_wait_n rl n ts).1 ≢ no_more_readings) × ((try_wait_n rl n ts).1 ≢ Waited.panicked)
unfolding try_wait_n
try_wait_n_ends end rl n ts v b h pos more = ground (arith, wait_loop_ends end rl n ts v b h pos)

due_refill_keeps :
    (rl : Ratelimiter) (t : ℕ) → IsValid rl → rl.available ≤ (due_refill rl t).available
unfolding due_refill
due_refill_keeps rl t v = ground (arith, v)

-- In a valid limiter, whose numbers up to the time `end` fit into 64 bits, a request for at least
-- one token and no more than the bucket holds is granted at the first reading of the clock,
-- whatever that reading up to `end` is.
pub try_wait_n_enough :
    (end : ℕ) (rl : Ratelimiter) (n t : ℕ) (ts : List ℕ)
    → IsValid rl
    → IsBounded end rl.parameters
    → t ≤ end
    → 0 < n
    → n ≤ rl.available
    → (try_wait_n rl n (t ∷ ts)).1 ≡ acquired
unfolding try_wait_n wait_loop acquire
try_wait_n_enough end rl n t ts v b h pos enough = elim (refill_cases rl t end v b h) [
  | inl (early, e) ↦ rw e (ground (arith, v))
  | inr (due, e) ↦ rw e (ground (arith, v, due_refill_keeps rl t v))
]
