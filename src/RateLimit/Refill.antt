-- ===== src/RateLimit/Refill.antt =====
-- What one refill does to the bucket, while no sum leaves the 64 bits.
use native.Mathlib.Nat.{div-mul-le_self, lt-div-mul-add, mod-eq_of_lt}
use agentproxy.Prelude.{
  ℕ, ◌+◌, ◌-◌, ◌*◌, ◌/◌, ◌%◌, ◌^◌, ◌≤◌, ◌<◌, ◌≡◌, ◌⊎◌, inl, inr, min, arith, Bool-cases, ltb,
}
use agentproxy.RateLimit.{
  Ratelimiter, Parameters, refilled, too_early, u64_mod, wrap, refill, put_tokens,
  elapsed_intervals,
}

-- The bucket holds at most its capacity, a refill fits into it, and refills are some time apart.
pub record IsValid (rl : Ratelimiter) : Type 0 where
  pub within : rl.available ≤ rl.capacity
  pub fits : rl.refill_amount ≤ rl.capacity
  pub apart : 0 < rl.refill_interval
  pub counted : rl.dropped < u64_mod

-- Up to the time `end` the counters stay within 64 bits.
pub record IsBounded (end : ℕ) (p : Parameters) : Type 0 where
  pub clock : end + p.refill_interval < u64_mod
  pub room : p.capacity + (end / p.refill_interval + 1) * p.refill_amount < u64_mod

-- The refill on numbers without a bound: the tokens that do not fit are dropped and counted.
unfoldable pub exact_refill : Ratelimiter → ℕ → Ratelimiter
exact_refill rl time = record rl {
  available = min rl.capacity (rl.available + elapsed_intervals rl time * rl.refill_amount);
  dropped =
      rl.dropped + (rl.available + elapsed_intervals rl time * rl.refill_amount - rl.capacity);
  refill_at = rl.refill_at + elapsed_intervals rl time * rl.refill_interval;
}

-- The counter of dropped tokens is never reset, and wraps around.
unfoldable pub due_refill : Ratelimiter → ℕ → Ratelimiter
unfolding exact_refill
due_refill rl time = record (exact_refill rl time) { dropped = wrap (exact_refill rl time).dropped }

div_mono : (a b i : ℕ) → 0 < i → a ≤ b → a / i ≤ b / i
div_mono a b i h le = grind (arith, div-mul-le_self a i, lt-div-mul-add {a = b} {b = i} h)

put_tokens_exact :
    (rl : Ratelimiter) (amount : ℕ)
    → rl.available ≤ rl.capacity
    → rl.capacity + amount < u64_mod
    → rl.dropped < u64_mod
    → put_tokens rl amount ≡ record rl {
      available = min rl.capacity (rl.available + amount);
      dropped = wrap (rl.dropped + (rl.available + amount - rl.capacity));
    }
unfolding put_tokens
put_tokens_exact rl amount within room counted = ground arith

module _ (rl : Ratelimiter) (time end : ℕ) (v : IsValid rl) (b : IsBounded end rl.parameters)
    (due : rl.refill_at ≤ time) (h : time ≤ end) where
  open rl use {available, capacity, refill_amount, refill_interval, refill_at}

  step_le : elapsed_intervals rl time * refill_interval ≤ (time - refill_at) + refill_interval
  step_le = omega (arith, div-mul-le_self (time - refill_at) refill_interval)

  intervals_le : elapsed_intervals rl time ≤ end / refill_interval + 1
  intervals_le =
      omega (arith, div_mono (time - refill_at) end refill_interval v.apart (omega arith))

  amount_le :
      elapsed_intervals rl time * refill_amount ≤ (end / refill_interval + 1) * refill_amount
  amount_le = grind (arith, intervals_le)

  intervals_lt : elapsed_intervals rl time < u64_mod
  intervals_lt = grind (arith, step_le)

  amount_wrap :
      wrap (wrap (elapsed_intervals rl time) * refill_amount)
      ≡ elapsed_intervals rl time * refill_amount
  amount_wrap = rw (mod-eq_of_lt intervals_lt) (mod-eq_of_lt (omega (arith, amount_le, b.room)))

  next_wrap :
      wrap (refill_at + wrap (wrap (elapsed_intervals rl time) * refill_interval))
      ≡ refill_at + elapsed_intervals rl time * refill_interval
  next_wrap = rw (mod-eq_of_lt intervals_lt) (omega (arith, step_le, b.clock))

  due_refilled : refill rl time ≡ (due_refill rl time, refilled)
  unfolding refill due_refill
  due_refilled =
      rw (amount_wrap, next_wrap)
        (ground (
          arith,
          v,
          put_tokens_exact
              (record rl { refill_at = refill_at + elapsed_intervals rl time * refill_interval })
              (elapsed_intervals rl time * refill_amount) v.within,
          amount_le,
          b.room,
        ))

  -- A valid limiter is to be refilled at a time up to `end`, and the clock and the amounts up to `end`
  -- fit into 64 bits. The refill succeeds and gives the bucket, the parameters and the time of the next
  -- refill that it gives on numbers without a bound. Only its count of the dropped tokens is the true
  -- count modulo 2 ^ 64.
  pub refill_exact : refill rl time ≡ (
    record (exact_refill rl time) { dropped = (exact_refill rl time).dropped % 2 ^ 64 },
    refilled,
  )
  unfolding due_refill
  refill_exact = due_refilled

  pub due_refill-IsValid : IsValid (due_refill rl time)
  unfolding due_refill
  due_refill-IsValid = ground (arith, v)

  -- The next refill is due after `time`, and at most one interval later.
  pub due_refill_next :
      (time < (due_refill rl time).refill_at)
      × ((due_refill rl time).refill_at ≤ time + refill_interval)
  unfolding due_refill
  due_refill_next =
      omega (arith, step_le, lt-div-mul-add {a = time - refill_at} {b = refill_interval} v.apart)

-- A refill either comes too early and changes nothing, or is due.
pub refill_cases :
    (rl : Ratelimiter) (time end : ℕ)
    → IsValid rl
    → IsBounded end rl.parameters
    → time ≤ end
    → ((time < rl.refill_at) × (refill rl time ≡ (rl, too_early (rl.refill_at - time))))
      ⊎ ((rl.refill_at ≤ time) × (refill rl time ≡ (due_refill rl time, refilled)))
unfolding refill
refill_cases rl time end v b h = elim (Bool-cases (ltb time rl.refill_at)) [
  | inl early ↦ inl (ground arith, rw early)
  | inr due ↦
      let le : rl.refill_at ≤ time = ground arith in inr (le, due_refilled rl time end v b le h)
]
