-- ===== src/RateLimit/History.antt =====
-- Whole histories of a rate limiter: how many tokens it can give out, and what its configuration
-- and its corrections can break.
use native.Mathlib.Nat.{mul-le-mul_right, mul-le-mul_left}
use agentproxy.Prelude.{
  ℕ, ◌+◌, ◌-◌, ◌*◌, ◌≤◌, ◌<◌, ◌≡◌, refl, ◌⊎◌, ◌↔◌, ◌%◌, ◌^◌, inl, inr, arith, List, [], ◌∷◌, All,
  subst, sym, ap, Bool-cases, ltb, leb, suc,
}
use native.Mathlib.Decide.{dec_le}
use agentproxy.Prelude.Int.{pos, negsuc}
use agentproxy.RateLimit.{
  Ratelimiter, Waited, RateLimit, RateLimitSerde, RateLimitType, configured, refused, try_from,
  try_wait_n, amend_tokens, max_tokens_too_low, refill_interval_too_long, u64_mod, refill, wrap,
  wait_loop, acquire, requests, tokens, check_request, check_llm_request, check_panicked, allowed,
}
use agentproxy.RateLimit.Refill.{IsValid, IsBounded}
use agentproxy.RateLimit.Acquire.{
  Credit, granted, try_wait_n-Credit, Credit-trans, try_wait_n_enough,
}

-- Requests for tokens, with the clock readings of each, and tokens removed after the fact.
pub data Call : Type 0 where
  waits : ℕ → List ℕ → Call
  removes : ℕ → Call

pub run_call : Ratelimiter → Call → Ratelimiter × ℕ
run_call rl (waits n ts) = let (rl', w) = try_wait_n rl n ts in (rl', granted n w)
run_call rl (removes n) = (amend_tokens rl (pos n), 0)

-- The state after the calls, and all the tokens that they were granted.
pub run : Ratelimiter → List Call → Ratelimiter × ℕ
run rl [] = (rl, 0)
run rl (c ∷ cs) = let (rl', g) = run_call rl c in let (final, k) = run rl' cs in (final, g + k)

abbrev pub ReadsUpTo : ℕ → Call → Type 0
ReadsUpTo end (waits n ts) = All (λ t. t ≤ end) ts
ReadsUpTo end (removes n) = Unit

removal_paid : (x av i s t : ℕ) → x ≤ av → s ≡ t → (x + 0) * i + s ≤ av * i + t
removal_paid x av i s t h e = omega (arith, mul-le-mul_right i h)

run_call-Credit :
    (end : ℕ) (rl : Ratelimiter) (c : Call)
    → IsValid rl
    → IsBounded end rl.parameters
    → ReadsUpTo end c
    → Credit rl.parameters end rl (run_call rl c).0 (run_call rl c).1
unfolding run_call amend_tokens
run_call-Credit end rl (waits n ts) v b h = try_wait_n-Credit end rl n ts v b h
run_call-Credit end rl (removes n) v b h = record {
  same = ground arith;
  valid = ground (arith, v);
  paid =
      removal_paid (amend_tokens rl (pos n)).available rl.available rl.refill_interval _ _
        (ground arith) (ground arith);
  latest = inl (ground arith);
}

run-Credit :
    (end : ℕ) (rl : Ratelimiter) (cs : List Call)
    → IsValid rl
    → IsBounded end rl.parameters
    → All (ReadsUpTo end) cs
    → Credit rl.parameters end rl (run rl cs).0 (run rl cs).1
unfolding run
run-Credit end rl [] v b h = record {
  same = refl;
  valid = v;
  paid = omega arith;
  latest = inl refl;
}
run-Credit end rl (c ∷ cs) v b (h, hs) =
    let first = run_call-Credit end rl c v b h in
    let rl' = (run_call rl c).0 in
    let later = run-Credit end rl' cs first.valid (subst (IsBounded end) (sym first.same) b) hs in
    Credit-trans rl.parameters end (run_call rl c).1 (run rl' cs).1 rl rl' (run rl' cs).0 first
      (subst (λ q. Credit q end rl' (run rl' cs).0 (run rl' cs).1) first.same later)

rate_bound :
    (g x i a r av f end : ℕ)
    → (x + g) * i + a * r ≤ av * i + a * f
    → (f ≡ r) ⊎ (f ≤ end + i)
    → g * i ≤ av * i + a * (end + i - r)
rate_bound g x i a r av f end paid (inl e) = omega (arith, (rw e at paid))
rate_bound g x i a r av f end paid (inr le) = elim (dec_le r (end + i)) [
  | yes h ↦
      let e : r + (end + i - r) ≡ end + i = omega arith in
      omega (arith, mul-le-mul_left a le, ap (λ (t : ℕ). a * t) e)
  | no h ↦ omega (arith, mul-le-mul_left a (before h))
]
  where
    before : ¬ (r ≤ end + i) → f ≤ r
    before h = omega arith

-- A valid limiter, whose numbers up to the time `end` fit into 64 bits, gets calls that read the
-- clock up to `end`. However they are spread, they are granted at most what was in the bucket and
-- one refill amount for each interval that began: with `g` tokens granted, g * interval ≤ available
-- * interval + amount * (end + interval - refill_at), where the subtraction stops at zero.
pub run-rate :
    (end : ℕ) (rl : Ratelimiter) (cs : List Call)
    → IsValid rl
    → IsBounded end rl.parameters
    → All (ReadsUpTo end) cs
    → (run rl cs).1 * rl.refill_interval
      ≤ rl.available * rl.refill_interval
        + rl.refill_amount * (end + rl.refill_interval - rl.refill_at)
run-rate end rl cs v b h =
    let c = run-Credit end rl cs v b h in
    rate_bound (run rl cs).1 (run rl cs).0.available rl.refill_interval rl.refill_amount
      rl.refill_at rl.available (run rl cs).0.refill_at end c.paid c.latest

-- A valid limiter, whose numbers up to the time `end` fit into 64 bits, stays valid under every
-- history of requests that read the clock up to `end` and of removals: its bucket never holds more
-- than its capacity.
pub run-IsValid :
    (end : ℕ) (rl : Ratelimiter) (cs : List Call)
    → IsValid rl
    → IsBounded end rl.parameters
    → All (ReadsUpTo end) cs
    → IsValid (run rl cs).0
run-IsValid end rl cs v b h = (run-Credit end rl cs v b h).valid

abbrev full_bucket : RateLimitSerde → ℕ → RateLimit
full_bucket value now = record {
  ratelimit = record {
    available = value.max_tokens;
    dropped = 0;
    parameters = record {
      capacity = value.max_tokens;
      refill_amount = value.tokens_per_fill;
      refill_interval = value.fill_interval;
    };
    refill_at = wrap (now + value.fill_interval);
  };
  limit_type = value.limit_type;
}

-- A configuration is refused exactly if a refill does not fit into the bucket, or else if its
-- interval does not fit into 64 bits; the error says which. Any other is accepted: its limiter has
-- the configured parameters, a full bucket and nothing dropped, its first refill is due after one
-- interval, modulo 2 ^ 64, and it is valid exactly if the interval is positive.
pub try_from_cases :
    (value : RateLimitSerde) (now : ℕ)
    → ((value.max_tokens < value.tokens_per_fill)
        × (try_from value now ≡ refused max_tokens_too_low))
      ⊎ ((value.tokens_per_fill ≤ value.max_tokens)
          × (u64_mod ≤ value.fill_interval)
          × (try_from value now ≡ refused refill_interval_too_long))
      ⊎ ((value.tokens_per_fill ≤ value.max_tokens)
          × (value.fill_interval < u64_mod)
          × ((l : RateLimit) × (try_from value now ≡ configured l)
              × (l.limit_type ≡ value.limit_type)
              × (l.ratelimit.capacity ≡ value.max_tokens)
              × (l.ratelimit.refill_amount ≡ value.tokens_per_fill)
              × (l.ratelimit.refill_interval ≡ value.fill_interval)
              × (l.ratelimit.available ≡ value.max_tokens)
              × (l.ratelimit.dropped ≡ 0)
              × (l.ratelimit.refill_at ≡ (now + value.fill_interval) % 2 ^ 64)
              × (IsValid l.ratelimit ↔ (0 < value.fill_interval))))
unfolding try_from
try_from_cases value now = elim (Bool-cases (ltb value.max_tokens value.tokens_per_fill)) [
  | inl low ↦ inl (ground arith, ground arith)
  | inr enough ↦ elim (Bool-cases (leb u64_mod value.fill_interval)) [
    | inl long ↦ inr (inl (ground arith, ground arith, ground arith))
    | inr short ↦ inr (
        inr (
          ground arith,
          ground arith,
          (
            full_bucket value now,
            ground arith,
            refl,
            refl,
            refl,
            refl,
            refl,
            refl,
            refl,
            (λ v. v.apart, λ positive. ground arith),
          ),
        ))
  ]
]

limit_type_cases : (t : RateLimitType) → (t ≡ requests) ⊎ (t ≡ tokens)
limit_type_cases requests = inl refl
limit_type_cases tokens = inr refl

zero_interval_panics :
    (rl : Ratelimiter) (n t : ℕ) (ts : List ℕ)
    → rl.refill_interval ≡ 0
    → rl.refill_at ≤ t
    → 0 < n
    → n ≤ rl.capacity
    → (try_wait_n rl n (t ∷ ts)).1 ≡ Waited.panicked
unfolding try_wait_n wait_loop acquire refill
zero_interval_panics rl n t ts z due p h = ground arith

-- A configuration with a fill interval of zero, whose bucket holds at least the tokens of a refill and
-- at least one, is accepted at a time of 64 bits. If the clock then reads no less than that time, the
-- limiter panics (a division by zero) at its first check: for any request if it counts requests, and
-- for a language model request of one token up to as many as the bucket holds if it counts tokens.
pub zero_fill_interval_panics :
    (value : RateLimitSerde) (now n t : ℕ) (ts : List ℕ)
    → value.fill_interval ≡ 0
    → value.tokens_per_fill ≤ value.max_tokens
    → now < u64_mod
    → now ≤ t
    → 0 < n
    → n ≤ value.max_tokens
    → (l : RateLimit) × (try_from value now ≡ configured l)
      × (((value.limit_type ≡ requests) × ((check_request l (t ∷ ts)).1 ≡ check_panicked))
          ⊎ ((value.limit_type ≡ tokens) × ((check_llm_request l n (t ∷ ts)).1 ≡ check_panicked)))
unfolding try_from check_request check_llm_request
zero_fill_interval_panics value now n t ts z fits small later p h =
    let rl = (full_bucket value now).ratelimit in
    (
      full_bucket value now,
      ground arith,
      elim (limit_type_cases value.limit_type) [
        | inl e ↦ inl (e, ground (arith, zero_interval_panics rl 1 t ts z))
        | inr e ↦ inr (e, ground (arith, zero_interval_panics rl n t ts z))
      ],
    )

full_bucket-IsValid :
    (value : RateLimitSerde) (now : ℕ) (l : RateLimit)
    → try_from value now ≡ configured l
    → 0 < value.fill_interval
    → IsValid (full_bucket value now).ratelimit
unfolding try_from
full_bucket-IsValid value now l made positive = ground arith

-- A limiter fresh from a configuration with a positive fill interval and a bucket that holds at least
-- one token, whose numbers up to the time `end` fit into 64 bits, lets the first request pass, and
-- the first language model request of one token up to as many as the bucket holds.
pub fresh_limit_allows :
    (value : RateLimitSerde) (now end n t : ℕ) (ts : List ℕ) (l : RateLimit)
    → try_from value now ≡ configured l
    → 0 < value.fill_interval
    → IsBounded end l.ratelimit.parameters
    → t ≤ end
    → 0 < n
    → n ≤ value.max_tokens
    → ((check_request l (t ∷ ts)).1 ≡ allowed) × ((check_llm_request l n (t ∷ ts)).1 ≡ allowed)
unfolding try_from check_request check_llm_request
fresh_limit_allows value now end n t ts l made positive b h p fits =
    let e : full_bucket value now ≡ l = ground arith in
    let v : IsValid l.ratelimit =
      subst (λ (k : RateLimit). IsValid k.ratelimit) e
        (full_bucket-IsValid value now l made positive) in
    let full : n ≤ l.ratelimit.available = rw (← e) fits in
    (
      ground (arith, try_wait_n_enough end l.ratelimit 1 t ts v b h),
      ground (arith, try_wait_n_enough end l.ratelimit n t ts v b h p full),
    )

given_back :
    (rl : Ratelimiter) (n : ℕ)
    → rl.capacity + 1 < u64_mod
    → rl.capacity < rl.available + suc n
    → rl.capacity < (amend_tokens rl (negsuc n)).available
unfolding amend_tokens
given_back rl n room more = ground arith

amend_tokens_capacity :
    (rl : Ratelimiter) (n : ℕ) → (amend_tokens rl (negsuc n)).capacity ≡ rl.capacity
unfolding amend_tokens
amend_tokens_capacity rl n = refl

-- Tokens that are given back to a bucket which lacks fewer of them leave it above its capacity, if
-- that is below the largest 64-bit number: the limiter is not valid any more.
pub amend_tokens_over :
    (rl : Ratelimiter) (n : ℕ)
    → rl.capacity + 1 < u64_mod
    → rl.capacity < rl.available + suc n
    → (rl.capacity < (amend_tokens rl (negsuc n)).available)
      × ¬ IsValid (amend_tokens rl (negsuc n))
amend_tokens_over rl n room more =
    let above = given_back rl n room more in
    (above, λ v. let h = v.within in absurd (ground (arith, amend_tokens_capacity rl n)))
