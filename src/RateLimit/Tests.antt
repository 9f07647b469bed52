-- ===== src/RateLimit/Tests.antt =====
-- The rate limiter at concrete inputs: a bucket of ten tokens that gets five each second.
use agentproxy.Prelude.{
  ℕ, ◌+◌, ◌-◌, ◌*◌, ◌≤◌, ◌<◌, ◌≡◌, refl, ◌≢◌, ◌⊎◌, ◌↔◌, ◌%◌, ◌^◌, arith, List, [], ◌∷◌,
}
use agentproxy.Prelude.Int.{negsuc}
use agentproxy.RateLimit.{
  Ratelimiter, Waited, acquired, denied, no_more_readings, RateLimit, RateLimitSerde, requests,
  tokens, configured, refused, try_from, check_request, check_llm_request, check_panicked, allowed,
  try_wait_n, amend_tokens, max_tokens_too_low, refill_interval_too_long, u64_mod, refill, refilled,
}
use agentproxy.RateLimit.Refill.{IsValid, IsBounded, exact_refill, refill_exact}
use agentproxy.RateLimit.Acquire.{try_wait_n_ends, try_wait_n_enough}
use agentproxy.RateLimit.History.{
  Call, waits, removes, run, run-rate, run-IsValid, try_from_cases, zero_fill_interval_panics,
  fresh_limit_allows, amend_tokens_over,
}

abbrev second : ℕ
second = 1_000_000_000

abbrev bucket : Ratelimiter
bucket = record {
  available = 3;
  dropped = 0;
  parameters = record { capacity = 10; refill_amount = 5; refill_interval = second };
  refill_at = 1_000_000_000;
}

abbrev limit : RateLimitSerde
limit = record {
  max_tokens = 10;
  tokens_per_fill = 5;
  fill_interval = second;
  limit_type = requests;
}

bucket-IsValid : IsValid bucket
bucket-IsValid = omega arith

bucket-IsBounded : IsBounded 9_000_000_000 bucket.parameters
bucket-IsBounded = omega arith

-- The second request waits for the refill, and the third is too much.
waits_test : (try_wait_n bucket 4 (5 ∷ [])).1 ≡ denied 999_999_995
unfolding try_wait_n refill
waits_test = refl

refilled_test :
    try_wait_n bucket 4 (2_500_000_000 ∷ [])
    ≡ (record bucket { available = 6; dropped = 3; refill_at = 3_000_000_000 }, acquired)
unfolding try_wait_n refill
refilled_test = refl

abbrev history : List Call
history =
    waits 2 (5 ∷ []) ∷ waits 4 (1_500_000_000 ∷ []) ∷ removes 1 ∷ waits 9 (2_100_000_000 ∷ []) ∷ []

-- The bucket with eight tokens, at the last value of the counter of dropped tokens.
abbrev full_counter : Ratelimiter
full_counter = record bucket { available = 8; dropped = 2 ^ 64 - 1 }

refill_exact_example : refill full_counter 2_500_000_000 ≡ (
  record (exact_refill full_counter 2_500_000_000) {
    dropped = (exact_refill full_counter 2_500_000_000).dropped % 2 ^ 64;
  },
  refilled,
)
refill_exact_example =
    refill_exact full_counter 2_500_000_000 9_000_000_000 (omega arith) bucket-IsBounded
      (omega arith) (omega arith)

-- Two tokens get into the bucket, and the eight that do not wrap the counter around.
counter_wraps :
    refill full_counter 2_500_000_000
    ≡ (record bucket { available = 10; dropped = 7; refill_at = 3_000_000_000 }, refilled)
unfolding refill
counter_wraps = refl

run-rate_example :
    (run bucket history).1 * second ≤ 3 * second + 5 * (9_000_000_000 + second - 1_000_000_000)
run-rate_example =
    run-rate 9_000_000_000 bucket history bucket-IsValid bucket-IsBounded (omega arith)

run-IsValid_example : IsValid (run bucket history).0
run-IsValid_example =
    run-IsValid 9_000_000_000 bucket history bucket-IsValid bucket-IsBounded (omega arith)

abbrev readings : List ℕ
readings = 1 ∷ 2 ∷ 3 ∷ 4 ∷ 5 ∷ 6 ∷ 7 ∷ 8 ∷ []

try_wait_n_ends_example :
    ((try_wait_n bucket 4 readings).1 ≢ no_more_readings)
    × ((try_wait_n bucket 4 readings).1 ≢ Waited.panicked)
try_wait_n_ends_example =
    try_wait_n_ends 9_000_000_000 bucket 4 readings bucket-IsValid bucket-IsBounded (omega arith)
      (omega arith) (omega arith)

try_wait_n_enough_example : (try_wait_n bucket 2 (7 ∷ [])).1 ≡ acquired
try_wait_n_enough_example =
    try_wait_n_enough 9_000_000_000 bucket 2 7 [] bucket-IsValid bucket-IsBounded (omega arith)
      (omega arith) (omega arith)

try_from_cases_example :
    ((10 < 5) × (try_from limit 7 ≡ refused max_tokens_too_low))
    ⊎ ((5 ≤ 10) × (u64_mod ≤ second) × (try_from limit 7 ≡ refused refill_interval_too_long))
    ⊎ ((5 ≤ 10)
        × (second < u64_mod)
        × ((l : RateLimit) × (try_from limit 7 ≡ configured l)
            × (l.limit_type ≡ requests)
            × (l.ratelimit.capacity ≡ 10)
            × (l.ratelimit.refill_amount ≡ 5)
            × (l.ratelimit.refill_interval ≡ second)
            × (l.ratelimit.available ≡ 10)
            × (l.ratelimit.dropped ≡ 0)
            × (l.ratelimit.refill_at ≡ (7 + second) % 2 ^ 64)
            × (IsValid l.ratelimit ↔ (0 < second))))
try_from_cases_example = try_from_cases limit 7

abbrev zero_limit : RateLimitSerde
zero_limit = record limit { fill_interval = 0 }

zero_fill_interval_panics_example :
    (l : RateLimit) × (try_from zero_limit 7 ≡ configured l)
    × (((zero_limit.limit_type ≡ requests) × ((check_request l (8 ∷ [])).1 ≡ check_panicked))
        ⊎ ((zero_limit.limit_type ≡ tokens)
            × ((check_llm_request l 3 (8 ∷ [])).1 ≡ check_panicked)))
zero_fill_interval_panics_example =
    zero_fill_interval_panics zero_limit 7 3 8 [] refl (omega arith) (omega arith) (omega arith)
      (omega arith) (omega arith)

abbrev fresh : RateLimit
fresh = record {
  ratelimit = record bucket { available = 10; refill_at = 1_000_000_007 };
  limit_type = requests;
}

fresh_limit_allows_example :
    ((check_request fresh (8 ∷ [])).1 ≡ allowed)
    × ((check_llm_request fresh 10 (8 ∷ [])).1 ≡ allowed)
unfolding try_from
fresh_limit_allows_example =
    fresh_limit_allows limit 7 9_000_000_000 10 8 [] fresh refl (omega arith) (omega arith)
      (omega arith) (omega arith) (omega arith)

amend_tokens_over_example :
    (10 < (amend_tokens bucket (negsuc 20)).available) × ¬ IsValid (amend_tokens bucket (negsuc 20))
amend_tokens_over_example = amend_tokens_over bucket 20 (omega arith) (omega arith)
