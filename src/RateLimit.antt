-- ===== src/RateLimit.antt =====
-- crates/agentgateway/src/http/localratelimit.rs: the token bucket behind the local rate limit.
-- All fields are `u64`; sums, differences and products wrap around as in a release build. Times are
-- nanoseconds of the monotonic clock, whose readings are arguments. One caller at a time: every
-- compare-and-exchange succeeds at the first attempt.
pub mod Refill
pub mod Acquire
pub mod History
mod Tests
use agentproxy.Prelude.{
  ℕ, ◌+◌, ◌-◌, ◌*◌, ◌/◌, ◌%◌, ◌^◌, min, suc, ltb, leb, nat_beq, if◌then◌else◌, ◌||◌, List, [], ◌∷◌,
}
use agentproxy.Prelude.Int.{ℤ, pos, negsuc}

abbrev pub u64_mod : ℕ
u64_mod = 2 ^ 64

abbrev pub wrap : ℕ → ℕ
wrap n = n % u64_mod

-- `a - b` on `u64`.
abbrev pub wrap_sub : ℕ → ℕ → ℕ
wrap_sub a b = (a + u64_mod - b) % u64_mod

pub record Parameters : Type 0 where
  pub capacity : ℕ
  pub refill_amount : ℕ
  pub refill_interval : ℕ

pub record Ratelimiter : Type 0 where
  pub available : ℕ
  pub dropped : ℕ
  pub parameters : Parameters
  pub open parameters use *
  pub refill_at : ℕ

pub data BuildError : Type 0 where
  max_tokens_too_low refill_interval_too_long : BuildError

pub data Built : Type 0 where
  built : Ratelimiter → Built
  rejected : BuildError → Built

pub record Builder : Type 0 where
  pub initial_available : ℕ
  pub max_tokens : ℕ
  pub refill_amount : ℕ
  pub refill_interval : ℕ

unfoldable pub new_builder : ℕ → ℕ → Builder
new_builder amount interval = record {
  initial_available = 0;
  max_tokens = 1;
  refill_amount = amount;
  refill_interval = interval;
}

-- `Builder::build`; `interval` is the `u128` of nanoseconds of a standard `Duration`.
unfoldable pub build : Builder → (now : ℕ) → Built
build b now =
    if ltb b.max_tokens b.refill_amount
    then rejected max_tokens_too_low
    else if leb u64_mod b.refill_interval
    then rejected refill_interval_too_long
    else built (record {
      available = b.initial_available;
      dropped = 0;
      parameters = record {
        capacity = b.max_tokens;
        refill_amount = b.refill_amount;
        refill_interval = b.refill_interval;
      };
      refill_at = wrap (now + b.refill_interval);
    })

-- `Err` of the source holds the time until the next refill; a division by zero panics.
pub data Refilled : Type 0 where
  refilled : Refilled
  too_early : ℕ → Refilled
  panicked : Refilled

-- The second half of `refill`: `amount` tokens are put into the bucket.
put_tokens : Ratelimiter → ℕ → Ratelimiter
put_tokens rl amount =
    let to_add = wrap_sub rl.capacity rl.available in
    if leb rl.capacity (wrap (rl.available + amount))
    then record rl {
      available = wrap (rl.available + to_add);
      dropped = wrap (rl.dropped + wrap_sub amount to_add);
    }
    else record rl { available = wrap (rl.available + amount) }

abbrev pub elapsed_intervals : Ratelimiter → ℕ → ℕ
elapsed_intervals rl time = (time - rl.refill_at) / rl.refill_interval + 1

unfoldable pub refill : Ratelimiter → (time : ℕ) → Ratelimiter × Refilled
unfolding put_tokens
refill rl time =
    let intervals = wrap (elapsed_intervals rl time) in
    let next_refill = wrap (rl.refill_at + wrap (intervals * rl.refill_interval)) in
    if ltb time rl.refill_at
    then (rl, too_early (rl.refill_at - time))
    else if nat_beq rl.refill_interval 0
    then (rl, panicked)
    else (
      put_tokens (record rl { refill_at = next_refill }) (wrap (intervals * rl.refill_amount)),
      refilled,
    )

pub data Waited : Type 0 where
  acquired : Waited
  denied : ℕ → Waited
  panicked : Waited
  no_more_readings : Waited

-- The inner loop of `try_wait_n`, after an attempt to refill: `rest` is the next round.
acquire : Ratelimiter → Refilled → (n : ℕ) → Ratelimiter × Waited → Ratelimiter × Waited
acquire rl panicked n rest = (rl, panicked)
acquire rl refilled n rest =
    if ltb rl.available n then rest else (record rl { available = rl.available - n }, acquired)
acquire rl (too_early hint) n rest =
    if ltb rl.available n
    then (rl, denied hint)
    else (record rl { available = rl.available - n }, acquired)

-- The outer loop of `try_wait_n`, with one reading of the clock for each round.
wait_loop : Ratelimiter → (n : ℕ) → List ℕ → Ratelimiter × Waited
unfolding acquire
wait_loop rl n [] = (rl, no_more_readings)
wait_loop rl n (t ∷ ts) =
    let (rl', r) = refill rl t in let rest = wait_loop rl' n ts in acquire rl' r n rest

unfoldable pub try_wait_n : Ratelimiter → (n : ℕ) → List ℕ → Ratelimiter × Waited
unfolding wait_loop
try_wait_n rl n ts = if nat_beq n 0 || ltb rl.capacity n then (rl, denied 0) else wait_loop rl n ts

unfoldable pub try_wait : Ratelimiter → List ℕ → Ratelimiter × Waited
unfolding try_wait_n
try_wait rl ts = try_wait_n rl 1 ts

-- `i64::unsigned_abs` of a negative number -(n + 1) is n + 1.
unfoldable pub amend_tokens : Ratelimiter → ℤ → Ratelimiter
amend_tokens rl (pos n) = if nat_beq n 0 then rl else record rl { available = rl.available - n }
amend_tokens rl (negsuc n) = record rl { available = min (rl.available + suc n) (u64_mod - 1) }

pub data RateLimitType : Type 0 where
  requests tokens : RateLimitType

pub record RateLimit : Type 0 where
  pub ratelimit : Ratelimiter
  pub limit_type : RateLimitType

pub record RateLimitSerde : Type 0 where
  pub max_tokens : ℕ
  pub tokens_per_fill : ℕ
  pub fill_interval : ℕ
  pub limit_type : RateLimitType

pub data Configured : Type 0 where
  configured : RateLimit → Configured
  refused : BuildError → Configured

-- `RateLimit::try_from`: the bucket starts full.
unfoldable pub try_from : RateLimitSerde → (now : ℕ) → Configured
unfolding build new_builder
try_from value now =
    let b = new_builder value.tokens_per_fill value.fill_interval in
    elim (build (record b { initial_available = value.max_tokens; max_tokens = value.max_tokens })
      now) [
        | rejected e ↦ refused e
        | built rl ↦ configured (record { ratelimit = rl; limit_type = value.limit_type })
      ]

-- What a check answers: the request passes, is refused, or the check does not return normally.
pub data Checked : Type 0 where
  allowed limited check_panicked check_unfinished : Checked

abbrev pub answer : Waited → Checked
answer acquired = allowed
answer (denied hint) = limited
answer panicked = check_panicked
answer no_more_readings = check_unfinished

abbrev update : RateLimit → Ratelimiter × Waited → RateLimit × Checked
update l (rl, w) = (record l { ratelimit = rl }, answer w)

unfoldable pub check_request : RateLimit → List ℕ → RateLimit × Checked
unfolding try_wait
check_request l ts = elim l.limit_type [
  | requests ↦ update l (try_wait l.ratelimit ts)
  | tokens ↦ (l, allowed)
]

unfoldable pub check_llm_request : RateLimit → (input_tokens : ℕ) → List ℕ → RateLimit × Checked
unfolding try_wait_n
check_llm_request l n ts = elim l.limit_type [
  | requests ↦ (l, allowed)
  | tokens ↦ update l (try_wait_n l.ratelimit n ts)
]
