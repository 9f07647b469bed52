-- ===== src/Proxy.antt =====
-- The attempts to send a request, crates/agentgateway/src/proxy/httpproxy.rs. What the upstream does in
-- an attempt is a parameter: its answer, how often it polls the body, and whether it drops it.
mod Resting
mod Retry
mod Tests
use agentproxy.Prelude.{
  ℕ, zero, suc, ◌+◌, ◌%◌, Bool, true, false, not, ◌||◌, Option, none, some, List, [], ◌∷◌, nat_eq,
  any, nat_beq, leb, ltb, if◌then◌else◌,
}
use agentproxy.Route.{RetryPolicy}
use agentproxy.Replay.{
  Body, ReplayBody, SharedState, try_new, is_capped, clone, drop_body, poll_times,
}

-- The errors of `ProxyError` that can be retried, and the others.
pub data AttemptError : Type 0 where
  upstream_call_failed request_timeout dns_resolution other : AttemptError

abbrev pub is_retryable : AttemptError → Bool
is_retryable upstream_call_failed = true
is_retryable request_timeout = true
is_retryable dns_resolution = true
is_retryable other = false

-- `Result<Response, ProxyError>`, with the status of the response.
pub data Answer : Type 0 where
  response : (status : ℕ) → Answer
  error : AttemptError → Answer

unfoldable pub should_retry : Answer → RetryPolicy → Bool
should_retry (response status) pol = any (nat_beq status) pol.codes
should_retry (error e) pol = is_retryable e

-- The total number of attempts, a `u8`: the sum wraps around, as in a release build.
abbrev pub total_attempts : Option RetryPolicy → ℕ
total_attempts none = 1
total_attempts (some r) = (r.attempts + 1) % 256

abbrev pub max_buffered_bytes : ℕ
max_buffered_bytes = 65536

-- What the upstream does in an attempt.
pub record Attempt : Type 0 where
  pub answer : Answer
  pub polls : ℕ
  pub dropped : Bool

-- `matches!(this.is_capped(), None | Some(true))`.
abbrev pub unusable : Option Bool → Bool
unusable none = true
unusable (some capped) = capped

module _ {B H E : Type 0} (body : Body B H E) where
  -- The shared state after an attempt; `none` is a panic.
  unfoldable pub attempt_upstream :
      Attempt → ReplayBody B H → SharedState B H → Option (SharedState B H)
  attempt_upstream a this shared = elim (poll_times body a.polls this shared) [
    | none ↦ none
    | some (ps, c, next) ↦ some (if a.dropped then drop_body c next else next)
  ]

  module _ (upstream : ℕ → Attempt) (pol : RetryPolicy) where
    -- The loop from attempt `n` on, with so many attempts left: the answer, and the number of
    -- attempts made. `none` is a panic.
    unfoldable pub retry_from :
        (left n : ℕ) → ReplayBody B H → SharedState B H → Option Answer → Option (Answer × ℕ)
    retry_from zero n this shared last_res = none
    retry_from (suc left) n this shared last_res = elim (unusable (is_capped this shared)) [
      | true ↦ elim last_res [ none ↦ none | some res ↦ some (res, n) ]
      | false ↦ elim (attempt_upstream (upstream n) this shared) [
        | none ↦ none
        | some next ↦
            let res = (upstream n).answer in
            let rest = retry_from left (n + 1) clone next (some res) in
            if nat_beq left 0 || not (should_retry res pol) then some (res, n + 1) else rest
      ]
    ]

  -- A body that cannot be sent again is sent once, as it is.
  unfoldable pub send : (ℕ → Attempt) → RetryPolicy → B → Option (Answer × ℕ)
  send upstream pol b =
      let attempts = total_attempts (some pol) in
      if ltb 1 attempts
      then elim (try_new body b max_buffered_bytes) [
        | none ↦ some ((upstream 0).answer, 1)
        | some (this, shared) ↦ retry_from upstream pol attempts 0 this shared none
      ]
      else some ((upstream 0).answer, 1)
