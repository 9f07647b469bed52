-- ===== src/Proxy/Tests.antt =====
-- The attempts to send a request with a concrete upstream.
use agentproxy.Prelude.{
  ℕ, ◌+◌, ◌≤◌, ◌<◌, ◌≡◌, refl, true, none, some, List, [], ◌∷◌, Str, codes, is_empty, arith,
  if◌then◌else◌, ltb,
}
use agentproxy.Route.{RetryPolicy}
use agentproxy.Replay.{
  Body, Polled, data_frame, ended, frame, try_new, is_capped, poll_times, clone, drop_body,
}
use agentproxy.Proxy.{response, Attempt, should_retry, send, retry_from, attempt_upstream}
use agentproxy.Proxy.Retry.{send_ends}

abbrev next_frame : List Str → Polled ℕ ℕ × List Str
next_frame [] = (ended, [])
next_frame (s ∷ ss) = (frame (data_frame s), ss)

abbrev listed : Body (List Str) ℕ ℕ
listed = record {
  poll = next_frame;
  is_end = is_empty;
  hint = λ fs. record { lower = 0; upper = none };
}

-- Two answers that the server is unavailable, and then a good one.
abbrev flaky : ℕ → Attempt
flaky n = record {
  answer = if ltb n 2 then response 503 else response 200;
  polls = n + 1;
  dropped = true;
}

abbrev three_times : ℕ → RetryPolicy
three_times n = record { attempts = n; backoff = none; codes = 503 ∷ [] }

abbrev upload : List Str
upload = codes "a" ∷ codes "b" ∷ []

send_ends_example :
    (m : ℕ) × (send listed flaky (three_times 3) upload ≡ some ((flaky m).answer, m + 1))
    × (m ≤ 3)
    × ((j : ℕ) → j < m → should_retry (flaky j).answer (three_times 3) ≡ true)
send_ends_example = send_ends listed flaky (three_times 3) upload (omega arith)

third_succeeds : send listed flaky (three_times 3) upload ≡ some (response 200, 3)
unfolding send try_new retry_from is_capped attempt_upstream poll_times should_retry clone drop_body
third_succeeds = refl

-- With 255 retries the number of attempts wraps around, and the request is sent once.
no_retries_at_255 : send listed flaky (three_times 255) upload ≡ some (response 503, 1)
unfolding send
no_retries_at_255 = refl
