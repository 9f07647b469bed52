-- ===== src/Proxy/Retry.antt =====
-- The attempts to send a request end with an answer.
use agentproxy.Prelude.{
  ℕ, zero, suc, ◌+◌, ◌≤◌, ◌<◌, ◌≡◌, refl, sym, ap, ◌∙◌, ◌⊎◌, inl, inr, true, false, not, ◌||◌,
  Option, none, some, nat_beq, Bool-cases, Option-cases, arith, subst, nat_beq_iff, ltb,
}
use agentproxy.Route.{RetryPolicy}
use agentproxy.Replay.{
  Body, ReplayBody, SharedState, try_new, is_capped, state_is_capped, clone, first_state,
}
use agentproxy.Replay.Bounds.{Ready, first_owned}
use agentproxy.Proxy.{
  Answer, Attempt, should_retry, total_attempts, max_buffered_bytes, unusable, attempt_upstream,
  retry_from, send,
}
use agentproxy.Proxy.Resting.{Resting, usable_clone, attempt_returns}

module _ {B H E : Type 0} (body : Body B H E) (max : ℕ) where
  module _ (upstream : ℕ → Attempt) (pol : RetryPolicy) where
    -- The answer is that of the last attempt that was made, and every attempt from a place on but the
    -- last one had an answer to retry.
    abbrev pub EndsWith : (first limit : ℕ) → Option (Answer × ℕ) → Type 0
    EndsWith first limit r =
        (m : ℕ) × (r ≡ some ((upstream m).answer, m + 1))
        × (m < limit)
        × ((j : ℕ) → first ≤ j → j < m → should_retry (upstream j).answer pol ≡ true)

    retry_unusable :
        (left n : ℕ) (this : ReplayBody B H) (shared : SharedState B H) (res : Answer)
        → unusable (is_capped this shared) ≡ true
        → retry_from body upstream pol (suc left) n this shared (some res) ≡ some (res, n)
    unfolding retry_from
    retry_unusable left n this shared res e = ground arith

    retry_ends :
        (left n : ℕ) (this : ReplayBody B H) (shared next : SharedState B H) (last : Option Answer)
        → unusable (is_capped this shared) ≡ false
        → attempt_upstream body (upstream n) this shared ≡ some next
        → (nat_beq left 0 || not (should_retry (upstream n).answer pol)) ≡ true
        → retry_from body upstream pol (suc left) n this shared last
          ≡ some ((upstream n).answer, n + 1)
    unfolding retry_from
    retry_ends left n this shared next last e f g = ground arith

    retry_again :
        (left n : ℕ) (this : ReplayBody B H) (shared next : SharedState B H) (last : Option Answer)
        → unusable (is_capped this shared) ≡ false
        → attempt_upstream body (upstream n) this shared ≡ some next
        → (nat_beq left 0 || not (should_retry (upstream n).answer pol)) ≡ false
        → retry_from body upstream pol (suc left) n this shared last
          ≡ retry_from body upstream pol left (n + 1) clone next (some (upstream n).answer)
    unfolding retry_from
    retry_again left n this shared next last e f g = ground arith

    to_retry :
        (left : ℕ) (a : Answer)
        → (nat_beq left 0 || not (should_retry a pol)) ≡ false
        → should_retry a pol ≡ true
    to_retry left a g = ground arith

    -- What is retried before a later attempt.
    earlier :
        (n m : ℕ)
        → should_retry (upstream n).answer pol ≡ true
        → ((j : ℕ) → n + 1 ≤ j → j < m → should_retry (upstream j).answer pol ≡ true)
        → (j : ℕ) → n ≤ j
        → j < m
        → should_retry (upstream j).answer pol ≡ true
    earlier n m r f j a b = elim (Bool-cases (nat_beq n j)) [
      | inl q ↦
          let e : n ≡ j = (nat_beq_iff n j).0 q in
          subst (λ i. should_retry (upstream i).answer pol ≡ true) e r
      | inr q ↦ f j (ground (arith, nat_beq_iff n j)) b
    ]

    -- An attempt with a body that can be polled.
    usable_EndsWith :
        (left n : ℕ) (this : ReplayBody B H) (shared : SharedState B H) (last : Option Answer)
        → Ready max this shared
        → Resting max shared.body
        → unusable (is_capped this shared) ≡ false
        → EndsWith n (n + suc left) (retry_from body upstream pol (suc left) n this shared last)
    usable_EndsWith zero n this shared last h k u =
        let (next, e, k') = attempt_returns body max (upstream n) this shared h k in
        (
          n,
          retry_ends zero n this shared next last u e (ground arith),
          omega arith,
          λ j a b. absurd (omega arith),
        )
    usable_EndsWith (suc left) n this shared last h k u =
        let (next, e, k') = attempt_returns body max (upstream n) this shared h k in
        elim (Bool-cases (nat_beq (suc left) 0 || not (should_retry (upstream n).answer pol))) [
          | inl g ↦ (
            n,
            retry_ends (suc left) n this shared next last u e g,
            omega arith,
            λ j a b. absurd (omega arith),
          )
          | inr g ↦
              let again = retry_again (suc left) n this shared next last u e g in
              elim (Bool-cases (unusable (is_capped clone next))) [
                | inl v ↦ (
                  n,
                  again ∙ retry_unusable left (n + 1) clone next (upstream n).answer v,
                  omega arith,
                  λ j a b. absurd (omega arith),
                )
                | inr v ↦
                    let (m, q, l, f) =
                      usable_EndsWith left (n + 1) clone next (some (upstream n).answer)
                        (usable_clone max next k' v) k' v in
                    (
                      m,
                      again ∙ q,
                      omega arith,
                      earlier n m (to_retry (suc left) (upstream n).answer g) f,
                    )
              ]
        ]

module _ {B H E : Type 0} (body : Body B H E) where
  module _ (start : B) (this : ReplayBody B H) (shared : SharedState B H)
      (new : try_new body start max_buffered_bytes ≡ some (this, shared)) where
    abbrev owner : this.state ≡ some (first_state body start max_buffered_bytes)
    owner = first_owned body max_buffered_bytes start this shared new

    first_Ready : Ready max_buffered_bytes this shared
    first_Ready = rw owner (inr (omega arith, omega arith))

    first_Resting : Resting max_buffered_bytes shared.body
    unfolding try_new
    first_Resting =
        let q : shared.body ≡ none = ground arith in subst (Resting max_buffered_bytes) (sym q) tt

    first_usable : unusable (is_capped this shared) ≡ false
    unfolding is_capped state_is_capped
    first_usable = rw owner refl

  module _ (upstream : ℕ → Attempt) (pol : RetryPolicy) (start : B) where
    send_tracked :
        (this : ReplayBody B H) (shared : SharedState B H)
        → ltb 1 (total_attempts (some pol)) ≡ true
        → try_new body start max_buffered_bytes ≡ some (this, shared)
        → send body upstream pol start
          ≡ retry_from body upstream pol (total_attempts (some pol)) 0 this shared none
    unfolding send
    send_tracked this shared e f = ground arith

    send_once :
        (ltb 1 (total_attempts (some pol)) ≡ false) ⊎ (try_new body start max_buffered_bytes ≡ none)
        → send body upstream pol start ≡ some ((upstream 0).answer, 1)
    unfolding send
    send_once (inl e) = ground arith
    send_once (inr e) = ground arith

    -- A policy allows fewer than 255 retries. Whatever the upstream does with the body in each attempt,
    -- the sending does not panic and ends with the answer of the last attempt that is made; it is at
    -- most as many retries as the policy allows, and each attempt before the last had an answer that
    -- the policy retries.
    pub send_ends :
        pol.attempts < 255
        → (m : ℕ) × (send body upstream pol start ≡ some ((upstream m).answer, m + 1))
          × (m ≤ pol.attempts)
          × ((j : ℕ) → j < m → should_retry (upstream j).answer pol ≡ true)
    send_ends few = elim (Bool-cases (ltb 1 (total_attempts (some pol)))) [
      | inr e ↦ (0, send_once (inl e), omega arith, λ j l. absurd (omega arith))
      | inl e ↦ elim (Option-cases (try_new body start max_buffered_bytes)) [
        | inl f ↦ (0, send_once (inr f), omega arith, λ j l. absurd (omega arith))
        | inr ((this, shared), f) ↦
            let (m, q, l, r) =
              usable_EndsWith body max_buffered_bytes upstream pol pol.attempts 0 this shared none
                (first_Ready start this shared f) (first_Resting start this shared f)
                (first_usable start this shared f) in
            (
              m,
              send_tracked this shared e f
                  ∙ (ap (λ n. retry_from body upstream pol n 0 this shared none) total ∙ q),
              omega arith,
              λ j. r j (omega arith),
            )
      ]
    ]
      where
        total : total_attempts (some pol) ≡ suc pol.attempts
        total = omega arith
