-- ===== src/Replay/Tests.antt =====
-- The theorems on bodies that can be sent again at concrete inner bodies, and some runs.
use agentproxy.Prelude.{
  ℕ, ◌≤◌, ◌≡◌, refl, true, false, Option, none, some, List, [], ◌∷◌, codes, is_empty, arith,
}
use agentproxy.Replay.Buffers.{remaining}
use agentproxy.Replay.{
  Frame, data_frame, trailers_frame, Polled, ended, failed, frame, Body, BodyState, SharedState,
  ReplayBody, capped, first_state, try_new, attempts, state_is_capped,
}
use agentproxy.Replay.Tape.{read_all}
use agentproxy.Replay.Bounds.{attempts_bounded}
use agentproxy.Replay.Retries.{blank, retries_replay}

-- An inner body that is a list of frames; trailers are numbers.
abbrev next_frame : List (Frame ℕ) → Polled ℕ ℕ × List (Frame ℕ)
next_frame [] = (ended, [])
next_frame (f ∷ fs) = (frame f, fs)

abbrev listed : Body (List (Frame ℕ)) ℕ ℕ
listed = record {
  poll = next_frame;
  is_end = is_empty;
  hint = λ fs. record { lower = 0; upper = none };
}

abbrev upload : List (Frame ℕ)
upload = data_frame (codes "ab") ∷ data_frame (codes "c") ∷ trailers_frame 7 ∷ []

abbrev first_body : ℕ → ReplayBody (List (Frame ℕ)) ℕ
first_body max = record {
  state = some (first_state listed upload max);
  replay_body = false;
  replay_trailers = false;
}

abbrev unpolled : SharedState (List (Frame ℕ)) ℕ
unpolled = record { body = none; was_empty = false; orig_size_hint = listed.hint upload }

-- The first attempt fails after a frame, the second after two, the third reads all.
abbrev polls : List ℕ
polls = 1 ∷ 2 ∷ 5 ∷ []

replayed :
    (read_all listed polls (blank listed 5 upload)).0
    ≡ (frame (data_frame (codes "ab")) ∷ [])
      ∷ (frame (data_frame (codes "ab")) ∷ frame (data_frame (codes "c")) ∷ [])
      ∷ (frame (data_frame (codes "ab"))
          ∷ frame (data_frame (codes "c"))
          ∷ frame (trailers_frame 7)
          ∷ ended
          ∷ ended
          ∷ [])
      ∷ []
unfolding read_all
replayed = refl

wrapped : (max : ℕ) → try_new listed upload max ≡ some (first_body max, unpolled)
unfolding try_new
wrapped max = ground arith

retries_replay_example :
    (last : SharedState (List (Frame ℕ)) ℕ) × (attempts listed (first_body 5) polls unpolled
      ≡ some ((read_all listed polls (blank listed 5 upload)).0, last))
unfolding read_all
retries_replay_example =
    retries_replay listed 5 upload (first_body 5) unpolled 1 (2 ∷ 5 ∷ []) (omega arith) (wrapped 5)
      (omega arith)

attempts_bounded_example :
    (pss : List (List (Polled ℕ _))) × (last : SharedState (List (Frame ℕ)) ℕ) × (s : BodyState
      (List (Frame ℕ))
      ℕ)
    × (attempts listed (first_body 2) polls unpolled ≡ some (pss, last))
    × (last.body ≡ some s)
    × (remaining s.replay ≤ 2)
    × (state_is_capped s ≡ true → remaining s.replay ≡ 0)
attempts_bounded_example =
    attempts_bounded listed 2 upload (first_body 2) unpolled 1 (2 ∷ 5 ∷ []) (omega arith)
      (wrapped 2)

abbrev answers {ℓ κ} : {A : Type ℓ} {B : Type κ} → Option (A × B) → Option A
answers none = none
answers (some (a, b)) = some a

-- A limit of two bytes is passed by the second frame: the attempt that read it went on, the next one
-- fails.
over_the_limit :
    answers (attempts listed (first_body 2) (3 ∷ 1 ∷ []) unpolled)
    ≡ some (
        (frame (data_frame (codes "ab"))
          ∷ frame (data_frame (codes "c"))
          ∷ frame (trailers_frame 7)
          ∷ [])
        ∷ (failed capped ∷ [])
        ∷ [])
unfolding attempts
over_the_limit = refl
