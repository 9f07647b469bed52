-- ===== src/Replay.antt =====
-- The body that can be sent again, crates/agentgateway/src/http/retry/body.rs. The inner body is a
-- parameter: its state is of a type `B` and an operation returns the next one. The polls of the
-- program are sequential, so the mutex of the shared state is the value that is passed on.
pub mod Buffers
mod Tape
pub mod Bounds
mod Kept
mod Refine
mod Retries
mod Tests
use agentproxy.Prelude.{
  ℕ, ◌+◌, ◌-◌, ◌%◌, ◌^◌, Bool, true, false, not, ◌&&◌, Option, none, some, List, [], ◌∷◌, Str,
  length, ltb, nat_beq, or_else, if◌then◌else◌,
}
use Buffers.{BufList, no_bufs, push, get_chunk, remaining, has_remaining}

-- `http_body::Frame`: data, trailers, or neither.
pub data Frame (H : Type 0) : Type 0 where
  data_frame : Str → Frame H
  trailers_frame : H → Frame H
  unknown_frame : Frame H

-- `Poll<Option<Result<Frame, E>>>`.
pub data Polled (H E : Type 0) : Type 0 where
  pending : Polled H E
  ended : Polled H E
  failed : E → Polled H E
  frame : Frame H → Polled H E

pub record SizeHint : Type 0 where
  pub lower : ℕ
  pub upper : Option ℕ

-- The trait `http_body::Body` of the inner body.
pub record Body (B H E : Type 0) : Type 0 where
  pub poll : B → Polled H E × B
  pub is_end : B → Bool
  pub hint : B → SizeHint

-- `axum_core::Error`, made of the inner body's error or of `Capped`.
pub data ReplayError (E : Type 0) : Type 0 where
  capped : ReplayError E
  inner : E → ReplayError E

pub record BodyState (B H : Type 0) : Type 0 where
  pub replay : BufList
  pub replay_idx : ℕ
  pub trailers : Option H
  pub rest : B
  pub is_completed : Bool
  pub max_bytes : ℕ

pub record SharedState (B H : Type 0) : Type 0 where
  pub body : Option (BodyState B H)
  pub was_empty : Bool
  pub orig_size_hint : SizeHint

pub record ReplayBody (B H : Type 0) : Type 0 where
  pub state : Option (BodyState B H)
  pub replay_body : Bool
  pub replay_trailers : Bool

abbrev pub usize_max : ℕ
usize_max = 2 ^ 64

module _ {B H : Type 0} where
  unfoldable pub state_is_capped : BodyState B H → Bool
  state_is_capped s = nat_beq s.max_bytes 0

  abbrev drop_buffer : BodyState B H → BodyState B H
  unfolding has_remaining
  drop_buffer s = if has_remaining s.replay then record s { replay = no_bufs } else s

  -- The new state; the chunk is returned as it came.
  unfoldable pub record_bytes : Str → BodyState B H → BodyState B H
  unfolding state_is_capped drop_buffer push
  record_bytes bytes s =
      let t = record s { max_bytes = s.max_bytes - length bytes } in
      if state_is_capped t then drop_buffer t else record t { replay = push bytes t.replay }

  abbrev pub acquire_from :
      Option (BodyState B H)
      → Option (BodyState B H)
      → SharedState B H
      → Option (BodyState B H × SharedState B H)
  acquire_from (some s) slot shared = some (s, shared)
  acquire_from none (some s) shared = some (s, record shared { body = none })
  acquire_from none none shared = none

  -- The state that the body owns, or else the shared one, which is taken; `none` is the panic when
  -- neither is there.
  unfoldable pub acquire_state :
      ReplayBody B H → SharedState B H → Option (BodyState B H × SharedState B H)
  acquire_state b shared = acquire_from b.state shared.body shared

  abbrev pub capped_of : Option (BodyState B H) → Option Bool
  unfolding state_is_capped
  capped_of none = none
  capped_of (some s) = some (state_is_capped s)

  unfoldable pub is_capped : ReplayBody B H → SharedState B H → Option Bool
  unfolding capped_of
  is_capped b shared = or_else (capped_of b.state) (capped_of shared.body)

  -- `Clone` and `Drop`.
  unfoldable pub clone : ReplayBody B H
  clone = record { state = none; replay_body = true; replay_trailers = true }

  abbrev pub give_back : Option (BodyState B H) → SharedState B H → SharedState B H
  give_back none shared = shared
  give_back (some s) shared = record shared { body = some (record s { replay_idx = 0 }) }

  unfoldable pub drop_body : ReplayBody B H → SharedState B H → SharedState B H
  drop_body b shared = give_back b.state shared

module _ {B H E : Type 0} (body : Body B H E) where
  -- The addition wraps, as in a release build.
  abbrev pub first_state : B → ℕ → BodyState B H
  first_state b max = record {
    replay = no_bufs;
    replay_idx = 0;
    trailers = none;
    rest = b;
    is_completed = false;
    max_bytes = (max + 1) % usize_max;
  }

  -- `Err(body)` is `none`.
  unfoldable pub try_new : B → ℕ → Option (ReplayBody B H × SharedState B H)
  try_new b max =
      if ltb max (body.hint b).lower
      then none
      else some (
        record { state = some (first_state b max); replay_body = false; replay_trailers = false },
        record { body = none; was_empty = body.is_end b; orig_size_hint = body.hint b },
      )

  abbrev pub owned : BodyState B H → ReplayBody B H → ReplayBody B H
  owned s b = record b { state = some s }

  -- What becomes of a frame of the inner body (`split_frame` tells the kinds apart).
  unfoldable pub read_frame : Polled H E → BodyState B H → Polled H (ReplayError E) × BodyState B H
  unfolding record_bytes
  read_frame pending s = (pending, s)
  read_frame ended s = (ended, record s { is_completed = true })
  read_frame (failed e) s = (failed (inner e), s)
  read_frame (frame (data_frame bytes)) s = (frame (data_frame bytes), record_bytes bytes s)
  read_frame (frame (trailers_frame h)) s =
      (frame (trailers_frame h), record s { trailers = some h; is_completed = true })
  read_frame (frame unknown_frame) s = (ended, s)

  unfoldable pub poll_rest : BodyState B H → Polled H (ReplayError E) × BodyState B H
  unfolding read_frame
  poll_rest s =
      let (p, next) = body.poll s.rest in
      if s.is_completed then (ended, s) else read_frame p (record s { rest = next })

  abbrev pub then_rest : ReplayBody B H → BodyState B H → Polled H (ReplayError E) × ReplayBody B H
  then_rest b s = let (p, t) = poll_rest s in (p, owned t b)

  abbrev pub trailers_or_rest :
      Option H → ReplayBody B H → BodyState B H → Polled H (ReplayError E) × ReplayBody B H
  trailers_or_rest (some h) b s = (frame (trailers_frame h), owned s b)
  trailers_or_rest none b s = then_rest b s

  unfoldable pub poll_trailers :
      ReplayBody B H → BodyState B H → Polled H (ReplayError E) × ReplayBody B H
  unfolding poll_rest
  poll_trailers b s =
      if b.replay_trailers
      then trailers_or_rest s.trailers (record b { replay_trailers = false }) s
      else then_rest b s

  abbrev pub chunk_or_rest :
      Option Str → ReplayBody B H → BodyState B H → Polled H (ReplayError E) × ReplayBody B H
  chunk_or_rest (some bytes) b s =
      (frame (data_frame bytes), owned (record s { replay_idx = s.replay_idx + 1 }) b)
  chunk_or_rest none b s =
      let c = record b { replay_body = false } in
      if state_is_capped s then (failed capped, owned s c) else poll_trailers c s

  unfoldable pub poll_state :
      ReplayBody B H → BodyState B H → Polled H (ReplayError E) × ReplayBody B H
  unfolding poll_trailers state_is_capped get_chunk
  poll_state b s =
      if b.replay_body
      then chunk_or_rest (get_chunk s.replay_idx s.replay) b s
      else poll_trailers b s

  -- `none` is a panic.
  unfoldable pub poll_frame :
      ReplayBody B H
      → SharedState B H
      → Option (Polled H (ReplayError E) × ReplayBody B H × SharedState B H)
  unfolding acquire_state poll_state
  poll_frame b shared = elim (acquire_state b shared) [
    | none ↦ none
    | some (s, rest) ↦ let (p, c) = poll_state b s in some (p, c, rest)
  ]

  unfoldable pub is_end_stream : ReplayBody B H → SharedState B H → Bool
  is_end_stream b shared = if shared.was_empty then true else elim b.state [
    | none ↦ false
    | some s ↦ not b.replay_body && not b.replay_trailers && body.is_end s.rest
  ]

  abbrev plus : ℕ → Option ℕ → Option ℕ
  plus n none = none
  plus n (some m) = some (n + m)

  unfoldable pub size_hint : ReplayBody B H → SharedState B H → SizeHint
  unfolding remaining
  size_hint b shared = elim b.state [
    | none ↦ shared.orig_size_hint
    | some s ↦
        let rest = body.hint s.rest in
        record {
          lower = remaining s.replay + rest.lower;
          upper = plus (remaining s.replay) rest.upper;
        }
  ]

  -- A use of the body: `n` polls of it. What they return comes first.
  unfoldable pub poll_times :
      ℕ
      → ReplayBody B H
      → SharedState B H
      → Option (List (Polled H (ReplayError E)) × ReplayBody B H × SharedState B H)
  unfolding poll_frame
  poll_times ℕ.zero b shared = some ([], b, shared)
  poll_times (ℕ.suc n) b shared = elim (poll_frame b shared) [
    | none ↦ none
    | some (p, c, next) ↦ elim (poll_times n c next) [
      | none ↦ none
      | some (ps, d, last) ↦ some (p ∷ ps, d, last)
    ]
  ]

  -- Attempts to send the body, one for each number: each polls a body that many times and drops it,
  -- and the next is a clone.
  unfoldable pub attempts :
      ReplayBody B H
      → List ℕ
      → SharedState B H
      → Option (List (List (Polled H (ReplayError E))) × SharedState B H)
  unfolding poll_times drop_body clone
  attempts b [] shared = some ([], shared)
  attempts b (n ∷ ns) shared = elim (poll_times n b shared) [
    | none ↦ none
    | some (ps, c, next) ↦ elim (attempts clone ns (drop_body c next)) [
      | none ↦ none
      | some (pss, last) ↦ some (ps ∷ pss, last)
    ]
  ]
