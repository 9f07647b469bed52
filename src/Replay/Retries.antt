-- ===== src/Replay/Retries.antt =====
-- Attempts with a body that can be sent again read one tape, each from its start.
use agentproxy.Prelude.{
  ℕ, zero, suc, ◌+◌, ◌≤◌, ◌<◌, ◌≡◌, refl, ◌⊎◌, inl, inr, Option, none, some, List, [], ◌∷◌, arith,
  false, subst,
}
use agentproxy.Replay.{
  Body, BodyState, SharedState, ReplayBody, usize_max, acquire_from, clone, give_back, drop_body,
  try_new, poll_state, poll_frame, poll_times, attempts, first_state,
}
use agentproxy.Replay.Tape.{Tape, size, read, reads, read_all, reads-size, read_all-size}
use agentproxy.Replay.Bounds.{OnState, poll_frame_acquired, first_owned}
use agentproxy.Replay.Kept.{Matches}
use agentproxy.Replay.Refine.{At, poll_state-Refines}

module _ {B H : Type 0} (max : ℕ) where
  -- A state that no body owns starts the replay anew.
  abbrev AtRest : Tape B H → Option (BodyState B H) → Type 0
  AtRest t = OnState (λ s. Matches max s t × (s.replay_idx ≡ 0))

  abbrev Owns : ReplayBody B H → Tape B H → ℕ → Type 0
  Owns b t pos = OnState (λ s. Matches max s t × At b s t pos) b.state

  -- A body is where a reader of the tape is: it owns the state, or it is a clone not polled yet.
  abbrev Follows : ReplayBody B H → SharedState B H → Tape B H → ℕ → Type 0
  Follows b shared t pos = Owns b t pos ⊎ ((b ≡ clone) × (pos ≡ 0) × AtRest t shared.body)

  -- The state that a poll works on.
  abbrev Acquires : ReplayBody B H → SharedState B H → Tape B H → ℕ → Type 0
  Acquires b shared t pos =
      (s : BodyState B H) × (rest : SharedState B H) × (acquire_from b.state shared.body shared
        ≡ some (s, rest))
      × Matches max s t
      × At b s t pos

  owned_acquires :
      (o : Option (BodyState B H)) (b : ReplayBody B H) (shared : SharedState B H) (t : Tape B H)
      (pos : ℕ)
      → OnState (λ s. Matches max s t × At b s t pos) o
      → (s : BodyState B H) × (rest : SharedState B H) × (acquire_from o shared.body shared
          ≡ some (s, rest))
        × Matches max s t
        × At b s t pos
  owned_acquires none b shared t pos h = elim h [ ]
  owned_acquires (some s) b shared t pos (m, a) = (s, shared, refl, m, a)

  shared_acquires :
      (o : Option (BodyState B H)) (shared : SharedState B H) (t : Tape B H)
      → AtRest t o
      → (s : BodyState B H) × (rest : SharedState B H) × (acquire_from none o shared
          ≡ some (s, rest))
        × Matches max s t
        × At clone s t 0
  unfolding clone
  shared_acquires none shared t h = elim h [ ]
  shared_acquires (some s) shared t (m, a) =
      (s, record shared { body = none }, refl, m, inl (refl, refl, a, omega arith))

  Follows-Acquires :
      (b : ReplayBody B H) (shared : SharedState B H) (t : Tape B H) (pos : ℕ)
      → Follows b shared t pos
      → Acquires b shared t pos
  unfolding clone
  Follows-Acquires b shared t pos (inl o) = owned_acquires b.state b shared t pos o
  Follows-Acquires b shared t pos (inr (e, z, a)) =
      rw (e, z) (shared_acquires shared.body shared t a)

  owned_gives_back :
      (o : Option (BodyState B H)) (b : ReplayBody B H) (shared : SharedState B H) (t : Tape B H)
      (pos : ℕ)
      → OnState (λ s. Matches max s t × At b s t pos) o
      → AtRest t (give_back o shared).body
  owned_gives_back none b shared t pos h = elim h [ ]
  owned_gives_back (some s) b shared t pos (m, a) = (
    record { kept = m.kept; source = m.source; over = m.over; unread = m.unread; room = m.room },
    refl,
  )

  -- A dropped body leaves the state as a clone expects it.
  Follows-gives_back :
      (b : ReplayBody B H) (shared : SharedState B H) (t : Tape B H) (pos : ℕ)
      → Follows b shared t pos
      → AtRest t (drop_body b shared).body
  unfolding drop_body clone
  Follows-gives_back b shared t pos (inl o) = owned_gives_back b.state b shared t pos o
  Follows-gives_back b shared t pos (inr (e, z, a)) = rw e a

module _ {B H E : Type 0} (body : Body B H E) (max : ℕ) where
  -- A poll does not panic, answers as a read does, and moves as far.
  poll_frame-read :
      (b : ReplayBody B H) (shared : SharedState B H) (t : Tape B H) (pos : ℕ)
      → Follows max b shared t pos
      → size (read body t pos).1.frames ≤ max
      → (c : ReplayBody B H) × (next : SharedState B H) × (poll_frame body b shared
          ≡ some ((read body t pos).0, c, next))
        × Follows max c next (read body t pos).1 (read body t pos).2
  poll_frame-read b shared t pos f h =
      let (s, rest, e, m, a) = Follows-Acquires max b shared t pos f in
      let (p, o) = poll_state-Refines body max b s t pos m a h in
      (
        (poll_state body b s).1,
        rest,
        rw (← p) (poll_frame_acquired body max b shared s rest e),
        inl o,
      )

  poll_times-reads :
      (n : ℕ) (b : ReplayBody B H) (shared : SharedState B H) (t : Tape B H) (pos : ℕ)
      → Follows max b shared t pos
      → size (reads body n t pos).1.frames ≤ max
      → (c : ReplayBody B H) × (next : SharedState B H) × (poll_times body n b shared
          ≡ some ((reads body n t pos).0, c, next))
        × AtRest max (reads body n t pos).1 (drop_body c next).body
  unfolding poll_times reads
  poll_times-reads zero b shared t pos f h =
      (b, shared, refl, Follows-gives_back max b shared t pos f)
  poll_times-reads (suc n) b shared t pos f h =
      let (p, u, at) = read body t pos in
      let (c, next, e, g) =
        poll_frame-read b shared t pos f (omega (arith, reads-size body n u at)) in
      let (d, last, k, w) = poll_times-reads n c next u at g h in (d, last, ground arith, w)

  attempts-read_all :
      (ns : List ℕ) (b : ReplayBody B H) (n : ℕ) (shared : SharedState B H) (t : Tape B H)
      → (pos : ℕ) → Follows max b shared t pos
      → pos ≡ 0
      → size (read_all body (n ∷ ns) t).1.frames ≤ max
      → (last : SharedState B H) × (attempts body b (n ∷ ns) shared
          ≡ some ((read_all body (n ∷ ns) t).0, last))
  unfolding attempts read_all
  attempts-read_all [] b n shared t pos f z h =
      let (c, next, e, w) =
        poll_times-reads n b shared t 0 (subst (Follows max b shared t) z f) h in
      (drop_body c next, ground arith)
  attempts-read_all (m ∷ ns) b n shared t pos f z h =
      let (ps, u) = reads body n t 0 in
      let (c, next, e, w) =
        poll_times-reads n b shared t 0 (subst (Follows max b shared t) z f)
          (omega (arith, read_all-size body (m ∷ ns) u)) in
      let (last, k) =
        attempts-read_all ns clone m (drop_body c next) u 0 (inr (refl, refl, w)) refl h in
      (last, ground arith)

  -- The tape that a body starts with: nothing was read of the inner body.
  abbrev pub blank : B → Tape B H
  blank b = record { frames = []; source = b; over = false }

  first_flags :
      (start : B) (b : ReplayBody B H) (shared : SharedState B H)
      → try_new body start max ≡ some (b, shared)
      → (b.replay_body ≡ false) × (b.replay_trailers ≡ false)
  unfolding try_new
  first_flags start b shared e = ground arith

  first_Owns :
      (start : B) (b : ReplayBody B H) (shared : SharedState B H)
      → max + 1 < usize_max
      → try_new body start max ≡ some (b, shared)
      → Owns max b (blank start) 0
  first_Owns start b shared room e =
      let (rb, rt) = first_flags start b shared e in
      let m : Matches max (first_state body start max) (blank start) = record {
        kept = refl;
        source = refl;
        over = refl;
        unread = λ c. refl;
        room = omega arith;
      } in
      rw (first_owned body max start b shared e) (m, inr (rb, rt, refl))

  -- A body is wrapped with a limit that leaves room in a `usize`, and sent in one attempt or more,
  -- each with any number of polls, whatever the inner body answers. If the data read in all is not
  -- longer than the limit, no poll panics and every attempt gets what a reader gets who reads one tape
  -- of the inner body's frames from its start, the tape growing where the attempts before ended.
  pub retries_replay :
      (start : B) (b : ReplayBody B H) (shared : SharedState B H) (n : ℕ) (ns : List ℕ)
      → max + 1 < usize_max
      → try_new body start max ≡ some (b, shared)
      → size (read_all body (n ∷ ns) (blank start)).1.frames ≤ max
      → (last : SharedState B H) × (attempts body b (n ∷ ns) shared
          ≡ some ((read_all body (n ∷ ns) (blank start)).0, last))
  retries_replay start b shared n ns room e h =
      attempts-read_all ns b n shared (blank start) 0 (inl (first_Owns start b shared room e)) refl
        h
