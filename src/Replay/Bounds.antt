-- ===== src/Replay/Bounds.antt =====
-- What a body that can be sent again keeps in memory.
use agentproxy.Prelude.{
  ℕ, zero, suc, ◌+◌, ◌≤◌, ◌<◌, ◌≡◌, refl, ◌⊎◌, inr, Bool, true, false, not, Option, none, some,
  List, [], ◌∷◌, ◌++◌, Str, is_empty, any, if◌then◌else◌, arith,
}
use agentproxy.Replay.Buffers.{total_length, remaining, has_remaining, push, get_chunk}
use agentproxy.Replay.{
  data_frame, trailers_frame, unknown_frame, Polled, pending, ended, failed, frame, Body, BodyState,
  SharedState, ReplayBody, ReplayError, usize_max, state_is_capped, record_bytes, acquire_state,
  clone, drop_body, try_new, read_frame, poll_rest, poll_trailers, poll_state, poll_frame,
  poll_times, attempts, first_state, give_back, trailers_or_rest, acquire_from, chunk_or_rest,
}

pub total_length-append :
    (bs cs : List Str) → total_length (bs ++ cs) ≡ total_length bs + total_length cs
total_length-append [] cs = omega arith
total_length-append (b ∷ bs) cs = omega (arith, total_length-append bs cs)

total_length-any : (bs : List Str) → any (λ b. not (is_empty b)) bs ≡ false → total_length bs ≡ 0
total_length-any [] h = refl
total_length-any ([] ∷ bs) h = omega (arith, total_length-any bs h)
total_length-any ((c ∷ b) ∷ bs) h = cc

-- What holds of both branches holds of the conditional.
if_both {ℓ κ} :
    {A : Type ℓ} {x y : A} (P : A → Type κ) (b : Bool) → P x → P y → P (if b then x else y)
if_both P true p q = p
if_both P false p q = q

module _ {B H : Type 0} where
  -- Nothing is kept once the limit is passed. Until then, what is kept and what may still be kept
  -- make up the limit.
  abbrev pub Within : ℕ → BodyState B H → Type 0
  Within max s =
      ((s.max_bytes ≡ 0) × (total_length s.replay.bufs ≡ 0))
      ⊎ ((0 < s.max_bytes) × (s.max_bytes + total_length s.replay.bufs ≡ max + 1))

  abbrev pub OnState : (BodyState B H → Type 0) → Option (BodyState B H) → Type 0
  OnState P none = ⊥
  OnState P (some s) = P s

  record_bytes-Within :
      (max : ℕ) (bytes : Str) (s : BodyState B H) → Within max s → Within max (record_bytes bytes s)
  unfolding record_bytes state_is_capped push has_remaining
  record_bytes-Within max bytes s h =
      ground (arith, total_length-any s.replay.bufs, total_length-append s.replay.bufs (bytes ∷ []))

module _ {B H : Type 0} (max : ℕ) where
  abbrev pub ReadyFrom : Option (BodyState B H) → Option (BodyState B H) → Type 0
  ReadyFrom (some s) shared = Within max s
  ReadyFrom none shared = OnState (Within max) shared

  -- A body that may be polled owns the state, or the state is there to be taken.
  abbrev pub Ready : ReplayBody B H → SharedState B H → Type 0
  Ready b shared = ReadyFrom b.state shared.body

  pub OnState-ReadyFrom :
      (o shared : Option (BodyState B H)) → OnState (Within max) o → ReadyFrom o shared
  OnState-ReadyFrom (some s) shared h = h
  OnState-ReadyFrom none shared h = elim h [ ]

  pub ReadyFrom-acquires :
      (o slot : Option (BodyState B H)) (shared : SharedState B H)
      → ReadyFrom o slot
      → (s : BodyState B H) × (rest : SharedState B H) × (acquire_from o slot shared
          ≡ some (s, rest))
        × Within max s
  ReadyFrom-acquires (some s) slot shared h = (s, shared, refl, h)
  ReadyFrom-acquires none none shared h = elim h [ ]
  ReadyFrom-acquires none (some s) shared h = (s, record shared { body = none }, refl, h)

  pub give_back-OnState :
      (o : Option (BodyState B H)) (shared : SharedState B H)
      → ReadyFrom o shared.body
      → OnState (Within max) (give_back o shared).body
  give_back-OnState (some s) shared h = h
  give_back-OnState none shared h = h

module _ {B H E : Type 0} (body : Body B H E) (max : ℕ) where
  read_frame-Within :
      (p : Polled H E) (s : BodyState B H) → Within max s → Within max (read_frame body p s).1
  unfolding read_frame
  read_frame-Within pending s h = h
  read_frame-Within ended s h = h
  read_frame-Within (failed e) s h = h
  read_frame-Within (frame (data_frame bytes)) s h = record_bytes-Within max bytes s h
  read_frame-Within (frame (trailers_frame t)) s h = h
  read_frame-Within (frame unknown_frame) s h = h

  poll_rest-Within : (s : BodyState B H) → Within max s → Within max (poll_rest body s).1
  unfolding poll_rest
  poll_rest-Within s h =
      let (p, next) = body.poll s.rest in
      if_both (λ (r : Polled H (ReplayError E) × BodyState B H). Within max r.1) s.is_completed h
        (read_frame-Within p (record s { rest = next }) h)

  -- What a poll leaves is within the limit.
  abbrev pub Keeps : Polled H (ReplayError E) × ReplayBody B H → Type 0
  Keeps r = OnState (Within max) r.1.state

  trailers_or_rest-Keeps :
      (o : Option H) (b : ReplayBody B H) (s : BodyState B H)
      → Within max s
      → Keeps (trailers_or_rest body o b s)
  trailers_or_rest-Keeps none b s h = poll_rest-Within s h
  trailers_or_rest-Keeps (some t) b s h = h

  poll_trailers-Keeps :
      (b : ReplayBody B H) (s : BodyState B H) → Within max s → Keeps (poll_trailers body b s)
  unfolding poll_trailers
  poll_trailers-Keeps b s h =
      if_both Keeps b.replay_trailers
        (trailers_or_rest-Keeps s.trailers (record b { replay_trailers = false }) s h)
        (poll_rest-Within s h)

  chunk_or_rest-Keeps :
      (o : Option Str) (b : ReplayBody B H) (s : BodyState B H)
      → Within max s
      → Keeps (chunk_or_rest body o b s)
  chunk_or_rest-Keeps (some bytes) b s h = h
  chunk_or_rest-Keeps none b s h =
      if_both Keeps (state_is_capped s) h
        (poll_trailers-Keeps (record b { replay_body = false }) s h)

  pub poll_state-Keeps :
      (b : ReplayBody B H) (s : BodyState B H) → Within max s → Keeps (poll_state body b s)
  unfolding poll_state
  poll_state-Keeps b s h =
      if_both Keeps b.replay_body (chunk_or_rest-Keeps (get_chunk s.replay_idx s.replay) b s h)
        (poll_trailers-Keeps b s h)

  pub poll_frame_acquired :
      (b : ReplayBody B H) (shared : SharedState B H) (s : BodyState B H) (rest : SharedState B H)
      → acquire_from b.state shared.body shared ≡ some (s, rest)
      → poll_frame body b shared ≡ some ((poll_state body b s).0, (poll_state body b s).1, rest)
  unfolding poll_frame acquire_state
  poll_frame_acquired b shared s rest e = ground arith

  poll_frame-Ready :
      (b : ReplayBody B H) (shared : SharedState B H)
      → Ready max b shared
      → (p : Polled H (ReplayError E)) × (c : ReplayBody B H) × (next : SharedState B H)
        × (poll_frame body b shared ≡ some (p, c, next))
        × OnState (Within max) c.state
  poll_frame-Ready b shared h =
      let (s, rest, e, w) = ReadyFrom-acquires max b.state shared.body shared h in
      let (p, c) = poll_state body b s in
      (p, c, rest, poll_frame_acquired b shared s rest e, poll_state-Keeps b s w)

  pub poll_times-Ready :
      (n : ℕ) (b : ReplayBody B H) (shared : SharedState B H)
      → Ready max b shared
      → (ps : List (Polled H (ReplayError E))) × (c : ReplayBody B H) × (next : SharedState B H)
        × (poll_times body n b shared ≡ some (ps, c, next))
        × Ready max c next
  unfolding poll_times
  poll_times-Ready zero b shared h = ([], b, shared, refl, h)
  poll_times-Ready (suc n) b shared h =
      let (p, c, next, e, w) = poll_frame-Ready b shared h in
      let (ps, d, last, f, r) =
        poll_times-Ready n c next (OnState-ReadyFrom max c.state next.body w) in
      (p ∷ ps, d, last, ground arith, r)

  attempt_Ready :
      (n : ℕ) (b : ReplayBody B H) (shared : SharedState B H)
      → Ready max b shared
      → (ps : List (Polled H (ReplayError E))) × (c : ReplayBody B H) × (next : SharedState B H)
        × (poll_times body n b shared ≡ some (ps, c, next))
        × OnState (Within max) (drop_body c next).body
  unfolding drop_body
  attempt_Ready n b shared h =
      let (ps, c, next, e, r) = poll_times-Ready n b shared h in
      (ps, c, next, e, give_back-OnState max c.state next r)

  attempts-Ready :
      (ns : List ℕ) (b : ReplayBody B H) (n : ℕ) (shared : SharedState B H)
      → Ready max b shared
      → (pss : List (List (Polled H (ReplayError E)))) × (last : SharedState B H) × (attempts body b
            (n ∷ ns)
            shared
          ≡ some (pss, last))
        × OnState (Within max) last.body
  unfolding attempts clone
  attempts-Ready [] b n shared h =
      let (ps, c, next, e, w) = attempt_Ready n b shared h in
      (ps ∷ [], drop_body c next, ground arith, w)
  attempts-Ready (m ∷ ns) b n shared h =
      let (ps, c, next, e, w) = attempt_Ready n b shared h in
      let (pss, last, f, v) = attempts-Ready ns clone m (drop_body c next) w in
      (ps ∷ pss, last, ground arith, v)

  state-Within :
      (o : Option (BodyState B H))
      → OnState (Within max) o
      → (s : BodyState B H) × (o ≡ some s)
        × (remaining s.replay ≤ max)
        × (state_is_capped s ≡ true → remaining s.replay ≡ 0)
  unfolding remaining state_is_capped
  state-Within none w = elim w [ ]
  state-Within (some s) w = (s, refl, ground arith, ground arith)

  pub first_owned :
      (start : B) (b : ReplayBody B H) (shared : SharedState B H)
      → try_new body start max ≡ some (b, shared)
      → b.state ≡ some (first_state body start max)
  unfolding try_new
  first_owned start b shared e = ground arith

  -- A body is wrapped with a limit that leaves room in a `usize`, and sent in one attempt or more,
  -- each with any number of polls, whatever the inner body answers. No poll panics. Afterwards the
  -- state is back in its place, what it keeps is not longer than the limit, and it keeps nothing if
  -- the limit was passed.
  pub attempts_bounded :
      (start : B) (b : ReplayBody B H) (shared : SharedState B H) (n : ℕ) (ns : List ℕ)
      → max + 1 < usize_max
      → try_new body start max ≡ some (b, shared)
      → (pss : List (List (Polled H (ReplayError E)))) × (last : SharedState B H) × (s : BodyState B
          H)
        × (attempts body b (n ∷ ns) shared ≡ some (pss, last))
        × (last.body ≡ some s)
        × (remaining s.replay ≤ max)
        × (state_is_capped s ≡ true → remaining s.replay ≡ 0)
  unfolding try_new
  attempts_bounded start b shared n ns room e =
      let r : Ready max b shared =
        rw (first_owned start b shared e) (inr (omega arith, omega arith)) in
      let (pss, last, f, w) = attempts-Ready ns b n shared r in
      let (s, g, k, z) = state-Within last.body w in (pss, last, s, f, g, k, z)
