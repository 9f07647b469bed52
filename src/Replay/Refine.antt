-- ===== src/Replay/Refine.antt =====
-- A body that can be sent again implements the tape, as long as what is read stays within the limit.
use agentproxy.Prelude.{
  ℕ, ◌+◌, ◌-◌, ◌≤◌, ◌<◌, ◌≡◌, refl, ap, sym, ◌∙◌, ◌⊎◌, inl, inr, true, false, Option, none, some,
  [], ◌∷◌, ◌++◌, Str, length, length-append, get_elem?, Bool-cases, arith,
}
use agentproxy.Replay.Buffers.{push, get_chunk}
use agentproxy.Replay.{
  Frame, data_frame, trailers_frame, unknown_frame, Polled, pending, ended, failed, frame, Body,
  BodyState, ReplayBody, ReplayError, read_frame, poll_rest, poll_trailers, poll_state, then_rest,
  trailers_or_rest, chunk_or_rest,
}
use agentproxy.Replay.Tape.{Tape, size, size-append, read_more, read_end, read, read-size}
use agentproxy.Replay.Bounds.{OnState, total_length-append}
use agentproxy.Replay.Kept.{
  get_elem?-recorded, get_elem?_past, Matches, Matches-size, uncapped, record_bytes_room,
  trailers_kept, data_kept, past_chunks,
}

module _ {B H : Type 0} where
  -- How far a body has read: it replays what is kept, or is at the end of the tape.
  abbrev pub At : ReplayBody B H → BodyState B H → Tape B H → ℕ → Type 0
  At b s t pos =
      ((b.replay_body ≡ true)
        × (b.replay_trailers ≡ true)
        × (s.replay_idx ≡ pos)
        × (pos ≤ length s.replay.bufs))
      ⊎ ((b.replay_body ≡ false) × (b.replay_trailers ≡ false) × (pos ≡ length t.frames))

module _ {B H E : Type 0} (max : ℕ) where
  -- A poll answers as a read does, and leaves the body where the reader is.
  abbrev pub Refines :
      Polled H (ReplayError E) × ReplayBody B H → Polled H (ReplayError E) × Tape B H × ℕ → Type 0
  Refines r q = (r.0 ≡ q.0) × OnState (λ s. Matches max s q.1 × At r.1 s q.1 q.2) r.1.state

module _ {B H E : Type 0} where
  abbrev moved_by :
      ℕ → Polled H (ReplayError E) × Tape B H × ℕ → Polled H (ReplayError E) × Tape B H × ℕ
  moved_by pos (p, u, moved) = (p, u, pos + moved)

module _ {B H E : Type 0} (body : Body B H E) (max : ℕ) where
  data_Matches :
      (bytes : Str) (s : BodyState B H) (t : Tape B H)
      → Matches max s t
      → s.is_completed ≡ false
      → length bytes < s.max_bytes
      → Matches max
          (record s { max_bytes = s.max_bytes - length bytes; replay = push bytes s.replay })
          (record t { frames = t.frames ++ data_frame bytes ∷ [] })
  unfolding push
  data_Matches bytes s t m c l = record {
    kept = data_kept max s t bytes m c;
    source = m.source;
    over = m.over;
    unread = m.unread;
    room = omega (arith, m.room, total_length-append s.replay.bufs (bytes ∷ []));
  }

  -- A frame of the inner body is kept as it is written on the tape.
  read_frame-Matches :
      (p : Polled H E) (s : BodyState B H) (t : Tape B H)
      → Matches max s t
      → s.is_completed ≡ false
      → size (read_more body p t).1.frames ≤ max
      → ((read_frame body p s).0 ≡ (read_more body p t).0)
        × Matches max (read_frame body p s).1 (read_more body p t).1
        × (length (read_more body p t).1.frames ≡ length t.frames + (read_more body p t).2)
  unfolding read_frame read_more
  read_frame-Matches pending s t m c h = (refl, m, omega arith)
  read_frame-Matches ended s t m c h = (
    refl,
    record { kept = m.kept; source = m.source; over = refl; unread = λ e. cc; room = m.room },
    omega arith,
  )
  read_frame-Matches (failed e) s t m c h = (refl, m, omega arith)
  read_frame-Matches (frame unknown_frame) s t m c h = (refl, m, omega arith)
  read_frame-Matches (frame (trailers_frame x)) s t m c h = (
    refl,
    record {
      kept = trailers_kept max s t x m c;
      source = m.source;
      over = refl;
      unread = λ e. cc;
      room = m.room;
    },
    omega (arith, length-append t.frames (trailers_frame x ∷ [])),
  )
  read_frame-Matches (frame (data_frame bytes)) s t m c h =
      let q = Matches-size max s t m in
      let g = size-append t.frames (data_frame bytes ∷ []) in
      let l : length bytes < s.max_bytes = omega arith in
      (
        refl,
        rw (record_bytes_room max bytes s l) (data_Matches bytes s t m c l),
        omega (arith, length-append t.frames (data_frame bytes ∷ [])),
      )

  poll_trailers_on :
      (b : ReplayBody B H) (s : BodyState B H)
      → b.replay_trailers ≡ true
      → poll_trailers body b s
        ≡ trailers_or_rest body s.trailers (record b { replay_trailers = false }) s
  unfolding poll_trailers
  poll_trailers_on b s e = ground arith

  poll_state_on :
      (b : ReplayBody B H) (s : BodyState B H)
      → b.replay_body ≡ true
      → poll_state body b s ≡ chunk_or_rest body (get_elem? s.replay.bufs s.replay_idx) b s
  unfolding poll_state get_chunk
  poll_state_on b s e = ground arith

  poll_state_off :
      (b : ReplayBody B H) (s : BodyState B H)
      → b.replay_body ≡ false
      → b.replay_trailers ≡ false
      → poll_state body b s ≡ then_rest body b s
  unfolding poll_state poll_trailers
  poll_state_off b s e f = ground arith

  poll_rest_done : (s : BodyState B H) → s.is_completed ≡ true → poll_rest body s ≡ (ended, s)
  unfolding poll_rest
  poll_rest_done s c = ground arith

  poll_rest_more :
      (s : BodyState B H) (p : Polled H E) (next : B)
      → s.is_completed ≡ false
      → body.poll s.rest ≡ (p, next)
      → poll_rest body s ≡ read_frame body p (record s { rest = next })
  unfolding poll_rest
  poll_rest_more s p next c e = ground arith

  read_end_done : (t : Tape B H) → t.over ≡ true → read_end body t ≡ (ended, t, 0)
  unfolding read_end
  read_end_done t c = ground arith

  read_end_more :
      (t : Tape B H) (p : Polled H E) (next : B)
      → t.over ≡ false
      → body.poll t.source ≡ (p, next)
      → read_end body t ≡ read_more body p (record t { source = next })
  unfolding read_end
  read_end_more t p next c e = ground arith

  rest_Refines :
      (b : ReplayBody B H) (s : BodyState B H) (t : Tape B H) (pos : ℕ)
      → Matches max s t
      → b.replay_body ≡ false
      → b.replay_trailers ≡ false
      → pos ≡ length t.frames
      → size (read_end body t).1.frames ≤ max
      → Refines max (then_rest body b s) (moved_by pos (read_end body t))
  rest_Refines b s t pos m rb rt e h = elim (Bool-cases s.is_completed) [
    | inl c ↦
        let f = read_end_done t (m.over ∙ c) in
        let g = poll_rest_done s c in rw (f, g) (refl, (m, inr (rb, rt, omega arith)))
    | inr c ↦
        let (p, next) = body.poll s.rest in
        let f = read_end_more t p next (m.over ∙ c) (ap body.poll m.source) in
        let g = poll_rest_more s p next c refl in
        let m' : Matches max (record s { rest = next }) (record t { source = next }) = record {
          kept = m.kept;
          source = refl;
          over = m.over;
          unread = m.unread;
          room = m.room;
        } in
        let (q, w, l) =
          read_frame-Matches p (record s { rest = next }) (record t { source = next }) m' c
            (rw f at h) in
        rw (f, g) (q, (w, inr (rb, rt, omega arith)))
  ]

  read_here :
      (t : Tape B H) (pos : ℕ) (f : Frame H)
      → get_elem? t.frames pos ≡ some f
      → read body t pos ≡ (frame f, t, pos + 1)
  unfolding read
  read_here t pos f e = ground arith

  read_past :
      (t : Tape B H) (pos : ℕ)
      → get_elem? t.frames pos ≡ none
      → read body t pos ≡ moved_by pos (read_end body t)
  unfolding read
  read_past t pos e = ground arith

  past_Refines :
      (b : ReplayBody B H) (s : BodyState B H) (t : Tape B H) (pos : ℕ)
      → Matches max s t
      → b.replay_body ≡ false
      → b.replay_trailers ≡ false
      → pos ≡ length t.frames
      → size (read body t pos).1.frames ≤ max
      → Refines max (then_rest body b s) (read body t pos)
  past_Refines b s t pos m rb rt e h =
      let f = read_past t pos (ap (get_elem? t.frames) e ∙ get_elem?_past t.frames) in
      rw f (rest_Refines b s t pos m rb rt e (rw f at h))

  -- All that is kept of the data was replayed.
  trailers_or_rest-Refines :
      (o : Option H) (b : ReplayBody B H) (s : BodyState B H) (t : Tape B H) (pos : ℕ)
      → s.trailers ≡ o
      → Matches max s t
      → b.replay_body ≡ false
      → b.replay_trailers ≡ false
      → get_elem? s.replay.bufs pos ≡ none
      → pos ≤ length s.replay.bufs
      → size (read body t pos).1.frames ≤ max
      → Refines max (trailers_or_rest body o b s) (read body t pos)
  trailers_or_rest-Refines none b s t pos z m rb rt n k h =
      let (x, l) = past_chunks max none s t pos z m n k in
      past_Refines b s t pos m rb rt (omega arith) h
  trailers_or_rest-Refines (some v) b s t pos z m rb rt n k h =
      let (x, l) = past_chunks max (some v) s t pos z m n k in
      rw (read_here t pos (trailers_frame v) x) (refl, (m, inr (rb, rt, omega arith)))

  chunk_or_rest-Refines :
      (o : Option Str) (b : ReplayBody B H) (s : BodyState B H) (t : Tape B H) (pos : ℕ)
      → get_elem? s.replay.bufs pos ≡ o
      → Matches max s t
      → b.replay_body ≡ true
      → b.replay_trailers ≡ true
      → s.replay_idx ≡ pos
      → pos ≤ length s.replay.bufs
      → size (read body t pos).1.frames ≤ max
      → Refines max (chunk_or_rest body o b s) (read body t pos)
  chunk_or_rest-Refines (some bytes) b s t pos z m rb rt e k h =
      let (x, l) = get_elem?-recorded s.replay.bufs s.trailers pos bytes z in
      let f = ap (λ fs. get_elem? fs pos) m.kept ∙ x in
      let m' : Matches max (record s { replay_idx = s.replay_idx + 1 }) t = record {
        kept = m.kept;
        source = m.source;
        over = m.over;
        unread = m.unread;
        room = m.room;
      } in
      rw (read_here t pos (data_frame bytes) f) (refl, (m', inl (rb, rt, omega arith, l)))
  chunk_or_rest-Refines none b s t pos z m rb rt e k h =
      let u = uncapped max s t m (omega (arith, read-size body t pos)) in
      let c = record b { replay_body = false } in
      let d = record c { replay_trailers = false } in
      rw (u, poll_trailers_on c s rt)
        (trailers_or_rest-Refines s.trailers d s t pos refl m refl refl z k h)

  pub poll_state-Refines :
      (b : ReplayBody B H) (s : BodyState B H) (t : Tape B H) (pos : ℕ)
      → Matches max s t
      → At b s t pos
      → size (read body t pos).1.frames ≤ max
      → Refines max (poll_state body b s) (read body t pos)
  poll_state-Refines b s t pos m (inr (rb, rt, e)) h =
      rw (poll_state_off b s rb rt) (past_Refines b s t pos m rb rt e h)
  poll_state-Refines b s t pos m (inl (rb, rt, e, k)) h = rw (poll_state_on b s rb) (
      chunk_or_rest-Refines (get_elem? s.replay.bufs s.replay_idx) b s t pos
        (ap (get_elem? s.replay.bufs) (sym e)) m rb rt e k h)
