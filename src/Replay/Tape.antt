-- ===== src/Replay/Tape.antt =====
-- What a body that can be sent again promises: every attempt reads one tape from its start. The tape
-- holds the frames that the inner body gave, and grows when an attempt reads past its end.
use agentproxy.Prelude.{
  ℕ, zero, suc, ◌+◌, ◌≤◌, ◌≡◌, Bool, true, none, some, List, [], ◌∷◌, ◌++◌, length, get_elem?,
  if◌then◌else◌, arith,
}
use agentproxy.Replay.{
  Frame, data_frame, trailers_frame, unknown_frame, Polled, pending, ended, failed, frame, Body,
  ReplayError, inner,
}

pub record Tape (B H : Type 0) : Type 0 where
  pub frames : List (Frame H)
  pub source : B
  pub over : Bool

module _ {H : Type 0} where
  abbrev pub frame_size : Frame H → ℕ
  frame_size (data_frame bytes) = length bytes
  frame_size (trailers_frame h) = 0
  frame_size unknown_frame = 0

  -- The bytes of data on the tape.
  abbrev pub size : List (Frame H) → ℕ
  size [] = 0
  size (f ∷ fs) = frame_size f + size fs

  pub size-append : (fs gs : List (Frame H)) → size (fs ++ gs) ≡ size fs + size gs
  size-append [] gs = omega arith
  size-append (f ∷ fs) gs = omega (arith, size-append fs gs)

module _ {B H : Type 0} where
  abbrev write : Frame H → Tape B H → Tape B H
  write f t = record t { frames = t.frames ++ f ∷ [] }

module _ {B H E : Type 0} (body : Body B H E) where
  -- Past the end: the result, the tape, and how far the reader moved.
  unfoldable pub read_more : Polled H E → Tape B H → Polled H (ReplayError E) × Tape B H × ℕ
  read_more pending t = (pending, t, 0)
  read_more ended t = (ended, record t { over = true }, 0)
  read_more (failed e) t = (failed (inner e), t, 0)
  read_more (frame (data_frame bytes)) t = (frame (data_frame bytes), write (data_frame bytes) t, 1)
  read_more (frame (trailers_frame h)) t =
      (frame (trailers_frame h), record (write (trailers_frame h) t) { over = true }, 1)
  read_more (frame unknown_frame) t = (ended, t, 0)

  unfoldable pub read_end : Tape B H → Polled H (ReplayError E) × Tape B H × ℕ
  unfolding read_more
  read_end t =
      let (p, next) = body.poll t.source in
      if t.over then (ended, t, 0) else read_more p (record t { source = next })

  unfoldable pub read : Tape B H → ℕ → Polled H (ReplayError E) × Tape B H × ℕ
  unfolding read_end
  read t pos = elim (get_elem? t.frames pos) [
    | some f ↦ (frame f, t, pos + 1)
    | none ↦ let (p, u, moved) = read_end t in (p, u, pos + moved)
  ]

  -- `n` reads from a place on.
  unfoldable pub reads : ℕ → Tape B H → ℕ → List (Polled H (ReplayError E)) × Tape B H
  unfolding read
  reads zero t pos = ([], t)
  reads (suc n) t pos = let (p, u, next) = read t pos in let (ps, v) = reads n u next in (p ∷ ps, v)

  -- Each attempt reads from the start.
  unfoldable pub read_all : List ℕ → Tape B H → List (List (Polled H (ReplayError E))) × Tape B H
  unfolding reads
  read_all [] t = ([], t)
  read_all (n ∷ ns) t = let (ps, u) = reads n t 0 in let (pss, v) = read_all ns u in (ps ∷ pss, v)

  read_more-size : (p : Polled H E) (t : Tape B H) → size t.frames ≤ size (read_more p t).1.frames
  unfolding read_more
  read_more-size pending t = omega arith
  read_more-size ended t = omega arith
  read_more-size (failed e) t = omega arith
  read_more-size (frame (data_frame bytes)) t =
      omega (arith, size-append t.frames (data_frame bytes ∷ []))
  read_more-size (frame (trailers_frame h)) t =
      omega (arith, size-append t.frames (trailers_frame h ∷ []))
  read_more-size (frame unknown_frame) t = omega arith

  pub read-size : (t : Tape B H) (pos : ℕ) → size t.frames ≤ size (read t pos).1.frames
  unfolding read read_end
  read-size t pos =
      let (p, next) = body.poll t.source in
      ground (arith, read_more-size p (record t { source = next }))

  pub reads-size : (n : ℕ) (t : Tape B H) (pos : ℕ) → size t.frames ≤ size (reads n t pos).1.frames
  unfolding reads
  reads-size zero t pos = omega arith
  reads-size (suc n) t pos =
      let (p, u, next) = read t pos in omega (arith, read-size t pos, reads-size n u next)

  pub read_all-size : (ns : List ℕ) (t : Tape B H) → size t.frames ≤ size (read_all ns t).1.frames
  unfolding read_all
  read_all-size [] t = omega arith
  read_all-size (n ∷ ns) t = omega (arith, reads-size n t 0, read_all-size ns (reads n t 0).1)
