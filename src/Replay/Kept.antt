-- ===== src/Replay/Kept.antt =====
-- What a state keeps of the tape that its body stands for.
use agentproxy.Prelude.{
  ℕ, zero, suc, ◌+◌, ◌-◌, ◌≤◌, ◌<◌, ◌≡◌, refl, ap, sym, ◌∙◌, false, Option, none, some, List, [],
  ◌∷◌, ◌++◌, Str, length, get_elem?, arith,
}
use agentproxy.Replay.Buffers.{total_length, push}
use agentproxy.Replay.{Frame, data_frame, trailers_frame, BodyState, state_is_capped, record_bytes}
use agentproxy.Replay.Tape.{Tape, size}

module _ {H : Type 0} where
  abbrev pub recorded : List Str → List (Frame H)
  recorded [] = []
  recorded (b ∷ bs) = data_frame b ∷ recorded bs

  abbrev pub trailing : Option H → List (Frame H)
  trailing none = []
  trailing (some h) = trailers_frame h ∷ []

  pub size-recorded :
      (bs : List Str) (o : Option H) → size (recorded bs ++ trailing o) ≡ total_length bs
  size-recorded [] none = refl
  size-recorded [] (some h) = refl
  size-recorded (b ∷ bs) o = omega (arith, size-recorded bs o)

  pub recorded-append :
      (bs : List Str) (b : Str)
      → recorded (bs ++ b ∷ []) ++ [] ≡ (recorded bs ++ []) ++ data_frame b ∷ []
  recorded-append [] b = refl
  recorded-append (c ∷ bs) b = ap (λ fs. data_frame c ∷ fs) (recorded-append bs b)

  pub recorded_trailing :
      (bs : List Str) (h : H)
      → recorded bs ++ trailers_frame h ∷ [] ≡ (recorded bs ++ []) ++ trailers_frame h ∷ []
  recorded_trailing [] h = refl
  recorded_trailing (c ∷ bs) h = ap (λ fs. data_frame c ∷ fs) (recorded_trailing bs h)

  pub get_elem?-recorded :
      (bs : List Str) (o : Option H) (i : ℕ) (b : Str)
      → get_elem? bs i ≡ some b
      → (get_elem? (recorded bs ++ trailing o) i ≡ some (data_frame b)) × (i + 1 ≤ length bs)
  get_elem?-recorded [] o i b e = cc
  get_elem?-recorded (c ∷ bs) o zero b e = (cc, omega arith)
  get_elem?-recorded (c ∷ bs) o (suc i) b e =
      let (f, k) = get_elem?-recorded bs o i b e in (f, omega arith)

  pub get_elem?-trailing :
      (bs : List Str) (o : Option H) (i : ℕ)
      → get_elem? bs i ≡ none
      → i ≤ length bs
      → (get_elem? (recorded bs ++ trailing o) i ≡ get_elem? (trailing o) 0)
        × (length (recorded bs ++ trailing o) ≡ i + length (trailing o))
  get_elem?-trailing [] o zero e k = (refl, omega arith)
  get_elem?-trailing [] o (suc i) e k = absurd (omega arith)
  get_elem?-trailing (c ∷ bs) o zero e k = cc
  get_elem?-trailing (c ∷ bs) o (suc i) e k =
      let (f, l) = get_elem?-trailing bs o i e (omega arith) in (f, omega arith)

pub get_elem?_past {ℓ} : {A : Type ℓ} (xs : List A) → get_elem? xs (length xs) ≡ none
get_elem?_past [] = refl
get_elem?_past (x ∷ xs) = get_elem?_past xs

module _ {B H : Type 0} (max : ℕ) where
  -- The state keeps the frames of the tape, and has room for the bytes that are left of the limit.
  pub record Matches (s : BodyState B H) (t : Tape B H) : Type 0 where
    pub kept : t.frames ≡ recorded s.replay.bufs ++ trailing s.trailers
    pub source : t.source ≡ s.rest
    pub over : t.over ≡ s.is_completed
    pub unread : s.is_completed ≡ false → s.trailers ≡ none
    pub room : s.max_bytes + total_length s.replay.bufs ≡ max + 1

  pub Matches-size :
      (s : BodyState B H) (t : Tape B H) → Matches s t → size t.frames ≡ total_length s.replay.bufs
  Matches-size s t m = ap size m.kept ∙ size-recorded s.replay.bufs s.trailers

  pub uncapped :
      (s : BodyState B H) (t : Tape B H)
      → Matches s t
      → size t.frames ≤ max
      → state_is_capped s ≡ false
  unfolding state_is_capped
  uncapped s t m h =
      let q = Matches-size s t m in
      let r = m.room in let k : 0 < s.max_bytes = omega arith in ground arith

  pub record_bytes_room :
      (bytes : Str) (s : BodyState B H)
      → length bytes < s.max_bytes
      → record_bytes bytes s
        ≡ record s { max_bytes = s.max_bytes - length bytes; replay = push bytes s.replay }
  unfolding record_bytes state_is_capped
  record_bytes_room bytes s h = ground arith

  pub kept_open :
      (s : BodyState B H) (t : Tape B H)
      → Matches s t
      → s.is_completed ≡ false
      → t.frames ≡ recorded s.replay.bufs ++ []
  kept_open s t m c = m.kept ∙ ap (λ o. recorded s.replay.bufs ++ trailing o) (m.unread c)

  pub trailers_kept :
      (s : BodyState B H) (t : Tape B H) (h : H)
      → Matches s t
      → s.is_completed ≡ false
      → t.frames ++ trailers_frame h ∷ [] ≡ recorded s.replay.bufs ++ trailers_frame h ∷ []
  trailers_kept s t h m c =
      ap (λ fs. fs ++ trailers_frame h ∷ []) (kept_open s t m c)
      ∙ sym (recorded_trailing s.replay.bufs h)

  pub data_kept :
      (s : BodyState B H) (t : Tape B H) (bytes : Str)
      → Matches s t
      → s.is_completed ≡ false
      → t.frames ++ data_frame bytes ∷ []
        ≡ recorded (s.replay.bufs ++ bytes ∷ []) ++ trailing s.trailers
  data_kept s t bytes m c =
      ap (λ fs. fs ++ data_frame bytes ∷ []) (kept_open s t m c)
      ∙ sym (recorded-append s.replay.bufs bytes)
      ∙ ap (λ o. recorded (s.replay.bufs ++ bytes ∷ []) ++ trailing o) (sym (m.unread c))

  pub past_chunks :
      (o : Option H) (s : BodyState B H) (t : Tape B H) (pos : ℕ)
      → s.trailers ≡ o
      → Matches s t
      → get_elem? s.replay.bufs pos ≡ none
      → pos ≤ length s.replay.bufs
      → (get_elem? t.frames pos ≡ get_elem? (trailing o) 0)
        × (length t.frames ≡ pos + length (trailing o))
  past_chunks o s t pos z m n k =
      let (x, l) = get_elem?-trailing s.replay.bufs s.trailers pos n k in
      (
        ap (λ fs. get_elem? fs pos) m.kept ∙ x ∙ ap (λ p. get_elem? (trailing p) 0) z,
        ap length m.kept ∙ l ∙ ap (λ p. pos + length (trailing p)) z,
      )
