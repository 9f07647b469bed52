-- ===== src/Replay/Buffers.antt =====
-- The list of buffers of crates/agentgateway/src/http/buflist.rs, with `Bytes` for its buffers. The
-- buffers of the source are cursors: `remaining` is the length of what is left of one.
use agentproxy.Prelude.{
  ℕ, suc, ◌+◌, ◌-◌, Bool, not, Option, none, some, List, [], ◌∷◌, ◌++◌, Str, length, get_elem?,
  drop, any, is_empty, ltb, if◌then◌else◌,
}

pub record BufList : Type 0 where
  pub bufs : List Str

-- `Default::default` and `BufList::new`.
abbrev pub no_bufs : BufList
no_bufs = record { bufs = [] }

unfoldable pub push : Str → BufList → BufList
push buf l = record { bufs = l.bufs ++ buf ∷ [] }

abbrev pop_front : List Str → Option Str × BufList
pop_front [] = (none, no_bufs)
pop_front (b ∷ bs) = (some b, record { bufs = bs })

unfoldable pub pop : BufList → Option Str × BufList
pop l = pop_front l.bufs

unfoldable pub get_chunk : ℕ → BufList → Option Str
get_chunk idx l = get_elem? l.bufs idx

unfoldable pub clear : BufList → BufList
clear l = no_bufs

abbrev pub total_length : List Str → ℕ
total_length [] = 0
total_length (b ∷ bs) = length b + total_length bs

unfoldable pub remaining : BufList → ℕ
remaining l = total_length l.bufs

abbrev first_chunk : List Str → Str
first_chunk [] = []
first_chunk (b ∷ bs) = b

unfoldable pub chunk : BufList → Str
chunk l = first_chunk l.bufs

unfoldable pub has_remaining : BufList → Bool
has_remaining l = any (λ b. not (is_empty b)) l.bufs

-- The loop of `advance`: `none` is the panic of `self.bufs[0]` on an empty deque.
unfoldable pub advance_bufs : ℕ → List Str → Option (List Str)
advance_bufs ℕ.zero bs = some bs
advance_bufs (suc n) [] = none
advance_bufs (suc n) (b ∷ bs) =
    let rest = advance_bufs (suc n - length b) bs in
    if ltb (suc n) (length b) then some (drop (suc n) b ∷ bs) else rest

abbrev as_list : Option (List Str) → Option BufList
as_list none = none
as_list (some bs) = some (record { bufs = bs })

unfoldable pub advance : ℕ → BufList → Option BufList
unfolding advance_bufs
advance cnt l = as_list (advance_bufs cnt l.bufs)
