-- ===== src/Ascii/Pending.antt =====
-- src/cat_ascii.c: the commands that wait for their answer.
use mhuxd.Base.{
  ℕ, zero, suc, ◌+◌, Bool, true, false, not, ◌&&◌, Option, none, some, List, [], ◌∷◌, ◌++◌,
  if◌then◌else◌, ◌==◌, leb, length, take, get_or, erase_idx, bytes_eq, codes, starts_with, u64, u8,
  find_idx,
}
use mhuxd.Ascii.State.{Pending, pend_max, pend_timeout_ms, set_wait_ms}

abbrev pub no_pending : Pending
no_pending = record { prefix = []; frame = []; t_ms = 0; own = false; client = 0; query = false }

abbrev pub pend_at : List Pending → ℕ → Pending
pend_at ps i = get_or ps i no_pending

-- `prefix_of`; `n` characters of `s`
unfoldable pub prefix_of : List ℕ → List ℕ
prefix_of s =
    if leb 4 (length s) && starts_with (codes "ZZ") s
    then take 4 s
    else if leb 2 (length s)
    then take 2 s
    else s

-- `pend_live`
unfoldable pub pend_live : Pending → ℕ → Bool
pend_live p t = leb t (u64 (p.t_ms + (if p.query then pend_timeout_ms else set_wait_ms)))

-- The loop of `pend_add` that removes the dead entries, `n` = i + 1 rounds left.
unfoldable pub expire_loop : ℕ → List Pending → ℕ → List Pending
expire_loop zero ps t = ps
expire_loop (suc i) ps t =
    expire_loop i (if pend_live (pend_at ps i) t then ps else erase_idx ps i) t

abbrev pub drop_oldest : List Pending → List Pending
drop_oldest ps = if length ps == pend_max then erase_idx ps 0 else ps

-- `pend_add`
unfoldable pub pend_add : List Pending → List ℕ → List ℕ → Bool → ℕ → ℕ → List Pending
unfolding expire_loop
pend_add ps buf prefix own client t =
    drop_oldest (expire_loop (length ps) ps t)
    ++ record {
      prefix = prefix;
      frame = buf;
      t_ms = t;
      own = own;
      client = u8 client;
      query = length buf == length prefix + 1;
    }
      ∷ []

-- What a radio frame is to the pending commands: an error reply, which answers any, or a frame with
-- its prefix. It is `buf` of `pend_take`, null for an error.
pub data Answer : Type 0 where
  error_reply : Answer
  frame_of : List ℕ → List ℕ → Answer

-- `!buf || !strcmp(prefix, …)`
abbrev pub fits : Answer → Pending → Bool
fits error_reply p = true
fits (frame_of prefix buf) p = bytes_eq p.prefix prefix

unfoldable pub live_query : Answer → ℕ → Pending → Bool
unfolding pend_live
live_query a t p = p.query && pend_live p t && fits a p

unfoldable pub live_fit : Answer → ℕ → Pending → Bool
unfolding pend_live
live_fit a t p = pend_live p t && fits a p

-- `buf && !p->own && …`: the radio repeats a client's set.
unfoldable pub repeats : Answer → Pending → Bool
repeats error_reply p = false
repeats (frame_of prefix buf) p = not p.own && bytes_eq p.frame buf

-- What `pend_take` finds: whose command was answered, `none` for 0.
abbrev pub Taken : Type 0
Taken = Option (Bool × ℕ) × List Pending

abbrev take_at : List Pending → ℕ → Taken
take_at ps i = (some ((pend_at ps i).own, (pend_at ps i).client), erase_idx ps i)

-- The second loop of `pend_take`.
unfoldable pub take_oldest : List Pending → Answer → ℕ → Taken
unfolding live_fit repeats
take_oldest ps a t = elim (find_idx (live_fit a t) ps) [
  | none ↦ (none, ps)
  | some i ↦ if repeats a (pend_at ps i) then (none, erase_idx ps i) else take_at ps i
]

-- `pend_take`
unfoldable pub pend_take : List Pending → Answer → ℕ → Taken
unfolding live_query take_oldest
pend_take ps a t = elim (find_idx (live_query a t) ps) [
  | none ↦ take_oldest ps a t
  | some i ↦ take_at ps i
]
