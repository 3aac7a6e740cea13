-- ===== src/Ybin/Pending.antt =====
-- src/cat_ybin.c: the commands that wait for their answer.
use mhuxd.Base.{
  ℕ, zero, suc, ◌+◌, Bool, true, false, not, ◌&&◌, ◌||◌, List, [], ◌∷◌, ◌++◌, if◌then◌else◌, ◌==◌,
  ltb, leb, length, get_or, erase_idx, u8, u64,
}
use mhuxd.Cat.{radio, FrameKind, reply, ack, bad, dropped, is_updated, is_invalid}
use mhuxd.Ybin.Models.{Model, fam_of, is_fam_817}
use mhuxd.Ybin.Lengths.{ybin_max_frame, Length, op_of}
use mhuxd.Ybin.Answers.{apply_answer}
use mhuxd.Ybin.State.{
  Ybin, Pending, pend_max, giveup_ms, ybin_answer_ms, ybin_byte_gap_ms, bin_frame, emit,
}

abbrev pub no_pending : Pending
no_pending = record {
  cmd = [];
  len = 0;
  var = false;
  own = false;
  client = 0;
  got = 0;
  t_ms = 0;
  t_last = 0;
}

abbrev pub pend_at : List Pending → ℕ → Pending
pend_at ps i = get_or ps i no_pending

abbrev pub is_empty {ℓ} : {A : Type ℓ} → List A → Bool
is_empty [] = true
is_empty (x ∷ xs) = false

-- `pend_remove`
unfoldable pub pend_remove : Ybin → ℕ → Ybin
pend_remove y i = record y { ans = if i == 0 then [] else y.ans; pend = erase_idx y.pend i }

-- `byte_gap`
abbrev pub byte_gap : ℕ → ℕ
byte_gap pacing_ms = ybin_byte_gap_ms + pacing_ms

-- `pend_live`; of the decoder it reads the pacing delay.
unfoldable pub pend_live : ℕ → Pending → ℕ → Bool
pend_live pacing_ms p t =
    if p.got == 0
    then leb t (u64 (p.t_ms + ybin_answer_ms + pacing_ms))
    else leb t (u64 (p.t_last + byte_gap pacing_ms))

-- `is_ack`
unfoldable pub is_ack : Model → List ℕ → Bool
is_ack m c =
    let op = op_of c in
    is_fam_817 (fam_of m)
    && not (op == 0x03 || op == 0xbb || op == 0xbd || op == 0xe7 || op == 0xf7)

-- The command that is answered next is due from `t` on.
abbrev pub due_from : ℕ → List Pending → List Pending
due_from t [] = []
due_from t (p ∷ ps) = (if ltb p.t_ms t then record p { t_ms = t } else p) ∷ ps

-- `pend_remove(y, 0)` and what follows it in `answer_done`
unfoldable pub next_due : Ybin → ℕ → Ybin
unfolding pend_remove
next_due y t = let y' = pend_remove y 0 in record y' { pend = due_from t y'.pend }

-- `if(n) emit(…)`
abbrev pub emit_answer : Ybin → FrameKind → List ℕ → Bool → Pending → ℕ → Ybin
emit_answer y kind a applied p t =
    if is_empty a then y else emit y (bin_frame kind radio a applied p.own p.client t)

-- `answer_done` of an answer that ended early
unfoldable pub answer_ended : Ybin → ℕ → Ybin
unfolding next_due emit
answer_ended y t =
    let p = pend_at y.pend 0 in
    emit_answer (next_due y t) (if p.var then reply else dropped) y.ans false p p.t_last

-- `answer_done` of a complete answer. Nothing of a memory dump is decoded.
unfoldable pub answer_complete : Ybin → ℕ → Ybin
unfolding next_due emit apply_answer is_ack
answer_complete y t =
    let p = pend_at y.pend 0 in
    let y' = next_due y t in
    let (r, st) = apply_answer y.model y.st y.filler p.cmd y.ans t in
    let kind = if is_invalid r then bad else if is_ack y.model p.cmd then ack else reply in
    if ltb ybin_max_frame p.len
    then emit_answer y' reply y.ans false p t
    else emit_answer (record y' { st = st }) kind y.ans (is_updated r) p t

-- an answer that ended early, or a command that has no answer
unfoldable pub end_oldest : Ybin → ℕ → Ybin
unfolding answer_ended pend_remove
end_oldest y t = if (pend_at y.pend 0).got == 0 then pend_remove y 0 else answer_ended y t

-- The loop of `pend_expire`. Every round removes a command, so as many rounds as there are commands
-- are enough.
unfoldable pub expire_loop : ℕ → Ybin → ℕ → Ybin
unfolding pend_live end_oldest
expire_loop zero y t = y
expire_loop (suc n) y t =
    let rest = expire_loop n (end_oldest y t) t in
    if not (is_empty y.pend) && not (pend_live y.pacing_ms (pend_at y.pend 0) t) then rest else y

-- `pend_expire`
unfoldable pub pend_expire : Ybin → ℕ → Ybin
unfolding expire_loop
pend_expire y t = expire_loop (length y.pend) y t

-- The loop of `pend_giveup`.
unfoldable pub giveup_loop : ℕ → Ybin → ℕ → Ybin
unfolding pend_remove
giveup_loop zero y t = y
giveup_loop (suc n) y t =
    let p = pend_at y.pend 0 in
    let rest = giveup_loop n (pend_remove y 0) t in
    if not (is_empty y.pend) && p.got == 0 && ltb (u64 (p.t_ms + giveup_ms)) t then rest else y

-- `pend_giveup`
unfoldable pub pend_giveup : Ybin → ℕ → Ybin
unfolding giveup_loop
pend_giveup y t = giveup_loop (length y.pend) y t

-- a command as `pend_add` stores it
abbrev pub new_pending : List ℕ → Length → Bool → ℕ → ℕ → Pending
new_pending c len own client t = record {
  cmd = c;
  len = len.0;
  var = len.1;
  own = own;
  client = u8 client;
  got = 0;
  t_ms = t;
  t_last = t;
}

-- `pend_add`
unfoldable pub pend_add : Ybin → List ℕ → Length → Bool → ℕ → ℕ → Ybin
unfolding end_oldest
pend_add y c len own client t =
    let y' = if length y.pend == pend_max then end_oldest y t else y in
    record y' { pend = y'.pend ++ new_pending c len own client t ∷ [] }
