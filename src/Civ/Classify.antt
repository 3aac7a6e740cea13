-- ===== src/Civ/Classify.antt =====
-- src/cat_civ.c: what becomes of a complete frame.
use mhuxd.Base.{
  ℕ, ◌+◌, Bool, true, false, not, ◌&&◌, ◌||◌, none, some, List, [], ◌∷◌, if◌then◌else◌, ◌==◌, set,
  u32,
}
use mhuxd.Cat.{
  Dir, radio, is_radio, is_own, FrameKind, cmd, echo, reply, ack, nak, unsolicited, unmatched,
  foreign, bad, Outcome, nothing, is_updated, is_invalid,
}
use mhuxd.CatState.{CatState}
use mhuxd.Civ.State.{f_to, f_from, f_cmd, Civ, civ_bcast, civ_ok, civ_ng, emit, civ_frame}
use mhuxd.Civ.Decode.{apply_unsolicited, apply_set, apply_reply, intent, is_set_intent}
use mhuxd.Civ.Pending.{
  pend_at, pend_expire, pend_add, pend_consume, pend_find_query, pend_find_ack, pend_find_echo,
}

abbrev is_empty : List ℕ → Bool
is_empty [] = true
is_empty (x ∷ xs) = false

-- `F_CMD(f) == CIV_OK || F_CMD(f) == CIV_NG`
abbrev pub is_ack : List ℕ → Bool
is_ack f = f_cmd f == civ_ok || f_cmd f == civ_ng

-- the frame before and this one are a command and its reply
abbrev pub is_reply_to : List ℕ → List ℕ → Bool
is_reply_to l f = not (is_empty l) && f_to l == f_from f && f_from l == f_to f && f_cmd l == f_cmd f

-- `learn_addr`
unfoldable pub learn_addr : Civ → Dir → List ℕ → ℕ → Civ
learn_addr c dir f t =
    if not (is_radio dir)
    then c
    else if f_to f == civ_bcast || is_ack f
    then record c { radio_addr = f_from f }
    else if is_reply_to c.last f
    then record c {
      radio_addr = f_from f;
      pend = pend_add c.pend c.last c.last_dir c.last_client t;
    }
    else c

-- The state that a decoder leaves, and the frame's report.
abbrev applied_frame : Civ → Outcome × CatState → FrameKind → Dir → List ℕ → Bool → ℕ → ℕ → Civ
applied_frame c (r, st) kind dir f own client t =
    emit (record c { st = st }) (civ_frame kind dir f (is_updated r) own client t)

abbrev or_bad : Outcome → FrameKind → FrameKind
or_bad r kind = if is_invalid r then bad else kind

-- A frame from the radio to everybody.
unfoldable pub radio_broadcast : Civ → List ℕ → ℕ → Civ
radio_broadcast c f t =
    let r = apply_unsolicited c.freq_len c.st f t in
    applied_frame c r (or_bad r.0 unsolicited) radio f false 0 t

-- FB or FA: a set that the radio accepted takes effect.
unfoldable pub radio_ack : Civ → List ℕ → ℕ → Civ
radio_ack c f t =
    let ok = f_cmd f == civ_ok in
    let kind = if ok then ack else nak in
    elim (pend_find_ack c.pend (f_to f) ok) [
      | none ↦ emit c (civ_frame kind radio f false false 0 t)
      | some i ↦
          let p = pend_at c.pend i in
          let r : Outcome × CatState =
            if ok && is_set_intent (intent p.buf)
            then apply_set c.freq_len c.st p.buf t
            else (nothing, c.st) in
          applied_frame (record c { pend = pend_consume c.pend i }) r kind radio f p.own p.client t
    ]

-- A reply takes effect only if a pending query fits it.
unfoldable pub radio_reply : Civ → List ℕ → ℕ → Civ
radio_reply c f t = elim (pend_find_query c.pend f) [
  | none ↦ emit c (civ_frame unmatched radio f false false 0 t)
  | some i ↦
      let p = pend_at c.pend i in
      let r = apply_reply c.freq_len c.st f t in
      applied_frame (record c { pend = pend_consume c.pend i }) r (or_bad r.0 reply) radio f p.own
        p.client t
]

-- A command to the radio: the echo of one sent, or one only seen on the bus.
unfoldable pub radio_command : Civ → List ℕ → ℕ → Civ
radio_command c f t = elim (pend_find_echo c.pend f) [
  | none ↦
      emit (record c { pend = pend_add c.pend f radio 0 t }) (civ_frame cmd radio f false false 0 t)
  | some i ↦
      let p = pend_at c.pend i in
      emit (record c { pend = set c.pend i (record p { echoed = true }) })
        (civ_frame echo radio f false p.own p.client t)
]

-- `process_radio_frame`
unfoldable pub process_radio_frame : Civ → List ℕ → ℕ → Civ
process_radio_frame c f t =
    let ra = c.radio_addr in
    if f_from f == ra && not (f_to f == ra)
    then if f_to f == civ_bcast
      then radio_broadcast c f t
      else if is_ack f
      then radio_ack c f t
      else radio_reply c f t
    else if f_to f == ra && not (f_from f == ra) && not (f_from f == civ_bcast)
    then radio_command c f t
    else emit c (civ_frame foreign radio f false false 0 t)

-- `process_frame` between the learning of the address and the copy to `last`
unfoldable pub dispatch_frame : Civ → Dir → ℕ → List ℕ → ℕ → Civ
dispatch_frame c dir client f t =
    if c.radio_addr == 0
    then emit c (civ_frame foreign dir f false (is_own dir) client t)
    else if is_radio dir
    then process_radio_frame c f t
    else if f_to f == c.radio_addr && not (f_from f == civ_bcast)
    then emit (record c { pend = pend_add c.pend f dir client t })
        (civ_frame cmd dir f false (is_own dir) client t)
    else emit c (civ_frame foreign dir f false (is_own dir) client t)

-- `stats.frames++; pend_expire()`
abbrev pub begin_frame : Civ → ℕ → Civ
begin_frame c t =
    let s = c.stats in
    record c { stats = record s { frames = u32 (s.frames + 1) }; pend = pend_expire c.pend t }

abbrev pub known_addr : Civ → Dir → List ℕ → ℕ → Civ
known_addr c dir f t = if c.radio_addr == 0 then learn_addr c dir f t else c

-- `process_frame`
unfoldable pub process_frame : Civ → Dir → ℕ → List ℕ → ℕ → Civ
process_frame c dir client f t =
    let c' = dispatch_frame (known_addr (begin_frame c t) dir f t) dir client f t in
    record c' { last = f; last_dir = dir; last_client = client }
