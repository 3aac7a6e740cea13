-- ===== src/Ybin/Framer.antt =====
-- src/cat_ybin.c: commands, bytes, the framers, one for each source, and the calls of the decoder.
use mhuxd.Base.{
  ℕ, zero, suc, ◌+◌, ◌-◌, Bool, true, false, not, ◌&&◌, ◌||◌, Option, none, some, List, [], ◌∷◌,
  ◌++◌, if◌then◌else◌, ◌==◌, ltb, leb, length, update, u16, u64, any_of,
}
use mhuxd.Cat.{
  Dir, host, own_query, radio, is_own, cmd, reply, bad, dropped, unmatched, is_updated, is_invalid,
  bad_client, cat_max_clients, Waiting,
}
use mhuxd.CatState.{select_vfo}
use mhuxd.Ybin.Models.{Family, fam_757, fam_817, fam_847, Model, models, fam_of, is_fam_847}
use mhuxd.Ybin.Lengths.{ybin_cmd_len, ybin_max_frame, op_of, u_of, Length, answer_len, has_pacing}
use mhuxd.Ybin.Commands.{apply_command}
use mhuxd.Ybin.State.{
  Ybin, Rx, Pending, ybin_cmd_gap_ms, ybin_hold_ms, rx_own, rx_num, bin_frame, emit, with_buf,
}
use mhuxd.Ybin.Pending.{
  pend_at, is_empty, pend_remove, pend_live, answer_ended, answer_complete, pend_expire,
  pend_giveup, pend_add,
}

-- VFO A until the radio tells otherwise
unfoldable pub assume_vfo : Ybin → ℕ → Ybin
assume_vfo y t = if y.st.vfo_ab.valid then y else record y { st = select_vfo y.st false t }

-- `y->m->hold_ms ? … : YBIN_HOLD_MS`
abbrev hold_time : Model → ℕ
hold_time m = if (models m).hold_ms == 0 then ybin_hold_ms else (models m).hold_ms

abbrev pub set_pacing : Ybin → List ℕ → Ybin
set_pacing y c =
    if op_of c == 0x0e && has_pacing y.model then record y { pacing_ms = u_of c } else y

-- A command waits for its answer, or keeps the line when it has none.
unfoldable pub await : Ybin → List ℕ → Length → Bool → ℕ → ℕ → Ybin
unfolding pend_add
await y c len own client t =
    if not (len.0 == 0) || len.1
    then pend_add y c len own client t
    else record y { hold = update y.hold (if own then 0 else client) (u64 (t + hold_time y.model)) }

-- `apply_command` and the last `emit` of `command`
unfoldable pub take_command : Ybin → Dir → ℕ → List ℕ → ℕ → Ybin
unfolding apply_command emit
take_command y dir client c t =
    let (r, st) = apply_command y.model y.st c t in
    emit (record y { st = st })
      (bin_frame (if is_invalid r then bad else cmd) dir c (is_updated r) (is_own dir) client t)

-- `command`
unfoldable pub command : Ybin → Dir → ℕ → List ℕ → ℕ → Ybin
unfolding answer_len assume_vfo pend_expire pend_giveup has_pacing await take_command
command y dir client c t =
    let y' = set_pacing (pend_giveup (pend_expire (assume_vfo y t) t) t) c in
    take_command (await y' c (answer_len y.model c) (is_own dir) client t) dir client c t

-- `p->got++`, `p->t_last = t`
abbrev pub count_byte : ℕ → List Pending → List Pending
count_byte t [] = []
count_byte t (p ∷ ps) = record p { got = u16 (p.got + 1); t_last = t } ∷ ps

-- A byte of the answer to the oldest command: the answer is complete, or its current piece is, or
-- neither.
unfoldable pub answer_byte : Ybin → ℕ → ℕ → Ybin
unfolding answer_complete emit
answer_byte y b t =
    let y' = record y { ans = y.ans ++ b ∷ []; pend = count_byte t y.pend } in
    let p = pend_at y'.pend 0 in
    if p.got == p.len
    then answer_complete y' t
    else if length y'.ans == ybin_max_frame
    then record (emit y' (bin_frame reply radio y'.ans false p.own p.client t)) { ans = [] }
    else y'

-- `radio_byte`
unfoldable pub radio_byte : Ybin → ℕ → ℕ → Ybin
unfolding pend_expire assume_vfo answer_byte emit
radio_byte y b t =
    let y' = pend_expire y t in
    if is_empty y'.pend
    then emit y' (bin_frame unmatched radio (b ∷ []) false false 0 t)
    else answer_byte (assume_vfo y' t) b t

-- `rx_expire`
unfoldable pub rx_expire : Ybin → ℕ → ℕ → Ybin
unfolding emit
rx_expire y i t =
    let rx = y.rx i in
    let own = i == rx_own in
    if is_empty rx.buf || leb t (u64 (rx.t_ms + ybin_cmd_gap_ms))
    then y
    else with_buf
        (emit y (
          bin_frame dropped (if own then own_query else host) rx.buf false own
            (if own then 0 else i + 1) rx.t_ms))
        i [] rx.t_ms

-- What `host_byte` does after `rx_expire`; a command is whole before it is carried out.
unfoldable pub store_byte : Ybin → Dir → ℕ → ℕ → ℕ → ℕ → Ybin
unfolding command
store_byte y dir client i b t =
    let buf = (y.rx i).buf ++ b ∷ [] in
    if length buf == ybin_cmd_len
    then command (with_buf y i [] t) dir client buf t
    else with_buf y i buf t

-- `host_byte`
unfoldable pub host_byte : Ybin → Dir → ℕ → ℕ → ℕ → ℕ → Ybin
unfolding rx_expire store_byte
host_byte y dir client i b t = store_byte (rx_expire y i t) dir client i b t

-- `rx_partial`
unfoldable pub rx_partial : Rx → ℕ → Bool
rx_partial rx t = not (is_empty rx.buf) && leb t (u64 (rx.t_ms + ybin_cmd_gap_ms))

-- The first loop of `cat_ybin_pending`, with `n` clients left.
unfoldable pub any_client : ℕ → Ybin → ℕ → Bool
unfolding rx_partial
any_client zero y t = false
any_client (suc n) y t = rx_partial (y.rx n) t || ltb t (y.hold (n + 1)) || any_client n y t

-- `cat_ybin_pending`
unfoldable pub pending : Ybin → ℕ → Waiting
unfolding any_client rx_partial pend_live
pending y t = record {
  client =
      any_client cat_max_clients y t || any_of (λ p. pend_live y.pacing_ms p t && not p.own) y.pend;
  own =
      rx_partial (y.rx rx_own) t
      || ltb t (y.hold 0)
      || any_of (λ p. pend_live y.pacing_ms p t && p.own) y.pend;
}

-- `cat_ybin_client_busy`
unfoldable pub client_busy : Ybin → ℕ → ℕ → Bool
unfolding rx_partial pend_live
client_busy y client t =
    if bad_client client
    then false
    else if rx_partial (y.rx (client - 1)) t || ltb t (y.hold client)
    then true
    else any_of (λ p. p.client == client && not p.own && pend_live y.pacing_ms p t) y.pend

-- The loop of `cat_ybin_client_discard`, with `n` = i + 1 rounds left.
unfoldable pub discard_loop : ℕ → ℕ → Ybin → Ybin
unfolding pend_remove answer_ended
discard_loop client zero y = y
discard_loop client (suc i) y =
    let p = pend_at y.pend i in
    discard_loop client i (
      if not (p.client == client) || p.own
      then y
      else if i == 0 && not (p.got == 0)
      then answer_ended y p.t_last
      else pend_remove y i)

-- `cat_ybin_client_discard`
unfoldable pub client_discard : Ybin → ℕ → Ybin
unfolding discard_loop
client_discard y client =
    if bad_client client
    then y
    else discard_loop client (length y.pend)
        (record (with_buf y (client - 1) [] (y.rx (client - 1)).t_ms) {
          hold = update y.hold client 0;
        })

-- The loops of `cat_ybin_feed`.
unfoldable pub host_loop : Ybin → Dir → ℕ → ℕ → List ℕ → ℕ → Ybin
unfolding host_byte
host_loop y dir client i [] t = y
host_loop y dir client i (b ∷ bs) t = host_loop (host_byte y dir client i b t) dir client i bs t

unfoldable pub radio_loop : Ybin → List ℕ → ℕ → Ybin
unfolding radio_byte
radio_loop y [] t = y
radio_loop y (b ∷ bs) t = radio_loop (radio_byte y b t) bs t

-- `cat_ybin_feed`
unfoldable pub feed : Ybin → Dir → ℕ → List ℕ → ℕ → Ybin
unfolding host_loop radio_loop
feed y host client buf t =
    if bad_client client then y else host_loop y host client (client - 1) buf t
feed y own_query client buf t = host_loop y own_query 0 rx_own buf t
feed y radio client buf t = radio_loop y buf t

-- `cat_ybin_answering`: the client, and whether the command is mhuxd's own
unfoldable pub answering : Ybin → ℕ → Option (ℕ × Bool)
unfolding pend_live
answering y t =
    let p = pend_at y.pend 0 in
    if is_empty y.pend || p.got == 0 || not (pend_live y.pacing_ms p t)
    then none
    else some (p.client, p.own)

-- The loop of `cat_ybin_expire`, with `n` framers left.
unfoldable pub expire_rx : ℕ → ℕ → Ybin → ℕ → Ybin
unfolding rx_expire
expire_rx zero i y t = y
expire_rx (suc n) i y t = expire_rx n (i + 1) (rx_expire y i t) t

-- `cat_ybin_expire`
unfoldable pub expire : Ybin → ℕ → Ybin
unfolding expire_rx pend_expire
expire y t = pend_expire (expire_rx rx_num 0 y t) t

-- The command of `cat_ybin_query`.
unfoldable pub query_cmd : Family → List ℕ
query_cmd fam_757 = 0 ∷ 0 ∷ 0 ∷ 0 ∷ 0x10 ∷ []
query_cmd fam_817 = 0 ∷ 0 ∷ 0 ∷ 0 ∷ 0x03 ∷ []
query_cmd fam_847 = 0 ∷ 0 ∷ 0 ∷ 0 ∷ 0x03 ∷ []
query_cmd _ = 0 ∷ 0 ∷ 0 ∷ 0x02 ∷ 0x10 ∷ []

-- `cat_ybin_query`: the command and the length of its answer
unfoldable pub query : Model → List ℕ × ℕ
unfolding query_cmd answer_len
query m = (query_cmd (fam_of m), (answer_len m (query_cmd (fam_of m))).0)

-- `cat_ybin_cat_on`: the command, of `YBIN_CMD_LEN` bytes, or none
unfoldable pub cat_on : Model → List ℕ
cat_on m = if is_fam_847 (fam_of m) then 0 ∷ 0 ∷ 0 ∷ 0 ∷ 0 ∷ [] else []
