-- ===== src/Civ/Framer.antt =====
-- src/cat_civ.c: the framers, one for each source, and the calls of the decoder.
use mhuxd.Base.{
  ℕ, ◌+◌, ◌-◌, false, Option, List, [], ◌∷◌, ◌++◌, if◌then◌else◌, ◌==◌, ltb, leb, length, update,
}
use mhuxd.Cat.{Dir, host, own_query, radio, is_radio, is_own, dropped, jam, bad_client}
use mhuxd.Civ.State.{
  Civ, Rx, RxState, idle, pre, inside, skip, civ_pre, civ_eom, civ_col, civ_min_len, civ_max_frame,
  rx_own, rx_radio, emit, civ_frame,
}
use mhuxd.Civ.Pending.{mark_lost, discard_loop, Resend, resend_loop}
use mhuxd.Civ.Classify.{process_frame}

-- A framer is named by its index in `rx`.
abbrev pub put_rx : Civ → ℕ → Rx → Civ
put_rx c i r = record c { rx = update c.rx i r }

-- `rx->state = s`
abbrev pub to_state : Civ → ℕ → RxState → Civ
to_state c i s = let r = c.rx i in put_rx c i (record r { state = s })

-- `rx->buf`, changed
abbrev pub with_buf : Civ → ℕ → List ℕ → Civ
with_buf c i b = let r = c.rx i in put_rx c i (record r { buf = b })

abbrev pub dropped_emitted : Civ → Dir → ℕ → ℕ → ℕ → Civ
dropped_emitted c dir client i t =
    if ltb 2 (length (c.rx i).buf)
    then emit c (civ_frame dropped dir (c.rx i).buf false (is_own dir) client t)
    else c

-- `rx_drop`
unfoldable pub rx_drop : Civ → Dir → ℕ → ℕ → ℕ → Civ
rx_drop c dir client i t = with_buf (dropped_emitted c dir client i t) i []

abbrev pub jam_marked : Civ → Dir → ℕ → Civ
jam_marked c dir t = if is_radio dir then record c { pend = mark_lost c.pend t } else c

-- `rx_jam`
unfoldable pub rx_jam : Civ → Dir → ℕ → ℕ → ℕ → Civ
rx_jam c dir client i t =
    let c1 = rx_drop (jam_marked c dir t) dir client i t in
    let c2 = emit c1 (civ_frame jam dir (civ_col ∷ []) false (is_own dir) client t) in
    to_state c2 i idle

-- A complete frame is processed, and the framer starts over.
abbrev pub rx_complete : Civ → Dir → ℕ → ℕ → List ℕ → ℕ → Civ
rx_complete c dir client i f t =
    to_state (with_buf (process_frame (with_buf c i f) dir client f t) i []) i idle

-- `case RX_IN`
unfoldable pub rx_inside : Civ → Dir → ℕ → ℕ → ℕ → ℕ → Civ
rx_inside c dir client i b t =
    let buf = (c.rx i).buf in
    if b == civ_pre
    then if ltb 2 (length buf) then to_state (rx_drop c dir client i t) i pre else c
    else if b == civ_eom
    then if leb civ_min_len (length buf + 1)
      then rx_complete c dir client i (buf ++ b ∷ []) t
      else to_state (rx_drop c dir client i t) i idle
    else if ltb (length buf + 1) civ_max_frame
    then with_buf c i (buf ++ b ∷ [])
    else to_state (rx_drop c dir client i t) i skip

-- `switch(rx->state)`
unfoldable pub rx_switch : RxState → Civ → Dir → ℕ → ℕ → ℕ → ℕ → Civ
rx_switch idle c dir client i b t = if b == civ_pre then to_state c i pre else c
rx_switch pre c dir client i b t =
    if b == civ_pre
    then to_state (with_buf c i (civ_pre ∷ civ_pre ∷ [])) i inside
    else to_state c i idle
rx_switch inside c dir client i b t = rx_inside c dir client i b t
rx_switch skip c dir client i b t =
    if b == civ_eom then to_state c i idle else if b == civ_pre then to_state c i pre else c

-- `rx->t_ms = t`
abbrev pub stamped : Civ → ℕ → ℕ → Civ
stamped c i t = let r = c.rx i in put_rx c i (record r { t_ms = t })

-- `rx_byte`
unfoldable pub rx_byte : Civ → Dir → ℕ → ℕ → ℕ → ℕ → Civ
rx_byte c dir client i b t =
    let c' = stamped c i t in
    if b == civ_col then rx_jam c' dir client i t else rx_switch (c'.rx i).state c' dir client i b t

-- The loop of `cat_civ_feed`.
unfoldable pub feed_loop : Civ → Dir → ℕ → ℕ → List ℕ → ℕ → Civ
feed_loop c dir client i [] t = c
feed_loop c dir client i (b ∷ bs) t = feed_loop (rx_byte c dir client i b t) dir client i bs t

-- `cat_civ_feed`
unfoldable pub feed : Civ → Dir → ℕ → List ℕ → ℕ → Civ
feed c host client buf t =
    if bad_client client then c else feed_loop c host client (client - 1) buf t
feed c own_query client buf t = feed_loop c own_query 0 rx_own buf t
feed c radio client buf t = feed_loop c radio 0 rx_radio buf t

-- `cat_civ_client_discard`
unfoldable pub client_discard : Civ → ℕ → Civ
client_discard c client =
    if bad_client client
    then c
    else let c' = to_state (with_buf c (client - 1) []) (client - 1) idle in
      record c' { pend = discard_loop client (length c'.pend) c'.pend }

-- `cat_civ_resend`; the command and whose it is, `none` for 0
unfoldable pub resend : Civ → ℕ → ℕ → Option Resend × Civ
resend c max t = let (ps, r) = resend_loop c.pend max t in (r, record c { pend = ps })
