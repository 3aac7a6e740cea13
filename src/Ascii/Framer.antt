-- ===== src/Ascii/Framer.antt =====
-- src/cat_ascii.c: frames, the framers, one for each source, and the calls of the decoder.
use mhuxd.Base.{
  ℕ, zero, suc, ◌+◌, ◌-◌, Bool, true, false, not, ◌&&◌, ◌||◌, Option, none, some, List, [], ◌∷◌,
  ◌++◌, if◌then◌else◌, ◌==◌, ltb, leb, length, update, erase_idx, u32, u64, any_of,
}
use mhuxd.Cat.{
  Dir, host, own_query, radio, is_radio, is_own, FrameKind, cmd, reply, unsolicited, bad, dropped,
  error, Frame, is_updated, is_invalid, bad_client, cat_max_clients, Waiting,
}
use mhuxd.CatState.{select_vfo}
use mhuxd.Ascii.State.{Ascii, Rx, Pending, ascii_max_frame, pend_timeout_ms, rx_own, rx_radio, emit}
use mhuxd.Ascii.Commands.{apply_frame}
use mhuxd.Ascii.Pending.{error_reply, frame_of, prefix_of, pend_at, pend_live, pend_add, pend_take}

-- a frame as `emit` is given it
abbrev pub text_frame : FrameKind → Dir → List ℕ → Bool → Bool → ℕ → ℕ → Frame
text_frame kind dir buf applied own client t = record {
  kind = kind;
  dir = dir;
  t_ms = t;
  buf = buf;
  applied = applied;
  text = true;
  own = own;
  client = client;
}

abbrev pub is_empty : List ℕ → Bool
is_empty [] = true
is_empty (x ∷ xs) = false

-- `stats.frames++`, and VFO A until the radio tells otherwise
unfoldable pub begin_frame : Ascii → ℕ → Ascii
begin_frame a t =
    let s = a.stats in
    let d = a.dec in
    record a {
      stats = record s { frames = u32 (s.frames + 1) };
      dec = if d.st.vfo_ab.valid then d else record d { st = select_vfo d.st false t };
    }

-- A frame to the radio. `s` is without the `;` that `buf` ends with.
unfoldable pub client_frame : Ascii → Dir → ℕ → List ℕ → List ℕ → ℕ → Ascii
client_frame a dir client s buf t =
    let (r, d) = apply_frame a.dec s true t in
    let ps =
      if is_empty s then a.pend else pend_add a.pend buf (prefix_of s) (is_own dir) client t in
    emit (record a { dec = d; pend = ps })
      (text_frame cmd dir buf (is_updated r) (is_own dir) client t)

-- `?`, `E` or `O`
abbrev pub is_error : List ℕ → Bool
is_error [] = false
is_error (c ∷ []) = c == b'?' || c == b'E' || c == b'O'
is_error (c ∷ d ∷ s) = false

abbrev owner : Option (Bool × ℕ) → Bool × ℕ
owner none = (false, 0)
owner (some o) = o

abbrev is_reply : Option (Bool × ℕ) → Bool
is_reply none = false
is_reply (some o) = true

unfoldable pub error_frame : Ascii → List ℕ → ℕ → Ascii
error_frame a buf t =
    let (o, ps) = pend_take a.pend error_reply t in
    emit (record a { pend = ps }) (text_frame error radio buf false (owner o).0 (owner o).1 t)

unfoldable pub radio_frame : Ascii → List ℕ → List ℕ → ℕ → Ascii
radio_frame a s buf t =
    let (o, ps) =
      if is_empty s then (none, a.pend) else pend_take a.pend (frame_of (prefix_of s) buf) t in
    let (r, d) = apply_frame a.dec s false t in
    let kind = if is_invalid r then bad else if is_reply o then reply else unsolicited in
    emit (record a { pend = ps; dec = d })
      (text_frame kind radio buf (is_updated r) (owner o).0 (owner o).1 t)

-- `process_frame`; the frame is `s` and the `;`.
unfoldable pub process_frame : Ascii → Dir → ℕ → List ℕ → ℕ → Ascii
unfolding begin_frame client_frame error_frame radio_frame
process_frame a dir client s t =
    let a' = begin_frame a t in
    let buf = s ++ b';' ∷ [] in
    if not (is_radio dir)
    then client_frame a' dir client s buf t
    else if is_error s
    then error_frame a' buf t
    else radio_frame a' s buf t

abbrev pub put_rx : Ascii → ℕ → Rx → Ascii
put_rx a i r = record a { rx = update a.rx i r }

abbrev pub with_buf : Ascii → ℕ → List ℕ → ℕ → Ascii
with_buf a i b t = put_rx a i (record { buf = b; t_ms = t })

-- Line ends and spaces between frames.
abbrev pub is_blank : ℕ → Bool
is_blank b = b == 13 || b == 10 || b == 32 || b == 0

-- `rx_byte`; every branch sets `rx->t_ms`.
unfoldable pub rx_byte : Ascii → Dir → ℕ → ℕ → ℕ → ℕ → Ascii
rx_byte a dir client i b t =
    let buf = (a.rx i).buf in
    if b == b';'
    then with_buf (process_frame (with_buf a i (buf ++ b ∷ []) t) dir client buf t) i [] t
    else if is_empty buf && is_blank b
    then with_buf a i buf t
    else if ltb b 0x20 || leb 0x7f b || leb ascii_max_frame (length buf + 1)
    then with_buf (emit a (text_frame dropped dir (buf ++ b ∷ []) false (is_own dir) client t)) i []
        t
    else with_buf a i (buf ++ b ∷ []) t

-- The loop of `cat_ascii_feed`.
unfoldable pub feed_loop : Ascii → Dir → ℕ → ℕ → List ℕ → ℕ → Ascii
feed_loop a dir client i [] t = a
feed_loop a dir client i (b ∷ bs) t = feed_loop (rx_byte a dir client i b t) dir client i bs t

-- `cat_ascii_feed`
unfoldable pub feed : Ascii → Dir → ℕ → List ℕ → ℕ → Ascii
feed a host client buf t =
    if bad_client client then a else feed_loop a host client (client - 1) buf t
feed a own_query client buf t = feed_loop a own_query 0 rx_own buf t
feed a radio client buf t = feed_loop a radio 0 rx_radio buf t

-- `rx_partial`
unfoldable pub rx_partial : Rx → ℕ → Bool
rx_partial rx t = not (is_empty rx.buf) && leb t (u64 (rx.t_ms + pend_timeout_ms))

-- The first loop of `cat_ascii_pending`, with `n` framers left.
unfoldable pub any_partial : ℕ → (ℕ → Rx) → ℕ → Bool
unfolding rx_partial
any_partial zero rx t = false
any_partial (suc n) rx t = rx_partial (rx n) t || any_partial n rx t

-- `cat_ascii_pending`
unfoldable pub pending : Ascii → ℕ → Waiting
unfolding any_partial
pending a t = record {
  client = any_partial cat_max_clients a.rx t || any_of (λ p. pend_live p t && not p.own) a.pend;
  own = any_of (λ p. pend_live p t && p.own) a.pend;
}

-- `cat_ascii_client_busy`
unfoldable pub client_busy : Ascii → ℕ → ℕ → Bool
unfolding rx_partial
client_busy a client t =
    if bad_client client
    then false
    else if rx_partial (a.rx (client - 1)) t
    then true
    else any_of (λ p. p.client == client && pend_live p t) a.pend

-- The loop of `cat_ascii_client_discard`, with `n` = i + 1 rounds left.
unfoldable pub discard_loop : ℕ → ℕ → List Pending → List Pending
discard_loop client zero ps = ps
discard_loop client (suc i) ps =
    discard_loop client i (if (pend_at ps i).client == client then erase_idx ps i else ps)

-- `cat_ascii_client_discard`
unfoldable pub client_discard : Ascii → ℕ → Ascii
unfolding discard_loop
client_discard a client =
    if bad_client client then a else (record (with_buf a (client - 1) [] (a.rx (client - 1)).t_ms) {
      pend = discard_loop client (length a.pend) a.pend;
    })
