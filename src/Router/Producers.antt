-- ===== src/Router/Producers.antt =====
-- src/mhrouter.c: what connectors send to the keyer, and who may; their PTT.
use mhuxd.Base.{
  ℕ, zero, suc, ◌+◌, ◌*◌, ◌/◌, ◌%◌, Bool, true, false, not, ◌&&◌, ◌||◌, Option, none, some, List,
  [], ◌∷◌, ◌++◌, if◌then◌else◌, ◌==◌, map, update, any_of, find_idx, erase_idx, bit_or, bool_eq,
}
use mhuxd.Channel
use mhuxd.Channel.{is_ptt_channel}
use mhuxd.Router.State.{
  Router, Producer, all_num_channels, bad_channel, is_open, fd_eq, may_read, put_producers,
}
use mhuxd.Router.Sends.{send_in}

-- `has_consumer_fd`, `has_producer_fd`
unfoldable pub has_consumer_fd : Router → ℕ → ℕ → Bool
has_consumer_fd r fd channel = any_of (λ c. c.fd == fd) (r.consumers channel)

unfoldable pub has_producer_fd : Router → ℕ → ℕ → Bool
has_producer_fd r fd channel = any_of (λ p. p.fd == fd) (r.producers channel)

-- `MHC2DFL_PTT_R1`, `MHC2DFL_PTT_R2`
abbrev pub ptt_r1 : ℕ
ptt_r1 = 4

abbrev pub ptt_r2 : ℕ
ptt_r2 = 8

-- The loops of `push_ptt`: over the producers of a channel, and over `n` channels from `ch` on.
unfoldable pub held_in : ℕ → List Producer → ℕ
held_in held [] = held
held_in held (p ∷ ps) = held_in (bit_or held p.ptt_mask) ps

unfoldable pub held_loop : ℕ → ℕ → (ℕ → List Producer) → ℕ → ℕ
unfolding held_in
held_loop zero ch ps held = held
held_loop (suc n) ch ps held =
    held_loop n (ch + 1) ps (if is_ptt_channel ch then held_in held (ps ch) else held)

-- `x & ~PTT_FLAGS` of a byte
abbrev pub without_ptt : ℕ → ℕ
without_ptt x = x / 16 * 16 + x % 4

-- `push_ptt`
unfoldable pub push_ptt : Router → Router
unfolding held_loop send_in
push_ptt r =
    let w = bit_or (without_ptt r.wflag) (held_loop all_num_channels 0 r.producers 0) in
    let r' = record r { wflag = w } in
    if is_open r.fd then (send_in r' (w ∷ []) Channel.flags).1 else r'

-- the `switch` of `process_ptt_producer`: the radio that a channel keys
unfoldable pub ptt_mask_of : ℕ → ℕ → Option ℕ
ptt_mask_of channel focus =
    if channel == Channel.ptt1
    then some ptt_r1
    else if channel == Channel.ptt2
    then some ptt_r2
    else if channel == Channel.ptt_focus
    then some (if focus == 1 then ptt_r2 else ptt_r1)
    else none

-- What a byte does to the mask of its producer; `none` is nothing.
unfoldable pub ptt_byte : ℕ → ℕ → ℕ → Option ℕ
unfolding ptt_mask_of
ptt_byte channel focus c =
    if c == 1
    then ptt_mask_of channel focus
    else if c == 0
    then elim (ptt_mask_of channel focus) [ none ↦ none | some m ↦ some 0 ]
    else none

-- The loop of `process_ptt_producer`, over the bytes that `buf_get_c` hands out: the mask, and
-- `push`.
unfoldable pub ptt_loop : ℕ → ℕ → List ℕ → ℕ × Bool → ℕ × Bool
unfolding ptt_byte
ptt_loop channel focus [] s = s
ptt_loop channel focus (c ∷ cs) s =
    ptt_loop channel focus cs (elim (ptt_byte channel focus c) [ none ↦ s | some m ↦ (m, true) ])

abbrev pub with_mask : ℕ → List Producer → ℕ → List Producer
with_mask m [] i = []
with_mask m (p ∷ ps) zero = record p { ptt_mask = m } ∷ ps
with_mask m (p ∷ ps) (suc i) = p ∷ with_mask m ps i

abbrev pub mask_at : List Producer → ℕ → ℕ
mask_at [] i = 0
mask_at (p ∷ ps) zero = p.ptt_mask
mask_at (p ∷ ps) (suc i) = mask_at ps i

-- `process_ptt_producer`, of the producer at an index of its channel's list
unfoldable pub process_ptt : Router → ℕ → ℕ → List ℕ → Router
unfolding ptt_loop push_ptt
process_ptt r channel i bytes =
    let (m, push) = ptt_loop channel r.wk_tx_focus bytes (mask_at (r.producers channel) i, false) in
    if push then push_ptt (put_producers r channel (with_mask m (r.producers channel) i)) else r

abbrev pub unmasked : Producer → Producer
unmasked p = record p { ptt_mask = 0 }

-- `drop_ptt`
unfoldable pub drop_ptt : Router → Router
drop_ptt r = record r {
  producers = λ ch. map unmasked (r.producers ch);
  wflag = without_ptt r.wflag;
}

-- a producer's watcher under `switch_producer_events`
abbrev pub switched : Router → Bool → ℕ → Producer → Producer
switched r active channel p =
    if not active || may_read r channel p.fd then record p { reading = active } else p

-- `switch_producer_events`
unfoldable pub switch_producer_events : Router → Bool → Router
unfolding may_read
switch_producer_events r active = record r {
  producers = λ ch. map (switched r active ch) (r.producers ch);
}

-- `mhr_set_keyer_fd`
unfoldable pub set_keyer_fd : Router → Option ℕ → Router
unfolding drop_ptt switch_producer_events
set_keyer_fd r fd =
    let r1 = if is_open r.fd then record (drop_ptt r) { writing = false } else r in
    if fd_eq fd r.fd then r else switch_producer_events (record r1 { fd = fd }) (is_open fd)

-- `mhr_add_producer`
unfoldable pub add_producer : Router → Option ℕ → ℕ → Option (List ℕ) → Router
unfolding may_read
add_producer r none channel tag = r
add_producer r (some fd) channel tag =
    if bad_channel channel || channel == Channel.flags && not r.has_flags_channel
    then r
    else put_producers r channel (
        r.producers channel
        ++ record {
          fd = fd;
          tag = tag;
          ptt_mask = 0;
          reading = is_open r.fd && may_read r channel fd;
        }
          ∷ [])

abbrev pub closes : Router → ℕ → ℕ → Router
closes r fd channel =
    if has_consumer_fd r fd channel then r else record r { closed = r.closed ++ fd ∷ [] }

-- the body of the `if` of `mhr_rem_producer`
unfoldable pub without_producer : Router → ℕ → ℕ → ℕ → Router
unfolding push_ptt has_consumer_fd
without_producer r channel fd i =
    let r' = put_producers r channel (erase_idx (r.producers channel) i) in
    closes (if mask_at (r.producers channel) i == 0 then r' else push_ptt r') fd channel

-- `mhr_rem_producer`
unfoldable pub rem_producer : Router → ℕ → ℕ → Router
unfolding without_producer
rem_producer r fd channel =
    if bad_channel channel then r else elim (find_idx (λ p. p.fd == fd) (r.producers channel)) [
      | none ↦ r
      | some i ↦ without_producer r channel fd i
    ]

-- a producer's watcher under `update_producers`
abbrev pub updated : Router → ℕ → Producer → Producer
updated r channel p = record p { reading = is_open r.fd && may_read r channel p.fd }

-- `update_producers`
unfoldable pub update_producers : Router → ℕ → Router
unfolding may_read
update_producers r channel = put_producers r channel (map (updated r channel) (r.producers channel))

-- `mhr_hold_producers`
unfoldable pub hold_producers : Router → ℕ → Bool → Router
unfolding update_producers
hold_producers r channel hold =
    if bad_channel channel || bool_eq (r.hold channel) hold
    then r
    else update_producers (record r { hold = update r.hold channel hold }) channel

-- `mhr_set_producer_turn`
unfoldable pub set_producer_turn : Router → ℕ → Option ℕ → Router
unfolding update_producers
set_producer_turn r channel fd =
    if bad_channel channel || fd_eq (r.turn channel) fd
    then r
    else update_producers (record r { turn = update r.turn channel fd }) channel

-- The loop of `mhr_next_waiting_producer`: `after` and `first` are its variables, `waiting` is
-- `producer_waiting`, which asks the socket.
unfoldable pub next_loop : (ℕ → Bool) → ℕ → Bool → Option ℕ → List Producer → Option ℕ
next_loop waiting fd after first [] = first
next_loop waiting fd after first (p ∷ ps) =
    let passed = next_loop waiting fd true first ps in
    let kept = next_loop waiting fd after first ps in
    let found = next_loop waiting fd after (some p.fd) ps in
    if p.fd == fd
    then passed
    else if waiting p.fd
    then if after then some p.fd else if is_open first then kept else found
    else kept

-- `mhr_next_waiting_producer`; `fd` may be one that is no producer's
unfoldable pub next_waiting_producer : (ℕ → Bool) → Router → ℕ → ℕ → Option ℕ
unfolding next_loop
next_waiting_producer waiting r channel fd =
    if bad_channel channel then none else next_loop waiting fd false none (r.producers channel)
