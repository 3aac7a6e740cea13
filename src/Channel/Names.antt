-- ===== src/Channel/Names.antt =====
-- src/channel.c: the names of channels, both ways, and the PTT channels.
use mhuxd.Base.{
  ℕ, ◌<◌, ◌≡◌, refl, Bool, true, false, Option, none, some, List, arith, ltb, each_below,
  each_below_lem, ◌==◌, ◌⊎◌, if◌then◌else◌, ◌&&◌, not, ◌≢◌,
}
use mhuxd.Channel.{ptt_channel, is_ptt_channel, channel2str, channel2str_new, str2channel}

-- The channels that have a name in the map: those up to `CH_ROTATOR` but PS2 and the unused 8.
abbrev pub is_named : ℕ → Bool
is_named c = ltb c 14 && not (c == 3) && not (c == 8)

abbrev leads_back : ℕ → Option ℕ → Bool
leads_back c none = false
leads_back c (some d) = d == c

leads_back_sound : (c : ℕ) (o : Option ℕ) → leads_back c o ≡ true → o ≡ some c
leads_back_sound c none h = cc
leads_back_sound c (some d) h = ground arith

module _ (name_of : ℕ → List ℕ) where
  abbrev round_trips : ℕ → Bool
  round_trips c = if is_named c then leads_back c (str2channel (name_of c)) else true

  round_trips_sound :
      each_below round_trips 14 ≡ true
      → (c : ℕ) → is_named c ≡ true
      → str2channel (name_of c) ≡ some c
  round_trips_sound table c h =
      leads_back_sound c (str2channel (name_of c))
        (ground (arith, each_below_lem round_trips 14 c (in_table c h) table))
    where
      in_table : (k : ℕ) → is_named k ≡ true → k < 14
      in_table k e = ground arith

-- The name of a channel, by either function and with either kind of keyer, leads back to that
-- channel, also where R2 and AUX share one.
pub str2channel-channel2str :
    (c : ℕ) (has_r2 : Bool)
    → is_named c ≡ true
    → (str2channel (channel2str c) ≡ some c) × (str2channel (channel2str_new c has_r2) ≡ some c)
unfolding each_below str2channel channel2str channel2str_new
str2channel-channel2str c true h = (
  round_trips_sound channel2str refl c h,
  round_trips_sound (λ k. channel2str_new k true) refl c h,
)
str2channel-channel2str c false h = (
  round_trips_sound channel2str refl c h,
  round_trips_sound (λ k. channel2str_new k false) refl c h,
)

-- What `ch_ptt_channel` answers for channel `c`.
abbrev pub IsPttAnswer : ℕ → Option ℕ → Type 0
IsPttAnswer c none = ((c < 4) × (c ≢ 2)) ⊎ ((7 < c) × (c ≢ 9) × (c ≢ 10))
IsPttAnswer c (some d) =
    (is_ptt_channel d ≡ true) × (ptt_channel d ≡ (if d == 11 then none else some d))

-- `ch_ptt_channel` answers every radio, FSK and Winkey channel and PTT1 and PTT2 with a PTT channel,
-- which it maps to itself unless it is the focus channel; the other channels have no answer.
pub ptt_channel-IsPttAnswer : (c : ℕ) → IsPttAnswer c (ptt_channel c)
unfolding ptt_channel is_ptt_channel
ptt_channel-IsPttAnswer c = ground arith
