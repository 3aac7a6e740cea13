-- ===== src/Control/Progress.antt =====
-- src/mhcontrol.c: an answer to a command of the start takes the start of a connection further.
use mhuxd.Base.{
  ℕ, zero, suc, ◌+◌, ◌-◌, ◌≡◌, ◌≤◌, ◌<◌, ◌⊎◌, refl, ◌∙◌, arith, true, false, Option, none, some,
  List, ltb, if-elim, Option-elim, inl, inr,
}
use mhuxd.Mhinfo.{parse_version}
use mhuxd.Kcfg.Create as Settings
use mhuxd.Control.Numbers
use mhuxd.Control.State.{
  Control, CtlState, CmdResult, initializer, SpeedCfg, num_channels, set_state, is_state,
}
use mhuxd.Control.Start.{
  load_kopts, speed_of, next_speed, load_phase, channel_phase, greet, step_from, initializer_step,
  initializer_cb, is_result,
}
use mhuxd.Control.Flush.{set_state-state}
use mhuxd.Control.Queue.{submit_cmd_simple}
use mhuxd.Control.Speed.{submit_speed_cmd}
use mhuxd.Control.Steady.{
  simple-state, speed-state, asked, simple-asked, speed-asked, kopts-asked, greet-silent,
  set_state-asked,
}

-- How many steps a start is away from its end at most.
abbrev pub rank_of : CtlState → ℕ → ℕ
rank_of CtlState.init i = 12
rank_of CtlState.get_version i = 11
rank_of CtlState.set_channels i = 3 + (num_channels - i)
rank_of CtlState.load_cfg i = 2
rank_of CtlState.on_connect i = 1
rank_of _ i = 0

abbrev pub rank : Control → ℕ
rank c = rank_of c.state c.speed_idx

-- The start is over.
abbrev pub Ended : CtlState → Type 0
Ended s = (s ≡ CtlState.ok) ⊎ (s ≡ CtlState.disabled)

-- The next channel is not before the one asked for.
abbrev NotBefore : ℕ → Option (ℕ × SpeedCfg) → Type 0
NotBefore i o = (x : ℕ × SpeedCfg) → o ≡ some x → i ≤ x.0

next_speed-NotBefore : (c : Control) (n i : ℕ) → NotBefore i (next_speed c n i)
unfolding next_speed
next_speed-NotBefore c zero i = λ x e. absurd (cc)
next_speed-NotBefore c (suc n) i =
    Option-elim (NotBefore i) (speed_of c i) _ _
      (λ _ x e. omega (arith, next_speed-NotBefore c n (suc i) x e)) (λ s _ x e. ground arith)

-- What becomes of a connection behind the versions: the next channel, the settings, or no keyer. In the
-- first two cases more than `k` calls of initializer_cb are to come.
abbrev Onward : ℕ → ℕ → Control → Type 0
Onward i k d =
    ((d.state ≡ CtlState.set_channels)
      × (i < d.speed_idx)
      × (d.speed_idx < num_channels)
      × (k < asked d))
    ⊎ ((d.state ≡ CtlState.load_cfg) × (k < asked d))
    ⊎ (d.state ≡ CtlState.disabled)

load_phase-Onward : (i k : ℕ) (c : Control) → k ≤ asked c → Onward i k (load_phase c)
unfolding load_phase
load_phase-Onward i k c h =
    Option-elim (Onward i k) (elim c.kcfg [ some k ↦ some k | none ↦ Settings.create c.mhi ]) _ _
      (λ _. inr (inr (set_state-state _ CtlState.disabled)))
      (λ s e. inr (
        inl (
          set_state-state _ CtlState.load_cfg,
          omega (
            arith,
            h,
            set_state-asked (load_kopts loaded (some initializer)) CtlState.load_cfg,
            kopts-asked loaded s e,
          ),
        )))
  where
    loaded : Control
    loaded = record c {
      speed_idx = 0;
      kcfg = elim c.kcfg [ some k ↦ some k | none ↦ Settings.create c.mhi ];
    }

channel_phase-Onward : (c : Control) → Onward c.speed_idx (asked c) (channel_phase c)
unfolding channel_phase
channel_phase-Onward c =
    Option-elim (Onward c.speed_idx (asked c))
      (next_speed c (num_channels - c.speed_idx) c.speed_idx) _ _
      (λ _. load_phase-Onward c.speed_idx (asked c) _ (omega arith))
      (λ is e.
        if-elim (Onward c.speed_idx (asked c)) (ltb (is.0 + 1) num_channels) _ _
          (λ small. inl (
            speed-state (set_state c CtlState.set_channels) is.0 is.1 (some initializer)
                ∙ set_state-state c CtlState.set_channels,
            omega (arith, next_speed-NotBefore c (num_channels - c.speed_idx) c.speed_idx is e),
            below is.0 small,
            one_more is.0 is.1,
          ))
          (λ _. load_phase-Onward c.speed_idx (asked c) _ (omega (arith, one_more is.0 is.1))))
  where
    below : (i : ℕ) → ltb (i + 1) num_channels ≡ true → i + 1 < num_channels
    below i e = ground arith

    one_more :
        (i : ℕ) (s : SpeedCfg)
        → asked c
          < asked (submit_speed_cmd (set_state c CtlState.set_channels) i s (some initializer))
    one_more i s = omega (
      arith,
      speed-asked (set_state c CtlState.set_channels) i s,
      set_state-asked c CtlState.set_channels,
    )

-- a step that brings the start closer to its end
abbrev pub Closer : ℕ → ℕ → Control → Type 0
Closer n k d = (rank d < n) × (((0 < rank d) × (k < asked d)) ⊎ Ended d.state)

Onward-Closer : (i n k : ℕ) (d : Control) → 2 + (num_channels - i) < n → Onward i k d → Closer n k d
Onward-Closer i n k d h (inl (e, more, few, m)) =
    rw e (omega (arith, more, few, h), inl (omega arith, m))
Onward-Closer i n k d h (inr (inl (e, m))) = rw e (omega (arith, h), inl (omega arith, m))
Onward-Closer i n k d h (inr (inr e)) = rw e (omega (arith, h), inr (inr refl))

step_from-Closer :
    (s : CtlState) (c : Control) (reply : List ℕ)
    → 0 < rank_of s c.speed_idx
    → Closer (rank_of s c.speed_idx) (asked c) (step_from s c reply)
unfolding step_from
step_from-Closer CtlState.disabled c reply h = absurd (omega (arith, h))
step_from-Closer CtlState.disc c reply h = absurd (omega (arith, h))
step_from-Closer CtlState.ok c reply h = absurd (omega (arith, h))
step_from-Closer CtlState.off c reply h = absurd (omega (arith, h))
step_from-Closer CtlState.init c reply h =
    at (step_from CtlState.init c reply)
      (simple-state greeted Numbers.get_version (some initializer)
        ∙ set_state-state (greet c) CtlState.get_version)
      (omega (
        arith,
        simple-asked greeted Numbers.get_version,
        set_state-asked (greet c) CtlState.get_version,
        greet-silent c,
      ))
  where
    greeted : Control
    greeted = set_state (greet c) CtlState.get_version

    at : (d : Control) → d.state ≡ CtlState.get_version → asked c < asked d → Closer 12 (asked c) d
    at d e m = rw e (omega arith, inl (omega arith, m))
step_from-Closer CtlState.get_version c reply h =
    Onward-Closer c.speed_idx 11 (asked c) (step_from CtlState.get_version c reply) (omega arith)
      (channel_phase-Onward (record c { mhi = (parse_version c.mhi reply).1 }))
step_from-Closer CtlState.set_channels c reply h =
    Onward-Closer c.speed_idx (3 + (num_channels - c.speed_idx)) (asked c) (channel_phase c)
      (omega arith) (channel_phase-Onward c)
step_from-Closer CtlState.load_cfg c reply h =
    at (step_from CtlState.load_cfg c reply) (set_state-state _ CtlState.on_connect) (
      omega (
        arith,
        set_state-asked (submit_cmd_simple c Numbers.on_connect (some initializer))
            CtlState.on_connect,
        simple-asked c Numbers.on_connect,
      ))
  where
    at : (d : Control) → d.state ≡ CtlState.on_connect → asked c < asked d → Closer 2 (asked c) d
    at d e m = rw e (omega arith, inl (omega arith, m))
step_from-Closer CtlState.on_connect c reply h =
    at (step_from CtlState.on_connect c reply) (set_state-state _ CtlState.ok)
  where
    at : (d : Control) → d.state ≡ CtlState.ok → Closer 1 (asked c) d
    at d e = rw e (omega arith, inr (inl refl))

awake : (s : CtlState) (i : ℕ) → 0 < rank_of s i → is_state s CtlState.disc ≡ false
unfolding is_state
awake CtlState.disabled i h = refl
awake CtlState.off i h = refl
awake CtlState.disc i h = absurd (omega (arith, h))
awake CtlState.init i h = refl
awake CtlState.get_version i h = refl
awake CtlState.set_channels i h = refl
awake CtlState.load_cfg i h = refl
awake CtlState.on_connect i h = refl
awake CtlState.ok i h = refl

-- While a connection starts, an answer to one of the commands of the start that is `CMD_RESULT_OK` takes the
-- start further, whatever it says, so that at most `rank` more such answers lead to its end. Then either
-- the connection is online or the keyer disabled, or a command of the start is submitted that was not
-- there before: more calls of initializer_cb are to come than without the answer.
pub initializer_cb-Closer :
    (c : Control) (reply : List ℕ)
    → 0 < rank c
    → Closer (rank c) (asked c) (initializer_cb c CmdResult.ok reply)
unfolding initializer_cb initializer_step is_result
initializer_cb-Closer c reply h =
    rw (awake c.state c.speed_idx h) (step_from-Closer c.state c reply h)
