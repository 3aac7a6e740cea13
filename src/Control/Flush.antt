-- ===== src/Control/Flush.antt =====
-- src/mhcontrol.c: when the keyer is disconnected every command ends, and none is left.
use mhuxd.Base.{
  ℕ, zero, suc, ◌≡◌, ◌≤◌, refl, sym, ap, ◌∙◌, arith, Bool, true, false, not, List, [], ◌∷◌, length,
  All, if-elim, List-elim, ◌==◌,
}
use mhuxd.Control.State.{
  Control, Command, CtlState, CmdResult, Owner, generic, initializer, heartbeat, radio_mode,
  freq_info, client, set_state, is_state, state_to_ext_state, ext_code,
}
use mhuxd.Control.Start.{
  initializer_cb, heartbeat_completed_cb, radio_info_mode_cb, send_cat_freq_info_cb, callback,
  complete,
}
use mhuxd.Control.Receive.{flush_loop, flush_cmds, disconnected}
use mhuxd.Control.Order.{IsControl, IsShort, Queue, set_state-IsControl}

pub set_state-state : (c : Control) (s : CtlState) → (set_state c s).state ≡ s
unfolding set_state
set_state-state c s =
    if-elim {A = Control} (λ d. d.state ≡ s)
      (ext_code (state_to_ext_state s) == ext_code c.keyer_state) _ _ (λ _. refl) (λ _. refl)

-- Two connections with the same queue, timers, state, and callbacks that were called.
abbrev pub Same : Control → Control → Type 0
Same c d =
    (d.cmds ≡ c.cmds)
    × (d.cmd_timeout_timer ≡ c.cmd_timeout_timer)
    × (d.state ≡ c.state)
    × (d.keyer_state ≡ c.keyer_state)
    × (d.heartbeat_timer ≡ c.heartbeat_timer)
    × (d.completed ≡ c.completed)

is_disc : (s : CtlState) → s ≡ CtlState.disc → is_state s CtlState.disc ≡ true
unfolding is_state
is_disc s e = rw e refl

-- A callback that is told `CMD_RESULT_OFFLINE` while the keyer is disconnected changes none of it.
pub callback-Same :
    (c : Control) (o : Owner) → c.state ≡ CtlState.disc → Same c (callback c o CmdResult.offline [])
unfolding callback initializer_cb heartbeat_completed_cb radio_info_mode_cb send_cat_freq_info_cb
callback-Same c generic e = (refl, refl, refl, refl, refl, refl)
callback-Same c (client n) e = (refl, refl, refl, refl, refl, refl)
callback-Same c initializer e =
    if-elim (Same c) (is_state c.state CtlState.disc) c _
      (λ _. (refl, refl, refl, refl, refl, refl))
      (λ n. absurd (contradiction (is_disc c.state e) n))
  where
    contradiction :
        is_state c.state CtlState.disc ≡ true → is_state c.state CtlState.disc ≡ false → ⊥
    contradiction y n = cc
callback-Same c heartbeat e = (refl, refl, refl, refl, refl, refl)
callback-Same c radio_mode e = (refl, refl, refl, refl, refl, refl)
callback-Same c (freq_info radio) e = (refl, refl, refl, refl, refl, refl)

-- what is left of a queue that is flushed
abbrev Flushed : Control → Control → Type 0
Flushed c d =
    (d.cmds ≡ [])
    × (d.cmd_timeout_timer ≡ c.cmd_timeout_timer)
    × (d.state ≡ c.state)
    × (d.keyer_state ≡ c.keyer_state)
    × (d.heartbeat_timer ≡ c.heartbeat_timer)

flush_loop-Flushed :
    (n : ℕ) (c : Control)
    → length c.cmds ≤ n
    → c.state ≡ CtlState.disc
    → Flushed c (flush_loop n c CmdResult.offline)
unfolding flush_loop complete
flush_loop-Flushed zero c l s = (none_left c.cmds l, refl, refl, refl, refl)
  where
    none_left : (ms : List Command) → length ms ≤ 0 → ms ≡ []
    none_left [] l = refl
    none_left (m ∷ ms) l = absurd (omega (arith, l))
flush_loop-Flushed (suc n) c l s =
    List-elim (Flushed c) c.cmds c _ (λ e. (e, refl, refl, refl, refl))
      (λ m ms e.
        let c1 = record c { cmds = ms; completed = (m.owner, CmdResult.offline) ∷ c.completed } in
        let same = callback-Same c1 m.owner s in
        let rest =
          flush_loop-Flushed n (callback c1 m.owner CmdResult.offline []) (rw same.0 (shorter e))
            (same.2 ∙ s) in
        (rest.0, rest.1 ∙ same.1, rest.2 ∙ same.2, rest.3 ∙ same.3, rest.4 ∙ same.4))
  where
    shorter : {m : Command} {ms : List Command} → c.cmds ≡ m ∷ ms → length ms ≤ n
    shorter e = omega (arith, l, ap length e)

-- When a connection in order is told that the keyer is disconnected, the loop of flush_cmds comes to its
-- end with no command left, the state is that of a disconnected keyer, whatever the callbacks of this file
-- do, and the connection is in order.
pub disconnected-IsControl :
    (c : Control)
    → IsControl true c
    → ((disconnected c).cmds ≡ [])
      × ((disconnected c).state ≡ CtlState.disc)
      × IsControl true (disconnected c)
unfolding disconnected flush_cmds
disconnected-IsControl c h = (
  flushed.0,
  flushed.2 ∙ set_state-state c CtlState.disc,
  record {
    queue = empty.0;
    short = empty.1;
    few = empty.2;
    shows = flushed.3 ∙ set.shows ∙ ap state_to_ext_state (sym flushed.2);
    beating = flushed.4 ∙ set.beating ∙ ap (λ s. not (is_state s CtlState.disc)) (sym flushed.2);
  },
)
  where
    set : IsControl true (set_state c CtlState.disc)
    set = set_state-IsControl true c CtlState.disc h

    stopped : Control
    stopped = record (set_state c CtlState.disc) { cmd_timeout_timer = false }

    flushed : Flushed stopped (flush_loop (length stopped.cmds) stopped CmdResult.offline)
    flushed =
        flush_loop-Flushed (length stopped.cmds) stopped (omega arith)
          (set_state-state c CtlState.disc)

    in_order :
        (ms : List Command) (timer : Bool)
        → ms ≡ []
        → timer ≡ false
        → Queue true ms timer × All IsShort ms × (length ms ≤ 17)
    in_order [] timer e off = (off, _, omega arith)
    in_order (m ∷ ms) timer e off = absurd (cc)

    empty :
        let d = flush_loop (length stopped.cmds) stopped CmdResult.offline in
        Queue true d.cmds d.cmd_timeout_timer × All IsShort d.cmds × (length d.cmds ≤ 17)
    empty = in_order _ _ flushed.0 flushed.1
