-- ===== src/Control/Answered.antt =====
-- src/mhcontrol.c: the order of the queue when the keyer answers, reports, or is silent.
use mhuxd.Base.{
  ℕ, ◌/◌, ◌%◌, ◌≡◌, ◌≤◌, refl, ◌∙◌, arith, Bool, true, false, not, ◌&&◌, ◌||◌, none, some, List, [],
  ◌∷◌, ◌==◌, ltb, length, get_or, drop, All, if-elim, if_true, Option-elim,
}
use mhuxd.Mhinfo.{Keyer, is_keyer}
use mhuxd.Control.Numbers
use mhuxd.Control.State.{Control, Command, CtlState, CmdResult, is_state}
use mhuxd.Control.Receive.{
  is_mk2_like, is_mk2r_like, is_sm_like, report, process_keyer_states, mode_report, publish_mode,
  track_mode, sent_cmd, end_first, remove_first, answer_or_report, wake, control_channel_cb,
  cmd_timeout_cb,
}
use mhuxd.Control.Order.{
  IsControl, IsShort, Queue, settled, set_state-IsControl, push_cmds-IsControl,
}
use mhuxd.Control.Kept.{load_kopts-IsControl, initializer_step-IsControl, complete-IsControl}

module _ (b : Bool) where
  states-IsControl :
      (c : Control) (bytes : List ℕ) → IsControl b c → IsControl b (process_keyer_states c bytes)
  unfolding process_keyer_states
  states-IsControl c bytes h =
      if-elim (IsControl b) (cmd == Numbers.mpk_state && is_mk2_like c.mhi.type) _ _
        (λ _. if-elim (IsControl b) (len == 6) _ c (λ _. h) (λ _. h))
        (λ _.
          if-elim (IsControl b) (cmd == Numbers.mok_state && is_mk2r_like c.mhi.type) _ _
            (λ _. if-elim (IsControl b) (len == 10) _ c (λ _. h) (λ _. h))
            (λ _.
              if-elim (IsControl b) (cmd == Numbers.acc_state && is_mk2r_like c.mhi.type) _ _
                (λ _. if-elim (IsControl b) (len == 10) _ c (λ _. h) (λ _. h))
                (λ _.
                  if-elim (IsControl b) (cmd == Numbers.sml_state && is_sm_like c.mhi.type) _ c
                    (λ _. if-elim (IsControl b) (ltb len 11) c _ (λ _. h) (λ _. h)) (λ _. h))))
    where
      cmd : ℕ
      cmd = get_or bytes 0 0

      len : ℕ
      len = length bytes

  publish-IsControl :
      (c : Control) (cur r1 r2 : ℕ) → IsControl b c → IsControl b (publish_mode c cur r1 r2)
  unfolding publish_mode
  publish-IsControl c cur r1 r2 h = Option-elim (IsControl b) c.kcfg _ _ (λ _. h) (λ k _. h)

  mode_report-IsControl : (c : Control) (f t : ℕ) → IsControl b c → IsControl b (mode_report c f t)
  unfolding mode_report
  mode_report-IsControl c f t h =
      if-elim (IsControl b) (is_keyer c.mhi.type Keyer.mk && not (c.tracked_keyer_mode == f % 4)) _
        _ (λ _. load_kopts-IsControl b _ none published) (λ _. published)
    where
      published : IsControl b (publish_mode (track_mode c f t) (f % 4) (f / 4 % 4) (f / 16 % 4))
      published =
          publish-IsControl (track_mode c f t) (f % 4) (f / 4 % 4) (f / 16 % 4)
            (unfold track_mode in h)

  report-IsControl :
      (c : Control) (bytes : List ℕ) (t : ℕ) → IsControl b c → IsControl b (report c bytes t)
  unfolding report
  report-IsControl c bytes t h =
      if-elim (IsControl b)
        (cmd == Numbers.mpk_state
          || (cmd == Numbers.mok_state || (cmd == Numbers.acc_state || cmd == Numbers.sml_state)))
        _ _ (λ _. states-IsControl c bytes h)
        (λ _.
          if-elim (IsControl b) (cmd == Numbers.keyer_mode) _ _
            (λ _. mode_report-IsControl c (get_or bytes 1 0) t h)
            (λ _.
              if-elim (IsControl b) (cmd == Numbers.just_restarted && is_state c.state CtlState.ok)
                _ c
                (λ _.
                  initializer_step-IsControl b _ []
                    (set_state-IsControl b c CtlState.set_channels h))
                (λ _. h)))
    where
      cmd : ℕ
      cmd = get_or bytes 0 0

  wake-IsControl : (c : Control) → IsControl b c → IsControl b (wake c)
  unfolding wake
  wake-IsControl c h =
      if-elim (IsControl b) (is_state c.state CtlState.off) _ c
        (λ _. initializer_step-IsControl b c [] h) (λ _. h)

-- The first command ends: those behind it are in order, and no timer runs.
without_first :
    (b : Bool) (ms : List Command) (timer : Bool) → Queue b ms timer → Queue false (drop 1 ms) false
without_first b [] timer q = refl
without_first b (m ∷ []) timer q = refl
without_first b (m ∷ n ∷ ms) timer q = (q.2.0, λ e. absurd (cc), q.2.1)

IsShort-drop : (ms : List Command) → All IsShort ms → All IsShort (drop 1 ms)
IsShort-drop [] h = h
IsShort-drop (m ∷ ms) h = h.1

few-drop : (ms : List Command) → length ms ≤ 17 → length (drop 1 ms) ≤ 17
few-drop [] h = h
few-drop (m ∷ ms) h = omega (arith, h)

end_first-IsControl :
    (b : Bool) (c : Control) (m : Command) (result : CmdResult) (reply : List ℕ)
    → IsControl b c
    → IsControl false (end_first c m result reply)
unfolding end_first remove_first
end_first-IsControl b c m result reply h = complete-IsControl false _ m.owner result reply (record {
  queue = without_first b c.cmds c.cmd_timeout_timer h.queue;
  short = IsShort-drop c.cmds h.short;
  few = few-drop c.cmds h.few;
  shows = h.shows;
  beating = h.beating;
})

answer-IsControl :
    (c : Control) (bytes : List ℕ) (t : ℕ)
    → IsControl true c
    → IsControl false (answer_or_report c bytes t)
unfolding answer_or_report
answer-IsControl c bytes t h =
    Option-elim (IsControl false) (sent_cmd c.cmds) _ _ (λ _. reported)
      (λ m _.
        if-elim (IsControl false) (get_or bytes 0 0 == get_or m.bytes 0 0) _ _
          (λ _. end_first-IsControl true c m CmdResult.ok bytes h)
          (λ _.
            if-elim (IsControl false) (get_or bytes 0 0 == Numbers.not_supported) _ _
              (λ _. end_first-IsControl true c m CmdResult.not_supported bytes h) (λ _. reported)))
  where
    reported : IsControl false (report c bytes t)
    reported = report-IsControl false c bytes t (settled false c h)

pub received-IsControl :
    (c : Control) (bytes : List ℕ) (t : ℕ)
    → IsControl true c
    → IsControl true (control_channel_cb c bytes t)
unfolding control_channel_cb
received-IsControl c bytes t h =
    push_cmds-IsControl false _ (wake-IsControl false _ (answer-IsControl c bytes t h))

-- While the timer runs, the first command is sent.
first_sent :
    (ms : List Command) (timer : Bool)
    → timer ≡ true
    → Queue true ms timer
    → (m : Command) × (sent_cmd ms ≡ some m)
unfolding sent_cmd
first_sent [] timer on q = absurd (cc)
first_sent (m ∷ ms) timer on q = (m, if_true m.sent _ _ (q.0 ∙ on))

pub timeout-IsControl :
    (c : Control)
    → c.cmd_timeout_timer ≡ true
    → IsControl true c
    → IsControl true (cmd_timeout_cb c)
unfolding cmd_timeout_cb
timeout-IsControl c on h =
    Option-elim (IsControl true) (sent_cmd c.cmds) _ _
      (λ e. absurd (none_sent e (first_sent c.cmds c.cmd_timeout_timer on h.queue)))
      (λ m _. push_cmds-IsControl false _ (end_first-IsControl true c m CmdResult.timeout [] h))
  where
    none_sent : sent_cmd c.cmds ≡ none → (m : Command) × (sent_cmd c.cmds ≡ some m) → ⊥
    none_sent e (m, e') = cc
