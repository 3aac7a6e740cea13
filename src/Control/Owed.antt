-- ===== src/Control/Owed.antt =====
-- src/mhcontrol.c: every completion callback that is given with a command is called once, or still waits.
use mhuxd.Base.{
  ℕ, zero, suc, ◌+◌, ◌≡◌, ◌≤◌, refl, ap, ◌∙◌, arith, Bool, false, not, ◌&&◌, some, List, [], ◌∷◌,
  ◌++◌, if◌then◌else◌, ◌==◌, ltb, length, get_or, if-elim, List-elim,
}
use mhuxd.Channel
use mhuxd.Router.Sends.{send_in}
use mhuxd.Control.Numbers
use mhuxd.Control.State.{
  Control, Command, CtlState, CmdResult, Owner, max_cmd_len, max_cmd_queue_size, is_connected,
  set_state, state_to_ext_state, ext_code,
}
use mhuxd.Control.Queue.{defer_callback, push_loop, push_cmds, submit_cmd, enqueue, all_sent}
use mhuxd.Control.Start.{callback, complete}
use mhuxd.Control.Receive.{flush_loop, flush_cmds, disconnected}
use mhuxd.Control.Flush.{callback-Same, set_state-state}

-- The callbacks that `p` picks, of one command, of those that wait in the queue, and of a list of those
-- that are told a result.
abbrev pub one : (Owner → Bool) → Owner → ℕ
one p o = if p o then 1 else 0

abbrev pub waiting : (Owner → Bool) → List Command → ℕ
waiting p [] = 0
waiting p (m ∷ ms) = one p m.owner + waiting p ms

abbrev pub told : (Owner → Bool) → List (Owner × CmdResult) → ℕ
told p [] = 0
told p (x ∷ xs) = one p x.0 + told p xs

-- those that wait, are put off, or were called
abbrev pub owed : (Owner → Bool) → Control → ℕ
owed p c = waiting p c.cmds + told p c.deferred + told p c.completed

module _ (p : Owner → Bool) where
  pub waiting-append :
      (ms : List Command) (m : Command) → waiting p (ms ++ m ∷ []) ≡ waiting p ms + one p m.owner
  waiting-append [] m = omega arith
  waiting-append (x ∷ xs) m = omega (arith, waiting-append xs m)

  told-append :
      (xs : List (Owner × CmdResult)) (o : Owner) (r : CmdResult)
      → told p (xs ++ (o, r) ∷ []) ≡ told p xs + one p o
  told-append [] o r = omega arith
  told-append (x ∷ xs) o r = omega (arith, told-append xs o r)

  pub push_loop-owed :
      (c : Control) (ms : List Command)
      → owed p (push_loop c ms) ≡ waiting p ms + told p c.deferred + told p c.completed
  unfolding push_loop
  push_loop-owed c [] = refl
  push_loop-owed c (m ∷ ms) =
      if-elim {A = Control} (λ d. owed p d ≡ all) m.sent _ _ (λ _. refl)
        (λ _.
          if-elim {A = Control} (λ d. owed p d ≡ all)
            (all_sent (send_in c.router m.bytes Channel.control).0 m) _ _ (λ _. refl)
            (λ _.
              push_loop-owed
                (record c {
                  router = (send_in c.router m.bytes Channel.control).1;
                  deferred = c.deferred ++ (m.owner, CmdResult.error) ∷ [];
                })
                ms
              ∙ omega (arith, told-append c.deferred m.owner CmdResult.error)))
    where
      all : ℕ
      all = waiting p (m ∷ ms) + told p c.deferred + told p c.completed

  pub defer-owed :
      (c : Control) (o : Owner) (r : CmdResult)
      → owed p (defer_callback c (some o) r) ≡ one p o + owed p c
  unfolding defer_callback
  defer-owed c o r = omega (arith, told-append c.deferred o r)

  -- Whatever submit_cmd makes of a command with a completion callback, queued, sent or refused for any
  -- reason, no callback is lost and none is owed twice: of every set of callbacks, as many are waiting, put
  -- off or called as before, and the command's own if it is in the set.
  pub submit_cmd-owed :
      (c : Control) (bytes : List ℕ) (o : Owner)
      → owed p (submit_cmd c bytes (some o)) ≡ one p o + owed p c
  unfolding submit_cmd push_cmds
  submit_cmd-owed c bytes o =
      if-elim {A = Control} (λ d. owed p d ≡ one p o + owed p c)
        (not (length bytes == 0)
          && (not (get_or bytes 0 0 == Numbers.are_you_there) && not (is_connected c)))
        _ _ (λ _. defer-owed c o CmdResult.offline)
        (λ _.
          if-elim {A = Control} (λ d. owed p d ≡ one p o + owed p c)
            (ltb max_cmd_len (length bytes)) _ _ (λ _. defer-owed c o CmdResult.error)
            (λ _.
              if-elim {A = Control} (λ d. owed p d ≡ one p o + owed p c)
                (ltb max_cmd_queue_size (length c.cmds)) _ _ (λ _. defer-owed c o CmdResult.error)
                (λ _.
                  push_loop-owed (enqueue c m) (enqueue c m).cmds
                  ∙ omega (arith, waiting-append c.cmds m))))
    where
      m : Command
      m = record { bytes = bytes; sent = false; owner = o }

  -- what is left of the callbacks when a queue is flushed
  flush_loop-told :
      (n : ℕ) (c : Control)
      → length c.cmds ≤ n
      → c.state ≡ CtlState.disc
      → told p (flush_loop n c CmdResult.offline).completed ≡ waiting p c.cmds + told p c.completed
  unfolding flush_loop complete
  flush_loop-told zero c l s = none_waits c.cmds l
    where
      none_waits :
          (ms : List Command)
          → length ms ≤ 0
          → told p c.completed ≡ waiting p ms + told p c.completed
      none_waits [] l = omega arith
      none_waits (m ∷ ms) l = absurd (omega (arith, l))
  flush_loop-told (suc n) c l s =
      List-elim (λ d. told p d.completed ≡ waiting p c.cmds + told p c.completed) c.cmds c _
        (λ e. rw e (omega arith))
        (λ m ms e.
          let c1 = record c { cmds = ms; completed = (m.owner, CmdResult.offline) ∷ c.completed } in
          let same = callback-Same c1 m.owner s in
          flush_loop-told n (callback c1 m.owner CmdResult.offline []) (rw same.0 (shorter e))
            (same.2 ∙ s)
          ∙ omega (arith, ap (waiting p) same.0, ap (told p) same.5, ap (waiting p) e))
    where
      shorter : {m : Command} {ms : List Command} → c.cmds ≡ m ∷ ms → length ms ≤ n
      shorter e = omega (arith, l, ap length e)

  pub set_state-kept :
      (c : Control) (s : CtlState)
      → ((set_state c s).cmds ≡ c.cmds)
        × ((set_state c s).completed ≡ c.completed)
        × ((set_state c s).deferred ≡ c.deferred)
  unfolding set_state
  set_state-kept c s =
      if-elim {A = Control}
        (λ d. (d.cmds ≡ c.cmds) × (d.completed ≡ c.completed) × (d.deferred ≡ c.deferred))
        (ext_code (state_to_ext_state s) == ext_code c.keyer_state) _ _ (λ _. (refl, refl, refl))
        (λ _. (refl, refl, refl))

  -- When the keyer is disconnected, the completion callback of every command in the queue is called, once
  -- for each: of every set of callbacks, as many more have been called then as were in the queue.
  pub disconnected-told :
      (c : Control) → told p (disconnected c).completed ≡ waiting p c.cmds + told p c.completed
  unfolding disconnected flush_cmds
  disconnected-told c =
      flush_loop-told (length stopped.cmds) stopped (omega arith) (set_state-state c CtlState.disc)
      ∙ omega (arith, ap (waiting p) kept.0, ap (told p) kept.1)
    where
      kept :
          ((set_state c CtlState.disc).cmds ≡ c.cmds)
          × ((set_state c CtlState.disc).completed ≡ c.completed)
          × ((set_state c CtlState.disc).deferred ≡ c.deferred)
      kept = set_state-kept c CtlState.disc

      stopped : Control
      stopped = record (set_state c CtlState.disc) { cmd_timeout_timer = false }
