-- ===== src/Control/Steady.antt =====
-- src/mhcontrol.c: a command that is submitted leaves the connection in the state it is in, and is one more
-- to wait for.
use mhuxd.Base.{
  ◌+◌, ◌≤◌, arith, ap, Bool, true, ℕ, ◌≡◌, refl, false, not, ◌&&◌, Option, none, some, List, [],
  ◌∷◌, ◌++◌, ◌==◌, ltb, length, get_or, if-elim, Option-elim,
}
use mhuxd.Channel
use mhuxd.Router.Sends.{send_in}
use mhuxd.Control.Numbers
use mhuxd.Control.State.{
  Control, Command, CmdResult, CtlState, set_state, initializer, generic, Owner, SpeedCfg,
  max_cmd_len, max_cmd_queue_size, is_connected,
}
use mhuxd.Control.Queue.{
  defer_callback, push_loop, push_cmds, submit_cmd, submit_cmd_simple, enqueue, owner_of, all_sent,
}
use mhuxd.Control.Speed.{submit_speed_cmd, speed_bytes}
use mhuxd.Control.Start.{load_kopts, display_host_string_event, greet}
use mhuxd.Control.Owed.{
  waiting, told, waiting-append, push_loop-owed, defer-owed, submit_cmd-owed, set_state-kept,
}
use mhuxd.Kcfg.Settings.{Kcfg}
use mhuxd.Mhinfo.{has}
use mhuxd.Mhinfo.Flags.{has_display}

-- A connection that sends commands stays where it is in its start, and calls nobody meanwhile.
abbrev Stays : Control → Control → Type 0
Stays c d = (d.state ≡ c.state) × (d.speed_idx ≡ c.speed_idx) × (d.completed ≡ c.completed)

defer-Stays : (c : Control) (o : Option Owner) (r : CmdResult) → Stays c (defer_callback c o r)
unfolding defer_callback
defer-Stays c none r = (refl, refl, refl)
defer-Stays c (some o) r = (refl, refl, refl)

push_loop-Stays : (c : Control) (ms : List Command) → Stays c (push_loop c ms)
unfolding push_loop
push_loop-Stays c [] = (refl, refl, refl)
push_loop-Stays c (m ∷ ms) =
    if-elim (Stays c) m.sent _ _ (λ _. (refl, refl, refl))
      (λ _.
        if-elim (Stays c) (all_sent (send_in c.router m.bytes Channel.control).0 m) _ _
          (λ _. (refl, refl, refl))
          (λ _.
            push_loop-Stays
              (record c {
                router = (send_in c.router m.bytes Channel.control).1;
                deferred = c.deferred ++ (m.owner, CmdResult.error) ∷ [];
              })
              ms))

submit_cmd-Stays :
    (c : Control) (bytes : List ℕ) (cb : Option Owner) → Stays c (submit_cmd c bytes cb)
unfolding submit_cmd push_cmds
submit_cmd-Stays c bytes cb =
    if-elim (Stays c)
      (not (length bytes == 0)
        && (not (get_or bytes 0 0 == Numbers.are_you_there) && not (is_connected c)))
      _ _ (λ _. defer-Stays c cb CmdResult.offline)
      (λ _.
        if-elim (Stays c) (ltb max_cmd_len (length bytes)) _ _
          (λ _. defer-Stays c cb CmdResult.error)
          (λ _.
            if-elim (Stays c) (ltb max_cmd_queue_size (length c.cmds)) _ _
              (λ _. defer-Stays c cb CmdResult.error)
              (λ _.
                let m : Command = record { bytes = bytes; sent = false; owner = owner_of cb } in
                push_loop-Stays (enqueue c m) (enqueue c m).cmds)))

pub simple-state :
    (c : Control) (cmd : ℕ) (cb : Option Owner) → (submit_cmd_simple c cmd cb).state ≡ c.state
unfolding submit_cmd_simple
simple-state c cmd cb = (submit_cmd-Stays c _ cb).0

pub speed-state :
    (c : Control) (i : ℕ) (s : SpeedCfg) (cb : Option Owner)
    → (submit_speed_cmd c i s cb).state ≡ c.state
unfolding submit_speed_cmd
speed-state c i s cb =
    Option-elim {B = Control} (λ d. d.state ≡ c.state) (speed_bytes c.mhi i s) _ _
      (λ _. (defer-Stays c cb CmdResult.error).0) (λ bytes _. (submit_cmd-Stays c bytes cb).0)

-- the callbacks of the start, initializer_cb
abbrev of_start : Owner → Bool
of_start initializer = true
of_start _ = false

-- How many calls of initializer_cb are to come, for commands that wait or by a callback that is put off.
abbrev pub asked : Control → ℕ
asked c = waiting of_start c.cmds + told of_start c.deferred

submit_cmd-asked :
    (c : Control) (bytes : List ℕ) → asked (submit_cmd c bytes (some initializer)) ≡ 1 + asked c
submit_cmd-asked c bytes = omega (
  arith,
  submit_cmd-owed of_start c bytes initializer,
  ap (told of_start) (submit_cmd-Stays c bytes (some initializer)).2,
)

pub simple-asked :
    (c : Control) (cmd : ℕ) → asked (submit_cmd_simple c cmd (some initializer)) ≡ 1 + asked c
unfolding submit_cmd_simple
simple-asked c cmd = submit_cmd-asked c _

pub speed-asked :
    (c : Control) (i : ℕ) (s : SpeedCfg)
    → asked (submit_speed_cmd c i s (some initializer)) ≡ 1 + asked c
unfolding submit_speed_cmd
speed-asked c i s =
    Option-elim {B = Control} (λ d. asked d ≡ 1 + asked c) (speed_bytes c.mhi i s) _ _
      (λ _. omega (
        arith,
        defer-owed of_start c initializer CmdResult.error,
        ap (told of_start) (defer-Stays c (some initializer) CmdResult.error).2,
      ))
      (λ bytes _. submit_cmd-asked c bytes)

pub kopts-asked :
    (c : Control) (k : Kcfg)
    → c.kcfg ≡ some k
    → asked (load_kopts c (some initializer)) ≡ 1 + asked c
unfolding load_kopts
kopts-asked c k e = rw e (submit_cmd-asked _ _)

-- A command without a callback takes none away.
submit_cmd-silent : (c : Control) (bytes : List ℕ) → asked c ≤ asked (submit_cmd c bytes none)
unfolding submit_cmd push_cmds defer_callback
submit_cmd-silent c bytes =
    if-elim {A = Control} (λ d. asked c ≤ asked d)
      (not (length bytes == 0)
        && (not (get_or bytes 0 0 == Numbers.are_you_there) && not (is_connected c)))
      _ _ (λ _. omega arith)
      (λ _.
        if-elim {A = Control} (λ d. asked c ≤ asked d) (ltb max_cmd_len (length bytes)) _ _
          (λ _. omega arith)
          (λ _.
            if-elim {A = Control} (λ d. asked c ≤ asked d) (ltb max_cmd_queue_size (length c.cmds))
              _ _ (λ _. omega arith)
              (λ _. omega (
                arith,
                push_loop-owed of_start (enqueue c m) (enqueue c m).cmds,
                waiting-append of_start c.cmds m,
                ap (told of_start) (push_loop-Stays (enqueue c m) (enqueue c m).cmds).2,
              ))))
  where
    m : Command
    m = record { bytes = bytes; sent = false; owner = generic }

display-silent :
    (c : Control) (line : ℕ) (text : List ℕ) (disp_time : ℕ)
    → asked c ≤ asked (display_host_string_event c line text disp_time none)
unfolding display_host_string_event defer_callback
display-silent c line text disp_time =
    if-elim {A = Control} (λ d. asked c ≤ asked d) (not (has c.mhi has_display)) _ _
      (λ _. omega arith) (λ _. submit_cmd-silent c _)

pub greet-silent : (c : Control) → asked c ≤ asked (greet c)
unfolding greet
greet-silent c =
    if-elim {A = Control} (λ d. asked c ≤ asked d) (has c.mhi has_display) _ _
      (λ _. omega (
        arith,
        display-silent c 0 c.package_string 250,
        display-silent (display_host_string_event c 0 c.package_string 250 none) 1 [] 250,
      ))
      (λ _. omega arith)

pub set_state-asked : (c : Control) (s : CtlState) → asked (set_state c s) ≡ asked c
set_state-asked c s =
    let kept = set_state-kept of_start c s in
    omega (arith, ap (waiting of_start) kept.0, ap (told of_start) kept.2)
