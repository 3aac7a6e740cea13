-- ===== src/Control/Order.antt =====
-- src/mhcontrol.c: the order of the command queue, through sending and submitting.
use mhuxd.Base.{
  ℕ, ◌+◌, ◌≤◌, ◌≡◌, refl, sym, ◌∙◌, arith, Bool, true, false, not, ◌&&◌, Option, none, some, List,
  [], ◌∷◌, ◌++◌, ◌==◌, ltb, length, length-append, get_or, All, All-append, if-elim,
}
use mhuxd.Channel
use mhuxd.Router.State.{Router}
use mhuxd.Router.Sends.{send_in}
use mhuxd.Control.Numbers
use mhuxd.Control.State.{
  Control, Command, CtlState, Owner, CmdResult, max_cmd_len, max_cmd_queue_size, is_state,
  is_connected, set_state, state_to_ext_state, KeyerState, ext_code,
}
use mhuxd.Control.Queue.{
  defer_callback, push_loop, push_cmds, submit_cmd, enqueue, owner_of, all_sent,
}

abbrev Unsent : Command → Type 0
Unsent m = m.sent ≡ false

abbrev pub IsShort : Command → Type 0
IsShort m = length m.bytes ≤ max_cmd_len

-- Only the first command may be sent, and just while it is the timer runs. In a settled queue it is sent.
abbrev pub Queue : Bool → List Command → Bool → Type 0
Queue settled [] timer = timer ≡ false
Queue settled (m ∷ ms) timer = (m.sent ≡ timer) × (settled ≡ true → timer ≡ true) × All Unsent ms

-- The queue is in order, of at most 17 commands that fit their buffer; the state that is shown to others
-- is the one inside, and the heartbeat runs unless the keyer is disconnected.
pub record InOrder (settled : Bool) (cmds : List Command) (timer : Bool) (state : CtlState)
    (shown : KeyerState) (beats : Bool) : Type 0 where
  pub queue : Queue settled cmds timer
  pub short : All IsShort cmds
  pub few : length cmds ≤ max_cmd_queue_size + 1
  pub shows : shown ≡ state_to_ext_state state
  pub beating : beats ≡ not (is_state state CtlState.disc)

abbrev pub IsControl : Bool → Control → Type 0
IsControl settled c =
    InOrder settled c.cmds c.cmd_timeout_timer c.state c.keyer_state c.heartbeat_timer

Unsent-Queue :
    (ms : List Command) (timer : Bool) → timer ≡ false → All Unsent ms → Queue false ms timer
Unsent-Queue [] timer e u = e
Unsent-Queue (m ∷ ms) timer e u = (u.0 ∙ sym e, λ n. absurd (cc), u.1)

ext_code_injective : (a b : KeyerState) → (ext_code a == ext_code b) ≡ true → a ≡ b
unfolding ext_code
ext_code_injective a b e = ground arith

push_loop-IsControl :
    (b : Bool) (c : Control) (ms : List Command)
    → Queue b ms c.cmd_timeout_timer
    → All IsShort ms
    → length ms ≤ max_cmd_queue_size + 1
    → c.keyer_state ≡ state_to_ext_state c.state
    → c.heartbeat_timer ≡ not (is_state c.state CtlState.disc)
    → IsControl true (push_loop c ms)
unfolding push_loop
push_loop-IsControl b c [] q s f k h = record {
  queue = q;
  short = s;
  few = f;
  shows = k;
  beating = h;
}
push_loop-IsControl b c (m ∷ ms) q s f k h =
    if-elim (IsControl true) m.sent _ _
      (λ y. record {
        queue = (q.0, λ _. sym q.0 ∙ y, q.2);
        short = s;
        few = f;
        shows = k;
        beating = h;
      })
      (λ n.
        if-elim (IsControl true) (all_sent r m) _ _
          (λ y. record {
            queue = (refl, λ _. refl, q.2);
            short = s;
            few = f;
            shows = k;
            beating = h;
          })
          (λ _.
            push_loop-IsControl false
              (record c {
                router = router;
                deferred = c.deferred ++ (m.owner, CmdResult.error) ∷ [];
              })
              ms (Unsent-Queue ms c.cmd_timeout_timer (sym q.0 ∙ n) q.2) s.1 (omega (arith, f)) k
              h))
  where
    r : Option ℕ
    r = (send_in c.router m.bytes Channel.control).0

    router : Router
    router = (send_in c.router m.bytes Channel.control).1

pub push_cmds-IsControl : (b : Bool) (c : Control) → IsControl b c → IsControl true (push_cmds c)
unfolding push_cmds
push_cmds-IsControl b c h = push_loop-IsControl b c c.cmds h.queue h.short h.few h.shows h.beating

pub defer-IsControl :
    (b : Bool) (c : Control) (o : Option Owner) (result : CmdResult)
    → IsControl b c
    → IsControl b (defer_callback c o result)
unfolding defer_callback
defer-IsControl b c none result h = h
defer-IsControl b c (some o) result h = h

appended :
    (b : Bool) (ms : List Command) (m : Command) (timer : Bool)
    → Unsent m
    → Queue b ms timer
    → Queue false (ms ++ m ∷ []) timer
appended b [] m timer u q = (u ∙ sym q, λ e. absurd (cc), _)
appended b (x ∷ xs) m timer u q = (q.0, λ e. absurd (cc), All-append Unsent xs (m ∷ []) q.2 (u, _))

one_more :
    (ms : List Command) (m : Command)
    → ltb max_cmd_queue_size (length ms) ≡ false
    → length (ms ++ m ∷ []) ≤ max_cmd_queue_size + 1
one_more ms m room = omega (arith, length-append ms (m ∷ []), at_most (length ms) room)
  where
    at_most : (n : ℕ) → ltb max_cmd_queue_size n ≡ false → n ≤ max_cmd_queue_size
    at_most n e = ground arith

pub settled : (b : Bool) (c : Control) → IsControl true c → IsControl b c
settled true c h = h
settled false c h = record {
  queue = loosened c.cmds c.cmd_timeout_timer h.queue;
  short = h.short;
  few = h.few;
  shows = h.shows;
  beating = h.beating;
}
  where
    loosened : (ms : List Command) (timer : Bool) → Queue true ms timer → Queue false ms timer
    loosened [] timer q = q
    loosened (m ∷ ms) timer q = (q.0, λ e. absurd (cc), q.2)

pub submit_cmd-IsControl :
    (b : Bool) (c : Control) (bytes : List ℕ) (cb : Option Owner)
    → IsControl b c
    → IsControl b (submit_cmd c bytes cb)
unfolding submit_cmd
submit_cmd-IsControl b c bytes cb h =
    if-elim (IsControl b)
      (not (length bytes == 0)
        && (not (get_or bytes 0 0 == Numbers.are_you_there) && not (is_connected c)))
      _ _ (λ _. defer-IsControl b c cb CmdResult.offline h)
      (λ _.
        if-elim (IsControl b) (ltb max_cmd_len (length bytes)) _ _
          (λ _. defer-IsControl b c cb CmdResult.error h)
          (λ fit.
            if-elim (IsControl b) (ltb max_cmd_queue_size (length c.cmds)) _ _
              (λ _. defer-IsControl b c cb CmdResult.error h)
              (λ room. settled b (push_cmds (enqueue c m)) (
                push_cmds-IsControl false (enqueue c m) (record {
                  queue = appended b c.cmds m c.cmd_timeout_timer refl h.queue;
                  short = All-append IsShort c.cmds (m ∷ []) h.short (ground (arith, fit), _);
                  few = one_more c.cmds m room;
                  shows = h.shows;
                  beating = h.beating;
                })))))
  where
    m : Command
    m = record { bytes = bytes; sent = false; owner = owner_of cb }

pub set_state-IsControl :
    (b : Bool) (c : Control) (s : CtlState) → IsControl b c → IsControl b (set_state c s)
unfolding set_state
set_state-IsControl b c s h =
    if-elim (IsControl b) (ext_code (state_to_ext_state s) == ext_code c.keyer_state) _ _
      (λ same. record {
        queue = h.queue;
        short = h.short;
        few = h.few;
        shows = sym (ext_code_injective (state_to_ext_state s) c.keyer_state same);
        beating = refl;
      })
      (λ _. record { queue = h.queue; short = h.short; few = h.few; shows = refl; beating = refl })
