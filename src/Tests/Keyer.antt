-- ===== src/Tests/Keyer.antt =====
-- src/mhcontrol.c, run on a few events.
use mhuxd.Base.{refl, arith, ◌+◌, ◌==◌, Bool, false, ◌≡◌, true, some, List, [], ◌∷◌, codes}
use mhuxd.Mhinfo.{Keyer, init}
use mhuxd.Router.State as Routing
use mhuxd.Control.State.{
  Control, CtlState, CmdResult, set_state, is_connected, is_state, Owner, client,
}
use mhuxd.Buffer.{alloc, taken}
use mhuxd.Router.Sends.{send_in}
use mhuxd.Control.Queue.{submit_cmd}
use mhuxd.Control.Receive.{disconnected, control_channel_cb, cmd_timeout_cb}
use mhuxd.Control.Calls.{Call, received, connect, heartbeat, submit, cmd_timeout, create, run}
use mhuxd.Control.Order.{IsControl}
use mhuxd.Control.Flush.{disconnected-IsControl}
use mhuxd.Control.Owed.{one, waiting, told, owed, submit_cmd-owed, disconnected-told}
use mhuxd.Control.Progress.{rank, Closer, initializer_cb-Closer}
use mhuxd.Control.Steady.{asked}
use mhuxd.Control.Start.{initializer_cb}
use mhuxd.Control.Exchange.{IsReady, ended, submit_cmd-ended}
use mhuxd.Control.Reached.{run-IsControl}

-- The keyer is there and answers the first command; then two commands are submitted, and the answer to
-- GET VERSION does not come.
abbrev calls : List Call
calls =
    connect
    ∷ received (0x7e ∷ 0xfe ∷ []) 0
    ∷ submit (0x0a ∷ 1 ∷ 0x8a ∷ []) (some (client 3))
    ∷ heartbeat
    ∷ cmd_timeout
    ∷ []

abbrev router : Routing.Router
router = record (Routing.create true) { fd = some 3 }

abbrev opened : Control
opened = create router (init Keyer.mk2) (codes "mhuxd")

run-IsControl_example : IsControl true (run opened calls)
run-IsControl_example = run-IsControl router (init Keyer.mk2) (codes "mhuxd") calls

disconnected-IsControl_example :
    ((disconnected (run opened calls)).cmds ≡ [])
    × ((disconnected (run opened calls)).state ≡ CtlState.disc)
    × IsControl true (disconnected (run opened calls))
disconnected-IsControl_example =
    disconnected-IsControl (run opened calls)
      (run-IsControl router (init Keyer.mk2) (codes "mhuxd") calls)

-- whether a callback is that of the client 3
abbrev of_3 : Owner → Bool
of_3 (client n) = n == 3
of_3 _ = false

submit_cmd-owed_example :
    owed of_3 (submit_cmd (run opened calls) (0x0e ∷ 0x8e ∷ []) (some (client 3)))
    ≡ one of_3 (client 3) + owed of_3 (run opened calls)
submit_cmd-owed_example = submit_cmd-owed of_3 (run opened calls) (0x0e ∷ 0x8e ∷ []) (client 3)

disconnected-told_example :
    told of_3 (disconnected (run opened calls)).completed
    ≡ waiting of_3 (run opened calls).cmds + told of_3 (run opened calls).completed
disconnected-told_example = disconnected-told of_3 (run opened calls)

-- a connection that has asked whether the keyer is there
abbrev starting : Control
starting = record opened { state = CtlState.init }

-- a keyer that is online
abbrev online : Control
online = record opened { state = CtlState.ok }

online-IsReady : IsReady online (0x0e ∷ 0x8e ∷ [])
unfolding create set_state is_connected is_state send_in Routing.create alloc taken
online-IsReady = record { idle = refl; connected = refl; short = omega arith; taken = refl }

submit_cmd-ended_example :
    let c = submit_cmd online (0x0e ∷ 0x8e ∷ []) (some (client 3)) in
    (control_channel_cb c (0x0e ∷ 0x8e ∷ []) 0 ≡ ended online (0x0e ∷ 0x8e ∷ []) 3 CmdResult.ok)
    × (control_channel_cb c (0x7f ∷ 0xff ∷ []) 0
        ≡ ended online (0x0e ∷ 0x8e ∷ []) 3 CmdResult.not_supported)
    × (cmd_timeout_cb c ≡ ended online (0x0e ∷ 0x8e ∷ []) 3 CmdResult.timeout)
submit_cmd-ended_example =
    submit_cmd-ended online (0x0e ∷ 0x8e ∷ []) 3 (0x0e ∷ 0x8e ∷ []) (0x7f ∷ 0xff ∷ []) 0
      online-IsReady refl refl refl

initializer_cb-Closer_example :
    Closer
      (rank starting)
      (asked starting)
      (initializer_cb starting CmdResult.ok (0x7e ∷ 0xfe ∷ []))
initializer_cb-Closer_example = initializer_cb-Closer starting (0x7e ∷ 0xfe ∷ []) (omega arith)
