-- ===== src/Tests/Routes.antt =====
-- src/mhrouter.c, run on a few calls.
use mhuxd.Base.{◌≡◌, true, some, none, [], ◌∷◌, List, codes, if◌then◌else◌, ◌==◌}
use mhuxd.Buffer.Contents.{alloc-IsValid}
use mhuxd.Router.State.{Router, create, bad_channel}
use mhuxd.Router.Sends.{send_in}
use mhuxd.Router.Producers.{next_waiting_producer}
use mhuxd.Router.Turns.{next_waiting_producer_lem, first_waiting, behind, or_else}
use mhuxd.Router.Calls.{Call, keyer, connect, ptt, disconnect, IsRouted, run, run-IsRouted}
use mhuxd.Router.Whole.{SentOrNot, send_in-whole}

-- Two connectors key radio 1, and one of them is disconnected.
abbrev calls : List Call
calls =
    keyer (some 3)
    ∷ connect (some 4) 9 none
    ∷ connect (some 5) 9 none
    ∷ ptt 9 0 (1 ∷ [])
    ∷ ptt 9 1 (1 ∷ [])
    ∷ disconnect 4 9
    ∷ []

run-IsRouted_example : IsRouted (run calls (create true))
run-IsRouted_example = run-IsRouted true calls

-- the router with two connectors of channel R1
abbrev two : Router
two = run (connect (some 4) 4 none ∷ connect (some 5) 4 none ∷ []) (create true)

next_waiting_producer_lem_example : next_waiting_producer (λ fd. fd == 5) two 4 4 ≡ (
    if bad_channel 4
    then none
    else or_else
        (first_waiting (λ fd. fd == 5) 4 (behind 4 (two.producers 4)))
        (first_waiting (λ fd. fd == 5) 4 (two.producers 4)))
next_waiting_producer_lem_example = next_waiting_producer_lem (λ fd. fd == 5) two 4 4

abbrev online : Router
online = record (create true) { fd = some 3 }

send_in-whole_example :
    SentOrNot online
      (codes "FA;")
      4
      (send_in online (codes "FA;") 4).0
      (send_in online (codes "FA;") 4).1
unfolding create
send_in-whole_example = send_in-whole online (codes "FA;") 4 alloc-IsValid.0
