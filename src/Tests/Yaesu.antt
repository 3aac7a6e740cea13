-- ===== src/Tests/Yaesu.antt =====
-- src/cat_ybin.c, run on a few commands.
use mhuxd.Base.{◌*◌, ◌%◌, ◌≡◌, refl, true, false, [], ◌∷◌, some, arith}
use mhuxd.Cat.{host, radio}
use mhuxd.CatState.{init, rx_freq}
use mhuxd.Ybin.Models.{models, ft817}
use mhuxd.Ybin.State.{Ybin, Pending, create}
use mhuxd.Ybin.Modes.{mode_817}
use mhuxd.Ybin.Fields.{dec_bcd, Memory}
use mhuxd.Ybin.Framer.{feed, radio_loop, assume_vfo}
use mhuxd.Ybin.Bounds.{IsYbin, Reachable, created, fed, Reachable-IsYbin}
use mhuxd.Ybin.Received.{feed-with_filler}
use mhuxd.Ybin.Received.Sent.{with_filler}
use mhuxd.Ybin.Expire.{pend_expire-done, overdue, unanswered}
use mhuxd.Ybin.Pending.{pend_expire, pend_giveup, pend_live, answer_complete}
use mhuxd.Ybin.Bcd.{bcd4, dec_bcd-bcd4}
use mhuxd.Ybin.Framing.{at_answer, part_of, radio_loop-whole}
use mhuxd.Ybin.Exchange.{ask, status, feed-status}

abbrev zeros : Memory
zeros i = 0

-- what an array may hold that is not initialised
abbrev garbage : Memory
garbage i = i * 37 % 256

abbrev new : Ybin
new = create ft817 init zeros

-- the FT-817 after client 2 asked for its status
abbrev asked : Ybin
asked = feed new host 2 ask 100

asked-Reachable : Reachable asked
asked-Reachable = fed new host 2 ask 100 (created ft817 init zeros)

Reachable-IsYbin_example : IsYbin asked
Reachable-IsYbin_example = Reachable-IsYbin asked asked-Reachable

feed-status_example :
    (rx_freq (feed asked radio 0 (status 1407420 1) 150).st ≡ 14074200)
    × ((feed asked radio 0 (status 1407420 1) 150).pend ≡ [])
unfolding create models mode_817
feed-status_example =
    feed-status new 2 100 1407420 1 150 (ground arith) (ground arith) refl refl refl (omega arith)
      (omega arith) (omega arith) (omega arith) (omega arith) (ground arith)

feed-with_filler_example :
    feed (with_filler garbage asked) radio 0 (status 1407420 1) 150
    ≡ with_filler garbage (feed asked radio 0 (status 1407420 1) 150)
feed-with_filler_example =
    feed-with_filler garbage asked radio 0 (status 1407420 1) 150
      (Reachable-IsYbin asked asked-Reachable)

pend_expire-done_example :
    (overdue (pend_expire asked 5000) 5000 ≡ false)
    × (unanswered (pend_giveup asked 5000) 5000 ≡ false)
pend_expire-done_example = pend_expire-done asked 5000

dec_bcd-bcd4_example : dec_bcd true (bcd4 true 1407420) ≡ some 1407420
dec_bcd-bcd4_example = dec_bcd-bcd4 true 1407420 (omega arith)

-- a command of an FT-817, of client 2 at 100 ms
abbrev waiting : Pending
waiting = record {
  cmd = ask;
  len = 5;
  var = false;
  own = false;
  client = 2;
  got = 0;
  t_ms = 100;
  t_last = 100;
}

radio_loop-whole_example :
    radio_loop (at_answer new waiting [] []) (status 1407420 1) 150
    ≡ answer_complete (part_of (assume_vfo new 150) waiting [] (status 1407420 1) 150) 150
unfolding create pend_live
radio_loop-whole_example =
    radio_loop-whole new waiting [] [] (0x40 ∷ 0x74 ∷ 0x20 ∷ 1 ∷ []) 0x01 150 (omega arith)
      (omega arith) refl refl (ground arith)
