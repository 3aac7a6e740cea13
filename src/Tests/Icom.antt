-- ===== src/Tests/Icom.antt =====
-- src/cat_civ.c, run on a few frames. The radio's address is 0x94, the controller's 0xe0.
use mhuxd.Base.{
  if◌then◌else◌, ℕ, ◌<◌, ◌≡◌, refl, true, false, List, [], ◌∷◌, ◌++◌, some, arith, take, drop,
  length, reject,
}
use mhuxd.Cat.{host, radio}
use mhuxd.CatState.{init, rx_freq, set_freq}
use mhuxd.Civ.State.{Civ, Pending, create, f_from, idle, inside}
use mhuxd.Civ.Decode.{dec_freq}
use mhuxd.Civ.Pending.{pend_at, pend_consume, resend_loop, Resend, lost_count}
use mhuxd.Civ.Classify.{process_frame}
use mhuxd.Civ.Framer.{feed, feed_loop, put_rx}
use mhuxd.Civ.Bounds.{IsCiv, feed-IsCiv, create-IsCiv}
use mhuxd.Civ.Quiet.{feed_quiet}
use mhuxd.Civ.Unasked.{other_controller, process_frame-Unasked}
use mhuxd.Civ.Framing.{framer, feed_loop-frame}
use mhuxd.Civ.Discard.{sent_by, pend_consume-reject}
use mhuxd.Civ.Resends.{resend_loop-some}
use mhuxd.Civ.Query.{query_frame, reply_frame, query-reply}
use mhuxd.Civ.Sets.{set_frame, verdict_frame, set-verdict}
use mhuxd.Civ.Bcd.{bcd, dec_freq-bcd}

abbrev new : Civ
new = create 0x94 5 init

-- the query of the frequency, and a reply to it
abbrev query_body : List ℕ
query_body = 0x94 ∷ 0xe0 ∷ 0x03 ∷ []

abbrev asked : List ℕ
asked = 254 ∷ 254 ∷ query_body ++ 253 ∷ []

abbrev answer : List ℕ
answer = 254 ∷ 254 ∷ 0xe0 ∷ 0x94 ∷ 0x03 ∷ 0 ∷ 0 ∷ 0x10 ∷ 0x14 ∷ 0 ∷ 253 ∷ []

-- a command of client 1 that a jam destroyed
abbrev lost : Pending
lost = record {
  buf = asked;
  t_ms = 100;
  from_host = true;
  echoed = false;
  own = false;
  client = 1;
  lost = true;
  resends = 0;
}

abbrev again : Resend
again = record { buf = asked; client = 1; own = false }

abbrev busy : Civ
busy = record new { pend = lost ∷ [] }

feed-IsCiv_example : IsCiv (feed new host 1 asked 100)
feed-IsCiv_example = feed-IsCiv new host 1 asked 100 (create-IsCiv 0x94 5 init)

feed_quiet_example : (feed new host 1 asked 100).st ≡ new.st
feed_quiet_example = feed_quiet new host 1 asked 100 refl

-- A reply to the controller E1, while a query of E0 waits.
abbrev stray : List ℕ
stray = 0xfe ∷ 0xfe ∷ 0xe1 ∷ 0x94 ∷ 0x03 ∷ 0x00 ∷ 0x00 ∷ 0x10 ∷ 0x14 ∷ 0x00 ∷ 0xfd ∷ []

process_frame-Unasked_example : (process_frame busy radio 0 stray 100).st ≡ busy.st
unfolding create
process_frame-Unasked_example =
    process_frame-Unasked busy 0 stray 100 refl refl (other_controller refl, _)

feed_loop-frame_example :
    feed_loop new host 1 0 asked 100
    ≡ put_rx
        (process_frame (put_rx new 0 (framer asked inside 100)) host 1 asked 100)
        0
        (framer [] idle 100)
unfolding create
feed_loop-frame_example =
    feed_loop-frame host 1 0 100 new query_body 0 refl
      ((refl, refl, refl), ((refl, refl, refl), ((refl, refl, refl), tt))) (omega arith)
      (omega arith)

pend_consume-reject_example :
    pend_consume (lost ∷ lost ∷ []) 1
    ≡ reject
        (sent_by (f_from (pend_at (lost ∷ lost ∷ []) 1).buf) (pend_at (lost ∷ lost ∷ []) 1).client)
        (take 2 (lost ∷ lost ∷ []))
      ++ drop 2 (lost ∷ lost ∷ [])
pend_consume-reject_example = pend_consume-reject (lost ∷ lost ∷ []) 1

resend_loop-some_example :
    (lost_count (resend_loop (lost ∷ []) 3 150).0 < lost_count (lost ∷ []))
    × (length (resend_loop (lost ∷ []) 3 150).0 ≡ length (lost ∷ []))
unfolding resend_loop
resend_loop-some_example = resend_loop-some (lost ∷ []) 3 150 again refl

dec_freq-bcd_example : dec_freq 5 (bcd 5 14100000) ≡ some 14100000
dec_freq-bcd_example = dec_freq-bcd 14100000 (omega arith) (omega arith)

query-reply_example :
    let c1 = process_frame new host 1 (query_frame new.radio_addr 0xe0) 100 in
    let c2 = process_frame c1 radio 0 (reply_frame new.radio_addr 0xe0 14100000) 150 in
    (rx_freq c2.st ≡ 14100000) × (c2.pend ≡ [])
unfolding create
query-reply_example =
    query-reply new 1 0xe0 14100000 100 150 refl refl refl refl refl (omega arith) (omega arith)
      (omega arith) (omega arith)

set-verdict_example :
    let c1 = process_frame new host 1 (set_frame new.radio_addr 0xe0 7030000) 100 in
    let c2 = process_frame c1 radio 0 (verdict_frame true new.radio_addr 0xe0) 150 in
    (c2.st ≡ (if true then set_freq new.st 0 7030000 150 else new.st)) × (c2.pend ≡ [])
unfolding create
set-verdict_example =
    set-verdict true new 1 0xe0 7030000 100 150 refl refl refl refl refl (omega arith) (omega arith)
      (omega arith) (omega arith)
