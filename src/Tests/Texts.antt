-- ===== src/Tests/Texts.antt =====
-- src/cat_ascii.c, run on a few commands.
use mhuxd.Base.{◌≡◌, refl, true, false, [], ◌∷◌, ◌++◌, some, arith, codes}
use mhuxd.Cat.{host}
use mhuxd.CatState.{init}
use mhuxd.Ascii.State.{Ascii, Pending, Dialect, create}
use mhuxd.Ascii.Fields.{dec_freq}
use mhuxd.Ascii.Pending.{frame_of, pend_take, live_query, pend_live}
use mhuxd.Ascii.Answers.{IsTaken, pend_take-IsTaken}
use mhuxd.Ascii.Framer.{process_frame, feed, feed_loop, with_buf}
use mhuxd.Ascii.Bounds.{IsAscii, feed-IsAscii, create-IsAscii}
use mhuxd.Ascii.Framing.{feed_loop-command}
use mhuxd.Ascii.Digits.{digits, dec_freq-digits}

abbrev new : Ascii
new = create Dialect.kenwood false init

-- `FA` of client 2, asked at 100 ms
abbrev waiting : Pending
waiting = record {
  prefix = codes "FA";
  frame = codes "FA;";
  t_ms = 100;
  own = false;
  client = 2;
  query = true;
}

abbrev busy : Ascii
busy = record new { pend = waiting ∷ [] }

feed-IsAscii_example : IsAscii (feed new host 2 (codes "FA;") 100)
feed-IsAscii_example =
    feed-IsAscii new host 2 (codes "FA;") 100 (create-IsAscii Dialect.kenwood false init)

feed_loop-command_example :
    feed_loop new host 2 1 (b'F' ∷ (b'A' ∷ []) ++ 59 ∷ []) 100
    ≡ with_buf
        (process_frame
          (with_buf new 1 (b'F' ∷ (b'A' ∷ []) ++ 59 ∷ []) 100)
          host
          2
          (b'F' ∷ b'A' ∷ [])
          100)
        1
        []
        100
unfolding create
feed_loop-command_example =
    feed_loop-command host 2 1 100 new b'F' (b'A' ∷ []) refl (omega arith, omega arith, omega arith)
      refl ((omega arith, omega arith, omega arith), tt) (omega arith)

dec_freq-digits_example : dec_freq (digits 11 14100000) ≡ some 14100000
dec_freq-digits_example =
    dec_freq-digits 11 14100000 (omega arith) (omega arith) (omega arith) (omega arith)
      (omega arith)

pend_take-IsTaken_example :
    IsTaken (waiting ∷ []) (frame_of (codes "FA") (codes "FA00014100000;")) 150 (false, 2)
unfolding pend_take live_query pend_live
pend_take-IsTaken_example =
    pend_take-IsTaken (waiting ∷ []) (frame_of (codes "FA") (codes "FA00014100000;")) 150 (false, 2)
      refl
