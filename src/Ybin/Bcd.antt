-- ===== src/Ybin/Bcd.antt =====
-- src/cat_ybin.c: frequencies as packed BCD, in the order of either family of radios.
use mhuxd.Base.{
  ℕ, ◌+◌, ◌*◌, ◌/◌, ◌%◌, ◌^◌, ◌<◌, ◌≡◌, ◌∙◌, Bool, true, false, List, [], ◌∷◌, some, ap, arith,
  reverse, if◌then◌else◌,
}
use mhuxd.Civ.Bcd.{bcd}
use mhuxd.Ybin.Fields.{bcd_loop, dec_bcd}

-- Four bytes of two decimal digits each, the first digits first if the flag is set.
abbrev byte_of : ℕ → ℕ
byte_of f = f % 10 + 16 * (f / 10 % 10)

abbrev pub bcd4 : Bool → ℕ → List ℕ
bcd4 be v = if be then reverse (bcd 4 v) else bcd 4 v

bcd_loop-byte :
    (r f : ℕ) (bs : List ℕ)
    → r < 10 ^ 6
    → bcd_loop r ((f % 10 + 16 * (f / 10 % 10)) ∷ bs) ≡ bcd_loop (r * 100 + f % 100) bs
unfolding bcd_loop
bcd_loop-byte r f bs h = ground (arith)

bcd_loop-bcd : (v : ℕ) → v < 10 ^ 8 → bcd_loop 0 (reverse (bcd 4 v)) ≡ some v
unfolding bcd_loop
bcd_loop-bcd v h =
    bcd_loop-byte 0 (v / 100 / 100 / 100)
      (byte_of (v / 100 / 100) ∷ byte_of (v / 100) ∷ byte_of v ∷ []) (omega arith)
    ∙ bcd_loop-byte (0 * 100 + v / 100 / 100 / 100 % 100) (v / 100 / 100)
        (byte_of (v / 100) ∷ byte_of v ∷ []) (omega arith)
    ∙ bcd_loop-byte a2 (v / 100) (byte_of v ∷ []) (omega arith)
    ∙ bcd_loop-byte (a2 * 100 + v / 100 % 100) v [] (omega arith)
    ∙ ap (λ x. some x) whole
  where
    a2 : ℕ
    a2 = (0 * 100 + v / 100 / 100 / 100 % 100) * 100 + v / 100 / 100 % 100

    whole : (a2 * 100 + v / 100 % 100) * 100 + v % 100 ≡ v
    whole = omega arith

-- Every number of up to eight digits, written in four bytes of BCD in either order, is decoded to
-- itself.
pub dec_bcd-bcd4 : (be : Bool) (v : ℕ) → v < 10 ^ 8 → dec_bcd be (bcd4 be v) ≡ some v
unfolding dec_bcd
dec_bcd-bcd4 true v h = bcd_loop-bcd v h
dec_bcd-bcd4 false v h = bcd_loop-bcd v h
