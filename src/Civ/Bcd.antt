-- ===== src/Civ/Bcd.antt =====
-- src/cat_civ.c: frequencies as packed BCD, least significant byte first.
use mhuxd.Base.{
  ℕ, zero, suc, ◌+◌, ◌*◌, ◌/◌, ◌%◌, ◌^◌, ◌≤◌, ◌<◌, ◌≡◌, refl, ◌∙◌, false, List, [], ◌∷◌, some,
  arith, u64, ap, ltb,
}
use mhuxd.Civ.Decode.{bcd_loop, dec_freq}

-- `n` bytes of two decimal digits each, the last two digits first
abbrev pub bcd : ℕ → ℕ → List ℕ
bcd zero f = []
bcd (suc n) f = (f % 10 + 16 * (f / 10 % 10)) ∷ bcd n (f / 100)

byte_value :
    (f : ℕ) → (f % 10 + 16 * (f / 10 % 10)) % 16 + (f % 10 + 16 * (f / 10 % 10)) / 16 * 10 ≡ f % 100
byte_value f = omega arith

byte_digits :
    (f : ℕ) → ((f % 10 + 16 * (f / 10 % 10)) % 16 < 10) × ((f % 10 + 16 * (f / 10 % 10)) / 16 < 10)
byte_digits f = omega arith

bcd_loop-byte :
    (acc mul f : ℕ) (bs : List ℕ)
    → acc + f % 100 * mul < 2 ^ 64
    → mul * 100 < 2 ^ 64
    → bcd_loop acc mul ((f % 10 + 16 * (f / 10 % 10)) ∷ bs)
      ≡ bcd_loop (acc + f % 100 * mul) (mul * 100) bs
unfolding bcd_loop
bcd_loop-byte acc mul f bs h k =
    rw
      (
        ge-ltb 9 _ (suc-le-suc-inv (byte_digits f).0),
        ge-ltb 9 _ (suc-le-suc-inv (byte_digits f).1),
        byte_value f,
        mod-small (acc + f % 100 * mul) h,
        mod-small (mul * 100) k,
      )
      refl
  where
    ge-ltb : (a b : ℕ) → b ≤ a → ltb a b ≡ false
    ge-ltb a b h = ground arith

    suc-le-suc-inv : {a b : ℕ} → a < suc b → a ≤ b
    suc-le-suc-inv h = omega arith

    mod-small : (a : ℕ) → a < 2 ^ 64 → u64 a ≡ a
    mod-small a h = ground arith

bcd_loop-bcd : (f : ℕ) → f < 2 ^ 32 → bcd_loop 0 1 (bcd 5 f) ≡ some f
unfolding bcd_loop
bcd_loop-bcd f h =
    bcd_loop-byte 0 1 f (bcd 4 (f / 100)) (omega arith) (omega arith)
    ∙ bcd_loop-byte a1 100 (f / 100) (bcd 3 (f / 100 / 100)) (omega arith) (omega arith)
    ∙ bcd_loop-byte a2 10000 (f / 100 / 100) (bcd 2 (f / 100 / 100 / 100)) (omega arith)
        (omega arith)
    ∙ bcd_loop-byte a3 1000000 (f / 100 / 100 / 100) (bcd 1 (f / 100 / 100 / 100 / 100))
        (omega arith) (omega arith)
    ∙ bcd_loop-byte a4 100000000 (f / 100 / 100 / 100 / 100) [] (omega arith) (omega arith)
    ∙ ap (λ x. some x) whole
  where
    a1 : ℕ
    a1 = 0 + f % 100 * 1

    a2 : ℕ
    a2 = a1 + f / 100 % 100 * 100

    a3 : ℕ
    a3 = a2 + f / 100 / 100 % 100 * 10000

    a4 : ℕ
    a4 = a3 + f / 100 / 100 / 100 % 100 * 1000000

    whole : a4 + f / 100 / 100 / 100 / 100 % 100 * 100000000 ≡ f
    whole = omega arith

-- Every frequency from 1 Hz up to the largest of 32 bits, written as the radio does, in five bytes
-- of BCD with the last digits first, is decoded to itself.
pub dec_freq-bcd : (f : ℕ) → 0 < f → f < 2 ^ 32 → dec_freq 5 (bcd 5 f) ≡ some f
unfolding dec_freq
dec_freq-bcd f p h = rw (bcd_loop-bcd f h) (ground arith)
