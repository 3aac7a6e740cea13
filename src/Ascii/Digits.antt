-- ===== src/Ascii/Digits.antt =====
-- src/cat_ascii.c: frequencies as decimal digits.
use mhuxd.Base.{
  ℕ, zero, suc, ◌+◌, ◌*◌, ◌/◌, ◌%◌, ◌^◌, ◌-◌, ◌≤◌, ◌<◌, ◌≡◌, refl, ◌∙◌, ap, List, [], ◌∷◌, ◌++◌,
  Option, none, some, arith, length, length-append, u64,
}
use mhuxd.Ascii.Fields.{digits_loop, dec_freq}

-- a number in `n` decimal digits, with leading zeros
abbrev pub digits : ℕ → ℕ → List ℕ
digits zero f = []
digits (suc n) f = digits n (f / 10) ++ (b'0' + f % 10) ∷ []

abbrev loop_from : Option ℕ → List ℕ → Option ℕ
loop_from none ys = none
loop_from (some g) ys = digits_loop g ys

digits_loop-append :
    (f : ℕ) (xs ys : List ℕ) → digits_loop f (xs ++ ys) ≡ loop_from (digits_loop f xs) ys
unfolding digits_loop
digits_loop-append f [] ys = refl
digits_loop-append f (x ∷ xs) ys =
    ground (arith, digits_loop-append (u64 (f * 10 + (x - 48))) xs ys)

length-digits : (n f : ℕ) → length (digits n f) ≡ n
length-digits zero f = refl
length-digits (suc n) f =
    length-append {0} (digits n (f / 10)) _ ∙ omega (arith, length-digits n (f / 10))

digit_step : (f : ℕ) → f < 2 ^ 64 → digits_loop (f / 10) ((b'0' + f % 10) ∷ []) ≡ some f
unfolding digits_loop
digit_step f h = ground arith

digits_loop-digits : (n f : ℕ) → f < 10 ^ n → f < 2 ^ 64 → digits_loop 0 (digits n f) ≡ some f
unfolding digits_loop
digits_loop-digits zero f h k = ap (λ x. some x) (omega (arith, h))
digits_loop-digits (suc n) f h k =
    digits_loop-append 0 (digits n (f / 10)) _
    ∙ rw (digits_loop-digits n (f / 10) (omega (arith, h)) (omega (arith, k))) (digit_step f k)

-- Every frequency from 1 Hz up to the largest of 32 bits, written in 8 to 11 decimal digits that it
-- fits in, with leading zeros, is decoded to itself.
pub dec_freq-digits :
    (n f : ℕ) → 8 ≤ n → n ≤ 11 → 0 < f → f < 10 ^ n → f < 2 ^ 32 → dec_freq (digits n f) ≡ some f
unfolding dec_freq
dec_freq-digits n f l u p h k =
    rw (length-digits n f, digits_loop-digits n f h (omega (arith, k))) (ground arith)
