-- ===== src/Mux/SyncBits.antt =====
-- src/mux.c: the sync byte of a frame and its parts.
use mhuxd.Base.{
  ℕ, ◌+◌, ◌*◌, ◌/◌, ◌%◌, ◌<◌, ◌≡◌, Bool, true, false, not, ◌&&◌, Option, none, some, arith,
  if◌then◌else◌, ◌==◌, bit,
}
use mhuxd.Mux.{is_some}
use mhuxd.Mux.Frames.{as_sums, IsByte, msb, set_if}

-- How the parts stand in the sync byte.
pub record SyncBits (n : ℕ) (valid : Bool) (o1 o2 o3 : Option ℕ) (s : ℕ) : Type 0 where
  pub below : s < 128
  pub later : bit 6 s ≡ not (n == 0)
  pub valid1 : bit 5 s ≡ is_some o1
  pub valid2 : bit 4 s ≡ is_some o2
  pub valid3 : bit 3 s ≡ (is_some o3 && valid)
  pub top1 : s / 4 % 2 ≡ msb o1
  pub top2 : s / 2 % 2 ≡ msb o2
  pub top3 : s / 1 % 2 ≡ msb o3

abbrev one_if : Bool → ℕ
one_if false = 0
one_if true = 1

one_if_le : (b : Bool) → one_if b < 2
one_if_le false = omega arith
one_if_le true = omega arith

one_if-test : (b : Bool) (x : ℕ) → x ≡ one_if b → (x == 1) ≡ b
one_if-test false x h = ground arith
one_if-test true x h = ground arith

set_if_weight : (b : Bool) (n : ℕ) → set_if b n ≡ one_if b * n
set_if_weight false n = omega arith
set_if_weight true n = omega arith

first_weight : (n : ℕ) → (if n == 0 then 0 else 64) ≡ one_if (not (n == 0)) * 64
first_weight n = ground arith

-- Seven binary digits, in the order in which the frame sets them.
module _ (x6 x5 x2 x4 x1 x3 x0 : ℕ) (h6 : x6 < 2) (h5 : x5 < 2) (h2 : x2 < 2) (h4 : x4 < 2)
    (h1 : x1 < 2) (h3 : x3 < 2) (h0 : x0 < 2) where
  abbrev word : ℕ
  word = x6 * 64 + (x5 * 32 + x2 * 4) + (x4 * 16 + x1 * 2) + (x3 * 8 + x0 * 1)

  word_digits :
      (word < 128)
      × (word / 64 % 2 ≡ x6)
      × (word / 32 % 2 ≡ x5)
      × (word / 16 % 2 ≡ x4)
      × (word / 8 % 2 ≡ x3)
      × (word / 4 % 2 ≡ x2)
      × (word / 2 % 2 ≡ x1)
      × (word / 1 % 2 ≡ x0)
  word_digits = (
    omega arith,
    omega arith,
    omega arith,
    omega arith,
    omega arith,
    omega arith,
    omega arith,
    omega arith,
  )

msb_lt : (o : Option ℕ) → IsByte o → msb o < 2
msb_lt none h = omega arith
msb_lt (some c) h = omega arith

pub sync_bits :
    (n : ℕ) (valid : Bool) (o1 o2 o3 : Option ℕ)
    → IsByte o1
    → IsByte o2
    → IsByte o3
    → SyncBits n valid o1 o2 o3 (as_sums n valid o1 o2 o3).sync
sync_bits n valid o1 o2 o3 h1 h2 h3 =
    rw
      (
        first_weight n,
        set_if_weight (is_some o1) 32,
        set_if_weight (is_some o2) 16,
        set_if_weight (is_some o3 && valid) 8,
      )
      (let d =
          word_digits (one_if (not (n == 0))) (one_if (is_some o1)) (msb o1) (one_if (is_some o2))
            (msb o2) (one_if (is_some o3 && valid)) (msb o3) (one_if_le _) (one_if_le _)
            (msb_lt o1 h1) (one_if_le _) (msb_lt o2 h2) (one_if_le _) (msb_lt o3 h3) in
        record {
          below = d.0;
          later = one_if-test (not (n == 0)) _ d.1;
          valid1 = one_if-test (is_some o1) _ d.2;
          valid2 = one_if-test (is_some o2) _ d.3;
          valid3 = one_if-test (is_some o3 && valid) _ d.4;
          top1 = d.5;
          top2 = d.6;
          top3 = d.7;
        })
