-- ===== src/Ybin/Refusals.antt =====
-- src/cat_ybin.c: commands with values that do not fit.
use mhuxd.Base.{ℕ, ◌/◌, ◌%◌, ◌≡◌, Bool, true, false, ◌||◌, ltb}
use mhuxd.CatState.{CatState, is_unknown}
use mhuxd.Ybin.Models.{Model, fam_of, is_fam_817, is_fam_847, is_fam_920, is_fam_1000, is_fam_mp}
use mhuxd.Ybin.Modes.{mode_817}
use mhuxd.Ybin.Commands.{mode_param}

-- A byte with a digit above 9.
abbrev pub no_bcd : ℕ → Bool
no_bcd b = ltb 9 (b / 16) || ltb 9 (b % 16)

-- Four bytes that are no frequency: with a digit above 9, or all 0.
pub data IsNoFreq (p q r u : ℕ) : Type 0 where
  no_digits : (no_bcd p || (no_bcd q || (no_bcd r || no_bcd u))) ≡ true → IsNoFreq p q r u
  all_zero : p ≡ 0 → q ≡ 0 → r ≡ 0 → u ≡ 0 → IsNoFreq p q r u

-- the models of the first `switch`
abbrev pub in_first : Model → Bool
in_first m = is_fam_817 (fam_of m) || is_fam_847 (fam_of m)

-- the models that take a frequency for VFO B
abbrev pub takes_b : Model → Bool
takes_b m = is_fam_mp (fam_of m) || (is_fam_920 (fam_of m) || is_fam_1000 (fam_of m))

-- A command of five bytes that a model refuses: one of a frequency that is none, or of a mode that the
-- radio does not have.
pub data IsRefused (m : Model) (p q r u op : ℕ) : Type 0 where
  no_freq_first : in_first m ≡ true → op ≡ 0x01 → IsNoFreq p q r u → IsRefused m p q r u op
  no_mode_first :
      in_first m ≡ true → op ≡ 0x07 → is_unknown (mode_817 p) ≡ true → IsRefused m p q r u op
  no_freq : in_first m ≡ false → op ≡ 0x0a → IsNoFreq p q r u → IsRefused m p q r u op
  no_freq_b :
      in_first m ≡ false → takes_b m ≡ true → op ≡ 0x8a → IsNoFreq p q r u → IsRefused m p q r u op
  no_mode :
      in_first m ≡ false
      → op ≡ 0x0c
      → is_unknown (mode_param (fam_of m) u).0 ≡ true
      → IsRefused m p q r u op
