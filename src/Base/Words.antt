-- ===== src/Base/Words.antt =====
-- Machine words: wrap-around, bit tests, and facts about bytes checked by running a test on each.
use Prim.Native.Nat.{ℕ, zero, suc, ◌+◌, ◌*◌, ◌/◌, ◌%◌, ◌^◌, ◌<◌, bit_or}
use mathlib.Core.Path.{◌≡◌, refl}
use mathlib.Core.Bool.{Bool, true, false}
use native.Mathlib.Omega.{arith}
use mhuxd.Base.Tests.{◌==◌, ==_iff, if◌then◌else◌}

abbrev pub u8 : ℕ → ℕ
u8 n = n % 256

abbrev pub u16 : ℕ → ℕ
u16 n = n % 65536

abbrev pub u32 : ℕ → ℕ
u32 n = n % 4294967296

abbrev pub u64 : ℕ → ℕ
u64 n = n % 18446744073709551616

-- `x & (1 << k)`, as a truth value
abbrev pub bit : ℕ → ℕ → Bool
bit k x = x / 2 ^ k % 2 == 1

-- A test of every number below a bound, run by evaluation.
unfoldable pub each_below : (ℕ → Bool) → ℕ → Bool
each_below p zero = true
each_below p (suc n) = let rest = each_below p n in if p n then rest else false

pub each_below_lem : (p : ℕ → Bool) (n x : ℕ) → x < n → each_below p n ≡ true → p x ≡ true
unfolding each_below
each_below_lem p (suc n) x lt h = ground (arith, each_below_lem p n x)
each_below_lem p zero x lt h = absurd (omega arith)

set_msb_table : each_below (λ x. bit_or 128 x == 128 + x % 128) 256 ≡ true
unfolding each_below
set_msb_table = refl

-- Setting the top bit of a byte.
pub set_msb : (x : ℕ) → x < 256 → bit_or 128 x ≡ 128 + x % 128
set_msb x h = (==_iff _ _).0 (each_below_lem _ 256 x h set_msb_table)

join_msb_table : each_below (λ x. bit_or (x % 128) (x / 128 * 128) == x) 256 ≡ true
unfolding each_below
join_msb_table = refl

-- A byte is its low seven bits and its top bit.
pub join_msb : (x : ℕ) → x < 256 → bit_or (x % 128) (x / 128 * 128) ≡ x
join_msb x h = (==_iff _ _).0 (each_below_lem _ 256 x h join_msb_table)
