-- ===== src/Mux/Frames.antt =====
-- src/mux.c: the bits of a frame, which the source sets one by one, as sums.
use mhuxd.Base.{
  ℕ, ◌+◌, ◌*◌, ◌/◌, ◌%◌, ◌<◌, ◌≡◌, refl, ap, ◌∙◌, Bool, true, false, ◌&&◌, ◌||◌, Option, none, some,
  arith, if◌then◌else◌, ◌==◌, ◌⊎◌, inl, inr, bit, bit_or, each_below, each_below_lem, set_msb,
}
use native.Mathlib.Decide.{dec_lt}
use native.Mathlib.Nat.{one-mul, zero-mul}
use mhuxd.Mux.{Frame, empty_frame, put_r1, put_r2, put_shared, is_some}

-- Adding `v` and then `m` to a byte in which neither bit is set.
module _ (k j : ℕ) (v m : ℕ) where
  abbrev adds : ℕ → Bool
  adds s = (bit k s || bit j s) || (bit_or (bit_or s v) m == s + v + m && bit_or s m == s + m)

  adds_sound :
      each_below adds 128 ≡ true
      → (s : ℕ) → s < 128
      → bit k s ≡ false
      → bit j s ≡ false
      → (bit_or (bit_or s v) m ≡ s + v + m) × (bit_or s m ≡ s + m)
  adds_sound table s h a b = ground (arith, each_below_lem adds 128 s h table)

-- the top bit of a byte that was read, 0 for none
abbrev pub msb : Option ℕ → ℕ
msb none = 0
msb (some c) = c / 128

abbrev pub low : Option ℕ → ℕ
low none = 0
low (some c) = c % 128

abbrev pub IsByte : Option ℕ → Type 0
IsByte none = Unit
IsByte (some c) = c < 256

abbrev pub set_if : Bool → ℕ → ℕ
set_if true n = n
set_if false n = 0

or_msb :
    (k j v w c s : ℕ)
    → each_below (adds k j v 0) 128 ≡ true
    → each_below (adds k j v w) 128 ≡ true
    → c < 256
    → s < 128
    → bit k s ≡ false
    → bit j s ≡ false
    → (bit_or (bit_or s v) (c / 128 * w) ≡ s + v + c / 128 * w)
      × (bit_or s (c / 128 * w) ≡ s + c / 128 * w)
or_msb k j v w c s t0 t1 hc hs a b = elim (dec_lt c 128) [
  | yes p ↦ let e : c / 128 ≡ 0 = omega arith in rw e (rw zero-mul (adds_sound k j v 0 t0 s hs a b))
  | no p ↦ let e : c / 128 ≡ 1 = omega arith in rw e (rw one-mul (adds_sound k j v w t1 s hs a b))
]

r1_bits :
    (c s : ℕ)
    → c < 256
    → s < 128
    → bit 5 s ≡ false
    → bit 2 s ≡ false
    → bit_or (bit_or s 32) (c / 128 * 4) ≡ s + 32 + c / 128 * 4
unfolding each_below
r1_bits c s hc hs a b = (or_msb 5 2 32 4 c s refl refl hc hs a b).0

r2_bits :
    (c s : ℕ)
    → c < 256
    → s < 128
    → bit 4 s ≡ false
    → bit 1 s ≡ false
    → bit_or (bit_or s 16) (c / 128 * 2) ≡ s + 16 + c / 128 * 2
unfolding each_below
r2_bits c s hc hs a b = (or_msb 4 1 16 2 c s refl refl hc hs a b).0

shared_bits :
    (c s : ℕ)
    → c < 256
    → s < 128
    → bit 3 s ≡ false
    → bit 0 s ≡ false
    → (bit_or (bit_or s 8) (c / 128 * 1) ≡ s + 8 + c / 128 * 1)
      × (bit_or s (c / 128 * 1) ≡ s + c / 128 * 1)
unfolding each_below
shared_bits c s hc hs a b = or_msb 3 0 8 1 c s refl refl hc hs a b

-- the frame that the loop body builds from what it read
abbrev pub built : ℕ → Bool → Option ℕ → Option ℕ → Option ℕ → Frame
built n valid o1 o2 o3 = put_shared valid o3 (put_r2 o2 (put_r1 o1 (empty_frame n)))

abbrev pub as_sums : ℕ → Bool → Option ℕ → Option ℕ → Option ℕ → Frame
as_sums n valid o1 o2 o3 = record {
  sync =
      (if n == 0 then 0 else 64)
      + (set_if (is_some o1) 32 + msb o1 * 4)
      + (set_if (is_some o2) 16 + msb o2 * 2)
      + (set_if (is_some o3 && valid) 8 + msb o3 * 1);
  byte1 = 128 + low o1;
  byte2 = 128 + low o2;
  byte3 = 128 + low o3;
}

put_r1_sums :
    (o : Option ℕ) (f : Frame)
    → IsByte o
    → f.sync < 128
    → bit 5 f.sync ≡ false
    → bit 2 f.sync ≡ false
    → f.byte1 ≡ 128
    → put_r1 o f
      ≡ record f { sync = f.sync + (set_if (is_some o) 32 + msb o * 4); byte1 = 128 + low o }
unfolding put_r1
put_r1_sums none f h s a b e = ground arith
put_r1_sums (some c) f h s a b e = ground (arith, r1_bits c f.sync h s a b, set_msb c h)

put_r2_sums :
    (o : Option ℕ) (f : Frame)
    → IsByte o
    → f.sync < 128
    → bit 4 f.sync ≡ false
    → bit 1 f.sync ≡ false
    → f.byte2 ≡ 128
    → put_r2 o f
      ≡ record f { sync = f.sync + (set_if (is_some o) 16 + msb o * 2); byte2 = 128 + low o }
unfolding put_r2
put_r2_sums none f h s a b e = ground arith
put_r2_sums (some c) f h s a b e = ground (arith, r2_bits c f.sync h s a b, set_msb c h)

put_shared_sums :
    (valid : Bool) (o : Option ℕ) (f : Frame)
    → IsByte o
    → f.sync < 128
    → bit 3 f.sync ≡ false
    → bit 0 f.sync ≡ false
    → f.byte3 ≡ 128
    → put_shared valid o f ≡ record f {
      sync = f.sync + (set_if (is_some o && valid) 8 + msb o * 1);
      byte3 = 128 + low o;
    }
unfolding put_shared
put_shared_sums valid none f h s a b e = ground arith
put_shared_sums true (some c) f h s a b e =
    ground (arith, shared_bits c f.sync h s a b, set_msb c h)
put_shared_sums false (some c) f h s a b e =
    ground (arith, shared_bits c f.sync h s a b, set_msb c h)

pub msb_cases : (o : Option ℕ) → IsByte o → (msb o ≡ 0) ⊎ (msb o ≡ 1)
msb_cases none h = inl refl
msb_cases (some c) h = omega arith

pub set_if_cases : (b : Bool) (n : ℕ) → (set_if b n ≡ 0) ⊎ (set_if b n ≡ n)
set_if_cases true n = inr refl
set_if_cases false n = inl refl

abbrev with_r1 : ℕ → Option ℕ → Frame
with_r1 n o1 = record {
  sync = (if n == 0 then 0 else 64) + (set_if (is_some o1) 32 + msb o1 * 4);
  byte1 = 128 + low o1;
  byte2 = 128;
  byte3 = 128;
}

abbrev with_r2 : ℕ → Option ℕ → Option ℕ → Frame
with_r2 n o1 o2 = record {
  sync =
      (if n == 0 then 0 else 64)
      + (set_if (is_some o1) 32 + msb o1 * 4)
      + (set_if (is_some o2) 16 + msb o2 * 2);
  byte1 = 128 + low o1;
  byte2 = 128 + low o2;
  byte3 = 128;
}

module _ (n : ℕ) (valid : Bool) (o1 o2 o3 : Option ℕ) (h1 : IsByte o1) (h2 : IsByte o2)
    (h3 : IsByte o3) where
  r1_step : put_r1 o1 (empty_frame n) ≡ with_r1 n o1
  r1_step = put_r1_sums o1 (empty_frame n) h1 (ground arith) (ground arith) (ground arith) refl

  -- The bits that R1, and R1 and R2, leave clear for the others.
  room_r2 : let s = (with_r1 n o1).sync in (s < 128) × (bit 4 s ≡ false) × (bit 1 s ≡ false)
  room_r2 = ground (arith, msb_cases o1 h1, set_if_cases (is_some o1) 32)

  room_shared : let s = (with_r2 n o1 o2).sync in (s < 128) × (bit 3 s ≡ false) × (bit 0 s ≡ false)
  room_shared = ground (
    arith,
    msb_cases o1 h1,
    set_if_cases (is_some o1) 32,
    msb_cases o2 h2,
    set_if_cases (is_some o2) 16,
  )

  r2_step : put_r2 o2 (with_r1 n o1) ≡ with_r2 n o1 o2
  r2_step = put_r2_sums o2 (with_r1 n o1) h2 room_r2.0 room_r2.1 room_r2.2 refl

  -- Every frame is the sums of its parts: the validity and top bits in the sync byte, the low seven
  -- bits in the payload bytes.
  pub built-eq-as_sums : built n valid o1 o2 o3 ≡ as_sums n valid o1 o2 o3
  built-eq-as_sums =
      ap (λ f. put_shared valid o3 (put_r2 o2 f)) r1_step
      ∙ ap (λ f. put_shared valid o3 f) r2_step
      ∙ put_shared_sums valid o3 (with_r2 n o1 o2) h3 room_shared.0 room_shared.1 room_shared.2 refl
