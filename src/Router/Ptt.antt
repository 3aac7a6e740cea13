-- ===== src/Router/Ptt.antt =====
-- src/mhrouter.c: the PTT bits that the producers hold together.
use mhuxd.Base.{
  ℕ, zero, suc, ◌+◌, ◌%◌, ◌<◌, ◌≡◌, refl, ap, ◌∙◌, arith, Bool, true, not, ◌&&◌, ◌||◌, List, [],
  ◌∷◌, ◌++◌, if◌then◌else◌, ◌==◌, ltb, map, All, erase_idx, bit_or, bit, bool_eq, any_of,
  each_below, each_below_lem, Bool-cases, inl, inr,
}
use mhuxd.Channel.{is_ptt_channel}
use mhuxd.Router.State.{Producer}
use mhuxd.Router.Producers.{held_in, held_loop, mask_at, with_mask, unmasked}

-- The bits of the PTT of either radio, and no others.
pub record IsMask (m : ℕ) : Type 0 where
  pub small : m < 16
  pub only : m % 4 ≡ 0

-- Joining such bits, of numbers below 16.
abbrev joins : ℕ → ℕ → Bool
joins a b =
    not (a % 4 == 0 && b % 4 == 0)
    || ltb (bit_or a b) 16
      && bit_or a b % 4 == 0
      && bit_or a 0 == a
      && bit_or 0 a == a
      && bool_eq (bit 2 (bit_or a b)) (bit 2 a || bit 2 b)
      && bool_eq (bit 3 (bit_or a b)) (bit 3 a || bit 3 b)

joins_table : each_below (λ a. each_below (joins a) 16) 16 ≡ true
unfolding each_below
joins_table = refl

joins_lem : (a b : ℕ) → a < 16 → b < 16 → joins a b ≡ true
joins_lem a b h k =
    each_below_lem (joins a) 16 b k
      (each_below_lem (λ a. each_below (joins a) 16) 16 a h joins_table)

bit_or-IsMask : (a b : ℕ) → IsMask a → IsMask b → IsMask (bit_or a b)
bit_or-IsMask a b h k = record {
  small = ground (arith, joins_lem a b h.small k.small, h.only, k.only);
  only = ground (arith, joins_lem a b h.small k.small, h.only, k.only);
}

pub bit_or-zero : (a : ℕ) → IsMask a → (bit_or a 0 ≡ a) × (bit_or 0 a ≡ a)
bit_or-zero a h = (
  ground (arith, joins_lem a 0 h.small (omega arith), h.only),
  ground (arith, joins_lem a 0 h.small (omega arith), h.only),
)

-- The bits 2 and 3, of radio 1 and of radio 2.
abbrev pub radio_bit : Bool → ℕ → Bool
radio_bit first m = if first then bit 2 m else bit 3 m

radio_bit-bit_or :
    (first : Bool) (a b : ℕ)
    → IsMask a
    → IsMask b
    → radio_bit first (bit_or a b) ≡ (radio_bit first a || radio_bit first b)
radio_bit-bit_or first a b h k = ground (arith, joins_lem a b h.small k.small, h.only, k.only)

-- The producers of a channel hold such bits only.
abbrev pub Masks : List Producer → Type 0
Masks = All (λ p. IsMask p.ptt_mask)

held_in-IsMask : (h : ℕ) (ps : List Producer) → IsMask h → Masks ps → IsMask (held_in h ps)
unfolding held_in
held_in-IsMask h [] i m = i
held_in-IsMask h (p ∷ ps) i m =
    held_in-IsMask (bit_or h p.ptt_mask) ps (bit_or-IsMask h p.ptt_mask i m.0) m.1

-- The lists hold the same bits.
abbrev pub SameHeld : List Producer → List Producer → Type 0
SameHeld ps qs = (h : ℕ) → IsMask h → held_in h ps ≡ held_in h qs

pub held_loop-same :
    (n ch h : ℕ) (ps qs : ℕ → List Producer)
    → IsMask h
    → ((c : ℕ) → Masks (ps c))
    → ((c : ℕ) → SameHeld (ps c) (qs c))
    → held_loop n ch ps h ≡ held_loop n ch qs h
unfolding held_loop
held_loop-same zero ch h ps qs i m s = refl
held_loop-same (suc n) ch h ps qs i m s = elim (Bool-cases (is_ptt_channel ch)) [
  | inl e ↦ rw e (
      held_loop-same n (ch + 1) (held_in h (ps ch)) ps qs (held_in-IsMask h (ps ch) i (m ch)) m s
      ∙ ap (held_loop n (ch + 1) qs) (s ch h i))
  | inr e ↦ rw e (held_loop-same n (ch + 1) h ps qs i m s)
]

pub held_loop-IsMask :
    (n ch h : ℕ) (ps : ℕ → List Producer)
    → IsMask h
    → ((c : ℕ) → Masks (ps c))
    → IsMask (held_loop n ch ps h)
unfolding held_loop
held_loop-IsMask zero ch h ps i m = i
held_loop-IsMask (suc n) ch h ps i m = elim (Bool-cases (is_ptt_channel ch)) [
  | inl e ↦
      rw e
        (held_loop-IsMask n (ch + 1) (held_in h (ps ch)) ps (held_in-IsMask h (ps ch) i (m ch)) m)
  | inr e ↦ rw e (held_loop-IsMask n (ch + 1) h ps i m)
]

-- A change that keeps the masks.
module _ (f : Producer → Producer) (k : (p : Producer) → (f p).ptt_mask ≡ p.ptt_mask) where
  held_in-map : (h : ℕ) (ps : List Producer) → held_in h (map f ps) ≡ held_in h ps
  unfolding held_in
  held_in-map h [] = refl
  held_in-map h (p ∷ ps) = rw (k p) (held_in-map (bit_or h p.ptt_mask) ps)

  pub map-SameHeld : (ps : List Producer) → SameHeld (map f ps) ps
  map-SameHeld ps h i = held_in-map h ps

  pub map-Masks : (ps : List Producer) → Masks ps → Masks (map f ps)
  map-Masks [] m = _
  map-Masks (p ∷ ps) m = (rw (k p) m.0, map-Masks ps m.1)

pub append_idle :
    (ps : List Producer) (q : Producer) → Masks ps → q.ptt_mask ≡ 0 → SameHeld (ps ++ q ∷ []) ps
unfolding held_in
append_idle [] q m e h i = rw e (bit_or-zero h i).0
append_idle (p ∷ ps) q m e h i =
    append_idle ps q m.1 e (bit_or h p.ptt_mask) (bit_or-IsMask h p.ptt_mask i m.0)

pub erase_idle :
    (ps : List Producer) (i : ℕ) → Masks ps → mask_at ps i ≡ 0 → SameHeld (erase_idx ps i) ps
unfolding held_in
erase_idle [] i m e h k = refl
erase_idle (p ∷ ps) zero m e h k = rw (e, (bit_or-zero h k).0) refl
erase_idle (p ∷ ps) (suc i) m e h k =
    erase_idle ps i m.1 e (bit_or h p.ptt_mask) (bit_or-IsMask h p.ptt_mask k m.0)

pub with_mask-Masks :
    (x : ℕ) (ps : List Producer) (i : ℕ) → IsMask x → Masks ps → Masks (with_mask x ps i)
with_mask-Masks x [] i h m = _
with_mask-Masks x (p ∷ ps) zero h m = (h, m.1)
with_mask-Masks x (p ∷ ps) (suc i) h m = (m.0, with_mask-Masks x ps i h m.1)

none_in : (ps : List Producer) → held_in 0 (map unmasked ps) ≡ 0
unfolding held_in
none_in [] = refl
none_in (p ∷ ps) = rw zero_or (none_in ps)
  where
    zero_or : bit_or 0 0 ≡ 0
    zero_or = (bit_or-zero 0 (record { small = omega arith; only = refl })).0

-- What no producer holds.
pub none_held :
    (n ch : ℕ) (ps : ℕ → List Producer) → held_loop n ch (λ c. map unmasked (ps c)) 0 ≡ 0
unfolding held_loop
none_held zero ch ps = refl
none_held (suc n) ch ps = elim (Bool-cases (is_ptt_channel ch)) [
  | inl e ↦ rw (e, none_in (ps ch)) (none_held n (ch + 1) ps)
  | inr e ↦ rw e (none_held n (ch + 1) ps)
]

-- Whether a producer of a channel keys a radio.
abbrev pub keys : Bool → List Producer → Bool
keys first ps = any_of (λ p. radio_bit first p.ptt_mask) ps

radio_bit-held_in :
    (first : Bool) (h : ℕ) (ps : List Producer)
    → IsMask h
    → Masks ps
    → radio_bit first (held_in h ps) ≡ (radio_bit first h || keys first ps)
unfolding held_in
radio_bit-held_in first h [] i m = ground arith
radio_bit-held_in first h (p ∷ ps) i m = ground (
  arith,
  radio_bit-held_in first (bit_or h p.ptt_mask) ps (bit_or-IsMask h p.ptt_mask i m.0) m.1,
  radio_bit-bit_or first h p.ptt_mask i m.0,
)

pub radio_bit-held_loop :
    (first : Bool) (ps : ℕ → List Producer)
    → ((c : ℕ) → Masks (ps c))
    → radio_bit first (held_loop 14 0 ps 0)
      ≡ (keys first (ps 9) || keys first (ps 10) || keys first (ps 11))
unfolding held_loop is_ptt_channel
radio_bit-held_loop first ps m = ground (
  arith,
  radio_bit-held_in first (held_in h9 (ps 10)) (ps 11) i10 (m 11),
  radio_bit-held_in first h9 (ps 10) i9 (m 10),
  radio_bit-held_in first 0 (ps 9) i0 (m 9),
)
  where
    h9 : ℕ
    h9 = held_in 0 (ps 9)

    i0 : IsMask 0
    i0 = record { small = omega arith; only = refl }

    i9 : IsMask h9
    i9 = held_in-IsMask 0 (ps 9) i0 (m 9)

    i10 : IsMask (held_in h9 (ps 10))
    i10 = held_in-IsMask h9 (ps 10) i9 (m 10)
