-- ===== src/Kcfg/Fields.antt =====
-- src/kcfg.c: a field of bits in a byte, as arithmetic. The facts about `&` and `|` are checked on every
-- byte and every place of a field; the others follow by division.
use native.Mathlib.Nat.{one-le-pow}
use mhuxd.Base.{
  ℕ, ◌+◌, ◌-◌, ◌*◌, ◌/◌, ◌%◌, ◌^◌, ◌≤◌, ◌<◌, ◌≡◌, refl, sym, ap, ap₂, ◌∙◌, arith, Bool, true, false,
  ◌&&◌, ◌||◌, ◌==◌, ltb, bit_or, bit_and, u8, u32, each_below, each_below_lem, ==_iff,
}
use mhuxd.Kcfg.Settings.{width2mask, put_field, get_field}

-- the value of the field between the numbers `p` and `p * t`, and the number without it
abbrev part : ℕ → ℕ → ℕ → ℕ
part p t x = x / p % t

abbrev rest : ℕ → ℕ → ℕ → ℕ
rest p t x = x - part p t x * p

-- the same of `w` bits from bit `k` on
abbrev pub field : ℕ → ℕ → ℕ → ℕ
field k w x = part (2 ^ k) (2 ^ w) x

abbrev rest_of : ℕ → ℕ → ℕ → ℕ
rest_of k w x = rest (2 ^ k) (2 ^ w) x

div_fields : (p q s : ℕ) → s < p → (q * p + s) / p ≡ q
div_fields p q s h = grind arith

mod_fields : (p q s : ℕ) → s < p → (q * p + s) % p ≡ s
mod_fields p q s h = grind arith

split_fields : (x p : ℕ) → 0 < p → x ≡ (x / p) * p + x % p
split_fields x p h = grind arith

add-mul : (a b p : ℕ) → (a + b) * p ≡ a * p + b * p
add-mul a b p = grind arith

rest_lem : (x p t : ℕ) → 0 < p → 0 < t → rest p t x ≡ (x / p / t * t) * p + x % p
rest_lem x p t h g = omega (
  arith,
  split_fields x p h,
  ap (λ (n : ℕ). n * p) (split_fields (x / p) t g),
  add-mul (x / p / t * t) (x / p % t) p,
)

put_rest : (x p t v : ℕ) → 0 < p → 0 < t → rest p t x + v * p ≡ (x / p / t * t + v) * p + x % p
put_rest x p t v h g = omega (arith, rest_lem x p t h g, add-mul (x / p / t * t) v p)

put_div : (x p t v : ℕ) → 0 < p → 0 < t → (rest p t x + v * p) / p ≡ x / p / t * t + v
put_div x p t v h g = ap (λ n. n / p) (put_rest x p t v h g) ∙ div_fields p _ (x % p) (grind arith)

part-put : (x p t v : ℕ) → 0 < p → 0 < t → v < t → part p t (rest p t x + v * p) ≡ v
part-put x p t v h g l = ap (λ n. n % t) (put_div x p t v h g) ∙ mod_fields t (x / p / t) v l

rest-put : (x p t v : ℕ) → 0 < p → 0 < t → v < t → rest p t (rest p t x + v * p) ≡ rest p t x
rest-put x p t v h g l = omega (arith, ap (λ (n : ℕ). n * p) (part-put x p t v h g l))

-- What `&`, `|` and `>>` do at one place of a field, which leaves a byte whatever the field holds.
abbrev as_arithmetic : ℕ → ℕ → ℕ → Bool
as_arithmetic k w x =
    bit_and x (255 - (255 / 2 ^ (8 - w)) * 2 ^ k) == rest_of k w x
    && bit_or (rest_of k w x) (field k w x * 2 ^ k) == x
    && bit_and (x / 2 ^ k) (255 / 2 ^ (8 - w)) == field k w x
    && ltb (rest_of k w x + (2 ^ w - 1) * 2 ^ k) 256

-- Of two fields apart from one another, the one is read the same without the other.
abbrev kept_apart : ℕ → ℕ → ℕ → ℕ → ℕ → Bool
kept_apart k w j v x = field j v x == field j v (rest_of k w x)

abbrev no_place : ℕ → ℕ → Bool
no_place k w = ltb 8 (k + w)

-- two fields with a bit in common
abbrev pub overlap : ℕ → ℕ → ℕ → ℕ → Bool
overlap k w j v = ltb k (j + v) && ltb j (k + w)

arithmetic_table :
    each_below (λ k. each_below (λ w. no_place k w || each_below (as_arithmetic k w) 256) 9) 8
    ≡ true
unfolding each_below
arithmetic_table = refl

apart_table :
    each_below
      (λ k.
        each_below
          (λ w.
            no_place k w
            || each_below
                (λ j.
                  each_below
                    (λ v. no_place j v || (overlap k w j v || each_below (kept_apart k w j v) 256))
                    9)
                8)
          9)
      8
    ≡ true
unfolding each_below
apart_table = refl

pow_pos : (k : ℕ) → 0 < 2 ^ k
pow_pos k = omega (arith, one-le-pow k 2)

unless : (b c : Bool) → b ≡ false → (b || c) ≡ true → c ≡ true
unless b c e h = ground arith

-- One place of a field and one byte.
module _ (k w x : ℕ) (place : k + w ≤ 8) (some_bits : 0 < w) (byte : x < 256) where
  arithmetic : as_arithmetic k w x ≡ true
  arithmetic = each_below_lem _ 256 x byte (
      unless (no_place k w) _ (ground arith)
        (each_below_lem _ 9 w (omega arith) (each_below_lem _ 8 k (omega arith) arithmetic_table)))

  get_field_lem : get_field k w x ≡ field k w x
  unfolding get_field width2mask
  get_field_lem = ground (arith, arithmetic)

  masked : bit_and x (255 - (255 / 2 ^ (8 - w)) * 2 ^ k) ≡ rest_of k w x
  masked = ground (arith, arithmetic)

  joined : bit_or (rest_of k w x) (field k w x * 2 ^ k) ≡ x
  joined = ground (arith, arithmetic)

-- A field that is given another value.
module _ (k w x v : ℕ) (place : k + w ≤ 8) (some_bits : 0 < w) (byte : x < 256)
    (small : v < 2 ^ w) where
  changed : ℕ
  changed = rest_of k w x + v * 2 ^ k

  changed_byte : changed < 256
  unfolding changed
  changed_byte =
      mono v (2 ^ w) (2 ^ k) (rest_of k w x) small
        (ground (arith, arithmetic k w x place some_bits byte))
    where
      mono : (v t p r : ℕ) → v < t → r + (t - 1) * p < 256 → r + v * p < 256
      mono v t p r l h = grind arith

  field-changed : field k w changed ≡ v
  unfolding changed
  field-changed = part-put x (2 ^ k) (2 ^ w) v (pow_pos k) (pow_pos w) small

  rest-changed : rest_of k w changed ≡ rest_of k w x
  unfolding changed
  rest-changed = rest-put x (2 ^ k) (2 ^ w) v (pow_pos k) (pow_pos w) small

  joined-changed : bit_or (rest_of k w x) (v * 2 ^ k) ≡ changed
  joined-changed =
      ap₂ (λ a b. bit_or a (b * 2 ^ k)) (sym rest-changed) (sym field-changed)
      ∙ joined k w changed place some_bits changed_byte

  put_field_lem : put_field k w v x ≡ changed
  unfolding put_field width2mask
  put_field_lem =
      ap (λ b. u8 (bit_or b (u32 (v * 2 ^ k)))) (masked k w x place some_bits byte)
      ∙ ap (λ b. u8 (bit_or (rest_of k w x) b))
          (small_word (v * 2 ^ k) (unfold changed in omega (arith, changed_byte)))
      ∙ ap u8 joined-changed
      ∙ small_byte changed changed_byte
    where
      small_word : (n : ℕ) → n < 256 → u32 n ≡ n
      small_word n h = omega arith

      small_byte : (n : ℕ) → n < 256 → u8 n ≡ n
      small_byte n h = omega arith

  -- A field that is stored is read again.
  pub get_field-put_field : get_field k w (put_field k w v x) ≡ v
  get_field-put_field =
      ap (get_field k w) put_field_lem
      ∙ get_field_lem k w changed place some_bits changed_byte
      ∙ field-changed

  -- Another field with no bit in common is read as before.
  pub get_field-put_field_apart :
      (j u : ℕ)
      → j + u ≤ 8
      → 0 < u
      → overlap k w j u ≡ false
      → get_field j u (put_field k w v x) ≡ get_field j u x
  get_field-put_field_apart j u place' some' apart =
      ap (get_field j u) put_field_lem
      ∙ get_field_lem j u changed place' some' changed_byte
      ∙ kept changed changed_byte
      ∙ ap (field j u) rest-changed
      ∙ sym (kept x byte)
      ∙ sym (get_field_lem j u x place' some' byte)
    where
      kept : (y : ℕ) → y < 256 → field j u y ≡ field j u (rest_of k w y)
      kept y h = (==_iff _ _).0 (
          each_below_lem _ 256 y h (
            unless (overlap k w j u) _ apart (
              unless (no_place j u) _ (ground arith) (
                each_below_lem _ 9 u (omega arith) (
                  each_below_lem _ 8 j (omega arith) (
                    unless (no_place k w) _ (ground arith) (
                      each_below_lem _ 9 w (omega arith)
                        (each_below_lem _ 8 k (omega arith) apart_table))))))))
