-- ===== src/Kcfg/Layout.antt =====
-- src/kcfg.c: the options of a keyer lie in its settings, each in bits of its own, and how a table and
-- its bytes are searched.
use mhuxd.Base.{
  ℕ, zero, suc, ◌+◌, ◌%◌, ◌<◌, ◌≡◌, refl, arith, Bool, true, false, not, ◌&&◌, ◌||◌, some, List, [],
  ◌∷◌, ◌==◌, ltb, leb, length, get_elem?, set, All, str_case_eq, Bool-cases, inl, inr,
}
use mhuxd.Kcfg.Items.{Citem}
use mhuxd.Kcfg.Settings.{Kcfg, find_citem, index_of, shift_of}
use mhuxd.Kcfg.Fields.{overlap}

-- A field of bits within one of `n` bytes.
abbrev pub fits : ℕ → Citem → Bool
fits n cp = ltb 0 cp.width && (leb cp.width (cp.base_bit % 8 + 1) && ltb (index_of cp) n)

abbrev pub IsByte : ℕ → Type 0
IsByte c = c < 256

abbrev pub each_of {ℓ} : {A : Type ℓ} → (A → Bool) → List A → Bool
each_of p [] = true
each_of p (x ∷ xs) = p x && each_of p xs

-- two options with a bit in common
abbrev pub collide : Citem → Citem → Bool
collide a b = index_of a == index_of b && overlap (shift_of a) a.width (shift_of b) b.width

-- Options of different names have no bit in common.
abbrev pub clear_of : Citem → Citem → Bool
clear_of a b = not (collide a b) || str_case_eq a.key b.key

abbrev pub IsApart : List Citem → Type 0
IsApart is = each_of (λ a. each_of (clear_of a) is) is ≡ true

-- Settings made of bytes, with all their options in them, and those of different names apart.
pub record IsKcfg (k : Kcfg) : Type 0 where
  pub all_bytes : All IsByte k.bytes
  pub all_fit : each_of (fits (length k.bytes)) k.items ≡ true
  pub all_apart : IsApart k.items

-- What is found is an option of the table, of that name.
pub found-each :
    (p : Citem → Bool) (is : List Citem) (key : List ℕ) (cp : Citem)
    → find_citem is key ≡ some cp
    → each_of p is ≡ true
    → p cp ≡ true
unfolding find_citem
found-each p [] key cp e h = absurd (cc)
found-each p (i ∷ is) key cp e h = elim (Bool-cases (str_case_eq key i.key)) [
  | inl y ↦ ground (arith, y)
  | inr n ↦ found-each p is key cp (ground (arith, n)) (ground arith)
]

pub found-key :
    (is : List Citem) (key : List ℕ) (cp : Citem)
    → find_citem is key ≡ some cp
    → str_case_eq key cp.key ≡ true
unfolding find_citem
found-key [] key cp e = absurd (cc)
found-key (i ∷ is) key cp e = elim (Bool-cases (str_case_eq key i.key)) [
  | inl y ↦ ground (arith, y)
  | inr n ↦ found-key is key cp (ground (arith, n))
]

pub get_elem?-set :
    (xs : List ℕ) (i v c : ℕ) → get_elem? xs i ≡ some c → get_elem? (set xs i v) i ≡ some v
get_elem?-set [] i v c e = absurd (cc)
get_elem?-set (x ∷ xs) zero v c e = refl
get_elem?-set (x ∷ xs) (suc i) v c e = get_elem?-set xs i v c e

pub get_elem?-set_other :
    (xs : List ℕ) (i j v : ℕ) → (i == j) ≡ false → get_elem? (set xs i v) j ≡ get_elem? xs j
get_elem?-set_other [] i j v e = refl
get_elem?-set_other (x ∷ xs) zero zero v e = absurd (cc)
get_elem?-set_other (x ∷ xs) zero (suc j) v e = refl
get_elem?-set_other (x ∷ xs) (suc i) zero v e = refl
get_elem?-set_other (x ∷ xs) (suc i) (suc j) v e = get_elem?-set_other xs i j v (ground arith)

pub All-get_elem? : (xs : List ℕ) (i c : ℕ) → All IsByte xs → get_elem? xs i ≡ some c → IsByte c
All-get_elem? [] i c h e = absurd (cc)
All-get_elem? (x ∷ xs) zero c h e = ground arith
All-get_elem? (x ∷ xs) (suc i) c h e = All-get_elem? xs i c h.1 e

pub All-set : (xs : List ℕ) (i v : ℕ) → IsByte v → All IsByte xs → All IsByte (set xs i v)
All-set [] i v b h = h
All-set (x ∷ xs) zero v b h = (b, h.1)
All-set (x ∷ xs) (suc i) v b h = (h.0, All-set xs i v b h.1)
