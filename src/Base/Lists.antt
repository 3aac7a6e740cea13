-- ===== src/Base/Lists.antt =====
-- C arrays and sequences as lists, measured and indexed by native numbers.
use Prim.Native.Nat.{ℕ, zero, suc, ◌+◌, ◌-◌, ◌≤◌, min}
use mathlib.Core.Path.{◌≡◌, refl, ap}
use mathlib.Core.Bool.{Bool, true, false}
use mathlib.Core.List.{List, [], ◌∷◌, ◌++◌}
use mathlib.Core.Option.{Option, none, some}
use native.Mathlib.Omega.{arith}
use mathlib.Core.Logic.{inl, inr}
use mhuxd.Base.Tests.{Option-cases, ◌==◌, if◌then◌else◌}

module _ {ℓ} {A : Type ℓ} where
  abbrev pub length : List A → ℕ
  length [] = 0
  length (x ∷ xs) = suc (length xs)

  abbrev pub get_elem? : List A → ℕ → Option A
  get_elem? [] i = none
  get_elem? (x ∷ xs) zero = some x
  get_elem? (x ∷ xs) (suc i) = get_elem? xs i

  abbrev pub get_or : List A → ℕ → A → A
  get_or [] i d = d
  get_or (x ∷ xs) zero d = x
  get_or (x ∷ xs) (suc i) d = get_or xs i d

  -- A write out of bounds changes nothing.
  abbrev pub set : List A → ℕ → A → List A
  set [] i v = []
  set (x ∷ xs) zero v = v ∷ xs
  set (x ∷ xs) (suc i) v = x ∷ set xs i v

  abbrev pub take : ℕ → List A → List A
  take zero xs = []
  take (suc n) [] = []
  take (suc n) (x ∷ xs) = x ∷ take n xs

  abbrev pub drop : ℕ → List A → List A
  drop zero xs = xs
  drop (suc n) [] = []
  drop (suc n) (x ∷ xs) = drop n xs

  abbrev pub replicate : ℕ → A → List A
  replicate zero a = []
  replicate (suc n) a = a ∷ replicate n a

  -- The list without its element at an index: the `memmove` of the rest over it.
  abbrev pub erase_idx : List A → ℕ → List A
  erase_idx [] i = []
  erase_idx (x ∷ xs) zero = xs
  erase_idx (x ∷ xs) (suc i) = x ∷ erase_idx xs i

module _ {ℓ} {A : Type ℓ} where
  pub length-append : (xs ys : List A) → length (xs ++ ys) ≡ length xs + length ys
  length-append [] ys = omega arith
  length-append (x ∷ xs) ys = omega (arith, length-append xs ys)

  pub length-set : (xs : List A) (i : ℕ) (v : A) → length (set xs i v) ≡ length xs
  length-set [] i v = refl
  length-set (x ∷ xs) zero v = refl
  length-set (x ∷ xs) (suc i) v = ap suc (length-set xs i v)

  pub length-take : (n : ℕ) (xs : List A) → length (take n xs) ≡ min n (length xs)
  length-take zero xs = omega arith
  length-take (suc n) [] = omega arith
  length-take (suc n) (x ∷ xs) = omega (arith, length-take n xs)

  pub length-drop : (n : ℕ) (xs : List A) → length (drop n xs) ≡ length xs - n
  length-drop zero xs = omega arith
  length-drop (suc n) [] = omega arith
  length-drop (suc n) (x ∷ xs) = omega (arith, length-drop n xs)

  pub length-replicate : (n : ℕ) (a : A) → length (replicate n a) ≡ n
  length-replicate zero a = refl
  length-replicate (suc n) a = ap suc (length-replicate n a)

  pub length-erase_idx-le : (xs : List A) (i : ℕ) → length (erase_idx xs i) ≤ length xs
  length-erase_idx-le [] i = omega arith
  length-erase_idx-le (x ∷ xs) zero = omega arith
  length-erase_idx-le (x ∷ xs) (suc i) = omega (arith, length-erase_idx-le xs i)

-- A predicate on every element, as a tuple of its instances.
abbrev pub All {ℓ κ} : {A : Type ℓ} → (A → Type κ) → List A → Type κ
All P [] = Unit
All P (x ∷ xs) = P x × All P xs

module _ {ℓ κ} {A : Type ℓ} (P : A → Type κ) where
  pub All-append : (xs ys : List A) → All P xs → All P ys → All P (xs ++ ys)
  All-append [] ys hx hy = hy
  All-append (x ∷ xs) ys hx hy = (hx.0, All-append xs ys hx.1 hy)

  pub All-erase_idx : (xs : List A) (i : ℕ) → All P xs → All P (erase_idx xs i)
  All-erase_idx [] i h = h
  All-erase_idx (x ∷ xs) zero h = h.1
  All-erase_idx (x ∷ xs) (suc i) h = (h.0, All-erase_idx xs i h.1)

  pub All-get_or : (d : A) (xs : List A) (i : ℕ) → P d → All P xs → P (get_or xs i d)
  All-get_or d [] i h a = h
  All-get_or d (x ∷ xs) zero h a = a.0
  All-get_or d (x ∷ xs) (suc i) h a = All-get_or d xs i h a.1

-- A table indexed by numbers, with one entry given anew.
abbrev pub update {ℓ} : {A : Type ℓ} → (ℕ → A) → ℕ → A → ℕ → A
update f p v q = if p == q then v else f q

-- `memcmp(xs, ys, n) == 0` of two sequences of the same length `n`.
abbrev pub bytes_eq : List ℕ → List ℕ → Bool
bytes_eq [] [] = true
bytes_eq [] (y ∷ ys) = false
bytes_eq (x ∷ xs) [] = false
bytes_eq (x ∷ xs) (y ∷ ys) = let rest = bytes_eq xs ys in if x == y then rest else false

pub bytes_eq_refl : (xs : List ℕ) → bytes_eq xs xs ≡ true
bytes_eq_refl [] = refl
bytes_eq_refl (x ∷ xs) = ground (arith, bytes_eq_refl xs)

pub bytes_eq_sound : (xs ys : List ℕ) → bytes_eq xs ys ≡ true → xs ≡ ys
bytes_eq_sound [] [] h = refl
bytes_eq_sound [] (y ∷ ys) h = cc
bytes_eq_sound (x ∷ xs) [] h = cc
bytes_eq_sound (x ∷ xs) (y ∷ ys) h = ground (arith, bytes_eq_sound xs ys)

module _ {ℓ} {A : Type ℓ} where
  -- The first index at which a test holds: the `for` loops that return one.
  abbrev pub find_idx : (A → Bool) → List A → Option ℕ
  find_idx p [] = none
  find_idx p (x ∷ xs) =
      let rest = find_idx p xs in
      if p x then some 0 else elim rest [ none ↦ none | some i ↦ some (suc i) ]

  -- Whether a test holds somewhere.
  abbrev pub any_of : (A → Bool) → List A → Bool
  any_of p [] = false
  any_of p (x ∷ xs) = let rest = any_of p xs in if p x then true else rest

  -- The test holds at the index that was found.
  pub find_idx_lem :
      (p : A → Bool) (d : A) (xs : List A) (i : ℕ)
      → find_idx p xs ≡ some i
      → p (get_or xs i d) ≡ true
  find_idx_lem p d [] i h = cc
  find_idx_lem p d (x ∷ xs) zero h = elim (Option-cases (find_idx p xs)) [
    | inl e ↦ ground (arith, h, e)
    | inr (k, e) ↦ ground (arith, h, e)
  ]
  find_idx_lem p d (x ∷ xs) (suc j) h = elim (Option-cases (find_idx p xs)) [
    | inl e ↦ ground (arith, h, e)
    | inr (k, e) ↦ ground (arith, h, e, find_idx_lem p d xs j)
  ]

-- What holds of both cases of a list holds of it.
pub List-elim {ℓ κ μ} :
    {A : Type ℓ} {B : Type κ} (P : B → Type μ) (xs : List A) (x : B) (f : A → List A → B)
    → (xs ≡ [] → P x)
    → ((a : A) (as' : List A) → xs ≡ a ∷ as' → P (f a as'))
    → P (elim xs [ [] ↦ x | a ∷ as' ↦ f a as' ])
List-elim P [] x f h g = h refl
List-elim P (a ∷ as') x f h g = g a as' refl
