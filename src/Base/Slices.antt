-- ===== src/Base/Slices.antt =====
-- Windows of an array: `take`, `drop`, and a write in place.
use Prim.Native.Nat.{ℕ, zero, suc, ◌+◌, ◌≤◌, ◌<◌}
use mathlib.Core.Path.{◌≡◌, refl, ap}
use mathlib.Core.List.{List, [], ◌∷◌, ◌++◌}
use native.Mathlib.Omega.{arith}
use mhuxd.Base.Lists.{length, take, drop, get_or, set}

module _ {ℓ} {A : Type ℓ} where
  pub take-length : (xs : List A) (n : ℕ) → length xs ≤ n → take n xs ≡ xs
  take-length [] zero h = refl
  take-length [] (suc n) h = refl
  take-length (x ∷ xs) zero h = absurd (omega arith)
  take-length (x ∷ xs) (suc n) h = ap (λ t. x ∷ t) (take-length xs n (omega arith))

  pub drop-nil_of_le : (xs : List A) (n : ℕ) → length xs ≤ n → drop n xs ≡ []
  drop-nil_of_le [] zero h = refl
  drop-nil_of_le [] (suc n) h = refl
  drop-nil_of_le (x ∷ xs) zero h = absurd (omega arith)
  drop-nil_of_le (x ∷ xs) (suc n) h = drop-nil_of_le xs n (omega arith)

  pub take-set_next :
      (xs : List A) (i : ℕ) (v : A)
      → i < length xs
      → take (suc i) (set xs i v) ≡ take i xs ++ v ∷ []
  take-set_next [] i v h = absurd (omega arith)
  take-set_next (x ∷ xs) zero v h = refl
  take-set_next (x ∷ xs) (suc i) v h = ap (λ t. x ∷ t) (take-set_next xs i v (omega arith))

  pub drop-append : (xs ys : List A) (n : ℕ) → n ≤ length xs → drop n (xs ++ ys) ≡ drop n xs ++ ys
  drop-append [] ys zero h = refl
  drop-append [] ys (suc n) h = absurd (omega arith)
  drop-append (x ∷ xs) ys zero h = refl
  drop-append (x ∷ xs) ys (suc n) h = drop-append xs ys n (omega arith)

  pub drop-get_or :
      (xs : List A) (i : ℕ) (d : A) → i < length xs → drop i xs ≡ get_or xs i d ∷ drop (suc i) xs
  drop-get_or [] i d h = absurd (omega arith)
  drop-get_or (x ∷ xs) zero d h = refl
  drop-get_or (x ∷ xs) (suc i) d h = drop-get_or xs i d (omega arith)

  pub get_or-take : (xs : List A) (n i : ℕ) (d : A) → i < n → get_or (take n xs) i d ≡ get_or xs i d
  get_or-take xs zero i d h = absurd (omega arith)
  get_or-take [] (suc n) i d h = refl
  get_or-take (x ∷ xs) (suc n) zero d h = refl
  get_or-take (x ∷ xs) (suc n) (suc i) d h = get_or-take xs n i d (omega arith)

  pub drop-drop : (xs : List A) (m n k : ℕ) → k ≡ m + n → drop n (drop m xs) ≡ drop k xs
  drop-drop xs zero n k e = ap (λ (j : ℕ). drop j xs) (omega arith)
  drop-drop [] (suc m) zero zero e = refl
  drop-drop [] (suc m) zero (suc k) e = refl
  drop-drop [] (suc m) (suc n) zero e = refl
  drop-drop [] (suc m) (suc n) (suc k) e = refl
  drop-drop (x ∷ xs) (suc m) n zero e = absurd (omega arith)
  drop-drop (x ∷ xs) (suc m) n (suc k) e = drop-drop xs m n k (omega arith)

  pub take-drop : (xs : List A) (m n k : ℕ) → k ≡ m + n → take n (drop m xs) ≡ drop m (take k xs)
  take-drop xs zero n k e = ap (λ (j : ℕ). take j xs) (omega arith)
  take-drop [] (suc m) zero zero e = refl
  take-drop [] (suc m) zero (suc k) e = refl
  take-drop [] (suc m) (suc n) zero e = refl
  take-drop [] (suc m) (suc n) (suc k) e = refl
  take-drop (x ∷ xs) (suc m) n zero e = absurd (omega arith)
  take-drop (x ∷ xs) (suc m) n (suc k) e = take-drop xs m n k (omega arith)
