-- ===== src/Base/Sweeps.antt =====
-- The loops of the program that remove from an array by index, last index first.
use Prim.Native.Nat.{ℕ, zero, suc}
use mathlib.Core.Path.{◌≡◌, refl, ap, ◌∙◌}
use mathlib.Core.Logic.{inl, inr}
use mathlib.Core.Bool.{Bool, false}
use mathlib.Core.List.{List, [], ◌∷◌, ◌++◌}
use mhuxd.Base.Tests.{if◌then◌else◌, Bool-cases}
use mhuxd.Base.Lists.{length, get_or, take, drop, erase_idx, any_of}

module _ {ℓ} {A : Type ℓ} (p : A → Bool) where
  -- The elements that the test does not hold of, in their order.
  abbrev pub reject : List A → List A
  reject [] = []
  reject (x ∷ xs) = let rest = reject xs in if p x then rest else x ∷ rest

  module _ (d : A) where
    -- The removals at the indices below `n`, the last first.
    abbrev pub sweep : ℕ → List A → List A
    sweep zero xs = xs
    sweep (suc j) xs = sweep j (if p (get_or xs j d) then erase_idx xs j else xs)

    sweep_nil : (n : ℕ) → sweep n [] ≡ []
    sweep_nil zero = refl
    sweep_nil (suc n) = elim (Bool-cases (p d)) [
      | inl e ↦ rw e (sweep_nil n)
      | inr e ↦ rw e (sweep_nil n)
    ]

    sweep_cons :
        (n : ℕ) (x : A) (xs : List A)
        → sweep (suc n) (x ∷ xs) ≡ (if p x then sweep n xs else x ∷ sweep n xs)
    sweep_cons zero x xs = refl
    sweep_cons (suc n) x xs = elim (Bool-cases (p (get_or xs n d))) [
      | inl e ↦ rw e (sweep_cons n x (erase_idx xs n))
      | inr e ↦ rw e (sweep_cons n x xs)
    ]

    pub sweep-reject : (n : ℕ) (xs : List A) → sweep n xs ≡ reject (take n xs) ++ drop n xs
    sweep-reject zero xs = refl
    sweep-reject (suc n) [] = sweep_nil (suc n)
    sweep-reject (suc n) (x ∷ xs) = sweep_cons n x xs ∙ elim (Bool-cases (p x)) [
      | inl e ↦ rw e (sweep-reject n xs)
      | inr e ↦ rw e (ap (λ ys. x ∷ ys) (sweep-reject n xs))
    ]

    pub sweep-all : (xs : List A) → sweep (length xs) xs ≡ reject xs
    sweep-all [] = refl
    sweep-all (x ∷ xs) = sweep_cons (length xs) x xs ∙ elim (Bool-cases (p x)) [
      | inl e ↦ rw e (sweep-all xs)
      | inr e ↦ rw e (ap (λ ys. x ∷ ys) (sweep-all xs))
    ]

  -- Nothing that was rejected is found again.
  pub any_of-reject :
      (q : A → Bool) (xs : List A)
      → ((x : A) → p x ≡ false → q x ≡ false)
      → any_of q (reject xs) ≡ false
  any_of-reject q [] h = refl
  any_of-reject q (x ∷ xs) h = elim (Bool-cases (p x)) [
    | inl e ↦ rw e (any_of-reject q xs h)
    | inr e ↦ rw (e, h x e) (any_of-reject q xs h)
  ]
