-- ===== src/Prelude/Sort/Laws.antt =====
-- What a sort does to the order and to the elements.
use freshet.Prelude.Sort.{insert_by, sort_by}
use Prim.Native.Nat.{ℕ, suc, ◌+◌}
use mathlib.Core.Path.{◌≡◌, refl}
use mathlib.Core.Logic.{inl, inr}
use mathlib.Core.Bool.{Bool, true, false}
use mathlib.Core.List.{List, [], ◌∷◌}
use native.Mathlib.Omega.{arith}
use freshet.Prelude.Tests.{if◌then◌else◌, Bool-cases}
use freshet.Prelude.Lists.{All, All-map, length}

module _ {ℓ} {A : Type ℓ} where
  -- No element stands behind one that it must precede.
  abbrev pub IsSorted : (A → A → Bool) → List A → Type 0
  IsSorted le [] = Unit
  IsSorted le (x ∷ xs) = All (λ y. le x y ≡ true) xs × IsSorted le xs

  -- How many elements pass a test.
  unfoldable pub count : (A → Bool) → List A → ℕ
  count p [] = 0
  count p (x ∷ xs) = (if p x then 1 else 0) + count p xs

  count-insert_by :
      (le : A → A → Bool) (p : A → Bool) (x : A) (ys : List A)
      → count p (insert_by le x ys) ≡ (if p x then 1 else 0) + count p ys
  unfolding insert_by count
  count-insert_by le p x [] = refl
  count-insert_by le p x (y ∷ ys) = elim (Bool-cases (le x y)) [
    | inl first ↦ rw first refl
    | inr later ↦ rw later (omega (arith, count-insert_by le p x ys))
  ]

  -- A sort keeps every element as often as it was there.
  pub count-sort_by :
      (le : A → A → Bool) (p : A → Bool) (xs : List A) → count p (sort_by le xs) ≡ count p xs
  unfolding sort_by count
  count-sort_by le p [] = refl
  count-sort_by le p (x ∷ xs) =
      omega (arith, count-insert_by le p x (sort_by le xs), count-sort_by le p xs)

  length-insert_by :
      (le : A → A → Bool) (x : A) (ys : List A) → length (insert_by le x ys) ≡ suc (length ys)
  unfolding insert_by
  length-insert_by le x [] = refl
  length-insert_by le x (y ∷ ys) = elim (Bool-cases (le x y)) [
    | inl first ↦ rw first refl
    | inr later ↦ rw later (omega (arith, length-insert_by le x ys))
  ]

  pub length-sort_by : (le : A → A → Bool) (xs : List A) → length (sort_by le xs) ≡ length xs
  unfolding sort_by
  length-sort_by le [] = refl
  length-sort_by le (x ∷ xs) =
      omega (arith, length-insert_by le x (sort_by le xs), length-sort_by le xs)

  module _ (le : A → A → Bool) (total : (x y : A) → le x y ≡ false → le y x ≡ true)
      (trans : (x y z : A) → le x y ≡ true → le y z ≡ true → le x z ≡ true) where
    All-insert :
        (z x : A) (ys : List A)
        → le z x ≡ true
        → All (λ y. le z y ≡ true) ys
        → All (λ y. le z y ≡ true) (insert_by le x ys)
    unfolding insert_by
    All-insert z x [] h hs = (h, tt)
    All-insert z x (y ∷ ys) h hs = elim (Bool-cases (le x y)) [
      | inl first ↦ rw first (h, (hs.0, hs.1))
      | inr later ↦ rw later (hs.0, All-insert z x ys h hs.1)
    ]

    insert_by-IsSorted : (x : A) (ys : List A) → IsSorted le ys → IsSorted le (insert_by le x ys)
    unfolding insert_by
    insert_by-IsSorted x [] h = (tt, tt)
    insert_by-IsSorted x (y ∷ ys) h = elim (Bool-cases (le x y)) [
      | inl first ↦ rw first (
        (
          first,
          All-map (λ z. le y z ≡ true) (λ z. le x z ≡ true) ys (λ z below. trans x y z first below)
              h.0,
        ),
        h,
      )
      | inr later ↦ rw later (All-insert y x ys (total x y later) h.0, insert_by-IsSorted x ys h.1)
    ]

    pub sort_by-IsSorted : (xs : List A) → IsSorted le (sort_by le xs)
    unfolding sort_by
    sort_by-IsSorted [] = tt
    sort_by-IsSorted (x ∷ xs) = insert_by-IsSorted x (sort_by le xs) (sort_by-IsSorted xs)
