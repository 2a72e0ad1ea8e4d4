-- ===== src/Prelude/Sort.antt =====
-- A stable sort: Python's `sorted`, and the order of an ORDER BY.
pub mod Laws
use mathlib.Core.Bool.{Bool, true, false}
use mathlib.Core.List.{List, [], ◌∷◌}
use freshet.Prelude.Tests.{if◌then◌else◌}
use freshet.Prelude.Lists.{All}

module _ {ℓ} {A : Type ℓ} (le : A → A → Bool) where
  unfoldable pub insert_by : A → List A → List A
  insert_by x [] = x ∷ []
  insert_by x (y ∷ ys) = if le x y then x ∷ y ∷ ys else y ∷ insert_by x ys

  unfoldable pub sort_by : List A → List A
  unfolding insert_by
  sort_by [] = []
  sort_by (x ∷ xs) = insert_by x (sort_by xs)

module _ {ℓ κ} {A : Type ℓ} (P : A → Type κ) (le : A → A → Bool) where
  All-insert_by : (x : A) (ys : List A) → P x → All P ys → All P (insert_by le x ys)
  unfolding insert_by
  All-insert_by x [] h hs = (h, tt)
  All-insert_by x (y ∷ ys) h hs =
      elim (le x y) as (λ b. All P (if b then x ∷ y ∷ ys else y ∷ insert_by le x ys)) [
        | true ↦ (h, (hs.0, hs.1))
        | false ↦ (hs.0, All-insert_by x ys h hs.1)
      ]

  pub All-sort_by : (xs : List A) → All P xs → All P (sort_by le xs)
  unfolding sort_by
  All-sort_by [] h = tt
  All-sort_by (x ∷ xs) h = All-insert_by x (sort_by le xs) h.0 (All-sort_by xs h.1)

  insert_by-All : (x : A) (ys : List A) → All P (insert_by le x ys) → P x × All P ys
  unfolding insert_by
  insert_by-All x [] h = h
  insert_by-All x (y ∷ ys) h = chosen (le x y) (λ h'. insert_by-All x ys h') h
    where
      chosen :
          (b : Bool)
          → (All P (insert_by le x ys) → P x × All P ys)
          → All P (if b then x ∷ y ∷ ys else y ∷ insert_by le x ys)
          → P x × All P (y ∷ ys)
      chosen true rest h' = h'
      chosen false rest h' = let (px, pys) = rest h'.1 in (px, (h'.0, pys))

  pub sort_by-All : (xs : List A) → All P (sort_by le xs) → All P xs
  unfolding sort_by
  sort_by-All [] h = tt
  sort_by-All (x ∷ xs) h =
      let (px, pxs) = insert_by-All x (sort_by le xs) h in (px, sort_by-All xs pxs)
