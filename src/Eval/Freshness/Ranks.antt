-- ===== src/Eval/Freshness/Ranks.antt =====
-- The values around the one that `percentile` gives.
use freshet.Prelude.{
  ℕ, zero, suc, ◌+◌, ◌*◌, ◌/◌, ◌≤◌, ◌<◌, ◌≡◌, refl, true, false, some, List, [], ◌∷◌, ltb, leb,
  length, All, get_elem?, arith, subst,
}
use native.Mathlib.Nat.{mul-le-mul_right}
use freshet.Prelude.Sort.{sort_by}
use freshet.Prelude.Sort.Laws.{IsSorted, count, count-sort_by, length-sort_by, sort_by-IsSorted}
use freshet.Eval.Freshness.{rank, percentile}

none_below : (x : ℕ) (ys : List ℕ) → All (λ y. leb x y ≡ true) ys → count (λ y. ltb y x) ys ≡ 0
unfolding count
none_below x [] h = refl
none_below x (y ∷ ys) h = ground (arith, h.0, none_below x ys h.1)

get_elem?-All : (P : ℕ → Type 0) (xs : List ℕ) (k v : ℕ) → All P xs → get_elem? xs k ≡ some v → P v
unfolding get_elem?
get_elem?-All P [] k v h e = cc
get_elem?-All P (x ∷ xs) zero v h e = let same : x ≡ v = cc in subst P same h.0
get_elem?-All P (x ∷ xs) (suc k) v h e = get_elem?-All P xs k v h.1 e

rank_counts :
    (xs : List ℕ) (k v : ℕ)
    → IsSorted leb xs
    → get_elem? xs k ≡ some v
    → (k < count (λ x. leb x v) xs) × (count (λ x. ltb x v) xs ≤ k)
unfolding get_elem? count
rank_counts [] k v h e = cc
rank_counts (x ∷ xs) zero v h e =
    let same : x ≡ v = cc in
    subst (λ v. (0 < count (λ x. leb x v) (x ∷ xs)) × (count (λ x. ltb x v) (x ∷ xs) ≤ 0)) same
      (ground arith, ground (arith, none_below x xs h.0))
rank_counts (x ∷ xs) (suc k) v h e =
    let (above, below) = rank_counts xs k v h.1 e in
    let first : leb x v ≡ true = get_elem?-All (λ y. leb x y ≡ true) xs k v h.0 e in
    (ground (arith, first, above), ground (arith, first, below))

get_elem?-found : (xs : List ℕ) (k : ℕ) → k < length xs → (v : ℕ) × (get_elem? xs k ≡ some v)
unfolding get_elem?
get_elem?-found [] k h = absurd (omega arith)
get_elem?-found (x ∷ xs) zero h = (x, refl)
get_elem?-found (x ∷ xs) (suc k) h = get_elem?-found xs k (omega arith)

-- What the p-th percentile of some values is: at least p percent of them are at most it, and fewer
-- are below it.
pub record IsPercentile (values : List ℕ) (p v : ℕ) : Type 0 where
  pub reached : p * length values ≤ 100 * count (λ x. leb x v) values
  pub least : 100 * count (λ x. ltb x v) values < p * length values

-- `p / 100 * n`, rounded up.
abbrev pub exact_share : ℕ → ℕ → ℕ
exact_share p n = (p * n + 99) / 100

rank_below : (share : ℕ → ℕ → ℕ) (p n : ℕ) → 0 < n → rank share p n < n
unfolding rank
rank_below share p n h = omega arith

module _ (share : ℕ → ℕ → ℕ) (p n : ℕ) (exact : share p n ≡ exact_share p n) where
  rank_reached : (a : ℕ) → p ≤ 100 → rank share p n < a → p * n ≤ 100 * n → p * n ≤ 100 * a
  unfolding rank
  rank_reached a hp h cap = omega (arith, exact)

  rank_least : (b : ℕ) → 0 < p * n → b ≤ rank share p n → 100 * b < p * n
  unfolding rank
  rank_least b pos h = omega (arith, exact)

leb_total : (x y : ℕ) → leb x y ≡ false → leb y x ≡ true
leb_total x y h = ground arith

leb_trans : (x y z : ℕ) → leb x y ≡ true → leb y z ≡ true → leb x z ≡ true
leb_trans x y z h h' = ground arith

-- For a percentage from 1 to 100 and at least one value, and where the floats round that share of
-- their number up to the right number: `percentile` gives a value, and of the given values at least
-- that share is at most it, and a smaller share is below it.
pub percentile-IsPercentile :
    (share : ℕ → ℕ → ℕ) (x : ℕ) (xs : List ℕ) (p : ℕ)
    → share p (length (x ∷ xs)) ≡ exact_share p (length (x ∷ xs))
    → 0 < p
    → p ≤ 100
    → (v : ℕ) × (percentile share (x ∷ xs) p ≡ some v) × IsPercentile (x ∷ xs) p v
unfolding percentile
percentile-IsPercentile share x xs p exact pos cap =
    let n = length (x ∷ xs) in
    let sorted = sort_by leb (x ∷ xs) in
    let (v, e) =
      get_elem?-found sorted (rank share p n)
        (omega (arith, rank_below share p n (omega arith), length-sort_by leb (x ∷ xs))) in
    let (above, below) =
      rank_counts sorted (rank share p n) v (sort_by-IsSorted leb leb_total leb_trans (x ∷ xs)) e in
    (
      v,
      e,
      record {
        reached =
            rank_reached share p n exact _ cap
              (omega (arith, above, count-sort_by leb (λ y. leb y v) (x ∷ xs)))
              (mul-le-mul_right n cap);
        least =
            rank_least share p n exact _ (omega arith)
              (omega (arith, below, count-sort_by leb (λ y. ltb y v) (x ∷ xs)));
      },
    )
