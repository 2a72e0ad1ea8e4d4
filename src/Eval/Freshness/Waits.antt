-- ===== src/Eval/Freshness/Waits.antt =====
-- The modelled hourly batch: how long one update waits, and what the sweep over all phases says.
use native.Mathlib.Nat.{mod-lt, div-add-mod', mul-add-mod_self_right, mod-eq_of_lt}
use freshet.Prelude.{
  ℕ, ◌+◌, ◌-◌, ◌*◌, ◌/◌, ◌%◌, ◌≤◌, ◌<◌, ◌≡◌, ap, ◌∙◌, min, max, none, some, List, [], ◌∷◌, length,
  All, arith, some, subst,
}
use freshet.Eval.Freshness.{
  batch_staleness, batch_alignment_sweep, sum, minimum, maximum, Summary, summarize, summary_of,
  some,
}

-- An update waits for the next boundary: a positive time, at most the interval, after which the
-- clock stands at the phase.
pub batch_staleness-boundary :
    (posted interval phase : ℕ)
    → phase < interval
    → (0 < batch_staleness posted interval phase)
      × (batch_staleness posted interval phase ≤ interval)
      × ((posted + batch_staleness posted interval phase) % interval ≡ phase)
unfolding batch_staleness
batch_staleness-boundary posted interval phase h =
    let a = posted + interval - phase in
    let small = mod-lt a {m = interval} (omega arith) in
    let split = div-add-mod' a interval in
    (
      omega (arith, small),
      omega arith,
      ap (λ t. t % interval) (omega (arith, small, split))
          ∙ mul-add-mod_self_right (a / interval) interval phase
          ∙ mod-eq_of_lt h,
    )

minimum_le : (m : ℕ) (xs : List ℕ) → (minimum m xs ≤ m) × All (λ x. minimum m xs ≤ x) xs
unfolding minimum
minimum_le m [] = (omega arith, tt)
minimum_le m (x ∷ xs) =
    let (first, rest) = minimum_le (min m x) xs in
    (omega (arith, first), (omega (arith, first), rest))

maximum_ge : (m : ℕ) (xs : List ℕ) → (m ≤ maximum m xs) × All (λ x. x ≤ maximum m xs) xs
unfolding maximum
maximum_ge m [] = (omega arith, tt)
maximum_ge m (x ∷ xs) =
    let (first, rest) = maximum_ge (max m x) xs in
    (omega (arith, first), (omega (arith, first), rest))

sum_bounds :
    (lo hi : ℕ) (xs : List ℕ)
    → All (λ x. lo ≤ x) xs
    → All (λ x. x ≤ hi) xs
    → (length xs * lo ≤ sum xs) × (sum xs ≤ length xs * hi)
unfolding sum
sum_bounds lo hi [] l h = (omega arith, omega arith)
sum_bounds lo hi (x ∷ xs) l h =
    let (below, above) = sum_bounds lo hi xs l.1 h.1 in
    (omega (arith, below, l.0), omega (arith, above, h.0))

-- Where the summary's batch numbers stand to each other.
pub record IsBetween (r : Summary) : Type 0 where
  pub above : r.batch_alignments * r.batch_min ≤ r.batch_sum
  pub below : r.batch_sum ≤ r.batch_alignments * r.batch_max
  pub top_above : r.batch_min ≤ r.batch_top_of_hour
  pub top_below : r.batch_top_of_hour ≤ r.batch_max

summary_of-IsBetween :
    (ceil_share : ℕ → ℕ → ℕ) (streaming sweep : List ℕ) (r : Summary)
    → summary_of ceil_share streaming sweep ≡ some r
    → IsBetween r
summary_of-IsBetween ceil_share streaming [] r e = cc
summary_of-IsBetween ceil_share streaming (first ∷ rest) r e =
    let (lo, los) = minimum_le first rest in
    let (hi, his) = maximum_ge first rest in
    let (below, above) =
      sum_bounds (minimum first rest) (maximum first rest) (first ∷ rest) (lo, los) (hi, his) in
    subst (λ o. elim o as (λ _. Type 0) [ none ↦ Unit {0} | some r' ↦ IsBetween r' ]) e
      (record { above = below; below = above; top_above = lo; top_below = hi })

-- In every summary the mean over all phases of the batch lies between the best phase and the worst,
-- and so does the phase at the top of the hour.
pub summarize-IsBetween :
    (ceil_share : ℕ → ℕ → ℕ) (streaming posted_ats : List ℕ) (interval n : ℕ) (r : Summary)
    → summarize ceil_share streaming posted_ats interval n ≡ some r
    → IsBetween r
unfolding summarize
summarize-IsBetween ceil_share [] posted_ats interval n r e = cc
summarize-IsBetween ceil_share (s ∷ ss) posted_ats interval n r e =
    summary_of-IsBetween ceil_share (s ∷ ss) (batch_alignment_sweep posted_ats interval n) r e
