-- ===== src/Tests/Measures.antt =====
-- The measurements on small runs.
use freshet.Prelude.{ℕ, ◌≡◌, refl, String, Bool, true, false, some, List, [], ◌∷◌, arith}
use freshet.Eval.Freshness.{percentile, ChunkRow}
use freshet.Eval.Freshness.Ranks.{IsPercentile, percentile-IsPercentile, exact_share}

percentile-IsPercentile_example :
    (v : ℕ) × (percentile exact_share (30 ∷ 10 ∷ 20 ∷ []) 50 ≡ some v)
    × IsPercentile (30 ∷ 10 ∷ 20 ∷ []) 50 v
percentile-IsPercentile_example =
    percentile-IsPercentile exact_share 30 (10 ∷ 20 ∷ []) 50 refl (omega arith) (omega arith)

abbrev chunk : String → ℕ → ChunkRow
chunk e queryable = record { posted = 10; queryable = queryable; event_id = e }

abbrev rows : List ChunkRow
rows = chunk "a" 12 ∷ chunk "b" 13 ∷ chunk "a" 19 ∷ []

abbrev found : List String
found = "q" ∷ "a" ∷ "b" ∷ "a" ∷ []

abbrev any_order : String → String → Bool
any_order a b = true

any_total : (x y : String) → any_order x y ≡ false → any_order y x ≡ true
any_total x y h = refl

any_trans : (x y z : String) → any_order x y ≡ true → any_order y z ≡ true → any_order x z ≡ true
any_trans x y z h h' = refl

abbrev second_update : String × ℕ
second_update = ("b", 20)
