-- ===== src/Rag/Retrieval.antt =====
-- freshet/rag/retrieval.py: fusion, abstention and the check of the index's model. The two queries'
-- answers are arguments. A cosine, from -1 to 1, is the number of billionths by which it is above
-- -1; a fused score is an exact fraction.
pub mod Fusion
pub mod Abstention
pub mod Arms
use freshet.Prelude.{
  ℕ, suc, ◌+◌, String, Bool, true, false, ◌||◌, not, Option, none, some, List, [], ◌∷◌, map, max,
  ltb, str_eq, get_or, if◌then◌else◌, take,
}
use freshet.Prelude.Sort.{sort_by}
use freshet.Prelude.Table.{Table, find, put}
use freshet.Prelude.Fraction.{Fraction, nought, plus, fraction_leb}
use freshet.Prelude.Exec.{Result, ok, err, other}

-- RRF_K - 1, and ARM_K
abbrev pub below_rrf_k : ℕ
below_rrf_k = 59

abbrev pub arm_k : ℕ
arm_k = 20

-- `1.0 / (rrf_k + rank)`, where `below_k` is `rrf_k - 1`: for an `rrf_k` of zero the source divides
-- by zero, and there is none here.
abbrev pub reciprocal : (below_k rank : ℕ) → Fraction
reciprocal below_k rank = record { num = 1; over = below_k + rank }

-- The inner loop, over one list from a rank on.
unfoldable pub add_ranks : ℕ → ℕ → List String → Table Fraction → Table Fraction
add_ranks k rank [] scores = scores
add_ranks k rank (c ∷ rest) scores =
    add_ranks k (suc rank) rest
      (put c (plus (get_or (find c scores) nought) (reciprocal k rank)) scores)

unfoldable pub add_lists : ℕ → List (List String) → Table Fraction → Table Fraction
add_lists k [] scores = scores
add_lists k (ranked ∷ rest) scores = add_lists k rest (add_ranks k 0 ranked scores)

-- `sorted(..., key=..., reverse=True)` keeps the order of equals.
abbrev pub no_worse : String × Fraction → String × Fraction → Bool
no_worse a b = fraction_leb b.1 a.1

unfoldable pub reciprocal_rank_fusion :
    List (List String) → (below_k : ℕ) → List (String × Fraction)
reciprocal_rank_fusion ranked_lists k = sort_by no_worse (add_lists k ranked_lists [])

abbrev pub largest : ℕ → List ℕ → ℕ
largest m [] = m
largest m (x ∷ xs) = largest (max m x) xs

unfoldable pub should_abstain : List ℕ → ℕ → Bool
should_abstain [] floor = true
should_abstain (x ∷ xs) floor = ltb (largest x xs) floor

-- A row of either arm, and `RetrievedHit`, which has its columns.
pub record Row : Type 0 where
  pub chunk_id : String
  pub event_id : String
  pub service : String
  pub ts : ℕ
  pub indexed_at : ℕ
  pub source : String
  pub text : String
  pub type_name : String
  pub title : Option String
  pub similarity : ℕ
  pub centered_similarity : Option ℕ

pub record RetrievedHit : Type 0 where
  pub row : Row
  pub open row use *
  pub score : Fraction

pub record HybridResult : Type 0 where
  pub hits : List RetrievedHit
  pub abstained : Bool

-- `_rows_to_map`
unfoldable pub rows_to_map : List Row → Table Row → Table Row
rows_to_map [] m = m
rows_to_map (r ∷ rows) m = rows_to_map rows (put r.chunk_id r m)

-- `vec_map.get(chunk_id) or kw_map[chunk_id]`; the `KeyError` is `none`.
abbrev pub row_of : Table Row → Table Row → String → Option Row
row_of vec_map kw_map c = elim (find c vec_map) [ none ↦ find c kw_map | some r ↦ some r ]

abbrev pub hit_unless_missing : Option Row → Fraction → List RetrievedHit → List RetrievedHit
hit_unless_missing none score rest = rest
hit_unless_missing (some r) score rest = record { row = r; score = score } ∷ rest

unfoldable pub make_hits : Table Row → Table Row → List (String × Fraction) → List RetrievedHit
make_hits vec_map kw_map [] = []
make_hits vec_map kw_map ((c, score) ∷ fused) =
    hit_unless_missing (row_of vec_map kw_map c) score (make_hits vec_map kw_map fused)

abbrev pub hit_no_worse : RetrievedHit → RetrievedHit → Bool
hit_no_worse a b = fraction_leb b.score a.score

-- `[h.centered_similarity for h in retrieval_topk if h.centered_similarity is not None]`
abbrev pub cons_some : Option ℕ → List ℕ → List ℕ
cons_some none xs = xs
cons_some (some x) xs = x ∷ xs

unfoldable pub centered_sims : List RetrievedHit → List ℕ
centered_sims [] = []
centered_sims (h ∷ hits) = cons_some h.centered_similarity (centered_sims hits)

abbrev pub none_left : {A : Type 0} → List A → Bool
none_left [] = true
none_left (_ ∷ _) = false

-- `abstained` without a filter
unfoldable pub abstains : Option ℕ → ℕ → List RetrievedHit → Bool
abstains none min_similarity hits = should_abstain (map (λ h. h.similarity) hits) min_similarity
abstains (some centered_floor) min_similarity hits =
    if none_left (centered_sims hits)
    then should_abstain (map (λ h. h.similarity) hits) min_similarity
    else should_abstain (centered_sims hits) centered_floor

-- The best `k` hits of both arms.
unfoldable pub top_hits : List Row → List Row → ℕ → List RetrievedHit
top_hits vec_rows kw_rows k = take k (
    sort_by hit_no_worse (
      make_hits (rows_to_map vec_rows []) (rows_to_map kw_rows []) (
        reciprocal_rank_fusion (map (λ r. r.chunk_id) vec_rows ∷ map (λ r. r.chunk_id) kw_rows ∷ [])
          below_rrf_k)))

-- `hybrid_search`; `filtered` is `service is not None or since is not None`
unfoldable pub hybrid_search :
    List Row → List Row → (k : ℕ) → (filtered : Bool) → Option ℕ → ℕ → HybridResult
hybrid_search vec_rows kw_rows k filtered centered_floor min_similarity =
    let hits = top_hits vec_rows kw_rows k in
    record {
      hits = hits;
      abstained = if filtered then none_left hits else abstains centered_floor min_similarity hits;
    }

-- `conflicting`, the rows of `_INDEX_MODELS_SQL` that are neither the model's nor unknown
unfoldable pub conflicts : String → Table ℕ → Bool
conflicts name [] = false
conflicts name ((m, n) ∷ rest) = not (str_eq m name || str_eq m "unknown") || conflicts name rest

-- `check_index_model`: the error is the `RuntimeError`, a value the number of unknown rows that the
-- warning tells.
unfoldable pub check_index_model : Option String → Table ℕ → Result (Option ℕ)
check_index_model none counts = ok none
check_index_model (some name) [] = ok none
check_index_model (some name) (c ∷ counts) =
    if conflicts name (c ∷ counts) then err other else ok (find "unknown" (c ∷ counts))
