-- ===== src/Rag/Retrieval/Abstention.antt =====
-- When a search abstains, and the rows of the fused ids.
use freshet.Prelude.{
  ℕ, zero, suc, ◌≤◌, ◌≡◌, refl, ap, String, Bool, true, false, ◌||◌, not, Option, none, some, List,
  [], ◌∷◌, map, max, leb, str_eq, get_or, is_some, if◌then◌else◌, take, length, length-take, All,
  All-take, arith, eq_iff, Bool-cases, inl, inr,
}
use freshet.Prelude.Sort.{sort_by, All-sort_by}
use freshet.Prelude.Sort.Laws.{IsSorted, sort_by-IsSorted}
use freshet.Prelude.Table.{Table, find, put, find-put}
use freshet.Prelude.Fraction.{Fraction, nought, plus, fraction_leb_total, fraction_leb_trans}
use freshet.Rag.Retrieval.{
  below_rrf_k, reciprocal, add_ranks, add_lists, no_worse, reciprocal_rank_fusion, largest,
  should_abstain, Row, RetrievedHit, rows_to_map, row_of, hit_unless_missing, make_hits,
  hit_no_worse, centered_sims, none_left, abstains, top_hits, hybrid_search,
}

-- Some similarity reaches the floor.
unfoldable pub any_reaches : ℕ → List ℕ → Bool
any_reaches floor [] = false
any_reaches floor (x ∷ xs) = leb floor x || any_reaches floor xs

largest-reaches :
    (m : ℕ) (xs : List ℕ) (floor : ℕ)
    → leb floor (largest m xs) ≡ (leb floor m || any_reaches floor xs)
unfolding any_reaches
largest-reaches m [] floor = ground arith
largest-reaches m (x ∷ xs) floor = ground (arith, largest-reaches (max m x) xs floor)

should_abstain-any :
    (xs : List ℕ) (floor : ℕ) → should_abstain xs floor ≡ not (any_reaches floor xs)
unfolding should_abstain any_reaches
should_abstain-any [] floor = refl
should_abstain-any (x ∷ xs) floor = ground (arith, largest-reaches x xs floor)

abbrev pub sims : List RetrievedHit → List ℕ
sims hits = map (λ h. h.similarity) hits

abstains-any :
    (centered_floor : Option ℕ) (min_similarity : ℕ) (hits : List RetrievedHit)
    → abstains centered_floor min_similarity hits
      ≡ not (elim centered_floor [
        | none ↦ any_reaches min_similarity (sims hits)
        | some floor ↦
            if none_left (centered_sims hits)
            then any_reaches min_similarity (sims hits)
            else any_reaches floor (centered_sims hits)
      ])
unfolding abstains
abstains-any none min_similarity hits = should_abstain-any (sims hits) min_similarity
abstains-any (some floor) min_similarity hits = elim (Bool-cases (none_left (centered_sims hits))) [
  | inl raw ↦ rw raw (should_abstain-any (sims hits) min_similarity)
  | inr centered ↦ rw centered (should_abstain-any (centered_sims hits) floor)
]

IsSorted-take :
    (n : ℕ) (hits : List RetrievedHit)
    → IsSorted hit_no_worse hits
    → IsSorted hit_no_worse (take n hits)
IsSorted-take zero hits h = tt
IsSorted-take (suc n) [] h = tt
IsSorted-take (suc n) (x ∷ hits) h =
    (All-take (λ y. hit_no_worse x y ≡ true) n hits h.0, IsSorted-take n hits h.1)

-- A search gives at most `k` hits, best score first. With a filter on the service or the time it
-- abstains exactly when it has no hit. Without one it abstains exactly when no hit reaches the floor:
-- the centered floor by the centered similarities where there is one and they are known, and the
-- raw floor by the raw similarities otherwise.
pub hybrid_search-abstains :
    (vec_rows kw_rows : List Row) (k : ℕ) (filtered : Bool) (centered_floor : Option ℕ)
    (min_similarity : ℕ)
    → let r = hybrid_search vec_rows kw_rows k filtered centered_floor min_similarity in
      (length r.hits ≤ k)
      × IsSorted hit_no_worse r.hits
      × (r.abstained ≡ (
          if filtered
          then none_left r.hits
          else not (elim centered_floor [
            | none ↦ any_reaches min_similarity (sims r.hits)
            | some floor ↦
                if none_left (centered_sims r.hits)
                then any_reaches min_similarity (sims r.hits)
                else any_reaches floor (centered_sims r.hits)
          ])))
unfolding hybrid_search top_hits
hybrid_search-abstains vec_rows kw_rows k filtered centered_floor min_similarity =
    let fused =
      reciprocal_rank_fusion (map (λ r. r.chunk_id) vec_rows ∷ map (λ r. r.chunk_id) kw_rows ∷ [])
        below_rrf_k in
    let found = make_hits (rows_to_map vec_rows []) (rows_to_map kw_rows []) fused in
    (
      omega (arith, length-take k (sort_by hit_no_worse found)),
      IsSorted-take k (sort_by hit_no_worse found) (
          sort_by-IsSorted hit_no_worse (λ a b. fraction_leb_total b.score a.score)
            (λ a b c h h'. fraction_leb_trans c.score b.score a.score h' h) found),
      ap (λ b. if filtered then none_left (take k (sort_by hit_no_worse found)) else b)
          (abstains-any centered_floor min_similarity (take k (sort_by hit_no_worse found))),
    )

-- What holds of each id of the rankings holds of each id of their fusion.
module _ (P : String → Type 0) where
  All-put :
      (c : String) (v : Fraction) (t : Table Fraction)
      → P c
      → All (λ (e : String × Fraction). P e.0) t
      → All (λ (e : String × Fraction). P e.0) (put c v t)
  unfolding put
  All-put c v [] p h = (p, tt)
  All-put c v ((d, w) ∷ t) p h = elim (Bool-cases (str_eq d c)) [
    | inl same ↦ rw same (h.0, h.1)
    | inr differs ↦ rw differs (h.0, All-put c v t p h.1)
  ]

  All-add_ranks :
      (k rank : ℕ) (ranked : List String) (scores : Table Fraction)
      → All P ranked
      → All (λ (e : String × Fraction). P e.0) scores
      → All (λ (e : String × Fraction). P e.0) (add_ranks k rank ranked scores)
  unfolding add_ranks
  All-add_ranks k rank [] scores p h = h
  All-add_ranks k rank (d ∷ rest) scores p h =
      let score = plus (get_or (find d scores) nought) (reciprocal k rank) in
      All-add_ranks k (suc rank) rest (put d score scores) p.1 (All-put d score scores p.0 h)

  All-fusion :
      (a b : List String) (k : ℕ)
      → All P a
      → All P b
      → All (λ (e : String × Fraction). P e.0) (reciprocal_rank_fusion (a ∷ b ∷ []) k)
  unfolding reciprocal_rank_fusion add_lists
  All-fusion a b k pa pb =
      All-sort_by (λ (e : String × Fraction). P e.0) no_worse (add_ranks k 0 b (add_ranks k 0 a []))
        (All-add_ranks k 0 b (add_ranks k 0 a []) pb (All-add_ranks k 0 a [] pa tt))

rows_to_map_keeps :
    (rows : List Row) (m : Table Row) (c : String)
    → is_some (find c m) ≡ true
    → is_some (find c (rows_to_map rows m)) ≡ true
unfolding rows_to_map
rows_to_map_keeps [] m c h = h
rows_to_map_keeps (r ∷ rows) m c h =
    rows_to_map_keeps rows (put r.chunk_id r m) c (ground (arith, h, find-put r.chunk_id c r m))

rows_to_map-All :
    (rows : List Row) (m : Table Row)
    → All (λ c. is_some (find c (rows_to_map rows m)) ≡ true) (map (λ r. r.chunk_id) rows)
unfolding rows_to_map
rows_to_map-All [] m = tt
rows_to_map-All (r ∷ rows) m = (
  rows_to_map_keeps rows (put r.chunk_id r m) r.chunk_id
      (ground (arith, find-put r.chunk_id r.chunk_id r m, eq_iff r.chunk_id r.chunk_id)),
  rows_to_map-All rows (put r.chunk_id r m),
)

abbrev HasRow : Table Row → Table Row → String → Type 0
HasRow v w c = is_some (row_of v w c) ≡ true

HasRow-vec :
    (v w : Table Row) (cs : List String)
    → All (λ c. is_some (find c v) ≡ true) cs
    → All (HasRow v w) cs
HasRow-vec v w [] h = tt
HasRow-vec v w (c ∷ cs) h = (ground (arith, h.0), HasRow-vec v w cs h.1)

HasRow-kw :
    (v w : Table Row) (cs : List String)
    → All (λ c. is_some (find c w) ≡ true) cs
    → All (HasRow v w) cs
HasRow-kw v w [] h = tt
HasRow-kw v w (c ∷ cs) h = (ground (arith, h.0), HasRow-kw v w cs h.1)

length-make_hits :
    (v w : Table Row) (fused : List (String × Fraction))
    → All (λ (e : String × Fraction). HasRow v w e.0) fused
    → length (make_hits v w fused) ≡ length fused
unfolding make_hits
length-make_hits v w [] h = refl
length-make_hits v w ((c, score) ∷ fused) h =
    one (row_of v w c) h.0 (length-make_hits v w fused h.1)
  where
    one :
        (o : Option Row)
        → is_some o ≡ true
        → length (make_hits v w fused) ≡ length fused
        → length (hit_unless_missing o score (make_hits v w fused)) ≡ suc (length fused)
    one none present ih = cc
    one (some r) present ih = ap suc ih

-- Every id of the fused ranking has a row in one of the two arms, so that the lookup of it never
-- raises and no hit is lost.
pub make_hits-total :
    (vec_rows kw_rows : List Row) (k : ℕ)
    → let fused =
        reciprocal_rank_fusion
          (map (λ r. r.chunk_id) vec_rows ∷ map (λ r. r.chunk_id) kw_rows ∷ [])
          k in
      length (make_hits (rows_to_map vec_rows []) (rows_to_map kw_rows []) fused) ≡ length fused
make_hits-total vec_rows kw_rows k =
    let v = rows_to_map vec_rows [] in
    let w = rows_to_map kw_rows [] in
    let a = map (λ r. r.chunk_id) vec_rows in
    let b = map (λ r. r.chunk_id) kw_rows in
    length-make_hits v w (reciprocal_rank_fusion (a ∷ b ∷ []) k) (
      All-fusion (HasRow v w) a b k (HasRow-vec v w a (rows_to_map-All vec_rows []))
        (HasRow-kw v w b (rows_to_map-All kw_rows [])))
