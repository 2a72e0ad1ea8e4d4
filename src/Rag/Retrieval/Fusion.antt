-- ===== src/Rag/Retrieval/Fusion.antt =====
-- What a fused ranking holds, and in which order.
use freshet.Prelude.{
  ℕ, suc, ◌≡◌, refl, ◌∙◌, String, Bool, false, ◌||◌, List, [], ◌∷◌, str_eq, get_or, is_some,
  if◌then◌else◌, arith, eq_iff, Bool-cases, inl, inr, ap,
}
use freshet.Prelude.Sort.Laws.{IsSorted, count, count-sort_by, sort_by-IsSorted}
use freshet.Prelude.Table.{Table, find, put, find-put, DistinctKeys, put-DistinctKeys}
use freshet.Prelude.Fraction.{Fraction, nought, plus, fraction_leb_total, fraction_leb_trans}
use freshet.Rag.Retrieval.{reciprocal, add_ranks, add_lists, no_worse, reciprocal_rank_fusion}

-- An id stands in a list, and in one of some lists.
unfoldable pub is_ranked : String → List String → Bool
is_ranked c [] = false
is_ranked c (d ∷ rest) = str_eq d c || is_ranked c rest

unfoldable pub is_ranked_in : String → List (List String) → Bool
is_ranked_in c [] = false
is_ranked_in c (ranked ∷ rest) = is_ranked c ranked || is_ranked_in c rest

is_some-add_ranks :
    (k rank : ℕ) (ranked : List String) (scores : Table Fraction) (c : String)
    → is_some (find c (add_ranks k rank ranked scores))
      ≡ (is_some (find c scores) || is_ranked c ranked)
unfolding add_ranks is_ranked
is_some-add_ranks k rank [] scores c = ground arith
is_some-add_ranks k rank (d ∷ rest) scores c =
    let score = plus (get_or (find d scores) nought) (reciprocal k rank) in
    ground (
      arith,
      is_some-add_ranks k (suc rank) rest (put d score scores) c,
      find-put d c score scores,
      eq_iff d c,
    )

add_ranks-DistinctKeys :
    (k rank : ℕ) (ranked : List String) (scores : Table Fraction)
    → DistinctKeys scores
    → DistinctKeys (add_ranks k rank ranked scores)
unfolding add_ranks
add_ranks-DistinctKeys k rank [] scores h = h
add_ranks-DistinctKeys k rank (d ∷ rest) scores h =
    let score = plus (get_or (find d scores) nought) (reciprocal k rank) in
    add_ranks-DistinctKeys k (suc rank) rest (put d score scores)
      (put-DistinctKeys d score scores h)

is_some-add_lists :
    (k : ℕ) (lists : List (List String)) (scores : Table Fraction) (c : String)
    → is_some (find c (add_lists k lists scores))
      ≡ (is_some (find c scores) || is_ranked_in c lists)
unfolding add_lists is_ranked_in
is_some-add_lists k [] scores c = ground arith
is_some-add_lists k (ranked ∷ rest) scores c = ground (
  arith,
  is_some-add_lists k rest (add_ranks k 0 ranked scores) c,
  is_some-add_ranks k 0 ranked scores c,
)

add_lists-DistinctKeys :
    (k : ℕ) (lists : List (List String)) (scores : Table Fraction)
    → DistinctKeys scores
    → DistinctKeys (add_lists k lists scores)
unfolding add_lists
add_lists-DistinctKeys k [] scores h = h
add_lists-DistinctKeys k (ranked ∷ rest) scores h =
    add_lists-DistinctKeys k rest (add_ranks k 0 ranked scores)
      (add_ranks-DistinctKeys k 0 ranked scores h)

-- A table without repeated keys has a key once or not at all.
count-find :
    (c : String) (t : Table Fraction)
    → DistinctKeys t
    → count (λ (e : String × Fraction). str_eq e.0 c) t ≡ (if is_some (find c t) then 1 else 0)
unfolding count find
count-find c [] h = refl
count-find c ((d, score) ∷ t) h = elim (Bool-cases (str_eq d c)) [
  | inl same ↦ rw same (ground (arith, count-find c t h.1, h.0, eq_iff d c))
  | inr differs ↦ rw differs (ground (arith, count-find c t h.1))
]

-- A fused ranking falls by score, and has each id of the given rankings once and no other.
pub reciprocal_rank_fusion-IsSorted :
    (lists : List (List String)) (k : ℕ)
    → IsSorted no_worse (reciprocal_rank_fusion lists k)
      × ((c : String)
          → count (λ (e : String × Fraction). str_eq e.0 c) (reciprocal_rank_fusion lists k)
            ≡ (if is_ranked_in c lists then 1 else 0))
unfolding reciprocal_rank_fusion find
reciprocal_rank_fusion-IsSorted lists k = (
  sort_by-IsSorted no_worse (λ a b. fraction_leb_total b.1 a.1)
      (λ a b c h h'. fraction_leb_trans c.1 b.1 a.1 h' h) (add_lists k lists []),
  λ c.
      count-sort_by no_worse (λ (e : String × Fraction). str_eq e.0 c) (add_lists k lists [])
      ∙ count-find c (add_lists k lists []) (add_lists-DistinctKeys k lists [] tt)
      ∙ ap (λ b. if b then 1 else 0) (is_some-add_lists k lists [] c),
)
