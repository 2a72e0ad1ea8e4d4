-- ===== src/Rag/Retrieval/Arms/Filtered.antt =====
-- The filter of a search and its hits.
use freshet.Prelude.{
  ℕ, ◌≡◌, String, Bool, true, ◌&&◌, ◌||◌, Option, none, some, List, [], ◌∷◌, map, str_eq, is_some,
  take, select, All, All-take, arith, Bool-cases, inl, inr, ◌≤◌, ◌≢◌, All-map, eq_iff,
}
use freshet.Prelude.Sort.{sort_by, All-sort_by}
use freshet.Prelude.Table.{Table, find, put}
use freshet.Prelude.Fraction.{Fraction}
use freshet.Rag.Retrieval.{
  Row, RetrievedHit, rows_to_map, row_of, hit_unless_missing, make_hits, hit_no_worse, top_hits,
  reciprocal_rank_fusion, below_rrf_k, arm_k, hybrid_search,
}
use freshet.Rag.Retrieval.Arms.{
  Indexed, World, Filter, accepts, answer, nearer, better, is_candidate, vector_arm, keyword_arm,
  search_index, is_service, is_since, is_other,
}

-- What holds of each row of the two arms holds of each hit.
module _ (P : Row → Type 0) where
  abbrev Holds : Table Row → Type 0
  Holds m = All (λ (e : String × Row). P e.1) m

  put-Holds : (c : String) (r : Row) (m : Table Row) → P r → Holds m → Holds (put c r m)
  unfolding put
  put-Holds c r [] p h = (p, tt)
  put-Holds c r ((d, q) ∷ m) p h = elim (Bool-cases (str_eq d c)) [
    | inl same ↦ rw same (p, h.1)
    | inr differs ↦ rw differs (h.0, put-Holds c r m p h.1)
  ]

  rows_to_map-Holds :
      (rows : List Row) (m : Table Row) → All P rows → Holds m → Holds (rows_to_map rows m)
  unfolding rows_to_map
  rows_to_map-Holds [] m p h = h
  rows_to_map-Holds (r ∷ rows) m p h =
      rows_to_map-Holds rows (put r.chunk_id r m) p.1 (put-Holds r.chunk_id r m p.0 h)

  abbrev IfFound : Option Row → Type 0
  IfFound none = Unit
  IfFound (some r) = P r

  find-IfFound : (c : String) (m : Table Row) → Holds m → IfFound (find c m)
  unfolding find
  find-IfFound c [] h = tt
  find-IfFound c ((d, q) ∷ m) h = elim (Bool-cases (str_eq d c)) [
    | inl same ↦ rw same h.0
    | inr differs ↦ rw differs (find-IfFound c m h.1)
  ]

  first_of :
      (a b : Option Row) → IfFound a → IfFound b → IfFound (elim a [ none ↦ b | some r ↦ some r ])
  first_of none b p q = q
  first_of (some r) b p q = p

  cons_hit :
      (o : Option Row) (score : Fraction) (hits : List RetrievedHit)
      → IfFound o
      → All (λ (h : RetrievedHit). P h.row) hits
      → All (λ (h : RetrievedHit). P h.row) (hit_unless_missing o score hits)
  cons_hit none score hits p h = h
  cons_hit (some r) score hits p h = (p, h)

  make_hits-All :
      (v w : Table Row) (fused : List (String × Fraction))
      → Holds v
      → Holds w
      → All (λ (h : RetrievedHit). P h.row) (make_hits v w fused)
  unfolding make_hits
  make_hits-All v w [] hv hw = tt
  make_hits-All v w ((c, score) ∷ fused) hv hw =
      cons_hit (row_of v w c) score (make_hits v w fused)
        (first_of (find c v) (find c w) (find-IfFound c v hv) (find-IfFound c w hw))
        (make_hits-All v w fused hv hw)

  hybrid_search-All :
      (a b : List Row) (k : ℕ) (filtered : Bool) (centered_floor : Option ℕ) (min_similarity : ℕ)
      → All P a
      → All P b
      → All
          (λ (h : RetrievedHit). P h.row)
          (hybrid_search a b k filtered centered_floor min_similarity).hits
  unfolding hybrid_search top_hits
  hybrid_search-All a b k filtered centered_floor min_similarity pa pb =
      let fused =
        reciprocal_rank_fusion (map (λ r. r.chunk_id) a ∷ map (λ r. r.chunk_id) b ∷ [])
          below_rrf_k in
      let found = make_hits (rows_to_map a []) (rows_to_map b []) fused in
      All-take (λ (h : RetrievedHit). P h.row) k (sort_by hit_no_worse found)
        (All-sort_by (λ (h : RetrievedHit). P h.row) hit_no_worse found
          (make_hits-All (rows_to_map a []) (rows_to_map b []) fused (rows_to_map-Holds a [] pa tt)
            (rows_to_map-Holds b [] pb tt)))

module _ (w : World) (f : Filter) (centered : Bool) where
  abbrev Accepted : Row → Type 0
  Accepted r = accepts f r.service r.ts r.event_id ≡ true

  answers-Accepted :
      (rows : List Indexed)
      → All (λ (r : Indexed). is_candidate f r ≡ true) rows
      → All Accepted (map (answer w centered) rows)
  answers-Accepted [] h = tt
  answers-Accepted (r ∷ rows) h = (h.0, answers-Accepted rows h.1)

  select-candidates :
      (p : Indexed → Bool) (rows : List Indexed)
      → All (λ (r : Indexed). is_candidate f r ≡ true) (select (λ r. is_candidate f r && p r) rows)
  unfolding select
  select-candidates p [] = tt
  select-candidates p (r ∷ rows) = elim (Bool-cases (is_candidate f r && p r)) [
    | inl inside ↦ rw inside (ground (arith, inside), select-candidates p rows)
    | inr outside ↦ rw outside (select-candidates p rows)
  ]

  select-accepted :
      (rows : List Indexed)
      → All (λ (r : Indexed). is_candidate f r ≡ true) (select (is_candidate f) rows)
  unfolding select
  select-accepted [] = tt
  select-accepted (r ∷ rows) = elim (Bool-cases (is_candidate f r)) [
    | inl inside ↦ rw inside (inside, select-accepted rows)
    | inr outside ↦ rw outside (select-accepted rows)
  ]

  best-Accepted :
      (le : Indexed → Indexed → Bool) (rows : List Indexed)
      → All (λ (r : Indexed). is_candidate f r ≡ true) rows
      → All Accepted (map (answer w centered) (take arm_k (sort_by le rows)))
  best-Accepted le rows h = answers-Accepted (take arm_k (sort_by le rows)) (
      All-take (λ (r : Indexed). is_candidate f r ≡ true) arm_k (sort_by le rows)
        (All-sort_by (λ (r : Indexed). is_candidate f r ≡ true) le rows h))

  vector_arm-Accepted : (rows : List Indexed) → All Accepted (vector_arm w f centered rows)
  unfolding vector_arm
  vector_arm-Accepted rows =
      best-Accepted (nearer w) (select (is_candidate f) rows) (select-accepted rows)

  keyword_arm-Accepted : (rows : List Indexed) → All Accepted (keyword_arm w f centered rows)
  unfolding keyword_arm
  keyword_arm-Accepted rows =
      best-Accepted (better w) (select (λ r. is_candidate f r && w.matches r) rows)
        (select-candidates w.matches rows)

-- The filter's conditions on a row; one that is not given holds.
abbrev pub IsOfService : Option String → String → Type 0
IsOfService none service = Unit
IsOfService (some wanted) service = service ≡ wanted

abbrev pub IsFrom : Option ℕ → ℕ → Type 0
IsFrom none ts = Unit
IsFrom (some since) ts = since ≤ ts

abbrev pub IsNot : Option String → String → Type 0
IsNot none event_id = Unit
IsNot (some excluded) event_id = event_id ≢ excluded

pub record IsWithin (f : Filter) (h : Row) : Type 0 where
  pub service : IsOfService f.service h.service
  pub since : IsFrom f.since h.ts
  pub excluded : IsNot f.exclude_event_id h.event_id

is_service-IsOfService :
    (o : Option String) (service : String) → is_service o service ≡ true → IsOfService o service
is_service-IsOfService none service h = tt
is_service-IsOfService (some wanted) service h = ground (arith, h, eq_iff service wanted)

is_since-IsFrom : (o : Option ℕ) (ts : ℕ) → is_since o ts ≡ true → IsFrom o ts
is_since-IsFrom none ts h = tt
is_since-IsFrom (some since) ts h = ground (arith, h)

is_other-IsNot :
    (o : Option String) (event_id : String) → is_other o event_id ≡ true → IsNot o event_id
is_other-IsNot none event_id h = tt
is_other-IsNot (some excluded) event_id h =
    λ same. ground (arith, h, same, eq_iff event_id excluded)

accepts-IsWithin :
    (f : Filter) (r : Row) → accepts f r.service r.ts r.event_id ≡ true → IsWithin f r
unfolding accepts
accepts-IsWithin f r h = record {
  service = is_service-IsOfService f.service r.service (ground (arith, h));
  since = is_since-IsFrom f.since r.ts (ground (arith, h));
  excluded = is_other-IsNot f.exclude_event_id r.event_id (ground (arith, h));
}

-- Every hit of a search, whichever of its two queries found it, is of the service that was asked for,
-- not older than the time that was asked for, and not of the event to leave out.
pub search_index-AreWithin :
    (w : World) (f : Filter) (has_centroid : Bool) (rows : List Indexed) (k : ℕ)
    (centered_floor : Option ℕ) (min_similarity : ℕ)
    → All
        (λ (h : RetrievedHit). IsWithin f h.row)
        (search_index w f has_centroid rows k centered_floor min_similarity).hits
unfolding search_index
search_index-AreWithin w f has_centroid rows k centered_floor min_similarity =
    let centered = is_some centered_floor && has_centroid in
    let r =
      hybrid_search (vector_arm w f centered rows) (keyword_arm w f centered rows) k
        (is_some f.service || is_some f.since) centered_floor min_similarity in
    All-map (λ (h : RetrievedHit). Accepted w f centered h.row)
      (λ (h : RetrievedHit). IsWithin f h.row) r.hits (λ h. accepts-IsWithin f h.row)
      (hybrid_search-All (Accepted w f centered) (vector_arm w f centered rows)
        (keyword_arm w f centered rows) k (is_some f.service || is_some f.since) centered_floor
        min_similarity (vector_arm-Accepted w f centered rows)
        (keyword_arm-Accepted w f centered rows))
