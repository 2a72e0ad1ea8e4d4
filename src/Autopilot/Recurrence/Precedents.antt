-- ===== src/Autopilot/Recurrence/Precedents.antt =====
-- What is told as a recurrence of an incident.
use freshet.Prelude.{
  ℕ, zero, suc, ◌≤◌, ◌≡◌, refl, sym, String, Bool, true, false, ◌||◌, not, Option, none, some, List,
  [], ◌∷◌, map, leb, str_eq, if◌then◌else◌, take, select, length, All, is_some, arith, eq_iff,
  Bool-cases, inl, inr, All-take, length-take,
}
use freshet.Prelude.Sort.{sort_by, All-sort_by}
use freshet.Prelude.Sort.Laws.{IsSorted, count, count-sort_by, sort_by-IsSorted}
use freshet.Prelude.Table.{Table, find, put, DistinctKeys, put-DistinctKeys}
use freshet.Rag.Retrieval.{RetrievedHit}
use freshet.Autopilot.Recurrence.{
  World, Recurrence, is_late, is_better, recurrence_of, consider, best_of, more_similar, close_hits,
  find_recurrences, is_maintenance, incident_of,
}

-- A prior incident that is not the one itself, and is similar enough.
pub record IsPrecedent (floor : ℕ) (incident_id : String) (before : Option ℕ) (r : Recurrence)
    : Type 0 where
  pub another : str_eq r.incident_id incident_id ≡ false
  pub prior : is_late before r.ts ≡ false
  pub similar : floor ≤ r.similarity

module _ (w : World) (floor : ℕ) (incident_id : String) (before : Option ℕ) where
  abbrev IsEntry : String × Recurrence → Type 0
  IsEntry e = (e.1.incident_id ≡ e.0) × IsPrecedent floor incident_id before e.1

  put-IsEntry :
      (r : Recurrence) (t : Table Recurrence)
      → IsPrecedent floor incident_id before r
      → All IsEntry t
      → All IsEntry (put r.incident_id r t)
  unfolding put
  put-IsEntry r [] p h = ((refl, p), tt)
  put-IsEntry r ((k, v) ∷ t) p h = elim (Bool-cases (str_eq k r.incident_id)) [
    | inl same ↦ rw same ((sym (ground (arith, same, eq_iff k r.incident_id)), p), h.1)
    | inr new ↦ rw new (h.0, put-IsEntry r t p h.1)
  ]

  consider-IsEntry :
      (h : RetrievedHit) (o : Option (String × String)) (best : Table Recurrence)
      → floor ≤ h.row.similarity
      → (All IsEntry best) × DistinctKeys best
      → (All IsEntry (consider w incident_id before h o best))
        × DistinctKeys (consider w incident_id before h o best)
  consider-IsEntry h none best close inv = inv
  consider-IsEntry h (some (other_id, title)) best close inv =
      elim (Bool-cases (str_eq other_id incident_id)) [
        | inl itself ↦ rw itself inv
        | inr another ↦ elim (Bool-cases (is_late before h.row.ts)) [
          | inl late ↦ rw (another, late) inv
          | inr prior ↦
              elim (Bool-cases (
                is_maintenance w h.row.text
                || not (is_better (find other_id best) h.row.similarity))) [
                  | inl useless ↦ rw (another, prior, useless) inv
                  | inr useful ↦
                      rw (another, prior, useful)
                        (
                          put-IsEntry (recurrence_of h other_id title) best
                              (record { another = another; prior = prior; similar = close }) inv.0,
                          put-DistinctKeys other_id (recurrence_of h other_id title) best inv.1,
                        )
                ]
        ]
      ]

  best_of-IsEntry :
      (mapping : Table (String × String)) (hits : List RetrievedHit) (best : Table Recurrence)
      → All (λ h. floor ≤ h.row.similarity) hits
      → (All IsEntry best) × DistinctKeys best
      → (All IsEntry (best_of w incident_id before mapping hits best))
        × DistinctKeys (best_of w incident_id before mapping hits best)
  unfolding best_of
  best_of-IsEntry mapping [] best close inv = inv
  best_of-IsEntry mapping (h ∷ hits) best close inv =
      best_of-IsEntry mapping hits
        (consider w incident_id before h (find h.row.event_id mapping) best) close.1
        (consider-IsEntry h (find h.row.event_id mapping) best close.0 inv)

close-similar :
    (floor : ℕ) (hits : List RetrievedHit)
    → All (λ h. floor ≤ h.row.similarity) (select (λ h. leb floor h.row.similarity) hits)
unfolding select
close-similar floor [] = tt
close-similar floor (h ∷ hits) = elim (Bool-cases (leb floor h.row.similarity)) [
  | inl near ↦ rw near (ground (arith, near), close-similar floor hits)
  | inr far ↦ rw far (close-similar floor hits)
]

-- How often an incident is told.
abbrev pub times_told : String → List Recurrence → ℕ
times_told i rs = count (λ r. str_eq r.incident_id i) rs

count-take_le : {A : Type 0} (p : A → Bool) (n : ℕ) (xs : List A) → count p (take n xs) ≤ count p xs
unfolding count
count-take_le p zero xs = omega arith
count-take_le p (suc n) [] = omega arith
count-take_le p (suc n) (x ∷ xs) = omega (arith, count-take_le p n xs)

take-IsSorted :
    {A : Type 0} (le : A → A → Bool) (n : ℕ) (xs : List A)
    → IsSorted le xs
    → IsSorted le (take n xs)
take-IsSorted le zero xs h = tt
take-IsSorted le (suc n) [] h = tt
take-IsSorted le (suc n) (x ∷ xs) h =
    (All-take (λ y. le x y ≡ true) n xs h.0, take-IsSorted le n xs h.1)

-- In a table whose values name their keys, a value is found under its own name only.
module _ (floor : ℕ) (incident_id : String) (before : Option ℕ) (w : World) where
  told_once :
      (i : String) (t : Table Recurrence)
      → All (IsEntry w floor incident_id before) t
      → DistinctKeys t
      → times_told i (map (λ e. e.1) t) ≡ (if is_some (find i t) then 1 else 0)
  unfolding count find
  told_once i [] h d = refl
  told_once i ((k, r) ∷ t) h d = elim (Bool-cases (str_eq k i)) [
    | inl same ↦ rw same (
        ground (arith, told_once i t h.1 d.1, d.0, h.0.0, eq_iff k i, eq_iff r.incident_id i, same))
    | inr other ↦
        rw other
          (ground (arith, told_once i t h.1 d.1, h.0.0, eq_iff k i, eq_iff r.incident_id i, other))
  ]

  All-values :
      (t : Table Recurrence)
      → All (IsEntry w floor incident_id before) t
      → All (IsPrecedent floor incident_id before) (map (λ e. e.1) t)
  All-values [] h = tt
  All-values (e ∷ t) h = (h.0.1, All-values t h.1)

-- What a brief may tell of earlier incidents.
abbrev pub ArePrecedents : ℕ → String → Option ℕ → ℕ → List Recurrence → Type 0
ArePrecedents floor incident_id before limit rs =
    (length rs ≤ limit)
    × All (IsPrecedent floor incident_id before) rs
    × IsSorted more_similar rs
    × ((i : String) → times_told i rs ≤ 1)

more_similar_total : (a b : Recurrence) → more_similar a b ≡ false → more_similar b a ≡ true
more_similar_total a b h = ground arith

more_similar_trans :
    (a b c : Recurrence)
    → more_similar a b ≡ true
    → more_similar b c ≡ true
    → more_similar a c ≡ true
more_similar_trans a b c h h' = ground arith

at_most_one : (b : Bool) → (if b then 1 else 0) ≤ 1
at_most_one b = ground arith

sorted-ArePrecedents :
    (w : World) (floor : ℕ) (incident_id : String) (before : Option ℕ) (limit : ℕ)
    (t : Table Recurrence)
    → All (IsEntry w floor incident_id before) t
    → DistinctKeys t
    → ArePrecedents floor incident_id before limit
        (take limit (sort_by more_similar (map (λ e. e.1) t)))
sorted-ArePrecedents w floor incident_id before limit t h d =
    let rs = map (λ e. e.1) t in
    let sorted = sort_by more_similar rs in
    (
      omega (arith, length-take limit sorted),
      All-take (IsPrecedent floor incident_id before) limit sorted (
          All-sort_by (IsPrecedent floor incident_id before) more_similar rs
            (All-values floor incident_id before w t h)),
      take-IsSorted more_similar limit sorted
          (sort_by-IsSorted more_similar more_similar_total more_similar_trans rs),
      λ i. omega (
        arith,
        count-take_le (λ r. str_eq r.incident_id i) limit sorted,
        count-sort_by more_similar (λ r. str_eq r.incident_id i) rs,
        told_once floor incident_id before w i t h d,
        at_most_one (is_some (find i t)),
      ),
    )

-- The recurrences that are told of an incident are at most `limit`, the most similar first; each is
-- another incident, told once, as similar as the floor at least, and from before the given time.
pub find_recurrences-ArePrecedents :
    (w : World) (floor : ℕ) (incident_id query_text : String) (before : Option ℕ) (limit : ℕ)
    → ArePrecedents floor incident_id before limit
        (find_recurrences w floor incident_id query_text before limit)
unfolding find_recurrences
find_recurrences-ArePrecedents w floor incident_id query_text before limit =
    elim (Bool-cases (w.is_blank query_text || is_maintenance w query_text)) [
      | inl unasked ↦ rw unasked (omega arith, tt, tt, λ i. unfold count in omega arith)
      | inr asked ↦
          let (entries, distinct) =
            best_of-IsEntry w floor incident_id before mapping hits []
              (close-similar floor (w.search query_text)) (tt, tt) in
          rw asked (sorted-ArePrecedents w floor incident_id before limit _ entries distinct)
    ]
  where
    hits : List RetrievedHit
    hits = close_hits w floor query_text

    mapping : Table (String × String)
    mapping = incident_of (w.incident_rows (map (λ h. h.row.event_id) hits)) []
