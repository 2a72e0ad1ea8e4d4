-- ===== src/Eval/LiveRetrieval/Rankings.antt =====
-- Deduplicated rankings, and what a score says of one.
use freshet.Prelude.{
  ℕ, zero, suc, ◌+◌, ◌≤◌, ◌≡◌, refl, ◌∙◌, String, Bool, false, ◌&&◌, ◌||◌, not, Option, List, [],
  ◌∷◌, ◌++◌, str_eq, take, arith, eq_iff, Bool-cases, inl, inr, ap,
}
use freshet.Eval.LiveRetrieval.{
  is_member, dedupe, is_excluded, dedupe_events, rank_from, within, first_is_cause, score_one,
}

-- No event stands twice.
abbrev pub Distinct : List String → Type 0
Distinct [] = Unit
Distinct (e ∷ rest) = (is_member e rest ≡ false) × Distinct rest

is_member-snoc :
    (e x : String) (xs : List String) → is_member e (xs ++ x ∷ []) ≡ (is_member e xs || str_eq x e)
unfolding is_member
is_member-snoc e x [] = ground arith
is_member-snoc e x (y ∷ ys) = ground (arith, is_member-snoc e x ys)

Distinct-snoc :
    (x : String) (xs : List String) → is_member x xs ≡ false → Distinct xs → Distinct (xs ++ x ∷ [])
unfolding is_member
Distinct-snoc x [] new h = (refl, tt)
Distinct-snoc x (y ∷ ys) new h = (
  ground (arith, is_member-snoc y x ys, h.0, eq_iff x y, eq_iff y x),
  Distinct-snoc x ys (ground (arith, new)) h.1,
)

dedupe-Distinct :
    (excluded : String → Bool) (hits seen : List String)
    → Distinct seen
    → Distinct (dedupe excluded hits seen)
unfolding dedupe
dedupe-Distinct excluded [] seen h = h
dedupe-Distinct excluded (e ∷ hits) seen h =
    elim (Bool-cases (not (excluded e) && not (is_member e seen))) [
      | inl new ↦
          rw new
            (dedupe-Distinct excluded hits (seen ++ e ∷ []) (Distinct-snoc e seen (ground arith) h))
      | inr old ↦ rw old (dedupe-Distinct excluded hits seen h)
    ]

is_member-dedupe :
    (excluded : String → Bool) (hits seen : List String) (e : String)
    → is_member e (dedupe excluded hits seen)
      ≡ (is_member e seen || (not (excluded e) && is_member e hits))
unfolding dedupe is_member
is_member-dedupe excluded [] seen e = ground arith
is_member-dedupe excluded (x ∷ hits) seen e =
    elim (Bool-cases (not (excluded x) && not (is_member x seen))) [
      | inl new ↦ rw new (
          ground (
            arith,
            is_member-dedupe excluded hits (seen ++ x ∷ []) e,
            is_member-snoc e x seen,
            eq_iff x e,
            new,
          ))
      | inr old ↦ rw old (ground (arith, is_member-dedupe excluded hits seen e, eq_iff x e, old))
    ]

-- A ranking of events has each event of the hits once, but for the excluded one, and no other.
pub dedupe_events-Distinct :
    (hits : List String) (exclude : Option String)
    → Distinct (dedupe_events hits exclude)
      × ((e : String)
          → is_member e (dedupe_events hits exclude)
            ≡ (not (is_excluded exclude e) && is_member e hits))
unfolding dedupe_events is_member
dedupe_events-Distinct hits exclude = (
  dedupe-Distinct (is_excluded exclude) hits [] tt,
  λ e. is_member-dedupe (is_excluded exclude) hits [] e,
)

-- Some event of a list is a cause.
unfoldable pub has_cause : List String → List String → Bool
has_cause [] causes = false
has_cause (e ∷ rest) causes = is_member e causes || has_cause rest causes

within-rank_from :
    (k i : ℕ) (ranked causes : List String)
    → within (k + i) (rank_from (suc i) ranked causes) ≡ has_cause (take k ranked) causes
unfolding rank_from has_cause
within-rank_from zero i [] causes = refl
within-rank_from (suc k) i [] causes = refl
within-rank_from zero i (e ∷ rest) causes = elim (Bool-cases (is_member e causes)) [
  | inl cause ↦ rw cause (ground arith)
  | inr other ↦ rw other (late (zero + i) (suc i) (omega arith) rest)
]
  where
    late :
        (i j : ℕ) → i ≤ j → (rest : List String) → within i (rank_from (suc j) rest causes) ≡ false
    late i j h [] = refl
    late i j h (e ∷ rest) = ground (arith, late i (suc j) (omega arith) rest)
within-rank_from (suc k) i (e ∷ rest) causes = elim (Bool-cases (is_member e causes)) [
  | inl cause ↦ rw cause (ground arith)
  | inr other ↦ rw other (
      ap (λ n. within n (rank_from (suc (suc i)) rest causes)) (omega arith)
      ∙ within-rank_from k (suc i) rest causes)
]

-- The hit at k says that one of the first k events is a cause, and the hit at 1 is `top1_cite`.
pub score_one-hit :
    (ranked causes : List String) (k : ℕ)
    → ((score_one ranked causes k).hit_at_k ≡ has_cause (take k ranked) causes)
      × ((score_one ranked causes 1).hit_at_k ≡ (score_one ranked causes k).top1_cite)
unfolding score_one has_cause
score_one-hit ranked causes k = (
  ap (λ n. within n (rank_from 1 ranked causes)) (omega arith) ∙ within-rank_from k 0 ranked causes,
  within-rank_from 1 0 ranked causes ∙ first ranked,
)
  where
    first : (l : List String) → has_cause (take 1 l) causes ≡ first_is_cause l causes
    first [] = refl
    first (e ∷ rest) = ground arith
