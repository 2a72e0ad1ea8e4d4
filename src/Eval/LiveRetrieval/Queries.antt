-- ===== src/Eval/LiveRetrieval/Queries.antt =====
-- The queries that are asked: one for each incident that can be scored.
use freshet.Prelude.{
  ℕ, suc, ◌≤◌, ◌<◌, ◌≡◌, refl, sym, subst, String, Bool, true, false, not, List, [], ◌∷◌, ltb,
  str_eq, if◌then◌else◌, length, select, All, arith, eq_iff, Bool-cases, ◌⊎◌, inl, inr,
}
use freshet.Eval.LiveRetrieval.{is_member, distinct_ids, Candidate, no_later, earliest, candidate}
use freshet.Eval.LiveRetrieval.Rankings.{Distinct}

distinct_ids-Distinct : (us : List (String × ℕ)) → Distinct (distinct_ids us)
unfolding distinct_ids
distinct_ids-Distinct [] = tt
distinct_ids-Distinct ((e, ts) ∷ rest) = elim (Bool-cases (is_member e (distinct_ids rest))) [
  | inl old ↦ rw old (distinct_ids-Distinct rest)
  | inr new ↦ rw new (new, distinct_ids-Distinct rest)
]

-- Taking one event out of a list without repetition takes out one at most.
length-others :
    (q : String) (es : List String)
    → Distinct es
    → (length es ≤ suc (length (select (λ e. not (str_eq e q)) es)))
      × (is_member q es ≡ false → length es ≤ length (select (λ e. not (str_eq e q)) es))
unfolding select is_member
length-others q [] h = (omega arith, λ _. omega arith)
length-others q (e ∷ es) h =
    let (one, none_lost) = length-others q es h.1 in
    elim (Bool-cases (str_eq e q)) [
      | inl same ↦
          rw same (ground (arith, none_lost (ground (arith, h.0, eq_iff e q))), λ absent. cc)
      | inr differs ↦ rw differs (omega (arith, one), λ absent. omega (arith, none_lost absent))
    ]

not_among_others :
    (q : String) (es : List String) → is_member q (select (λ e. not (str_eq e q)) es) ≡ false
unfolding select is_member
not_among_others q [] = refl
not_among_others q (e ∷ es) = elim (Bool-cases (str_eq e q)) [
  | inl same ↦ rw same (not_among_others q es)
  | inr differs ↦ rw differs (rw differs (not_among_others q es))
]

module _ (text_le : String → String → Bool)
    (total : (x y : String) → text_le x y ≡ false → text_le y x ≡ true)
    (trans : (x y z : String) → text_le x y ≡ true → text_le y z ≡ true → text_le x z ≡ true) where
  refl_le : (x : String) → text_le x x ≡ true
  refl_le x = elim (Bool-cases (text_le x x)) [ inl yes' ↦ yes' | inr no' ↦ total x x no' ]

  no_later_total : (a b : String × ℕ) → no_later text_le a b ≡ false → no_later text_le b a ≡ true
  unfolding no_later
  no_later_total a b h = ground (arith, total a.0 b.0)

  no_later_trans :
      (a b c : String × ℕ)
      → no_later text_le a b ≡ true
      → no_later text_le b c ≡ true
      → no_later text_le a c ≡ true
  unfolding no_later
  no_later_trans a b c h h' = ground (arith, trans a.0 b.0 c.0)

  no_later_refl : (a : String × ℕ) → no_later text_le a a ≡ true
  unfolding no_later
  no_later_refl a = ground (arith, refl_le a.0)

  -- The first of some updates is no later than any of them.
  abbrev IsFirst : String × ℕ → String × ℕ → List (String × ℕ) → Type 0
  IsFirst e best us = (no_later text_le e best ≡ true) × All (λ u. no_later text_le e u ≡ true) us

  earliest-chosen :
      (best u : String × ℕ) (us : List (String × ℕ)) (b : Bool)
      → no_later text_le best u ≡ b
      → earliest text_le best (u ∷ us) ≡ earliest text_le (if b then best else u) us
  unfolding earliest
  earliest-chosen best u us b e = rw e refl

  earliest-IsFirst :
      (best : String × ℕ) (us : List (String × ℕ)) → IsFirst (earliest text_le best us) best us
  earliest-IsFirst best [] = unfold earliest in (no_later_refl best, tt)
  earliest-IsFirst best (u ∷ us) =
      chosen (Bool-cases (no_later text_le best u)) (earliest-IsFirst best us)
        (earliest-IsFirst u us)
    where
      chosen :
          (no_later text_le best u ≡ true) ⊎ (no_later text_le best u ≡ false)
          → IsFirst (earliest text_le best us) best us
          → IsFirst (earliest text_le u us) u us
          → IsFirst (earliest text_le best (u ∷ us)) best (u ∷ us)
      chosen (inl kept) (first, rest) _ =
          subst (λ e. IsFirst e best (u ∷ us)) (sym (earliest-chosen best u us true kept))
            (first, (no_later_trans (earliest text_le best us) best u first kept, rest))
      chosen (inr replaced) _ (first, rest) =
          subst (λ e. IsFirst e best (u ∷ us)) (sym (earliest-chosen best u us false replaced))
            (
              no_later_trans (earliest text_le u us) u best first (no_later_total best u replaced),
              (first, rest),
            )

  -- The query is the earliest update of its incident, ties broken by its id; it is not among its
  -- own answers, and there is an answer.
  pub record IsQuery (updates : List (String × ℕ)) (c : Candidate) : Type 0 where
    pub ts : ℕ
    pub earliest_update : All (λ u. no_later text_le (c.query_event_id, ts) u ≡ true) updates
    pub not_own_answer : is_member c.query_event_id c.other_event_ids ≡ false
    pub answerable : 0 < length c.other_event_ids

  -- For a total and transitive order of the ids: an incident with fewer than two distinct updates is
  -- not asked about, and any other once, by its earliest update.
  pub candidate-IsQuery :
      (i : String) (u : String × ℕ) (rest : List (String × ℕ))
      → All (IsQuery (u ∷ rest)) (candidate text_le i (u ∷ rest))
        × (length (candidate text_le i (u ∷ rest))
            ≡ (if ltb (length (distinct_ids (u ∷ rest))) 2 then 0 else 1))
  unfolding candidate
  candidate-IsQuery i u rest = elim (Bool-cases (ltb (length (distinct_ids (u ∷ rest))) 2)) [
    | inl few ↦ rw few (tt, refl)
    | inr enough ↦ rw enough (
      (
        record {
          ts = (earliest text_le u rest).1;
          earliest_update = earliest-IsFirst u rest;
          not_own_answer = not_among_others (earliest text_le u rest).0 (distinct_ids (u ∷ rest));
          answerable = ground (
            arith,
            (length-others (earliest text_le u rest).0 (distinct_ids (u ∷ rest))
                (distinct_ids-Distinct (u ∷ rest))).0,
          );
        },
        tt,
      ),
      refl,
    )
  ]
