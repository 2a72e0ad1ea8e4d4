-- ===== src/Autopilot/Brief/Causes.antt =====
-- Which cause `cause_from_updates` quotes.
use freshet.Prelude.{
  ℕ, ◌≤◌, ◌≡◌, refl, Bool, true, false, Option, none, some, List, [], ◌∷◌, if◌then◌else◌, All,
  All-map, arith, Bool-cases, ◌⊎◌, inl, inr,
}
use freshet.Prelude.Sort.{sort_by, sort_by-All, All-sort_by}
use freshet.Prelude.Sort.Laws.{IsSorted, sort_by-IsSorted}
use freshet.Pipeline.Chunking.{is_empty}
use freshet.Autopilot.Brief.{
  Update, Patterns, cause_sentence, cite_unless_missing, cause_in_order, not_later,
  cause_from_updates,
}

-- An update states a cause.
abbrev pub is_stated : Option (List ℕ) → Bool
is_stated none = false
is_stated (some sentence) = if is_empty sentence then false else true

abbrev pub states : Patterns → Update → Bool
states w u = is_stated (cause_sentence w u.text)

-- One of some updates.
abbrev pub Among : Update → List Update → Type 0
Among u [] = ⊥
Among u (v ∷ hits) = (v ≡ u) ⊎ Among u hits

All-Among : (hits : List Update) → All (λ v. Among v hits) hits
All-Among [] = tt
All-Among (u ∷ hits) = (
  inl refl,
  All-map (λ v. Among v hits) (λ v. Among v (u ∷ hits)) hits (λ v m. inr m) (All-Among hits),
)

module _ (w : Patterns) where
  -- Nothing is quoted of updates without a cause; otherwise a sentence of one of them, and no
  -- update that was posted before it states a cause.
  abbrev pub IsEarliest : List Update → Option (List ℕ × Update) → Type 0
  IsEarliest hits none = All (λ u. states w u ≡ false) hits
  IsEarliest hits (some (sentence, u)) =
      (cause_sentence w u.text ≡ some sentence)
      × All (λ v. (states w v ≡ false) ⊎ (u.ts ≤ v.ts)) hits

  skip-IsEarliest :
      (u : Update) (hits : List Update) (later : Option (List ℕ × Update))
      → states w u ≡ false
      → IsEarliest hits later
      → IsEarliest (u ∷ hits) later
  skip-IsEarliest u hits none e h = (e, h)
  skip-IsEarliest u hits (some (s, v)) e h = (h.0, (inl e, h.1))

  cite-IsEarliest :
      (u : Update) (o : Option (List ℕ)) (hits : List Update) (later : Option (List ℕ × Update))
      → cause_sentence w u.text ≡ o
      → All (λ v. not_later u v ≡ true) hits
      → IsEarliest hits later
      → IsEarliest (u ∷ hits) (cite_unless_missing u o later)
  cite-IsEarliest u none hits later e sorted h = skip-IsEarliest u hits later (rw e refl) h
  cite-IsEarliest u (some s) hits later e sorted h = elim (Bool-cases (is_empty s)) [
    | inl empty ↦ rw empty (skip-IsEarliest u hits later (rw (e, empty) refl) h)
    | inr words ↦ rw words (
      e,
      (
        inr (omega arith),
        All-map (λ v. not_later u v ≡ true) (λ v. (states w v ≡ false) ⊎ (u.ts ≤ v.ts)) hits
            (λ v before. inr (ground (arith, before))) sorted,
      ),
    )
  ]

  cause_in_order-IsEarliest :
      (hits : List Update) → IsSorted not_later hits → IsEarliest hits (cause_in_order w hits)
  unfolding cause_in_order
  cause_in_order-IsEarliest [] sorted = tt
  cause_in_order-IsEarliest (u ∷ hits) sorted =
      cite-IsEarliest u (cause_sentence w u.text) hits (cause_in_order w hits) refl sorted.0
        (cause_in_order-IsEarliest hits sorted.1)

  unsorted-IsEarliest :
      (hits : List Update) (o : Option (List ℕ × Update))
      → IsEarliest (sort_by not_later hits) o
      → IsEarliest hits o
  unsorted-IsEarliest hits none h = sort_by-All (λ u. states w u ≡ false) not_later hits h
  unsorted-IsEarliest hits (some (s, u)) h =
      (h.0, sort_by-All (λ v. (states w v ≡ false) ⊎ (u.ts ≤ v.ts)) not_later hits h.1)

  -- The update that is quoted is one of those that were given.
  abbrev pub Quotes : (Update → Type 0) → Option (List ℕ × Update) → Type 0
  Quotes P none = Unit
  Quotes P (some (sentence, u)) = P u

  cite-Quotes :
      (P : Update → Type 0) (u : Update) (o : Option (List ℕ)) (later : Option (List ℕ × Update))
      → P u
      → Quotes P later
      → Quotes P (cite_unless_missing u o later)
  cite-Quotes P u none later p h = h
  cite-Quotes P u (some s) later p h = elim (Bool-cases (is_empty s)) [
    | inl empty ↦ rw empty h
    | inr words ↦ rw words p
  ]

  cause_in_order-Quotes :
      (P : Update → Type 0) (hits : List Update) → All P hits → Quotes P (cause_in_order w hits)
  unfolding cause_in_order
  cause_in_order-Quotes P [] h = tt
  cause_in_order-Quotes P (u ∷ hits) h =
      cite-Quotes P u (cause_sentence w u.text) (cause_in_order w hits) h.0
        (cause_in_order-Quotes P hits h.1)

  -- Of the updates that it is given, `cause_from_updates` quotes a cause exactly when one of them
  -- states one: a sentence of an update before which none of them was posted that states a cause.
  pub cause_from_updates-IsEarliest :
      (hits : List Update)
      → IsEarliest hits (cause_from_updates w hits)
        × Quotes (λ u. Among u hits) (cause_from_updates w hits)
  unfolding cause_from_updates
  cause_from_updates-IsEarliest hits = (
    unsorted-IsEarliest hits (cause_in_order w (sort_by not_later hits)) (
        cause_in_order-IsEarliest (sort_by not_later hits)
          (sort_by-IsSorted not_later (λ a b h. ground arith) (λ a b c h h'. ground arith) hits)),
    cause_in_order-Quotes (λ u. Among u hits) (sort_by not_later hits)
        (All-sort_by (λ u. Among u hits) not_later hits (All-Among hits)),
  )
