-- ===== src/Rag/Timeframe/Windows.antt =====
-- The first phrase that a question has decides on its window, which ends now.
use freshet.Prelude.{
  ℕ, ◌*◌, ◌≤◌, ◌≡◌, refl, ap, String, Option, none, some, List, [], ◌∷◌, ◌++◌, arith, inl, inr,
  Bool-cases, ltb, All,
}
use freshet.Prelude.Exec.{Result, ok, err}
use freshet.Common.Time.{hour, day}
use freshet.Rag.Timeframe.{
  Pattern, last_n_hours, last_n_days, last_hour, this_morning, today, yesterday, this_week,
  right_now, recently, World, rules, back, midnight, build, label, named, first_match, infer_window,
  unless_found,
}

-- A window begins now or earlier.
abbrev IsPast : ℕ → Result ℕ → Type 0
IsPast now (ok since) = since ≤ now
IsPast now (err _) = Unit

back-IsPast : (span now later : ℕ) → now ≤ later → IsPast later (back span now)
unfolding back
back-IsPast span now later h = elim (Bool-cases (ltb now span)) [
  | inl long ↦ rw long tt
  | inr short ↦ rw short (omega arith)
]

midnight_past : (now : ℕ) → midnight now ≤ now
unfolding midnight
midnight_past now = omega arith

build-IsPast : (p : Pattern) (n now : ℕ) → IsPast now (build p n now)
unfolding build
build-IsPast last_n_hours n now = back-IsPast (n * hour) now now (omega arith)
build-IsPast last_n_days n now = back-IsPast (n * day) now now (omega arith)
build-IsPast last_hour n now = back-IsPast hour now now (omega arith)
build-IsPast this_morning n now = midnight_past now
build-IsPast today n now = midnight_past now
build-IsPast yesterday n now = back-IsPast day (midnight now) now (midnight_past now)
build-IsPast this_week n now = back-IsPast (7 * day) now now (omega arith)
build-IsPast right_now n now = back-IsPast (6 * hour) now now (omega arith)
build-IsPast recently n now = back-IsPast (24 * hour) now now (omega arith)

module _ (w : World) (question : List ℕ) (now : ℕ) where
  -- Of some rules, the first with a match, and the text of its group.
  abbrev pub IsFirst : List Pattern → Pattern → String → Type 0
  IsFirst ps p group =
      (before : List Pattern) × (after : List Pattern) × (before ++ p ∷ after ≡ ps)
      × All (λ q. w.search q question ≡ none) before
      × (w.search p question ≡ some group)

  -- What some rules come to.
  abbrev pub IsInferred : List Pattern → Result (Option (ℕ × String)) → Type 0
  IsInferred ps (ok none) = All (λ q. w.search q question ≡ none) ps
  IsInferred ps (ok (some (since, text))) =
      (p : Pattern) × (group : String) × IsFirst ps p group
      × (text ≡ label p group)
      × (build p (w.int group) now ≡ ok since)
      × (since ≤ now)
  IsInferred ps (err e) =
      (p : Pattern) × (group : String) × IsFirst ps p group × (build p (w.int group) now ≡ err e)

  IsFirst-later :
      (ps : List Pattern) (p q : Pattern) (group : String)
      → w.search q question ≡ none
      → IsFirst ps p group
      → IsFirst (q ∷ ps) p group
  IsFirst-later ps p q group silent (before, after, e, quiet, found) =
      (q ∷ before, after, ap (λ l. q ∷ l) e, (silent, quiet), found)

  IsInferred-later :
      (ps : List Pattern) (q : Pattern) (r : Result (Option (ℕ × String)))
      → w.search q question ≡ none
      → IsInferred ps r
      → IsInferred (q ∷ ps) r
  IsInferred-later ps q (ok none) silent h = (silent, h)
  IsInferred-later ps q (ok (some (since, text))) silent (p, group, first, e, f, g) =
      (p, group, IsFirst-later ps p q group silent first, e, f, g)
  IsInferred-later ps q (err x) silent (p, group, first, f) =
      (p, group, IsFirst-later ps p q group silent first, f)

  named-IsInferred :
      (ps : List Pattern) (p : Pattern) (group : String) (r : Result ℕ)
      → w.search p question ≡ some group
      → build p (w.int group) now ≡ r
      → IsPast now r
      → IsInferred (p ∷ ps) (named (label p group) r)
  named-IsInferred ps p group (ok since) found e past =
      (p, group, ([], ps, refl, tt, found), refl, e, past)
  named-IsInferred ps p group (err x) found e past = (p, group, ([], ps, refl, tt, found), e)

  unless_found-IsInferred :
      (p : Pattern) (ps : List Pattern) (found : Option String)
      (others : Result (Option (ℕ × String)))
      → w.search p question ≡ found
      → IsInferred ps others
      → IsInferred (p ∷ ps) (unless_found w p found now others)
  unless_found-IsInferred p ps none others e h = IsInferred-later ps p others e h
  unless_found-IsInferred p ps (some group) others e h =
      named-IsInferred ps p group (build p (w.int group) now) e refl
        (build-IsPast p (w.int group) now)

  first_match-IsInferred : (ps : List Pattern) → IsInferred ps (first_match w ps question now)
  unfolding first_match
  first_match-IsInferred [] = tt
  first_match-IsInferred (p ∷ ps) =
      unless_found-IsInferred p ps (w.search p question) (first_match w ps question now) refl
        (first_match-IsInferred ps)

-- A question without a phrase of time has no window. Otherwise the first rule that matches decides:
-- the window begins now or earlier, where the rule says, with the rule's label, and where that is
-- before the first `datetime`, the function raises.
pub infer_window-IsInferred :
    (w : World) (question : List ℕ) (now : ℕ)
    → IsInferred w question now rules (infer_window w question now)
unfolding infer_window
infer_window-IsInferred w question now = first_match-IsInferred w question now rules
