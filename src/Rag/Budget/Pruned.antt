-- ===== src/Rag/Budget/Pruned.antt =====
-- The pruning of the counter beside its calls.
use mathlib.Core.Option
use freshet.Prelude.{
  ℕ, ◌+◌, ◌*◌, ◌≡◌, refl, ap, ◌∙◌, Bool, true, false, ◌||◌, Option, none, some, List, [], ◌∷◌, ltb,
  leb, ◌==◌, select, arith, Bool-cases, inl, inr,
}
use freshet.Common.Time.{day}
use freshet.Rag.Budget.{
  Window, Budget, Caps, hour_of, spend_row, day_calls, spend_hour, spend, prune,
}

-- `prune` keeps a window.
abbrev is_kept : ℕ → Window → Bool
is_kept now x = leb now (x.start + 7 * day)

day_calls-select :
    (now : ℕ) (ws : List Window) → day_calls now (select (is_kept now) ws) ≡ day_calls now ws
unfolding day_calls select
day_calls-select now [] = refl
day_calls-select now (x ∷ ws) = elim (Bool-cases (is_kept now x)) [
  | inl kept ↦ rw kept (ground (arith, day_calls-select now ws))
  | inr old ↦ rw old (ground (arith, old, day_calls-select now ws))
]

-- `spend_row` behind a window of another hour.
abbrev behind : Window → Option (List Window) → Option (List Window)
behind x rows = elim rows [ none ↦ none | some rest ↦ some (x ∷ rest) ]

behind_kept :
    (now : ℕ) (x : Window) (rows : Option (List Window))
    → is_kept now x ≡ true
    → behind x (Option.map (select (is_kept now)) rows)
      ≡ Option.map (select (is_kept now)) (behind x rows)
unfolding select
behind_kept now x none kept = refl
behind_kept now x (some rest) kept = rw kept refl

behind_dropped :
    (now : ℕ) (x : Window) (rows : Option (List Window))
    → is_kept now x ≡ false
    → Option.map (select (is_kept now)) rows ≡ Option.map (select (is_kept now)) (behind x rows)
unfolding select
behind_dropped now x none old = refl
behind_dropped now x (some rest) old = rw old refl

spend_row-select :
    (now start cap : ℕ) (ws : List Window)
    → leb now (start + 7 * day) ≡ true
    → spend_row start cap (select (is_kept now) ws)
      ≡ Option.map (select (is_kept now)) (spend_row start cap ws)
unfolding spend_row select
spend_row-select now start cap [] recent = rw recent refl
spend_row-select now start cap (x ∷ ws) recent = elim (Bool-cases (is_kept now x)) [
  | inl kept ↦ elim (Bool-cases (x.start == start)) [
    | inl same ↦ elim (Bool-cases (ltb x.calls cap)) [
      | inl below ↦ rw kept (rw same (rw below (rw kept refl)))
      | inr spent ↦ rw kept (rw same (rw spent refl))
    ]
    | inr other' ↦ rw kept (
        rw other' (
          ap (behind x) (spend_row-select now start cap ws recent)
          ∙ behind_kept now x (spend_row start cap ws) kept))
  ]
  | inr old ↦ elim (Bool-cases (x.start == start)) [
    | inl same ↦ absurd (ground (arith, same, old, recent))
    | inr other' ↦ rw old (
        rw other' (
          spend_row-select now start cap ws recent
          ∙ behind_dropped now x (spend_row start cap ws) old))
  ]
]

spend_hour-prune :
    (s : Budget) (rows : Option (List Window))
    → spend_hour (Option.map (select (is_kept s.clock)) rows) (prune s)
      ≡ ((spend_hour rows s).0, prune (spend_hour rows s).1)
unfolding spend_hour prune
spend_hour-prune s none = refl
spend_hour-prune s (some rows) = refl

hour_recent : (now : ℕ) → leb now (hour_of now + 7 * day) ≡ true
hour_recent now = ground arith

-- A call is admitted after a pruning exactly when it was before, and it makes no difference to the
-- counter which of the two comes first.
pub spend-prune :
    (caps : Caps) (s : Budget) → spend caps (prune s) ≡ ((spend caps s).0, prune (spend caps s).1)
unfolding spend prune
spend-prune caps s = elim (Bool-cases (leb caps.hourly_cap 0 || leb caps.daily_cap 0)) [
  | inl off ↦ rw off refl
  | inr on ↦ rw on (
      rw (day_calls-select s.clock s.windows)
        (elim (Bool-cases (leb caps.daily_cap (day_calls s.clock s.windows))) [
          | inl full ↦ rw full refl
          | inr left ↦ rw left (
              ap (λ rows. spend_hour rows (prune s))
                (spend_row-select s.clock (hour_of s.clock) caps.hourly_cap s.windows
                  (hour_recent s.clock))
              ∙ spend_hour-prune s (spend_row (hour_of s.clock) caps.hourly_cap s.windows))
        ]))
]
