-- ===== src/Rag/Budget/Limits.antt =====
-- What the caps bound.
use freshet.Prelude.{
  ℕ, suc, ◌+◌, ◌≤◌, ◌<◌, ◌≡◌, refl, inl, inr, true, ◌||◌, Option, none, some, List, [], ◌∷◌, arith,
  ltb, leb, ◌==◌, Bool-cases, Option-cases, All,
}
use freshet.Prelude.Exec.{Result, ok, err, budget_exhausted, Result-cases}
use freshet.Common.Time.{day}
use freshet.Rag.Budget.{
  Window, Budget, Caps, Action, hour_of, spend_row, day_calls, spend, compose, spend_hour,
}

-- No hour has more calls than the cap.
abbrev pub WithinHourly : ℕ → List Window → Type 0
WithinHourly cap = All (λ x. x.calls ≤ cap)

abbrev OnSome : (List Window → Type 0) → Option (List Window) → Type 0
OnSome P none = Unit
OnSome P (some ws) = P ws

spend_row-WithinHourly :
    (start cap : ℕ) (ws : List Window)
    → 0 < cap
    → WithinHourly cap ws
    → OnSome (WithinHourly cap) (spend_row start cap ws)
unfolding spend_row
spend_row-WithinHourly start cap [] pos h = (pos, tt)
spend_row-WithinHourly start cap (x ∷ rest) pos h = elim (Bool-cases (x.start == start)) [
  | inl here ↦ elim (Bool-cases (ltb x.calls cap)) [
    | inl room ↦ rw (here, room) (ground arith, h.1)
    | inr spent ↦ rw (here, spent) tt
  ]
  | inr later ↦
      let ih = spend_row-WithinHourly start cap rest pos h.1 in
      elim (Option-cases (spend_row start cap rest)) [
        | inl refused ↦ rw (later, refused) tt
        | inr (ws, e) ↦ rw (later, e) (h.0, rw e at ih)
      ]
]

-- A row of the current hour counts for the day.
hour_in_day : (now : ℕ) → ltb now (hour_of now + day) ≡ true
hour_in_day now = ground arith

day_calls-spend_row :
    (now cap : ℕ) (ws : List Window)
    → OnSome (λ ws'. day_calls now ws' ≡ suc (day_calls now ws)) (spend_row (hour_of now) cap ws)
unfolding spend_row day_calls
day_calls-spend_row now cap [] = rw (hour_in_day now)
day_calls-spend_row now cap (x ∷ rest) = elim (Bool-cases (x.start == hour_of now)) [
  | inl here ↦ elim (Bool-cases (ltb x.calls cap)) [
    | inl room ↦ rw (here, room) (ground (arith, hour_in_day now, here))
    | inr spent ↦ rw (here, spent) tt
  ]
  | inr later ↦
      let ih = day_calls-spend_row now cap rest in
      elim (Option-cases (spend_row (hour_of now) cap rest)) [
        | inl refused ↦ rw (later, refused) tt
        | inr (ws, e) ↦ rw (later, e) (ground (arith, rw e at ih))
      ]
]

abbrev pub Spent : Caps → Budget → Result (Unit {0}) → Budget → Type 0
Spent caps s (ok _) s' =
    WithinHourly caps.hourly_cap s'.windows
    × (day_calls s.clock s'.windows ≡ suc (day_calls s.clock s.windows))
    × (day_calls s.clock s'.windows ≤ caps.daily_cap)
Spent caps s (err e) s' = (e ≡ budget_exhausted) × (s' ≡ s)

spend_hour-Spent :
    (caps : Caps) (s : Budget) (o : Option (List Window))
    → day_calls s.clock s.windows < caps.daily_cap
    → OnSome (WithinHourly caps.hourly_cap) o
    → OnSome (λ ws. day_calls s.clock ws ≡ suc (day_calls s.clock s.windows)) o
    → Spent caps s (spend_hour o s).0 (spend_hour o s).1
unfolding spend_hour
spend_hour-Spent caps s none room hourly daily = (refl, refl)
spend_hour-Spent caps s (some ws) room hourly daily = (hourly, daily, omega arith)

-- Where no hour is above its cap: a call that is admitted is counted, once, and leaves every hour
-- within the hourly cap and the last 24 hours within the daily cap; one that is refused is refused
-- with `BudgetExhausted` and changes nothing.
pub spend-Spent :
    (caps : Caps) (s : Budget)
    → WithinHourly caps.hourly_cap s.windows
    → Spent caps s (spend caps s).0 (spend caps s).1
unfolding spend
spend-Spent caps s h = elim (Bool-cases (leb caps.hourly_cap 0 || leb caps.daily_cap 0)) [
  | inl disabled ↦ rw disabled (refl, refl)
  | inr enabled ↦ elim (Bool-cases (leb caps.daily_cap (day_calls s.clock s.windows))) [
    | inl over ↦ rw (enabled, over) (refl, refl)
    | inr under ↦
        rw (enabled, under)
          (spend_hour-Spent caps s (spend_row (hour_of s.clock) caps.hourly_cap s.windows)
            (ground arith)
            (spend_row-WithinHourly (hour_of s.clock) caps.hourly_cap s.windows (ground arith) h)
            (day_calls-spend_row s.clock caps.hourly_cap s.windows))
  ]
]

-- The spend is recorded before the call: where it is admitted the call is made in the state that
-- counts it, and keeps the count whatever it answers; where it is refused the call is not made.
pub compose_counts_first :
    {A : Type 0} (caps : Caps) (inner : Action A) (s : Budget)
    → compose caps inner s ≡ (elim (spend caps s).0 [
      | ok _ ↦ inner (spend caps s).1
      | err e ↦ (err e, (spend caps s).1)
    ])
unfolding compose
compose_counts_first caps inner s = elim (Result-cases (spend caps s).0) [
  | inl (u, e) ↦ rw e
  | inr (x, e) ↦ rw e
]
