-- ===== src/Common/Db/Attempts.antt =====
-- How often `execute` asks the driver, how long it sleeps, and whose answer it gives.
use freshet.Prelude.{
  ℕ, zero, suc, ◌+◌, ◌*◌, ◌≤◌, ◌<◌, ◌≡◌, refl, ap, ◌∙◌, sym, arith, ◌⊎◌, inl, inr, ◌≢◌,
}
use freshet.Common.Db.{
  Answer, returned, connection_error, other_error, Link, unless_retried, attempt, execute,
}

-- The sleeps between k + 1 attempts.
unfoldable pub sleeps : ℕ → ℕ → ℕ
sleeps delay zero = 0
sleeps delay (suc k) = delay + sleeps (delay * 2) k

module _ {A : Type 0} (run : ℕ → Answer A) where
  -- `k` attempts from `s` on failed for the connection, and the next one gave the outcome; only
  -- the last attempt's outcome may be a connection error.
  abbrev pub After : ℕ → ℕ → Link → Answer A × Link → Type 0
  After left delay s o =
      (k : ℕ) × (k ≤ left)
      × ((j : ℕ) → j < k → run (s.calls + j) ≡ connection_error)
      × (o.0 ≡ run (s.calls + k))
      × ((k ≡ left) ⊎ (o.0 ≢ connection_error))
      × (o.1.calls ≡ s.calls + k + 1)
      × (o.1.reconnects ≡ s.reconnects + k)
      × (o.1.slept ≡ s.slept + sleeps delay k)

  at_once :
      (left delay : ℕ) (s : Link) (a : Answer A)
      → run s.calls ≡ a
      → (0 ≡ left) ⊎ (a ≢ connection_error)
      → After left delay s (a, record s { calls = suc s.calls })
  unfolding sleeps
  at_once left delay s a e final = (
    0,
    omega arith,
    λ j below. ground arith,
    sym e ∙ ap run (omega arith),
    final,
    omega arith,
    omega arith,
    omega arith,
  )

  later :
      (left delay : ℕ) (s : Link) (o : Answer A × Link)
      → run s.calls ≡ connection_error
      → After left
          (delay * 2)
          (record { calls = suc s.calls; reconnects = suc s.reconnects; slept = s.slept + delay })
          o
      → After (suc left) delay s o
  unfolding sleeps
  later left delay s o e (k, few, failed, gave, final, calls, reconnects, slept) = (
    suc k,
    omega arith,
    earlier,
    gave ∙ ap run (omega arith),
    elim final [ inl all ↦ inl (ap suc all) | inr given ↦ inr given ],
    omega arith,
    omega arith,
    omega arith,
  )
    where
      earlier : (j : ℕ) → j < suc k → run (s.calls + j) ≡ connection_error
      earlier zero below = ap run (omega arith) ∙ e
      earlier (suc j) below = ap run (omega arith) ∙ failed j (omega arith)

  retried :
      (left delay : ℕ) (s : Link) (o : Answer A × Link) (a : Answer A)
      → run s.calls ≡ a
      → After left
          (delay * 2)
          (record { calls = suc s.calls; reconnects = suc s.reconnects; slept = s.slept + delay })
          o
      → After (suc left) delay s (unless_retried a (record s { calls = suc s.calls }) o)
  retried left delay s o (returned v) e after =
      at_once (suc left) delay s (returned v) e (inr (λ lost. cc))
  retried left delay s o connection_error e after = later left delay s o e after
  retried left delay s o other_error e after =
      at_once (suc left) delay s other_error e (inr (λ lost. cc))

  after-attempt : (left delay : ℕ) (s : Link) → After left delay s (attempt left delay run s)
  unfolding attempt
  after-attempt zero delay s = at_once 0 delay s (run s.calls) refl (inl refl)
  after-attempt (suc left) delay s = retried left delay s _ (run s.calls) refl (
      after-attempt left (delay * 2)
        (record { calls = suc s.calls; reconnects = suc s.reconnects; slept = s.slept + delay }))

  -- `execute` asks the driver until it gives something else than a connection error, three times
  -- at most, and gives its last answer: a value, or an error of another kind at once, and a
  -- connection error after the third attempt only. Before the second attempt it reconnects and
  -- sleeps half a second, before the third it reconnects and sleeps a second.
  pub execute_retries : (s : Link) → After 2 500 s (execute run s)
  unfolding execute
  execute_retries s = after-attempt 2 500 s
