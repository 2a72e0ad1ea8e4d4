-- ===== src/Common/Db.antt =====
-- freshet/common/db.py: `ResilientConnection.execute`. What the driver answers is a function of the
-- number of the call, so that an answer may differ after a reconnect.
pub mod Attempts
use freshet.Prelude.{ℕ, zero, suc, ◌+◌, ◌*◌}

-- What the driver's `execute` does; its connection errors are `psycopg.OperationalError` and
-- `psycopg.InterfaceError`.
pub data Answer (A : Type 0) : Type 0 where
  returned : A → Answer A
  connection_error : Answer A
  other_error : Answer A

pub record Link : Type 0 where
  pub calls : ℕ
  pub reconnects : ℕ
  pub slept : ℕ

-- _RETRY_ATTEMPTS, _RETRY_BASE_DELAY_S in milliseconds
abbrev pub retry_attempts : ℕ
retry_attempts = 3

abbrev pub retry_base_delay : ℕ
retry_base_delay = 500

module _ {A : Type 0} where
  -- An answer to an attempt that is not the last one: `again` is what the later attempts do.
  abbrev pub unless_retried : Answer A → Link → Answer A × Link → Answer A × Link
  unless_retried (returned a) s again = (returned a, s)
  unless_retried connection_error s again = again
  unless_retried other_error s again = (other_error, s)

  -- The loop of `execute`, with the number of attempts after the one at hand.
  unfoldable pub attempt : ℕ → ℕ → (ℕ → Answer A) → Link → Answer A × Link
  attempt zero delay run s = (run s.calls, record s { calls = suc s.calls })
  attempt (suc left) delay run s =
      unless_retried (run s.calls) (record s { calls = suc s.calls })
        (attempt left (delay * 2) run
          (record { calls = suc s.calls; reconnects = suc s.reconnects; slept = s.slept + delay }))

  unfoldable pub execute : (ℕ → Answer A) → Link → Answer A × Link
  execute = attempt 2 retry_base_delay
