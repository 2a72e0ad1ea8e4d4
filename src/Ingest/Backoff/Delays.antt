-- ===== src/Ingest/Backoff/Delays.antt =====
-- How long a failing host is skipped.
use freshet.Prelude.{
  ℕ, ◌+◌, ◌^◌, ◌≤◌, ◌<◌, ◌≡◌, min, String, false, Option, none, some, ltb, if◌then◌else◌, arith,
  eq_iff, str_eq,
}
use native.Mathlib.Nat.{one-le-pow}
use freshet.Prelude.Table.{find-put, find-remove}
use freshet.Ingest.Backoff.{HostBackoff, max_backoff, skip, delay, failure_count, failed, succeeded}

two_pow_pos : (n : ℕ) → 0 < 2 ^ n
two_pow_pos n = one-le-pow n 2 (omega arith)

-- The delay is positive and at most five minutes, whatever the provider asks for.
delay_bounds : (n : ℕ) (r : Option ℕ) → (0 < delay n r) × (delay n r ≤ max_backoff)
unfolding delay
delay_bounds n none = ground (arith, two_pow_pos (min n 10))
delay_bounds n (some r) = ground (arith, two_pow_pos (min n 10))

-- After a failure the host is skipped for exactly the delay, which is positive and at most five
-- minutes whatever interval the provider asked for, and every other host is treated as before.
pub skip-failed :
    (host other : String) (r : Option ℕ) (now later : ℕ) (b : HostBackoff)
    → (skip other later (failed host r now b).0 ≡ (
        if str_eq host other
        then ltb later (now + (failed host r now b).1)
        else skip other later b))
      × (0 < (failed host r now b).1)
      × ((failed host r now b).1 ≤ max_backoff)
unfolding skip failed
skip-failed host other r now later b =
    let n = failure_count host b + 1 in
    let d = delay n r in
    let (lo, hi) = delay_bounds n r in
    (ground (arith, find-put host other (now + d) b.until), lo, hi)

-- A success forgets the host: it is not skipped, and its next failure counts as the first.
pub succeeded_forgets :
    (host other : String) (now : ℕ) (r : Option ℕ) (b : HostBackoff)
    → (skip other now (succeeded host b) ≡ (if str_eq host other then false else skip other now b))
      × ((failed host r now (succeeded host b)).1 ≡ delay 1 r)
unfolding skip succeeded failed
succeeded_forgets host other now r b = (
  ground (arith, find-remove host other b.until),
  ground (arith, find-remove host host b.failures, eq_iff host host),
)
