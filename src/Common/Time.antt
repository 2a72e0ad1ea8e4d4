-- ===== src/Common/Time.antt =====
-- Time. A float of seconds, a `datetime` and a Postgres `timestamptz` are counts of milliseconds;
-- a `timedelta` is a difference of two of them.
use freshet.Prelude.{ℕ, ◌*◌}

abbrev pub second : ℕ
second = 1000

abbrev pub minute : ℕ
minute = 60 * second

abbrev pub hour : ℕ
hour = 60 * minute

abbrev pub day : ℕ
day = 24 * hour
