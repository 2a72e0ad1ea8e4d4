-- ===== src/Pipeline/IndexStats.antt =====
-- freshet/pipeline/index_stats.py: the centroid of the index and its cache in the process. Other
-- processes write the table too, so what it holds is a function of the time.
pub mod Recent
use freshet.Prelude.{
  ℕ, suc, ◌+◌, ◌*◌, String, Bool, false, Option, none, some, List, [], ◌∷◌, ltb, str_eq,
  if◌then◌else◌,
}
use freshet.Prelude.Table.{Table, find, put}
use freshet.Common.Time.{second}

-- CENTROID_TTL_S
abbrev pub centroid_ttl : ℕ
centroid_ttl = 300 * second

-- The clock by the number of its reading, what `_READ_SQL` gives at a time, and the answer of
-- `_CENTROID_SQL`: the mean, where there is one, and the number of rows.
pub record World : Type 0 where
  pub now : (call : ℕ) → ℕ
  pub stored : (time : ℕ) → (model : String) → Option String
  pub mean : (call : ℕ) → (model : String) → Option (String × ℕ)

-- `_CACHE`, the rows that were upserted (newest first), and the number of calls.
pub record State : Type 0 where
  pub cache : Table (ℕ × Option String)
  pub upserts : List (String × String × ℕ)
  pub calls : ℕ

abbrev pub start : State
start = record { cache = []; upserts = []; calls = 0 }

abbrev pub next : State → State
next s = record s { calls = suc s.calls }

-- `clear_cache`
unfoldable pub clear_cache : State → State
clear_cache s = record s { cache = [] }

-- `compute_centroid`
abbrev pub mean_of : Option (String × ℕ) → Option String
mean_of none = none
mean_of (some (centroid, n)) = some centroid

unfoldable pub compute_centroid : World → String → State → Option String × State
compute_centroid w model s = (mean_of (w.mean s.calls model), next s)

abbrev pub store_mean : String → Option (String × ℕ) → State → ℕ × State
store_mean model none s = (0, s)
store_mean model (some (centroid, n)) s =
    (n, clear_cache (record s { upserts = (model, centroid, n) ∷ s.upserts }))

-- `refresh_centroid`
unfoldable pub refresh_centroid : World → String → State → ℕ × State
refresh_centroid w model s = store_mean model (w.mean s.calls model) (next s)

-- A cached entry that is not older than the time to live.
abbrev pub is_fresh : ℕ → Option (ℕ × Option String) → Bool
is_fresh stamp none = false
is_fresh stamp (some (read_at, value)) = ltb stamp (read_at + centroid_ttl)

abbrev pub cached_value : Option (ℕ × Option String) → Option String
cached_value none = none
cached_value (some (read_at, value)) = value

abbrev pub get_at : World → String → ℕ → State → Option String × State
get_at w model stamp s =
    if is_fresh stamp (find model s.cache) then (cached_value (find model s.cache), s) else (
      w.stored stamp model,
      record s { cache = put model (stamp, w.stored stamp model) s.cache },
    )

-- `get_centroid`
unfoldable pub get_centroid : World → String → State → Option String × State
get_centroid w model s =
    if str_eq model "" then (none, s) else get_at w model (w.now s.calls) (next s)
