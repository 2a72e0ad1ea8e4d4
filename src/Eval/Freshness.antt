-- ===== src/Eval/Freshness.antt =====
-- freshet/eval/freshness.py: the arithmetic of the report. A mean is kept as a sum beside the count
-- that it is divided by, so that nothing is rounded.
pub mod Ranks
pub mod Waits
pub mod Reports
use freshet.Prelude.{
  ℕ, zero, suc, ◌+◌, ◌-◌, ◌*◌, ◌/◌, ◌%◌, min, max, String, Option, none, some, List, [], ◌∷◌, ltb,
  leb, is_none, if◌then◌else◌, length, get_elem?,
}
use freshet.Prelude.Sort.{sort_by}
use freshet.Prelude.Table.{Table, find, put, remove}
use freshet.Common.Time.{hour}

-- The place that `percentile` reads. `ceil_share p n` is `math.ceil(p / 100 * n)`, of floats.
unfoldable pub rank : (ceil_share : ℕ → ℕ → ℕ) → ℕ → ℕ → ℕ
rank ceil_share p n = min (n - 1) (ceil_share p n - 1)

-- `percentile`; `none` is the `ValueError`.
unfoldable pub percentile : (ceil_share : ℕ → ℕ → ℕ) → List ℕ → ℕ → Option ℕ
percentile ceil_share values p = get_elem? (sort_by leb values) (rank ceil_share p (length values))

-- `streaming_staleness`
unfoldable pub streaming_staleness : ℕ → ℕ → ℕ
streaming_staleness posted_at queryable_at = queryable_at - posted_at

-- `batch_staleness`; a phase is below the interval.
unfoldable pub batch_staleness : (posted_at interval phase : ℕ) → ℕ
batch_staleness posted_at interval phase = interval - (posted_at + interval - phase) % interval

-- BATCH_INTERVAL_S, ALIGNMENT_COUNT
abbrev pub batch_interval : ℕ
batch_interval = hour

abbrev pub alignment_count : ℕ
alignment_count = 3600

unfoldable pub sum : List ℕ → ℕ
sum [] = 0
sum (x ∷ xs) = x + sum xs

unfoldable pub total_wait : List ℕ → (interval phase : ℕ) → ℕ
total_wait [] interval phase = 0
total_wait (posted ∷ rest) interval phase =
    batch_staleness posted interval phase + total_wait rest interval phase

-- The phases from the k-th on.
unfoldable pub waits_from : List ℕ → (interval step k left : ℕ) → List ℕ
waits_from posted_ats interval step k zero = []
waits_from posted_ats interval step k (suc left) =
    total_wait posted_ats interval (k * step) ∷ waits_from posted_ats interval step (suc k) left

-- `batch_alignment_sweep`: the sum at each phase, to be divided by the number of updates.
unfoldable pub batch_alignment_sweep : List ℕ → (interval n_alignments : ℕ) → List ℕ
batch_alignment_sweep [] interval n = []
batch_alignment_sweep (p ∷ ps) interval n = waits_from (p ∷ ps) interval (interval / n) 0 n

unfoldable pub minimum : ℕ → List ℕ → ℕ
minimum m [] = m
minimum m (x ∷ xs) = minimum (min m x) xs

unfoldable pub maximum : ℕ → List ℕ → ℕ
maximum m [] = m
maximum m (x ∷ xs) = maximum (max m x) xs

-- `summarize` of at least one update: the streaming numbers, and the sums of the batch waits.
pub record Summary : Type 0 where
  pub n : ℕ
  pub streaming_sum : ℕ
  pub streaming_p50 : Option ℕ
  pub streaming_p95 : Option ℕ
  pub batch_sum : ℕ
  pub batch_alignments : ℕ
  pub batch_min : ℕ
  pub batch_median : Option ℕ
  pub batch_max : ℕ
  pub batch_top_of_hour : ℕ

abbrev pub summary_of : (ceil_share : ℕ → ℕ → ℕ) → List ℕ → List ℕ → Option Summary
summary_of ceil_share streaming [] = none
summary_of ceil_share streaming (first ∷ rest) = some (record {
  n = length streaming;
  streaming_sum = sum streaming;
  streaming_p50 = percentile ceil_share streaming 50;
  streaming_p95 = percentile ceil_share streaming 95;
  batch_sum = sum (first ∷ rest);
  batch_alignments = length (first ∷ rest);
  batch_min = minimum first rest;
  batch_median = percentile ceil_share (first ∷ rest) 50;
  batch_max = maximum first rest;
  batch_top_of_hour = first;
})

-- `none` where nothing was scored, and where no update has a posting time, which the source fails
-- on; rounding and the ratios are left out.
unfoldable pub summarize :
    (ceil_share : ℕ → ℕ → ℕ) → List ℕ → List ℕ → (interval n_alignments : ℕ) → Option Summary
unfolding summary_of
summarize ceil_share [] posted_ats interval n = none
summarize ceil_share (s ∷ ss) posted_ats interval n =
    summary_of ceil_share (s ∷ ss) (batch_alignment_sweep posted_ats interval n)

-- A row of a chunk: when its update was posted and when it was queryable, and the update.
pub record ChunkRow : Type 0 where
  pub posted : ℕ
  pub queryable : ℕ
  pub event_id : String

-- `seen.setdefault(event_id, (posted, queryable))`
abbrev pub set_default : String → ℕ × ℕ → Table (ℕ × ℕ) → Table (ℕ × ℕ)
set_default e v seen = if is_none (find e seen) then put e v seen else seen

unfoldable pub collect : List ChunkRow → Table (ℕ × ℕ) → Table (ℕ × ℕ)
collect [] seen = seen
collect (r ∷ rows) seen = collect rows (set_default r.event_id (r.posted, r.queryable) seen)

-- `distinct_updates`; the values come with the keys that they stand under.
unfoldable pub distinct_updates : List ChunkRow → Table (ℕ × ℕ)
distinct_updates rows = collect rows []

-- A report is a dictionary; what stands under a key is a number or a text.
pub data Value : Type 0 where
  number : ℕ → Value
  text : String → Value

-- _EMPTY_RUN_KEYS
abbrev pub empty_run_keys : List String
empty_run_keys =
    "streaming_mean_s" ∷ "streaming_p50_s" ∷ "streaming_p95_s" ∷ "batch_mean_s" ∷ "batch_mean_s_min"
    ∷ "batch_mean_s_median" ∷ "batch_mean_s_max" ∷ "batch_mean_s_top_of_hour" ∷ "ratio"
    ∷ "ratio_min" ∷ "ratio_median" ∷ "ratio_max" ∷ "ratio_top_of_hour" ∷ "n_rows" ∷ []

unfoldable pub remove_all : List String → Table Value → Table Value
remove_all [] report = report
remove_all (k ∷ ks) report = remove_all ks (remove k report)

-- `report.get("n", 0)`
abbrev pub count_of : Option Value → ℕ
count_of none = 0
count_of (some (number n)) = n
count_of (some (text _)) = 0

-- `finalize_report`; the explanation is the source's.
unfoldable pub finalize_report : String → Table Value → Table Value
finalize_report explanation report =
    if ltb 0 (count_of (find "n" report))
    then report
    else remove_all empty_run_keys
        (put "explanation" (text explanation) (put "status" (text "not yet measured") report))
