-- ===== src/Ingest/Fetch.antt =====
-- freshet/ingest/poller.py: `http_fetch`, `_read_body` and `_retry_after_seconds`. The network, gzip,
-- the decoding of UTF-8, `float` and the parser of dates are functions; a body is the list of its
-- bytes.
pub mod Honoured
use freshet.Prelude.{
  ℕ, ◌-◌, ◌*◌, String, ◌||◌, not, Option, none, some, List, ltb, str_eq, ◌==◌, get_or,
  if◌then◌else◌, length,
}
use freshet.Prelude.Table.{Table, find}
use freshet.Prelude.Exec.{Result, ok, err, other}
use freshet.Ingest.Backoff.{max_backoff}
use freshet.Ingest.Sweep.{Fetched, answered, raised}

-- What `float` makes of a text: not a number, NaN or one that is not positive, one above all bounds
-- as `inf` is, or a number of milliseconds.
pub data Float : Type 0 where
  not_a_float not_positive infinite : Float
  millis : ℕ → Float

-- What `urlopen` does: a response, an HTTPError, or another error.
pub data Opened : Type 0 where
  opened : (status : ℕ) → Table String → (raw : List ℕ) → Opened
  http_error : (code : ℕ) → Table String → Opened
  failed : Opened

pub record Net : Type 0 where
  pub urlopen : (call : ℕ) → String → Table String → Opened
  pub decompress : List ℕ → Result (List ℕ)
  pub decode : List ℕ → String
  pub lower_strip : String → String
  pub float : String → Float
  -- `parsedate_to_datetime`, and the clock for it
  pub parse_date : String → Option ℕ
  pub today : (call : ℕ) → ℕ

-- MAX_BODY_BYTES
abbrev pub max_body_bytes : ℕ
max_body_bytes = 8 * 1024 * 1024

-- The HTTP-date form.
abbrev pub until_date : Option ℕ → ℕ → Option ℕ
until_date none today = none
until_date (some date) today = some (date - today)

-- A number that is not positive is told as zero, and one above all bounds as the longest delay.
abbrev pub float_or_date : Float → Option ℕ → Option ℕ
float_or_date not_a_float date = date
float_or_date not_positive date = some 0
float_or_date infinite date = some max_backoff
float_or_date (millis n) date = some n

-- `_retry_after_seconds`
abbrev pub parse_retry_after : Net → ℕ → Option String → Option ℕ
parse_retry_after net call none = none
parse_retry_after net call (some raw) =
    if str_eq raw ""
    then none
    else float_or_date (net.float raw) (until_date (net.parse_date raw) (net.today call))

unfoldable pub retry_after_seconds : Net → ℕ → Table String → Option ℕ
retry_after_seconds net call headers = parse_retry_after net call (find "Retry-After" headers)

abbrev pub decoded : Net → Result (List ℕ) → Result String
decoded net (ok bytes) = ok (net.decode bytes)
decoded net (err e) = err e

-- `_read_body`
unfoldable pub read_body : Net → Table String → List ℕ → Result String
read_body net headers raw =
    let encoding = net.lower_strip (get_or (find "Content-Encoding" headers) "") in
    if ltb max_body_bytes (length raw)
    then err other
    else if str_eq encoding "gzip"
    then decoded net (net.decompress raw)
    else if not (str_eq encoding "" || str_eq encoding "identity")
    then err other
    else ok (net.decode raw)

abbrev pub with_body : ℕ → Table String → Result String → Fetched
with_body status headers (ok body) = answered status headers body
with_body status headers (err e) = raised none

-- `http_fetch`; a missing body is the empty text.
abbrev pub taken : Net → ℕ → Opened → Fetched
taken net call (opened status headers raw) = with_body status headers (read_body net headers raw)
taken net call (http_error code headers) =
    if code == 304 then answered 304 headers "" else raised (retry_after_seconds net call headers)
taken net call failed = raised none

unfoldable pub http_fetch : Net → (call : ℕ) → String → Table String → Fetched
http_fetch net call url headers = taken net call (net.urlopen call url headers)
