-- ===== src/Ingest/Sweep.antt =====
-- freshet/ingest/poller.py: `ConditionalCache` without its file, and `poll_once` with a backoff. The
-- pool's threads take the pages in any order; the sweep here takes them one after the other, in the
-- order in which the pool gives their results.
pub mod Validators
use freshet.Prelude.{
  ℕ, suc, String, Bool, ◌||◌, Option, none, some, List, [], ◌∷◌, ◌++◌, leb, ◌==◌, str_eq,
  if◌then◌else◌,
}
use freshet.Prelude.Table.{Table, find, put}
use freshet.Prelude.Sort.{sort_by}
use freshet.Prelude.Exec.{Result, ok, err}
use freshet.Ingest.Backoff.{HostBackoff, skip, failed, succeeded}

-- freshet/ingest/sources.py
pub record IncidentUpdate : Type 0 where
  pub provider : String
  pub incident_id : String
  pub update_id : String
  pub created_at : ℕ
  pub status : String
  pub text : String
  pub incident_name : String
  pub body_digest : String

-- freshet/ingest/registry.py
pub record Page : Type 0 where
  pub provider : String
  pub url : String

-- What `fetch` returns or raises; a `RetryAfter` says for how long.
pub data Fetched : Type 0 where
  answered : (status : ℕ) → Table String → (body : String) → Fetched
  raised : (retry_after : Option ℕ) → Fetched

-- The network, the clock, `urlsplit` and the feed's parser. A missing body is the empty text.
pub record World : Type 0 where
  pub fetch : (call : ℕ) → String → Table String → Fetched
  pub now : (call : ℕ) → ℕ
  pub host_of : String → String
  pub parse_atom : String → String → Result (List IncidentUpdate)

pub record Poller : Type 0 where
  pub etag : Table String
  pub modified : Table String
  pub backoff : HostBackoff
  pub calls : ℕ

-- `if x := table.get(key): headers[name] = x`
abbrev pub header_unless_empty : String → Option String → Table String → Table String
header_unless_empty name none headers = headers
header_unless_empty name (some v) headers = if str_eq v "" then headers else put name v headers

abbrev pub user_agent : String
user_agent = "freshet/2.0 (+https://github.com/KrasiKirov/freshet)"

unfoldable pub headers_for : String → Poller → Table String
headers_for url s = header_unless_empty "If-Modified-Since" (find url s.modified) (
    header_unless_empty "If-None-Match" (find url s.etag)
      (("User-Agent", user_agent) ∷ ("Accept-Encoding", "gzip") ∷ []))

unfoldable pub remember : String → Table String → Poller → Poller
remember url response s = record s {
  etag = header_unless_empty url (find "ETag" response) s.etag;
  modified = header_unless_empty url (find "Last-Modified" response) s.modified;
}

-- What `one` does with what the parser gave.
abbrev pub take_updates :
    Page → Table String → Result (List IncidentUpdate) → Poller → List IncidentUpdate × Poller
take_updates page response (err e) s = ([], s)
take_updates page response (ok []) s = ([], s)
take_updates page response (ok (u ∷ us)) s = (u ∷ us, remember page.url response s)

-- And with what was fetched.
abbrev pub after_fetch : World → Page → Fetched → Poller → List IncidentUpdate × Poller
after_fetch w page (raised retry_after) s = (
  [],
  record s { backoff = (failed (w.host_of page.url) retry_after (w.now s.calls) s.backoff).0 },
)
after_fetch w page (answered status response body) s =
    let s' = record s { backoff = succeeded (w.host_of page.url) s.backoff } in
    let taken = take_updates page response (w.parse_atom page.provider body) s' in
    if status == 304 || str_eq body "" then ([], s') else taken

-- `one`
unfoldable pub one : World → Page → Poller → List IncidentUpdate × Poller
one w page s =
    let fetched =
      after_fetch w page (w.fetch s.calls page.url (headers_for page.url s))
        (record s { calls = suc s.calls }) in
    if skip (w.host_of page.url) (w.now s.calls) s.backoff then ([], s) else fetched

unfoldable pub sweep : World → List Page → Poller → List IncidentUpdate × Poller
sweep w [] s = ([], s)
sweep w (page ∷ pages) s =
    let (found, s') = one w page s in let (others, s'') = sweep w pages s' in (found ++ others, s'')

abbrev pub no_later : IncidentUpdate → IncidentUpdate → Bool
no_later u v = leb u.created_at v.created_at

-- `poll_once`
unfoldable pub poll_once : World → List Page → Poller → List IncidentUpdate × Poller
poll_once w pages s = let (updates, s') = sweep w pages s in (sort_by no_later updates, s')
