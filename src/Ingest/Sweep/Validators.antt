-- ===== src/Ingest/Sweep/Validators.antt =====
-- When a sweep stores a feed's validators, and the order of what it gives.
use freshet.Prelude.{
  suc, ◌≡◌, refl, ◌∙◌, String, Bool, true, false, ◌||◌, Option, none, some, List, [], ◌∷◌, ◌==◌,
  str_eq, if◌then◌else◌, inl, inr, Bool-cases,
}
use freshet.Prelude.Table.{Table, find, find-put}
use freshet.Prelude.Exec.{Result, ok, err}
use freshet.Ingest.Backoff.{skip, succeeded}
use freshet.Ingest.Sweep.{
  IncidentUpdate, Page, Fetched, answered, raised, World, Poller, header_unless_empty, headers_for,
  remember, take_updates, after_fetch, one,
}

-- The request that would be sent for another URL is the same, and so is the one for this URL when
-- the page gave no update.
abbrev KeepsRequests : Page → Poller → List IncidentUpdate × Poller → Type 0
KeepsRequests page s (found, s') =
    (found ≡ [] → (s'.etag ≡ s.etag) × (s'.modified ≡ s.modified))
    × ((url : String) → str_eq page.url url ≡ false → headers_for url s' ≡ headers_for url s)

find-header :
    (key other : String) (v : Option String) (t : Table String)
    → str_eq key other ≡ false
    → find other (header_unless_empty key v t) ≡ find other t
find-header key other none t e = refl
find-header key other (some v) t e = elim (Bool-cases (str_eq v "")) [
  | inl empty ↦ rw empty refl
  | inr full ↦ rw full (rw (find-put key other v t, e) refl)
]

remember_other :
    (key url : String) (response : Table String) (s : Poller)
    → str_eq key url ≡ false
    → headers_for url (remember key response s) ≡ headers_for url s
unfolding headers_for remember
remember_other key url response s e =
    rw
      (
        find-header key url (find "ETag" response) s.etag e,
        find-header key url (find "Last-Modified" response) s.modified e,
      )
      refl

quiet :
    (page : Page) (s s' : Poller)
    → s'.etag ≡ s.etag
    → s'.modified ≡ s.modified
    → KeepsRequests page s ([], s')
unfolding headers_for
quiet page s s' same_etag same_modified =
    (λ _. (same_etag, same_modified), λ url e. cc (same_etag, same_modified))

taken_keeps :
    (page : Page) (response : Table String) (parsed : Result (List IncidentUpdate)) (s s' : Poller)
    → s'.etag ≡ s.etag
    → s'.modified ≡ s.modified
    → KeepsRequests page s (take_updates page response parsed s')
taken_keeps page response (err e) s s' he hm = quiet page s s' he hm
taken_keeps page response (ok []) s s' he hm = quiet page s s' he hm
taken_keeps page response (ok (u ∷ us)) s s' he hm = (
  λ none_found. cc,
  λ url e. remember_other page.url url response s' e ∙ (quiet page s s' he hm).1 url e,
)

fetched_keeps :
    (w : World) (page : Page) (f : Fetched) (s s' : Poller)
    → s'.etag ≡ s.etag
    → s'.modified ≡ s.modified
    → KeepsRequests page s (after_fetch w page f s')
fetched_keeps w page (raised r) s s' he hm = quiet page s _ he hm
fetched_keeps w page (answered status response body) s s' he hm =
    choose (status == 304 || str_eq body "")
  where
    s'' : Poller
    s'' = record s' { backoff = succeeded (w.host_of page.url) s'.backoff }

    taken : List IncidentUpdate × Poller
    taken = take_updates page response (w.parse_atom page.provider body) s''

    choose : (b : Bool) → KeepsRequests page s (if b then ([], s'') else taken)
    choose true = quiet page s s'' he hm
    choose false = taken_keeps page response (w.parse_atom page.provider body) s s'' he hm

one-KeepsRequests : (w : World) (page : Page) (s : Poller) → KeepsRequests page s (one w page s)
unfolding one
one-KeepsRequests w page s = choose (skip (w.host_of page.url) (w.now s.calls) s.backoff)
  where
    fetched : List IncidentUpdate × Poller
    fetched =
        after_fetch w page (w.fetch s.calls page.url (headers_for page.url s))
          (record s { calls = suc s.calls })

    choose : (b : Bool) → KeepsRequests page s (if b then ([], s) else fetched)
    choose true = quiet page s s refl refl
    choose false =
        fetched_keeps w page (w.fetch s.calls page.url (headers_for page.url s)) s
          (record s { calls = suc s.calls }) refl refl

-- A page that gives no update, because it is skipped, unchanged, unreachable or not understood,
-- leaves the stored validators of every feed alone, so that the next request does not ask for a
-- newer feed than the one that was understood.
pub one_keeps_validators :
    (w : World) (page : Page) (s : Poller)
    → (one w page s).0 ≡ []
    → ((one w page s).1.etag ≡ s.etag) × ((one w page s).1.modified ≡ s.modified)
one_keeps_validators w page s none_found = (one-KeepsRequests w page s).0 none_found

-- Whatever a page's fetch and parse give, the request headers for every other URL stay the same.
pub one_keeps_others :
    (w : World) (page : Page) (s : Poller) (url : String)
    → str_eq page.url url ≡ false
    → headers_for url (one w page s).1 ≡ headers_for url s
one_keeps_others w page s url another = (one-KeepsRequests w page s).1 url another
