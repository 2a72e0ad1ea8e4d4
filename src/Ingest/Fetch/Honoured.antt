-- ===== src/Ingest/Fetch/Honoured.antt =====
-- A page's instruction to wait, through the fetch and the back-off of its host.
use freshet.Prelude.{
  ℕ, suc, ◌+◌, ◌<◌, ◌≡◌, refl, ap, ◌∙◌, min, String, true, false, some, ltb, ◌==◌, if◌then◌else◌,
  arith, str_eq, eq_iff,
}
use freshet.Prelude.Table.{Table}
use freshet.Ingest.Backoff.{skip, failed, delay, max_backoff, HostBackoff, failure_count}
use freshet.Ingest.Backoff.Delays.{skip-failed}
use freshet.Ingest.Sweep.{World, Page, Poller, one, headers_for}
use freshet.Ingest.Fetch.{Net, http_error, retry_after_seconds, http_fetch, raised}

-- The poller's world, with the network under its fetches.
abbrev pub over : Net → World → World
over net w = record w { fetch = http_fetch net }

delay-asked : (k n : ℕ) → 0 < n → delay k (some n) ≡ min max_backoff n
unfolding delay
delay-asked k n h = ground (arith, h)

failed-asked :
    (host : String) (n now : ℕ) (b : HostBackoff)
    → 0 < n
    → (failed host (some n) now b).1 ≡ min max_backoff n
unfolding failed
failed-asked host n now b h = delay-asked (failure_count host b + 1) n h

skip-asked :
    (host : String) (n now later : ℕ) (b : HostBackoff)
    → 0 < n
    → skip host later (failed host (some n) now b).0 ≡ ltb later (now + min max_backoff n)
skip-asked host n now later b h =
    let (same, lo, hi) = skip-failed host host (some n) now later b in
    let itself : str_eq host host ≡ true = ground (arith, eq_iff host host) in
    same
    ∙ ap (λ x. if x then ltb later (now + (failed host (some n) now b).1) else skip host later b)
        itself
    ∙ ap (λ d. ltb later (now + d)) (failed-asked host n now b h)

http_fetch_raises :
    (net : Net) (call n code : ℕ) (url : String) (headers response : Table String)
    → net.urlopen call url headers ≡ http_error code response
    → (code == 304) ≡ false
    → retry_after_seconds net call response ≡ some n
    → http_fetch net call url headers ≡ raised (some n)
unfolding http_fetch
http_fetch_raises net call n code url headers response e not_304 asked = rw (e, not_304, asked) refl

-- A host that was not skipped answers a page with an error that is no 304 and asks to wait for some
-- time: it is skipped for that time, five minutes at most, from the failure on, and no longer.
pub one_honours :
    (net : Net) (w : World) (page : Page) (s : Poller) (code n later : ℕ) (response : Table String)
    → skip (w.host_of page.url) (w.now s.calls) s.backoff ≡ false
    → net.urlopen s.calls page.url (headers_for page.url s) ≡ http_error code response
    → (code == 304) ≡ false
    → retry_after_seconds net s.calls response ≡ some n
    → 0 < n
    → skip (w.host_of page.url) later (one (over net w) page s).1.backoff
      ≡ ltb later (w.now (suc s.calls) + min max_backoff n)
unfolding one
one_honours net w page s code n later response due e not_304 asked positive =
    rw
      (
        due,
        http_fetch_raises net s.calls n code page.url (headers_for page.url s) response e not_304
            asked,
      )
      (skip-asked (w.host_of page.url) n (w.now (suc s.calls)) later s.backoff positive)
