-- ===== src/Autopilot/Drain.antt =====
-- freshet/autopilot/consumer.py: delivering what is due, on the idle tick and after each message.
pub mod Waiting
pub mod Retry
pub mod Indexed
use freshet.Prelude.{
  ℕ, zero, suc, ◌+◌, ◌*◌, ◌/◌, String, Bool, true, false, ◌&&◌, ◌||◌, Option, none, some, List, [],
  ◌∷◌, map, ltb, leb, get_or, if◌then◌else◌, take, select,
}
use freshet.Prelude.Table.{Table}
use freshet.Prelude.Sort.{sort_by}
use freshet.Prelude.Exec.{budget_exhausted, other, Result, ok, err, pure, on_error, ◌>>=◌, ◌>>◌}
use freshet.Common.Time.{second}
use freshet.Common.Incidents.{Incident}
use freshet.Pipeline.Lifecycle.{JsonValue}
use freshet.Autopilot.Leases.{Kind, brief, progress, postmortem, due, pending_followup}
use freshet.Autopilot.Agent.{
  World, Agent, Action, claim, claim_deferred, release_claim, mark, deliver, gather,
}
use freshet.Autopilot.Consumer.{handle_lifecycle}

-- `ORDER BY brief_due_at`
abbrev pub due_time : String × Incident → ℕ
due_time (i, r) = get_or r.brief_due_at 0

-- `due_incidents`: the ids and services of the due incidents, those due first in front.
unfoldable pub due_incidents : ℕ → Agent → List (String × String)
due_incidents limit s =
    map (λ (row : String × Incident). (row.0, get_or row.1.primary_service ""))
      (take limit (
        sort_by (λ a b. leb (due_time a) (due_time b))
          (select (λ (row : String × Incident). due s.clock row.1) s.incidents)))

-- `ORDER BY brief_delivered_at, incident_id`
abbrev pub followup_le : World → String × Incident → String × Incident → Bool
followup_le w (i, a) (j, b) =
    let ta = get_or a.brief_delivered_at 0 in
    let tb = get_or b.brief_delivered_at 0 in ltb ta tb || (leb ta tb && w.text_le i j)

-- `_PENDING_FOLLOWUPS_SQL`
unfoldable pub pending_followups : World → ℕ → Agent → List String
pending_followups w limit s =
    map (λ (row : String × Incident). row.0)
      (take limit (
        sort_by (followup_le w)
          (select (λ (row : String × Incident). pending_followup s.clock row.1) s.incidents)))

-- `sleep(0.5)`
abbrev pub index_poll : ℕ
index_poll = second / 2

-- The loop of `wait_for_index`, on fuel: running out of it raises, which the code cannot do.
unfoldable pub wait_loop : World → String → ℕ → ℕ → Action ℕ
wait_loop w i deadline zero s = (err other, s)
wait_loop w i deadline (suc fuel) s =
    let n = w.indexed_count s.calls i in
    let rest =
      wait_loop w i deadline fuel
        (record s { clock = s.clock + index_poll; calls = suc s.calls }) in
    if ltb 0 n || leb deadline s.clock then (ok n, record s { calls = suc s.calls }) else rest

unfoldable pub wait_for_index : World → String → ℕ → Action ℕ
unfolding wait_loop
wait_for_index w i timeout s = wait_loop w i (s.clock + timeout) (timeout / index_poll + 2) s

-- `index_timeout_s: float = 10.0`
abbrev pub index_timeout : ℕ
index_timeout = 10 * second

-- The `try` of `drain_due_briefs`; each of its two handlers releases the claim.
unfoldable pub try_brief : World → String → String → Action (Option String)
try_brief w i service =
    on_error
      (do
        wait_for_index w i index_timeout
        findings ← gather w brief service i
        deliver w brief i findings none)
      (release_claim brief i)

-- `drain_due_briefs` after its `try`: deliver and go on, break on a spent budget, or raise.
abbrev pub after_brief : World → String → Result (Option String) → ℕ → (ℕ → Action ℕ) → Action ℕ
after_brief w i (ok ts) delivered rest s =
    (mark w brief i ts (w.last_channel_id s.calls) >> rest (suc delivered)) s
after_brief w i (err budget_exhausted) delivered rest s = (ok delivered, s)
after_brief w i (err other) delivered rest s = (err other, s)

abbrev pub visit_claimed : World → String → String → Option Incident → ℕ → (ℕ → Action ℕ) → Action ℕ
visit_claimed w i service none delivered rest s = rest delivered s
visit_claimed w i service (some _) delivered rest s =
    let (r, s') = try_brief w i service s in after_brief w i r delivered rest s'

unfoldable pub drain_briefs : World → List (String × String) → ℕ → Action ℕ
drain_briefs w [] delivered = pure delivered
drain_briefs w ((i, service) ∷ rest) delivered = do
  claimed ← claim brief i
  visit_claimed w i service claimed delivered (drain_briefs w rest)

-- `deliver_deferred_progress` and `deliver_deferred_postmortem` once the claim is had.
abbrev pub deliver_claimed : World → Kind → String → Option Incident → Action Bool
deliver_claimed w k i none = pure false
deliver_claimed w k i (some r) = do
  on_error
      (do findings ← gather w k (get_or r.primary_service "") i; deliver w k i findings r.slack_ts)
      (release_claim k i)
  mark w k i none none
  pure true

unfoldable pub deliver_deferred : World → Kind → String → Action Bool
deliver_deferred w k i = do claimed ← claim_deferred k i; deliver_claimed w k i claimed

abbrev pub add_delivered : ℕ → Bool → ℕ
add_delivered n true = suc n
add_delivered n false = n

-- One of the two deliveries in the `try` of `drain_pending_followups`: what it delivered is counted
-- before the next one runs, and a spent budget breaks the loop.
abbrev pub after_followup : Result Bool → ℕ → (ℕ → Action ℕ) → Action ℕ
after_followup (ok done) delivered rest s = rest (add_delivered delivered done) s
after_followup (err budget_exhausted) delivered rest s = (ok delivered, s)
after_followup (err other) delivered rest s = (err other, s)

abbrev pub try_deferred : World → Kind → String → ℕ → (ℕ → Action ℕ) → Action ℕ
try_deferred w k i delivered rest s =
    let (r, s') = deliver_deferred w k i s in after_followup r delivered rest s'

unfoldable pub drain_followups : World → List String → ℕ → Action ℕ
drain_followups w [] delivered = pure delivered
drain_followups w (i ∷ rest) delivered =
    try_deferred w progress i delivered
      (λ n. try_deferred w postmortem i n (drain_followups w rest))

unfoldable pub drain_pending_followups : World → ℕ → Action ℕ
drain_pending_followups w limit s = drain_followups w (pending_followups w limit s) 0 s

unfoldable pub drain_due_briefs : World → ℕ → Action ℕ
drain_due_briefs w limit s =
    (do
      delivered ← drain_briefs w (due_incidents limit s) 0
      drain_pending_followups w limit
      pure delivered)
      s

-- `limit: int = 10`
abbrev pub drain_limit : ℕ
drain_limit = 10

unfoldable pub handle_and_drain : World → ℕ → Table JsonValue → Action ℕ
handle_and_drain w window message = do
  handle_lifecycle w window message
  drain_due_briefs w drain_limit
