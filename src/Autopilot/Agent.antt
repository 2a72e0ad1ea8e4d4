-- ===== src/Autopilot/Agent.antt =====
-- freshet/autopilot/consumer.py: the state that its functions share, its collaborators, and the
-- functions that run one statement.
use freshet.Prelude.{ℕ, suc, ◌+◌, String, Bool, Option, none, some, List, ◌∷◌, if◌then◌else◌}
use freshet.Prelude.Table.{find, modify}
use freshet.Prelude.Exec.{Result, ok, err, Exec}
use freshet.Common.Incidents.{Incident, Tables}
use freshet.Autopilot.Brief.{Findings}
use freshet.Autopilot.Leases.{
  Kind, brief, progress, postmortem, claimable, set_claim, claimable_deferred, release,
  mark_delivered,
}

-- What a call of a collaborator gives, and how long it takes.
pub record Reply (A : Type 0) : Type 0 where
  pub result : Result A
  pub elapsed : ℕ

-- The collaborators. Each call has a number, so the same call may be answered differently later.
pub record World : Type 0 where
  -- `datetime.fromisoformat`, in UTC
  pub parse_iso : String → Option ℕ
  -- the order of texts in the database's collation
  pub text_le : String → String → Bool
  -- `gather_findings(conn, service, incident_id, status)` and `gather_postmortem`
  pub findings : (call : ℕ) (service incident_id status : String) → Reply Findings
  pub postmortem_findings : (call : ℕ) (service incident_id : String) → Reply Findings
  -- `sink.deliver(findings, thread=thread)`, and the sink's `last_channel_id` after it
  pub deliver : (call : ℕ) → Findings → (thread : Option String) → Reply (Option String)
  pub last_channel_id : (call : ℕ) → Option String
  -- whether the sink had accepted the message of a call of `deliver` that raised
  pub accepted : (call : ℕ) → Bool
  -- what the statement of `mark_*_delivered` comes to; one that raises has changed nothing
  pub mark : (call : ℕ) → Result (Unit {0})
  -- `_INDEXED_COUNT_SQL`
  pub indexed_count : (call : ℕ) (incident_id : String) → ℕ

-- A message that the sink accepted.
pub record Post : Type 0 where
  pub kind : Kind
  pub incident_id : String

-- The messages that the sink accepted, and those of them whose call raised all the same or whose
-- mark failed, newest first.
pub record Ledger : Type 0 where
  pub posts : List Post
  pub unmarked : List Post

-- The database, the clock that `now()` reads, the number of calls made, and the ledger. A statement
-- takes no time, and only the marks may fail.
pub record Agent : Type 0 where
  pub tables : Tables
  pub open tables use *
  pub clock : ℕ
  pub calls : ℕ
  pub ledger : Ledger
  pub open ledger use *

abbrev pub Action : Type 0 → Type 0
Action A = Exec Agent A

abbrev pub effect : (Agent → Agent) → Action Unit
effect f s = (ok tt, f s)

abbrev pub call : {A : Type 0} → (ℕ → Reply A) → Action A
call f s =
    ((f s.calls).result, record s { clock = s.clock + (f s.calls).elapsed; calls = suc s.calls })

-- `UPDATE incidents SET ... WHERE incident_id = %s`
unfoldable pub update : String → (Incident → Incident) → Agent → Agent
update i f s = record s { tables = record s.tables { incidents = modify i f s.incidents } }

-- `UPDATE ... WHERE incident_id = %s AND <guard> RETURNING ...`: the row, if one was updated.
unfoldable pub update_row :
    (Incident → Bool) → (Incident → Incident) → String → Option Incident → Action (Option Incident)
update_row guard f i none s = (ok none, s)
update_row guard f i (some r) s = if guard r then (ok (some (f r)), update i f s) else (ok none, s)

unfoldable pub update_returning :
    (Incident → Bool) → (Incident → Incident) → String → Action (Option Incident)
unfolding update_row
update_returning guard f i s = update_row guard f i (find i s.incidents) s

-- `claim_incident`, `claim_progress`, `claim_postmortem`
unfoldable pub claim : Kind → String → Action (Option Incident)
claim k i s = update_returning (claimable k s.clock) (set_claim k s.clock) i s

-- The claims of `deliver_deferred_progress` and `deliver_deferred_postmortem`.
unfoldable pub claim_deferred : Kind → String → Action (Option Incident)
claim_deferred k i s = update_returning (claimable_deferred k s.clock) (set_claim k s.clock) i s

-- `release_incident`, `release_progress`, `release_postmortem`
abbrev pub release_claim : Kind → String → Agent → Agent
release_claim k i = update i (release k)

abbrev pub marked : Kind → String → Option String → Option String → Result (Unit {0}) → Action Unit
marked k i ts channel (ok _) s = (ok tt, update i (mark_delivered k s.clock ts channel) s)
marked k i ts channel (err e) s = (
  err e,
  record s {
    ledger = record s.ledger { unmarked = record { kind = k; incident_id = i } ∷ s.unmarked };
  },
)

-- `mark_brief_delivered`, `mark_progress_delivered`, `mark_postmortem_delivered`
unfoldable pub mark : World → Kind → String → Option String → Option String → Action Unit
mark w k i ts channel s = marked k i ts channel (w.mark s.calls) (record s { calls = suc s.calls })

-- `sink.deliver`: a message is accepted when the call returns, and may be when it raises.
unfoldable pub record_post : Kind → String → Result (Option String) → Bool → Ledger → Ledger
record_post k i (ok ts) accepted l = record l {
  posts = record { kind = k; incident_id = i } ∷ l.posts;
}
record_post k i (err e) accepted l =
    if accepted
    then record {
      posts = record { kind = k; incident_id = i } ∷ l.posts;
      unmarked = record { kind = k; incident_id = i } ∷ l.unmarked;
    }
    else l

unfoldable pub deliver : World → Kind → String → Findings → Option String → Action (Option String)
unfolding record_post
deliver w k i findings thread s =
    let (r, s') = call (λ n. w.deliver n findings thread) s in
    (r, record s' { ledger = record_post k i r (w.accepted s.calls) s.ledger })

-- `gather_findings` at its three statuses, `gather_postmortem`
unfoldable pub gather : World → Kind → String → String → Action Findings
gather w brief service i = call (λ n. w.findings n service i "open")
gather w progress service i = call (λ n. w.findings n service i "in_progress")
gather w postmortem service i = call (λ n. w.postmortem_findings n service i)
