-- ===== src/Autopilot/Leases.antt =====
-- The SQL statements of freshet/autopilot/consumer.py, as functions of one row of `incidents` and
-- of `now()`. A statement that the source writes three times, for the opening brief, the progress
-- update and the postmortem, is one function with a clause for each.
use freshet.Prelude.{
  ℕ, ◌+◌, ◌*◌, String, Bool, true, false, ◌&&◌, ◌||◌, Option, none, some, ltb, leb, is_none,
  is_some, coalesce, if◌then◌else◌,
}
use freshet.Common.Time.{minute, hour}
use freshet.Common.Incidents.{Incident}

pub data Kind : Type 0 where
  brief progress postmortem : Kind

-- LEASE_MINUTES
abbrev pub lease : ℕ
lease = 15 * minute

-- MAX_BRIEF_AGE_S
abbrev pub max_brief_age : ℕ
max_brief_age = 24 * hour

-- `x IS NULL OR x < now() - interval '15 minutes'`
abbrev pub lease_free : Option ℕ → ℕ → Bool
lease_free none now = true
lease_free (some t) now = ltb (t + lease) now

-- When the lease of a kind was taken, and when its message was delivered.
abbrev pub claimed_at : Kind → Incident → Option ℕ
claimed_at brief r = r.briefed_at
claimed_at progress r = r.progress_at
claimed_at postmortem r = r.postmortem_at

abbrev pub delivered_at : Kind → Incident → Option ℕ
delivered_at brief r = r.brief_delivered_at
delivered_at progress r = r.progress_delivered_at
delivered_at postmortem r = r.postmortem_delivered_at

-- The WHERE of `_CLAIM_SQL`, `_PROGRESS_CLAIM_SQL` and `_POSTMORTEM_CLAIM_SQL`.
unfoldable pub claimable : Kind → ℕ → Incident → Bool
claimable brief now r = is_none r.brief_delivered_at && lease_free r.briefed_at now
claimable progress now r =
    is_none r.progress_delivered_at
    && (is_some r.brief_delivered_at && lease_free r.progress_at now)
claimable postmortem now r =
    is_none r.postmortem_delivered_at
    && (is_some r.brief_delivered_at && lease_free r.postmortem_at now)

-- Their SET.
unfoldable pub set_claim : Kind → ℕ → Incident → Incident
set_claim brief now r = record r { briefed_at = some now }
set_claim progress now r = record r { progress_at = some now }
set_claim postmortem now r = record r { postmortem_at = some now }

-- `progress_needed`, `postmortem_needed`; an opening brief is owed by its due time.
abbrev pub needed : Kind → Incident → Bool
needed brief r = is_some r.brief_due_at
needed progress r = r.progress_needed
needed postmortem r = r.postmortem_needed

-- The WHERE of `_CLAIM_DEFERRED_PROGRESS_SQL` and `_CLAIM_DEFERRED_POSTMORTEM_SQL`.
unfoldable pub claimable_deferred : Kind → ℕ → Incident → Bool
unfolding claimable
claimable_deferred k now r = needed k r && claimable k now r

-- `_RELEASE_SQL`, `_RELEASE_PROGRESS_SQL`, `_RELEASE_POSTMORTEM_SQL`
unfoldable pub release : Kind → Incident → Incident
release brief r = record r { briefed_at = none }
release progress r = record r { progress_at = none }
release postmortem r = record r { postmortem_at = none }

-- `_MARK_BRIEF_SQL`, `_MARK_PROGRESS_SQL`, `_MARK_POSTMORTEM_SQL`; the Slack ids are the brief's.
unfoldable pub mark_delivered : Kind → ℕ → Option String → Option String → Incident → Incident
mark_delivered brief now ts channel r = record r {
  brief_delivered_at = some now;
  brief_due_at = none;
  slack_ts = coalesce ts r.slack_ts;
  slack_channel_id = coalesce channel r.slack_channel_id;
}
mark_delivered progress now ts channel r = record r {
  progress_delivered_at = some now;
  progress_needed = false;
}
mark_delivered postmortem now ts channel r = record r {
  postmortem_delivered_at = some now;
  postmortem_needed = false;
}

-- `_SCHEDULE_SQL`
unfoldable pub schedule : ℕ → ℕ → Incident → Incident
schedule window now r =
    if is_none r.brief_delivered_at && is_none r.brief_due_at
    then record r { brief_due_at = some (now + window) }
    else r

-- `_DEFER_PROGRESS_SQL`, `_DEFER_POSTMORTEM_SQL`; no statement defers a brief
unfoldable pub defer : Kind → Incident → Incident
defer brief r = r
defer progress r =
    if is_none r.progress_delivered_at then record r { progress_needed = true } else r
defer postmortem r =
    if is_none r.postmortem_delivered_at then record r { postmortem_needed = true } else r

-- `_MARK_RESOLVED_SQL`
unfoldable pub set_resolved : ℕ → Incident → Incident
set_resolved ts r = record r { resolved_at = coalesce r.resolved_at (some ts) }

-- The WHERE of `_DUE_SQL`.
unfoldable pub due : ℕ → Incident → Bool
due now r = elim r.brief_due_at [
  | none ↦ false
  | some at ↦ leb at now && is_none r.brief_delivered_at
]

-- The WHERE of `_PENDING_FOLLOWUPS_SQL`.
unfoldable pub pending_followup : ℕ → Incident → Bool
pending_followup now r =
    is_some r.brief_delivered_at
    && ((r.progress_needed && (is_none r.progress_delivered_at && lease_free r.progress_at now))
        || (r.postmortem_needed
            && (is_none r.postmortem_delivered_at && lease_free r.postmortem_at now)))
