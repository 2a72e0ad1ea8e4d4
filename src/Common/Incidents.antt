-- ===== src/Common/Incidents.antt =====
-- freshet/common/incidents.py, and the `incidents` table of db/init.sql that it writes.
use freshet.Prelude.{
  ℕ, String, Bool, false, Option, none, some, List, [], ◌∷◌, str_eq, ◌&&◌, if◌then◌else◌, coalesce,
}
use freshet.Prelude.Table.{Table, find, put, modify}

-- A row of `incidents`; the key, `incident_id`, is the row's key in the table. The columns
-- `auto_opened` and `thread_seen_ts` are not read here.
pub record Incident : Type 0 where
  pub title : String
  pub opened_at : ℕ
  pub resolved_at : Option ℕ
  pub resolution_summary : Option String
  pub brief_as_of : Option ℕ
  pub primary_service : Option String
  pub briefed_at : Option ℕ
  pub brief_delivered_at : Option ℕ
  pub brief_due_at : Option ℕ
  pub progress_at : Option ℕ
  pub progress_delivered_at : Option ℕ
  pub progress_needed : Bool
  pub postmortem_at : Option ℕ
  pub postmortem_delivered_at : Option ℕ
  pub postmortem_needed : Bool
  pub slack_ts : Option String
  pub slack_channel_id : Option String

-- The `incidents` and `incident_services` tables.
pub record Tables : Type 0 where
  pub incidents : Table Incident
  pub services : List (String × String)

-- The row that the INSERT of `ENSURE_INCIDENT_SQL` makes; the other columns have their defaults.
abbrev pub new_incident : String → ℕ → String → Incident
new_incident title opened_at service = record {
  title = title;
  opened_at = opened_at;
  resolved_at = none;
  resolution_summary = none;
  brief_as_of = none;
  primary_service = some service;
  briefed_at = none;
  brief_delivered_at = none;
  brief_due_at = none;
  progress_at = none;
  progress_delivered_at = none;
  progress_needed = false;
  postmortem_at = none;
  postmortem_delivered_at = none;
  postmortem_needed = false;
  slack_ts = none;
  slack_channel_id = none;
}

-- `ON CONFLICT (incident_id) DO UPDATE`
abbrev pub refresh_incident : String → String → Incident → Incident
refresh_incident title service r = record r {
  title = if str_eq r.title "" then title else r.title;
  primary_service = coalesce r.primary_service (some service);
}

-- `ON CONFLICT DO NOTHING`
unfoldable pub add_service : String → String → List (String × String) → List (String × String)
add_service i service [] = (i, service) ∷ []
add_service i service ((j, other) ∷ rest) =
    if str_eq j i && str_eq other service
    then (j, other) ∷ rest
    else (j, other) ∷ add_service i service rest

abbrev upsert_incident :
    Option Incident → String → ℕ → String → String → Table Incident → Table Incident
upsert_incident none i opened_at title service t = put i (new_incident title opened_at service) t
upsert_incident (some _) i opened_at title service t = modify i (refresh_incident title service) t

-- An empty or missing `incident_id` is the empty text.
unfoldable pub ensure_incident : String → String → ℕ → String → Tables → Tables
ensure_incident i service opened_at title db = if str_eq i "" then db else record {
  incidents = upsert_incident (find i db.incidents) i opened_at title service db.incidents;
  services = add_service i service db.services;
}
