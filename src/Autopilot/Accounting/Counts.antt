-- ===== src/Autopilot/Accounting/Counts.antt =====
-- The accepted posts, counted by kind and incident, against the `*_delivered_at` columns.
use freshet.Prelude.{
  ℕ, suc, ◌<◌, ◌≡◌, ◌⊎◌, String, Bool, true, false, ◌&&◌, Option, none, some, List, [], ◌∷◌, str_eq,
  if◌then◌else◌, is_some, ◌+◌,
}
use freshet.Prelude.Table.{Table, find}
use freshet.Common.Incidents.{Incident}
use freshet.Autopilot.Leases.{Kind, brief, progress, postmortem, delivered_at}
use freshet.Autopilot.Agent.{Post, Ledger}

abbrev pub same_kind : Kind → Kind → Bool
same_kind brief brief = true
same_kind progress progress = true
same_kind postmortem postmortem = true
same_kind _ _ = false

-- How many posts of a kind the sink accepted for an incident.
unfoldable pub count_posts : Kind → String → List Post → ℕ
count_posts k i [] = 0
count_posts k i (p ∷ ps) =
    if same_kind p.kind k && str_eq p.incident_id i
    then suc (count_posts k i ps)
    else count_posts k i ps

-- 1 if the row says that the message was delivered, and 0 if it does not or is not there.
abbrev pub delivered_flag : Kind → Option Incident → ℕ
delivered_flag k none = 0
delivered_flag k (some r) = if is_some (delivered_at k r) then 1 else 0

-- Every follow-up in the list stands above, that is after, the opening brief of its incident.
abbrev pub BriefFirst : List Post → Type 0
BriefFirst [] = Unit
BriefFirst (p ∷ ps) =
    ((same_kind p.kind brief ≡ true) ⊎ (0 < count_posts brief p.incident_id ps)) × BriefFirst ps

-- Between two messages.
pub record IsAccounted (t : Table Incident) (ps : Ledger) : Type 0 where
  pub counted :
      (k : Kind) (i : String)
      → count_posts k i ps.posts ≡ delivered_flag k (find i t) + count_posts k i ps.unmarked
  pub brief_first : BriefFirst ps.posts

-- Under the lease of a kind for an incident: the message is not posted, and may be.
pub record MayPost (k : Kind) (i : String) (t : Table Incident) (ps : Ledger) : Type 0 where
  pub accounted : IsAccounted t ps
  pub fresh : delivered_flag k (find i t) ≡ 0
  pub stored : is_some (find i t) ≡ true
  pub ready : (same_kind k brief ≡ true) ⊎ (delivered_flag brief (find i t) ≡ 1)

-- The message is posted, and its delivery is not marked yet.
pub record IsUnmarked (k : Kind) (i : String) (t : Table Incident) (ps : Ledger) : Type 0 where
  pub before : Ledger
  pub now_first : ps ≡ record before { posts = record { kind = k; incident_id = i } ∷ before.posts }
  pub may : MayPost k i t before
