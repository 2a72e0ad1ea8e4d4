-- ===== src/Autopilot/Race.antt =====
-- freshet/autopilot/consumer.py: several autopilots on one incident, each between its claim and the
-- end of its attempt, with the statements of Leases as the steps on the row. An attempt ends within
-- its lease, as the comment on LEASE_MINUTES wants it, and no process dies between its post and the
-- statement that marks it.
pub mod Once
use freshet.Prelude.{ℕ, suc, ◌+◌, ◌≤◌, ◌≡◌, true, Option, String, ◌==◌, if◌then◌else◌}
use freshet.Common.Incidents.{Incident}
use freshet.Autopilot.Leases.{
  Kind, lease, claimable, set_claim, release, mark_delivered, claimed_at, delivered_at,
}

-- Where a process is with the message of one kind: it has a claim since a time, or its message was
-- accepted and is not marked yet.
pub data Phase : Type 0 where
  idle : Phase
  holding posted : (since : ℕ) → Phase

-- The row, `now()`, the processes by their numbers, and how often the sink accepted the message.
pub record System : Type 0 where
  pub row : Incident
  pub now : ℕ
  pub phase : ℕ → Phase
  pub posts : ℕ

abbrev pub set_phase : ℕ → Phase → (ℕ → Phase) → ℕ → Phase
set_phase i p phase j = if i == j then p else phase j

-- What happens next; a claim that is refused changes nothing.
pub data Step (k : Kind) : System → System → Type 0 where
  claim :
      (s : System) (i : ℕ)
      → s.phase i ≡ idle
      → claimable k s.now s.row ≡ true
      → Step k s
          (record s { row = set_claim k s.now s.row; phase = set_phase i (holding s.now) s.phase })
  -- `sink.deliver` returns
  post :
      (s : System) (i since : ℕ)
      → s.phase i ≡ holding since
      → Step k s (record s { phase = set_phase i (posted since) s.phase; posts = suc s.posts })
  -- it raises without the sink having accepted anything, and the claim is released
  fail :
      (s : System) (i since : ℕ)
      → s.phase i ≡ holding since
      → Step k s (record s { row = release k s.row; phase = set_phase i idle s.phase })
  mark :
      (s : System) (i since : ℕ) (ts channel : Option String)
      → s.phase i ≡ posted since
      → Step k s (record s {
        row = mark_delivered k s.now ts channel s.row;
        phase = set_phase i idle s.phase;
      })
  -- the process dies, and its claim stays in the row
  die :
      (s : System) (i since : ℕ)
      → s.phase i ≡ holding since
      → Step k s (record s { phase = set_phase i idle s.phase })
  -- time passes; no attempt outlives its lease
  wait :
      (s : System) (d : ℕ)
      → ((i since : ℕ) → s.phase i ≡ holding since → s.now + d ≤ since + lease)
      → ((i since : ℕ) → s.phase i ≡ posted since → s.now + d ≤ since + lease)
      → Step k s (record s { now = s.now + d })
  -- a statement about other columns
  elsewhere :
      (s : System) (change : Incident → Incident)
      → claimed_at k (change s.row) ≡ claimed_at k s.row
      → delivered_at k (change s.row) ≡ delivered_at k s.row
      → Step k s (record s { row = change s.row })

pub data Reach (k : Kind) (s : System) : System → Type 0 where
  here : Reach k s s
  next : {t u : System} → Reach k s t → Step k t u → Reach k s u

-- No process has begun.
abbrev pub begin : Incident → ℕ → System
begin row now = record { row = row; now = now; phase = λ i. idle; posts = 0 }
