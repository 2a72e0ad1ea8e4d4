-- ===== src/Autopilot/Race/Once.antt =====
-- How often several autopilots at once post a message.
use freshet.Prelude.{ℕ, ◌+◌, ◌≤◌, ◌≡◌, true, none, some, is_some, ◌⊎◌}
use freshet.Autopilot.Leases.{Kind, lease, claimed_at, delivered_at}
use freshet.Autopilot.Race.{Phase, idle, holding, posted, System}

abbrev AllIdle : (ℕ → Phase) → Type 0
AllIdle phase = (j : ℕ) → phase j ≡ idle

abbrev Alone : ℕ → (ℕ → Phase) → Type 0
Alone i phase = (j : ℕ) → (i ≡ j) ⊎ (phase j ≡ idle)

-- What holds between two steps: nobody is at work and nothing was posted; one process has a claim,
-- or has posted and not marked, in its lease; or the message is delivered.
pub data Inv (k : Kind) (s : System) : Type 0 where
  free : AllIdle s.phase → s.posts ≡ 0 → delivered_at k s.row ≡ none → Inv k s
  working :
      (i since : ℕ)
      → s.phase i ≡ holding since
      → Alone i s.phase
      → claimed_at k s.row ≡ some since
      → s.now ≤ since + lease
      → s.posts ≡ 0
      → delivered_at k s.row ≡ none
      → Inv k s
  unmarked :
      (i since : ℕ)
      → s.phase i ≡ posted since
      → Alone i s.phase
      → claimed_at k s.row ≡ some since
      → s.now ≤ since + lease
      → s.posts ≡ 1
      → Inv k s
  done : AllIdle s.phase → s.posts ≡ 1 → is_some (delivered_at k s.row) ≡ true → Inv k s

module _ (k : Kind) where
  -- The sink accepted the message at most once, and once where the row says that it was delivered.
  pub record IsOnce (s : System) : Type 0 where
    pub at_most : s.posts ≤ 1
    pub delivered : is_some (delivered_at k s.row) ≡ true → s.posts ≡ 1
