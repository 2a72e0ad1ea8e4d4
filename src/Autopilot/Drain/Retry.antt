-- ===== src/Autopilot/Drain/Retry.antt =====
-- What `deliver_deferred_progress` and `deliver_deferred_postmortem` leave behind, and in the ledger.
use freshet.Prelude.{ℕ, ◌+◌, ◌≡◌, String, Bool, true, false, Option, some, ◌∷◌, ◌⊎◌, ltb, suc}
use freshet.Prelude.Table.{find}
use freshet.Prelude.Exec.{Result, ok, err, ◌>>=◌}
use freshet.Common.Incidents.{Incident}
use freshet.Autopilot.Leases.{Kind, claimable_deferred, release, lease}
use freshet.Autopilot.Agent.{World, Agent, Action, Post, deliver, gather, Ledger}
use freshet.Autopilot.Drain.{ltb, suc}

module _ (k : Kind) (i : String) where
  abbrev post : Post
  post = record { kind = k; incident_id = i }

  -- The ledger with one more accepted message, and with one whose delivery was not marked.
  abbrev accepted : Ledger → Ledger
  accepted l = record l { posts = post ∷ l.posts }

  abbrev doubtful : Ledger → Ledger
  doubtful l = record { posts = post ∷ l.posts; unmarked = post ∷ l.unmarked }

  -- The collaborators ran: one message was accepted if they returned, and at most one if not.
  abbrev Ran : {A : Type 0} → Agent → Result A → Agent → Type 0
  Ran s (ok _) t = (t.ledger ≡ accepted s.ledger) × (t.incidents ≡ s.incidents)
  Ran s (err _) t =
      ((t.ledger ≡ s.ledger) ⊎ (t.ledger ≡ doubtful s.ledger)) × (t.incidents ≡ s.incidents)

  abbrev Quiet : Agent → Agent → Type 0
  Quiet s t = (t.ledger ≡ s.ledger) × (t.incidents ≡ s.incidents)

  -- What a deferred delivery comes to: a message that was posted, and is not claimed again; or
  -- nothing to do; or an error, from before the mark, where the claim is free at once, or of the mark.
  abbrev pub Settled : Incident → Agent → Result Bool → Agent → Type 0
  Settled r s (ok true) t =
      (t.ledger ≡ accepted s.ledger)
      × ((r' : Incident) × (find i t.incidents ≡ some r')
          × ((now : ℕ) → claimable_deferred k now r' ≡ false))
  Settled r s (ok false) t = (claimable_deferred k s.clock r ≡ false) × (t ≡ s)
  Settled r s (err _) t =
      (((t.ledger ≡ s.ledger) ⊎ (t.ledger ≡ doubtful s.ledger))
        × ((r' : Incident) × (find i t.incidents ≡ some r')
            × ((now : ℕ) → claimable_deferred k now r' ≡ true)))
      ⊎ ((t.ledger ≡ doubtful s.ledger)
          × ((r' : Incident) × (find i t.incidents ≡ some r')
              × ((now : ℕ) → claimable_deferred k now r' ≡ ltb (s.clock + lease) now)))

  -- The `try` with the release of the claim in its handler.
  abbrev Tried : {A : Type 0} → Incident → Agent → Result A → Agent → Type 0
  Tried claimed s (ok _) t = (t.ledger ≡ accepted s.ledger) × (find i t.incidents ≡ some claimed)
  Tried claimed s (err _) t =
      ((t.ledger ≡ s.ledger) ⊎ (t.ledger ≡ doubtful s.ledger))
      × (find i t.incidents ≡ some (release k claimed))

  delivering : World → String → Option String → Action (Option String)
  delivering w service thread = do findings ← gather w k service i; deliver w k i findings thread
