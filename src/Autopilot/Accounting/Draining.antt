-- ===== src/Autopilot/Accounting/Draining.antt =====
-- The accounting of the posts through `drain_due_briefs` and all that it calls.
use freshet.Prelude.{ℕ, suc, String, Bool, true, Option, none, some, List, [], ◌∷◌, get_or}
use freshet.Prelude.Exec.{
  bind_ind, on_error_ind, Result, ok, err, budget_exhausted, other, on_error, ◌>>=◌, ◌>>◌,
}
use freshet.Common.Incidents.{Incident}
use freshet.Autopilot.Leases.{Kind, brief, progress, postmortem}
use freshet.Autopilot.Agent.{
  World, Agent, Action, claim, claim_deferred, mark, deliver, gather, release_claim,
}
use freshet.Autopilot.Drain.{
  wait_for_index, try_brief, after_brief, visit_claimed, drain_briefs, deliver_claimed,
  deliver_deferred, after_followup, try_deferred, drain_followups, drain_pending_followups,
  pending_followups, due_incidents, drain_due_briefs, index_timeout,
}
use freshet.Autopilot.Drain.Waiting.{wait_for_index_keeps}
use freshet.Autopilot.Accounting.Counts.{MayPost, IsUnmarked}
use freshet.Autopilot.Accounting.Actions.{
  Claimed, claim-Claimed, claim_deferred-Claimed, Delivered, deliver-Delivered, mark-Sent, Sent,
}
use freshet.Autopilot.Accounting.Handlers.{Accounted, gather_keeps, release-Accounted}

-- What is left to do goes on from an accounted state.
abbrev Keeps : {A : Type 0} → Action A → Type 0
Keeps m = (s : Agent) → Accounted s → Accounted (m s).1

-- After the `try` of an opening brief: posted and not marked, or released.
abbrev Tried : String → Result (Option String) → Agent → Type 0
Tried i (ok _) s = IsUnmarked brief i s.incidents s.ledger
Tried i (err _) s = Accounted s

-- After the `try` of a deferred follow-up.
abbrev Unmarked : Kind → String → Result (Option String) → Agent → Type 0
Unmarked k i (ok _) s = IsUnmarked k i s.incidents s.ledger
Unmarked k i (err _) s = Accounted s

module _ (w : World) where
  gather_and_deliver-Delivered :
      (k : Kind) (i service : String) (thread : Option String) (s : Agent)
      → MayPost k i s.incidents s.ledger
      → Delivered k i
          ((gather w k service i >>= λ f. deliver w k i f thread) s).0
          ((gather w k service i >>= λ f. deliver w k i f thread) s).1
  gather_and_deliver-Delivered k i service thread s m =
      bind_ind (λ _ s'. MayPost k i s'.incidents s'.ledger) (Delivered k i) (gather w k service i)
        (λ f. deliver w k i f thread) s (gather_keeps (MayPost k i) w k service i s m)
        (λ f s' m'. deliver-Delivered w k i f thread s' m') (λ _ s' m'. m')

  try_brief-Tried :
      (i service : String) (s : Agent)
      → MayPost brief i s.incidents s.ledger
      → Tried i (try_brief w i service s).0 (try_brief w i service s).1
  unfolding try_brief
  try_brief-Tried i service s m =
      let send : Action (Option String) =
        gather w brief service i >>= λ f. deliver w brief i f none in
      let wait : Action ℕ = wait_for_index w i index_timeout in
      on_error_ind (Delivered brief i) (Tried i) (wait >> send) (release_claim brief i) s
        (bind_ind (λ _ s'. MayPost brief i s'.incidents s'.ledger) (Delivered brief i) wait
          (λ _. send) s (wait_for_index_keeps (MayPost brief i) w i index_timeout s m)
          (λ _ s' m'. gather_and_deliver-Delivered brief i service none s' m') (λ _ s' m'. m'))
        (λ _ s' u. u) (λ _ s' m'. release-Accounted brief i s' m')

  after_brief-Accounted :
      (i : String) (r : Result (Option String)) (n : ℕ) (rest : ℕ → Action ℕ) (s : Agent)
      → ((m : ℕ) → Keeps (rest m))
      → Tried i r s
      → Accounted (after_brief w i r n rest s).1
  after_brief-Accounted i (ok ts) n rest s keep u =
      bind_ind (Sent {A = Unit} brief i) (λ _ s'. Accounted s')
        (mark w brief i ts (w.last_channel_id s.calls)) (λ _. rest (suc n)) s
        (mark-Sent w brief i ts (w.last_channel_id s.calls) s u) (λ _ s' a. keep (suc n) s' a)
        (λ _ s' m. m.accounted)
  after_brief-Accounted i (err budget_exhausted) n rest s keep a = a
  after_brief-Accounted i (err other) n rest s keep a = a

  visit_claimed-Accounted :
      (i service : String) (o : Option Incident) (n : ℕ) (rest : ℕ → Action ℕ) (s : Agent)
      → ((m : ℕ) → Keeps (rest m))
      → Claimed brief i o s
      → Accounted (visit_claimed w i service o n rest s).1
  visit_claimed-Accounted i service none n rest s keep a = keep n s a
  visit_claimed-Accounted i service (some _) n rest s keep m =
      after_brief-Accounted i (try_brief w i service s).0 n rest (try_brief w i service s).1 keep
        (try_brief-Tried i service s m)

  drain_briefs-Accounted : (due : List (String × String)) (n : ℕ) → Keeps (drain_briefs w due n)
  unfolding drain_briefs
  drain_briefs-Accounted [] n s a = a
  drain_briefs-Accounted ((i, service) ∷ rest) n s a =
      let (o, e, c) = claim-Claimed brief i s a in
      rw e (
        visit_claimed-Accounted i service o n (drain_briefs w rest) (claim brief i s).1
          (drain_briefs-Accounted rest) c)

  deliver_claimed-Accounted :
      (k : Kind) (i : String) (o : Option Incident) (s : Agent)
      → Claimed k i o s
      → Accounted (deliver_claimed w k i o s).1
  deliver_claimed-Accounted k i none s a = a
  deliver_claimed-Accounted k i (some r) s m =
      let service : String = get_or r.primary_service "" in
      let send : Action (Option String) =
        gather w k service i >>= λ f. deliver w k i f r.slack_ts in
      bind_ind (Unmarked k i) (λ _ s'. Accounted s') (on_error send (release_claim k i))
        (λ _. mark w k i none none >> λ s'. (ok true, s')) s
        (on_error_ind (Delivered k i) (Unmarked k i) send (release_claim k i) s
          (gather_and_deliver-Delivered k i service r.slack_ts s m) (λ _ s' u. u)
          (λ _ s' m'. release-Accounted k i s' m'))
        (λ _ s' u.
          bind_ind (Sent {A = Unit} k i) (λ _ s''. Accounted s'') (mark w k i none none)
            (λ _ s''. (ok true, s'')) s' (mark-Sent w k i none none s' u) (λ _ s'' a. a)
            (λ _ s'' m'. m'.accounted))
        (λ _ s' a. a)

  deliver_deferred-Accounted : (k : Kind) (i : String) → Keeps (deliver_deferred w k i)
  unfolding deliver_deferred
  deliver_deferred-Accounted k i s a =
      let (o, e, c) = claim_deferred-Claimed k i s a in
      rw e (deliver_claimed-Accounted k i o (claim_deferred k i s).1 c)

  after_followup-Accounted :
      (r : Result Bool) (n : ℕ) (rest : ℕ → Action ℕ) (s : Agent)
      → ((m : ℕ) → Keeps (rest m))
      → Accounted s
      → Accounted (after_followup r n rest s).1
  after_followup-Accounted (ok done) n rest s keep a = keep _ s a
  after_followup-Accounted (err budget_exhausted) n rest s keep a = a
  after_followup-Accounted (err other) n rest s keep a = a

  try_deferred-Accounted :
      (k : Kind) (i : String) (n : ℕ) (rest : ℕ → Action ℕ)
      → ((m : ℕ) → Keeps (rest m))
      → Keeps (try_deferred w k i n rest)
  try_deferred-Accounted k i n rest keep s a =
      after_followup-Accounted (deliver_deferred w k i s).0 n rest (deliver_deferred w k i s).1 keep
        (deliver_deferred-Accounted k i s a)

  drain_followups-Accounted : (ids : List String) (n : ℕ) → Keeps (drain_followups w ids n)
  unfolding drain_followups
  drain_followups-Accounted [] n s a = a
  drain_followups-Accounted (i ∷ rest) n s a =
      try_deferred-Accounted progress i n
        (λ m. try_deferred w postmortem i m (drain_followups w rest))
        (λ m.
          try_deferred-Accounted postmortem i m (drain_followups w rest)
            (drain_followups-Accounted rest))
        s a

  pub drain_due_briefs-Accounted : (limit : ℕ) → Keeps (drain_due_briefs w limit)
  unfolding drain_due_briefs drain_pending_followups
  drain_due_briefs-Accounted limit s a =
      bind_ind (λ _ s'. Accounted s') (λ _ s'. Accounted s')
        (drain_briefs w (due_incidents limit s) 0)
        (λ n. drain_pending_followups w limit >>= λ _. λ s'. (ok n, s')) s
        (drain_briefs-Accounted (due_incidents limit s) 0 s a)
        (λ n s' a'.
          bind_ind (λ _ s''. Accounted s'') (λ _ s''. Accounted s'')
            (drain_pending_followups w limit) (λ _ s''. (ok n, s'')) s'
            (drain_followups-Accounted (pending_followups w limit s') 0 s' a') (λ _ s'' a''. a'')
            (λ _ s'' a''. a''))
        (λ _ s' a'. a')
