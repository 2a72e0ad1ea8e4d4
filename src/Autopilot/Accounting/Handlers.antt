-- ===== src/Autopilot/Accounting/Handlers.antt =====
-- The accounting of the posts through the handler of lifecycle messages.
use freshet.Prelude.{
  ℕ, ◌≡◌, refl, inl, inr, String, Option, none, some, arith, str_eq, eq_iff, Bool-cases,
  Option-cases, ◌+◌,
}
use freshet.Prelude.Table.{Table, find, put, find-put}
use freshet.Prelude.Exec.{bind_ind, on_error_ind, ◌>>◌, ◌>>=◌}
use freshet.Common.Incidents.{Incident, ensure_incident, new_incident, refresh_incident}
use freshet.Pipeline.Lifecycle.{LifecycleEvent}
use freshet.Autopilot.Brief.{Findings}
use freshet.Autopilot.Leases.{
  Kind, brief, progress, postmortem, release, schedule, defer, set_resolved,
}
use freshet.Autopilot.Agent.{
  World, Agent, Action, update, claim, mark, deliver, gather, release_claim, Ledger,
}
use freshet.Autopilot.Consumer.{event_ts, ensure, schedule_brief, thread_of, follow_up, if_claimed}
use freshet.Autopilot.Accounting.Counts.{count_posts, delivered_flag, IsAccounted, MayPost}
use freshet.Autopilot.Accounting.Statements.{
  KeepsDelivered, IsAccounted-modify, release-KeepsDelivered,
}
use freshet.Autopilot.Accounting.Actions.{
  Claimed, claim-Claimed, Delivered, deliver-Delivered, mark-Sent, Sent,
}

abbrev pub Accounted : Agent → Type 0
Accounted s = IsAccounted s.incidents s.ledger

pub update-Accounted :
    (i : String) (f : Incident → Incident) (s : Agent)
    → KeepsDelivered f
    → Accounted s
    → Accounted (update i f s)
unfolding update
update-Accounted i f s h a = IsAccounted-modify i f h a

pub release-Accounted :
    (k : Kind) (i : String) (s : Agent)
    → MayPost k i s.incidents s.ledger
    → Accounted (release_claim k i s)
release-Accounted k i s m = update-Accounted i (release k) s (release-KeepsDelivered k) m.accounted

-- Gathering reads; the clock goes on.
pub gather_keeps :
    (P : Table Incident → Ledger → Type 0) (w : World) (k : Kind) (service i : String) (s : Agent)
    → P s.incidents s.ledger
    → P (gather w k service i s).1.incidents (gather w k service i s).1.ledger
unfolding gather
gather_keeps P w brief service i s h = h
gather_keeps P w progress service i s h = h
gather_keeps P w postmortem service i s h = h

pub follow_up-Accounted :
    (w : World) (k : Kind) (service i : String) (s : Agent)
    → MayPost k i s.incidents s.ledger
    → Accounted (follow_up w k service i s).1
unfolding follow_up
follow_up-Accounted w k service i s m =
    let thread = thread_of i s in
    let marked : Action Unit = mark w k i none none in
    let send : Findings → Action Unit = λ f. deliver w k i f thread >> marked in
    let body : Action Unit = gather w k service i >>= send in
    on_error_ind (Sent {A = Unit} k i) (λ _ s'. Accounted s') body (release_claim k i) s
      (bind_ind (λ _ s'. MayPost k i s'.incidents s'.ledger) (Sent {A = Unit} k i)
        (gather w k service i) send s (gather_keeps (MayPost k i) w k service i s m)
        (λ f s' m'.
          bind_ind (Delivered k i) (Sent {A = Unit} k i) (deliver w k i f thread) (λ _. marked) s'
            (deliver-Delivered w k i f thread s' m') (λ _ s'' u. mark-Sent w k i none none s'' u)
            (λ _ s'' m''. m''))
        (λ _ s' m'. m'))
      (λ _ s' a. a) (λ _ s' m'. release-Accounted k i s' m')

-- Where the lease was not had, nothing is sent.
if_claimed-Accounted :
    (k : Kind) (i : String) (o : Option Incident) (m : Action Unit) (s : Agent)
    → ((s' : Agent) → MayPost k i s'.incidents s'.ledger → Accounted (m s').1)
    → Claimed k i o s
    → Accounted (if_claimed o m s).1
if_claimed-Accounted k i none m s h c = c
if_claimed-Accounted k i (some r) m s h c = h s c

unfoldable pub claim_and_follow_up : World → Kind → String → String → Action Unit
claim_and_follow_up w k service i = do
  claimed ← claim k i
  if_claimed claimed (follow_up w k service i)

pub claim_and_follow_up-Accounted :
    (w : World) (k : Kind) (service i : String) (s : Agent)
    → Accounted s
    → Accounted (claim_and_follow_up w k service i s).1
unfolding claim_and_follow_up
claim_and_follow_up-Accounted w k service i s a =
    let (o, e, c) = claim-Claimed k i s a in
    rw e (
      if_claimed-Accounted k i o (follow_up w k service i) (claim k i s).1
        (follow_up-Accounted w k service i) c)

schedule-KeepsDelivered : (window now : ℕ) → KeepsDelivered (schedule window now)
unfolding schedule
schedule-KeepsDelivered window now brief r = ground arith
schedule-KeepsDelivered window now _ r = ground arith

pub defer-KeepsDelivered : (k : Kind) → KeepsDelivered (defer k)
unfolding defer
defer-KeepsDelivered brief k r = refl
defer-KeepsDelivered progress brief r = ground arith
defer-KeepsDelivered progress _ r = ground arith
defer-KeepsDelivered postmortem brief r = ground arith
defer-KeepsDelivered postmortem _ r = ground arith

pub set_resolved-KeepsDelivered : (ts : ℕ) → KeepsDelivered (set_resolved ts)
unfolding set_resolved
set_resolved-KeepsDelivered ts brief r = refl
set_resolved-KeepsDelivered ts _ r = refl

pub schedule_brief-Accounted :
    (i : String) (window : ℕ) (s : Agent) → Accounted s → Accounted (schedule_brief i window s)
unfolding schedule_brief
schedule_brief-Accounted i window s a =
    update-Accounted i (schedule window s.clock) s (schedule-KeepsDelivered window s.clock) a

-- A new row has no delivery, and there was none for its incident before.
IsAccounted-put :
    (i title service : String) (opened_at : ℕ) {t : Table Incident} {ps : Ledger}
    → find i t ≡ none
    → IsAccounted t ps
    → IsAccounted (put i (new_incident title opened_at service) t) ps
IsAccounted-put i title service opened_at {t} {ps} missing a = record {
  counted = counts;
  brief_first = a.brief_first;
}
  where
    counts :
        (k : Kind) (j : String)
        → count_posts k j ps.posts
          ≡ delivered_flag k (find j (put i (new_incident title opened_at service) t))
            + count_posts k j ps.unmarked
    counts brief j = ground (
      arith,
      a.counted brief j,
      eq_iff i j,
      find-put i j (new_incident title opened_at service) t,
    )
    counts progress j = ground (
      arith,
      a.counted progress j,
      eq_iff i j,
      find-put i j (new_incident title opened_at service) t,
    )
    counts postmortem j = ground (
      arith,
      a.counted postmortem j,
      eq_iff i j,
      find-put i j (new_incident title opened_at service) t,
    )

refresh_incident-KeepsDelivered :
    (title service : String) → KeepsDelivered (refresh_incident title service)
refresh_incident-KeepsDelivered title service brief r = refl
refresh_incident-KeepsDelivered title service _ r = refl

pub ensure-Accounted :
    (w : World) (ev : LifecycleEvent) (s : Agent) → Accounted s → Accounted (ensure w ev s)
unfolding ensure_incident
ensure-Accounted w ev s a = elim (Bool-cases (str_eq ev.incident_id "")) [
  | inl empty ↦ rw empty a
  | inr named ↦ elim (Option-cases (find ev.incident_id s.incidents)) [
    | inl missing ↦
        rw (named, missing)
          (IsAccounted-put ev.incident_id ev.title ev.service (event_ts w ev s.clock) missing a)
    | inr (r, found) ↦
        rw (named, found)
          (IsAccounted-modify ev.incident_id (refresh_incident ev.title ev.service)
            (refresh_incident-KeepsDelivered ev.title ev.service) a)
  ]
]
