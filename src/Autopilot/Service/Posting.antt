-- ===== src/Autopilot/Service/Posting.antt =====
-- What a process and its restarts post.
use freshet.Prelude.{ℕ, ◌≤◌, ◌≡◌, String, Option, none, some, List, [], ◌∷◌, arith, refl, suc, ◌+◌}
use freshet.Prelude.Table.{Table, find}
use freshet.Prelude.Exec.{bind_ind}
use freshet.Pipeline.Lifecycle.{JsonValue}
use freshet.Common.Incidents.{Incident}
use freshet.Autopilot.Leases.{Kind}
use freshet.Autopilot.Agent.{World, Agent}
use freshet.Autopilot.Consumer.{handle_lifecycle}
use freshet.Autopilot.Drain.{handle_and_drain, drain_due_briefs, drain_limit}
use freshet.Autopilot.Accounting.Counts.{count_posts, delivered_flag, BriefFirst}
use freshet.Autopilot.Accounting.Handlers.{Accounted}
use freshet.Autopilot.Accounting.Messages.{handle_lifecycle-Accounted}
use freshet.Autopilot.Accounting.Draining.{drain_due_briefs-Accounted}
use freshet.Autopilot.Service.Defs.{Input, message, idle, wait, step, serve, start}

module _ (w : World) (window : ℕ) where
  handle_and_drain-Accounted :
      (m : Table JsonValue) (s : Agent) → Accounted s → Accounted (handle_and_drain w window m s).1
  unfolding handle_and_drain
  handle_and_drain-Accounted m s a =
      bind_ind (λ _ s'. Accounted s') (λ _ s'. Accounted s') (handle_lifecycle w window m)
        (λ _. drain_due_briefs w drain_limit) s (handle_lifecycle-Accounted w window m s a)
        (λ _ s' a'. drain_due_briefs-Accounted w drain_limit s' a') (λ _ s' a'. a')

  step-Accounted : (x : Input) (s : Agent) → Accounted s → Accounted (step w window x s)
  unfolding step
  step-Accounted (message d m) s a = handle_and_drain-Accounted m (wait d s) a
  step-Accounted (idle d) s a = drain_due_briefs-Accounted w drain_limit (wait d s) a

  pub serve-Accounted :
      (xs : List Input) (s : Agent) → Accounted s → Accounted (serve w window xs s)
  unfolding serve
  serve-Accounted [] s a = a
  serve-Accounted (x ∷ xs) s a = serve-Accounted xs (step w window x s) (step-Accounted x s a)

start-Accounted : (now : ℕ) → Accounted (start now)
unfolding count_posts find
start-Accounted now = record { counted = λ k i. refl; brief_first = tt }

delivered_flag-le : (k : Kind) (o : Option Incident) → delivered_flag k o ≤ 1
delivered_flag-le k none = omega arith
delivered_flag-le k (some r) = ground arith

-- From an empty database, whatever the messages, the idle ticks, the times between them and the
-- answers of the collaborators, and where no process dies between a call of the sink and the mark
-- after it: of each kind the sink accepts for each incident at most one message more than it has
-- accepted by a call that raised all the same, or before a mark that failed, and as many more
-- exactly when the row's delivery column is set.
pub posts_at_most_once :
    (w : World) (window now : ℕ) (xs : List Input) (k : Kind) (i : String)
    → (let s = serve w window xs (start now) in
        (count_posts k i s.posts ≤ suc (count_posts k i s.unmarked))
        × (count_posts k i s.posts
            ≡ delivered_flag k (find i s.incidents) + count_posts k i s.unmarked))
posts_at_most_once w window now xs k i =
    let a = serve-Accounted w window xs (start now) (start-Accounted now) in
    let o = find i (serve w window xs (start now)).incidents in
    (omega (arith, a.counted k i, delivered_flag-le k o), a.counted k i)

-- From an empty database, whatever happens: a progress update or a postmortem is accepted only
-- after the opening brief of its incident.
pub followups_after_brief :
    (w : World) (window now : ℕ) (xs : List Input)
    → BriefFirst (serve w window xs (start now)).posts
followups_after_brief w window now xs =
    (serve-Accounted w window xs (start now) (start-Accounted now)).brief_first
