-- ===== src/Autopilot/Threads/Answers.antt =====
-- Which messages of a thread are answered.
use freshet.Prelude.{
  ℕ, zero, suc, ◌+◌, ◌<◌, ◌≡◌, refl, ap, ◌∙◌, String, Bool, false, ◌||◌, not, Option, none, some,
  List, [], ◌∷◌, ltb, str_eq, if◌then◌else◌, arith, eq_iff, Bool-cases, inl, inr, subst, ◌&&◌, true,
}
use freshet.Prelude.Table.{Table, find, find-put}
use freshet.Prelude.Exec.{Result, ok, err, budget_exhausted, other}
use freshet.Autopilot.Threads.{
  Message, OpenThread, Slack, done, rate_limited, refused, World, Answered, Threads, Ending,
  next_thread, returned, limited, failed, Step, called, is_human_reply, is_seen, newest,
  mark_answered, after_post, after_answer, answer_messages, after_replies, visit, unless_ended,
  visit_all, poll_threads, back_off, poll, polls, poll_interval, note_answer, after_mark, true,
}

-- The message of an incident whose answer was marked last.
unfoldable pub latest : String → List Answered → Option ℕ
latest i [] = none
latest i (a ∷ rest) = if a.is_marked && str_eq a.incident_id i then some a.ts else latest i rest

abbrev pub Before : Option ℕ → ℕ → Type 0
Before none ts = Unit
Before (some earlier) ts = earlier < ts

-- Each answer is to a later message than the one whose answer was marked last before in its thread.
abbrev pub InOrder : List Answered → Type 0
InOrder [] = Unit
InOrder (a ∷ rest) = Before (latest a.incident_id rest) a.ts × InOrder rest

-- `thread_seen_ts` is the message whose answer was marked last.
pub record IsTracked (seen : Table ℕ) (answers : List Answered) : Type 0 where
  pub seen_latest : (i : String) → find i seen ≡ latest i answers
  pub in_order : InOrder answers

abbrev pub Tracked : Threads → Type 0
Tracked s = IsTracked s.seen s.answers

unseen : (o : Option ℕ) (ts : ℕ) → is_seen o ts ≡ false → Before o ts × (newest o ts ≡ ts)
unseen none ts h = (tt, refl)
unseen (some seen) ts h = (ground arith, ground arith)

or_right : (a b : Bool) → (a || b) ≡ false → b ≡ false
or_right a b h = ground arith

answer-InOrder :
    (row : OpenThread) (ts : ℕ) (s : Threads)
    → is_seen (find row.incident_id s.seen) ts ≡ false
    → Tracked s
    → Before (latest row.incident_id s.answers) ts
answer-InOrder row ts s h t =
    subst (λ o. Before o ts) (t.seen_latest row.incident_id)
      (unseen (find row.incident_id s.seen) ts h).0

mark-Tracked :
    (row : OpenThread) (ts : ℕ) (s : Threads)
    → is_seen (find row.incident_id s.seen) ts ≡ false
    → Tracked s
    → Tracked
        (mark_answered row (newest (find row.incident_id s.seen) ts) (note_answer row ts true s))
unfolding latest
mark-Tracked row ts s h t = record {
  seen_latest = λ i. ground (
    arith,
    find-put row.incident_id i (newest (find row.incident_id s.seen) ts) s.seen,
    (unseen (find row.incident_id s.seen) ts h).1,
    t.seen_latest i,
  );
  in_order = (answer-InOrder row ts s h t, t.in_order);
}

unmarked-Tracked :
    (row : OpenThread) (ts : ℕ) (s : Threads)
    → is_seen (find row.incident_id s.seen) ts ≡ false
    → Tracked s
    → Tracked (note_answer row ts false s)
unfolding latest
unmarked-Tracked row ts s h t = record {
  seen_latest = t.seen_latest;
  in_order = (answer-InOrder row ts s h t, t.in_order);
}

seen-mark :
    (row : OpenThread) (ts n : ℕ) (s : Threads)
    → find row.incident_id (mark_answered row n (note_answer row ts true s)).seen ≡ some n
seen-mark row ts n s = ground (
  arith,
  find-put row.incident_id row.incident_id n s.seen,
  eq_iff row.incident_id row.incident_id,
)

-- What the rest of a thread's messages is told, and keeps.
abbrev Follows : OpenThread → Option ℕ → Step → Type 0
Follows row seen rest =
    (s : Threads) → find row.incident_id s.seen ≡ seen → Tracked s → Tracked (rest s).1

module _ (w : World) (row : OpenThread) (ts : ℕ) (seen : Option ℕ) (posted : ℕ) (rest : Step) where
  marked-Tracked :
      (r : Result (Unit {0})) (s : Threads)
      → Follows row (some (newest seen ts)) rest
      → find row.incident_id s.seen ≡ seen
      → is_seen seen ts ≡ false
      → Tracked s
      → Tracked (after_mark row ts (newest seen ts) r rest s).1
  marked-Tracked (ok _) s f e new t =
      f (mark_answered row (newest seen ts) (note_answer row ts true s))
        (seen-mark row ts (newest seen ts) s)
        (subst (λ o. Tracked (mark_answered row (newest o ts) (note_answer row ts true s))) e
          (mark-Tracked row ts s (ap (λ o. is_seen o ts) e ∙ new) t))
  marked-Tracked (err x) s f e new t = unmarked-Tracked row ts s (ap (λ o. is_seen o ts) e ∙ new) t

  post-Tracked :
      (r : Slack (Unit {0})) (s : Threads)
      → Follows row (some (newest seen ts)) rest
      → find row.incident_id s.seen ≡ seen
      → is_seen seen ts ≡ false
      → Tracked s
      → Tracked (after_post w row ts seen posted r rest s).1
  post-Tracked (done _) s f e new t = marked-Tracked (w.mark_seen s.calls) (called s) f e new t
  post-Tracked rate_limited s f e new t = t
  post-Tracked refused s f e new t = t

  answer-Tracked :
      (r : Result (List ℕ)) (s : Threads)
      → Follows row (some (newest seen ts)) rest
      → find row.incident_id s.seen ≡ seen
      → is_seen seen ts ≡ false
      → Tracked s
      → Tracked (after_answer w row ts seen posted r rest s).1
  answer-Tracked (ok answer) s f e new t =
      post-Tracked (w.post s.calls row.channel row.thread_ts answer) (called s) f e new t
  answer-Tracked (err budget_exhausted) s f e new t = t
  answer-Tracked (err other) s f e new t = t

messages-Tracked :
    (w : World) (row : OpenThread) (ms : List Message) (seen : Option ℕ) (posted : ℕ)
    → Follows row seen (answer_messages w row ms seen posted)
unfolding answer_messages
messages-Tracked w row [] seen posted s e t = t
messages-Tracked w row (m ∷ rest) seen posted s e t =
    elim (Bool-cases (not (is_human_reply m row.thread_ts) || is_seen seen m.ts)) [
      | inl skip ↦ rw skip (messages-Tracked w row rest seen posted s e t)
      | inr take ↦ rw take (
          answer-Tracked w row m.ts seen posted
            (answer_messages w row rest (some (newest seen m.ts)) (suc posted))
            (w.answer_question s.calls m.text row.incident_id) (called s)
            (messages-Tracked w row rest (some (newest seen m.ts)) (suc posted)) e
            (or_right (not (is_human_reply m row.thread_ts)) (is_seen seen m.ts) take) t)
    ]

replies-Tracked :
    (w : World) (row : OpenThread) (posted : ℕ) (r : Slack (List Message)) (s : Threads)
    → Tracked s
    → Tracked (after_replies w row posted r s).1
replies-Tracked w row posted (done ms) s t =
    messages-Tracked w row ms (find row.incident_id s.seen) posted s refl t
replies-Tracked w row posted rate_limited s t = t
replies-Tracked w row posted refused s t = t

visit-Tracked :
    (w : World) (row : OpenThread) (posted : ℕ) (s : Threads)
    → Tracked s
    → Tracked (visit w row posted s).1
unfolding visit
visit-Tracked w row posted s t = replies-Tracked w row posted _ (called s) t

unless_ended-Tracked :
    (e : Ending) (rest : ℕ → Step) (s : Threads)
    → ((posted : ℕ) (s' : Threads) → Tracked s' → Tracked (rest posted s').1)
    → Tracked s
    → Tracked (unless_ended e rest s).1
unless_ended-Tracked (next_thread posted) rest s f t = f posted s t
unless_ended-Tracked (returned posted) rest s f t = t
unless_ended-Tracked limited rest s f t = t
unless_ended-Tracked failed rest s f t = t

visit_all-Tracked :
    (w : World) (rows : List OpenThread) (posted : ℕ) (s : Threads)
    → Tracked s
    → Tracked (visit_all w rows posted s).1
unfolding visit_all
visit_all-Tracked w [] posted s t = t
visit_all-Tracked w (row ∷ rows) posted s t =
    unless_ended-Tracked (visit w row posted s).0 (visit_all w rows) (visit w row posted s).1
      (visit_all-Tracked w rows) (visit-Tracked w row posted s t)

back_off-Tracked : (w : World) (e : Ending) (s : Threads) → Tracked s → Tracked (back_off w e s).1
back_off-Tracked w (next_thread posted) s t = t
back_off-Tracked w (returned posted) s t = t
back_off-Tracked w limited s t = t
back_off-Tracked w failed s t = t

poll-Tracked : (w : World) (s : Threads) → Tracked s → Tracked (poll w s).1
unfolding poll poll_threads
poll-Tracked w s t = elim (Bool-cases (ltb (w.now s.calls) s.next_at)) [
  | inl early ↦ rw early t
  | inr due ↦ rw due (
      back_off-Tracked w _ _ (
        visit_all-Tracked w (w.open_threads s.calls) 0
          (called (record s { next_at = w.now s.calls + poll_interval })) t))
]

-- From a state in which this holds already, such as one with no answers and nothing seen, however
-- often the threads are polled, and whatever Slack, the database, the answering and the clock do: in
-- each thread every answer that Slack confirmed is to a later message than the one whose answer was
-- marked last before it, so that no marked one is answered again, and `thread_seen_ts` is the
-- message whose answer was marked last. One whose mark failed may be answered again.
pub polls-IsTracked :
    (w : World) (n : ℕ) (s : Threads)
    → IsTracked s.seen s.answers
    → IsTracked (polls w n s).seen (polls w n s).answers
unfolding polls
polls-IsTracked w zero s t = t
polls-IsTracked w (suc n) s t = polls-IsTracked w n (poll w s).1 (poll-Tracked w s t)
