-- ===== src/Autopilot/Questions/Stuck.antt =====
-- A question that names a time before the calendar, and the poll of the threads.
use freshet.Prelude.{
  ℕ, zero, suc, ◌+◌, ◌*◌, ◌<◌, ◌≡◌, refl, sym, ap, ◌∙◌, String, Bool, true, false, Option, none,
  some, List, [], ◌∷◌, ◌++◌, All, arith, inl, inr, Bool-cases, ltb, if◌then◌else◌, take, get_or,
  subst,
}
use freshet.Prelude.Table.{find}
use freshet.Prelude.Exec.{err, other}
use freshet.Common.Time.{day}
use freshet.Rag.Timeframe.{last_n_hours, last_n_days, back, build, first_match, infer_window}
use freshet.Autopilot.Questions.{Sources, max_question_chars, in_window, answer_question}
use freshet.Autopilot.Threads.{
  Message, OpenThread, done, World, Threads, failed, is_human_reply, is_seen, answer_messages,
  visit, visit_all, poll_threads, poll, polls, called, returned, poll_interval,
}

-- A question about the last so many days, more than the calendar has.
pub record AsksTooFar (s : Sources) (question : List ℕ) : Type 0 where
  pub text : String
  pub not_hours : s.phrases.search last_n_hours (take max_question_chars question) ≡ none
  pub days : s.phrases.search last_n_days (take max_question_chars question) ≡ some text
  pub too_far : s.now < s.phrases.int text * day

back_raises : (span now : ℕ) → now < span → back span now ≡ err other
unfolding back
back_raises span now h = ground (arith, h)

infer_window_raises :
    (s : Sources) (question : List ℕ)
    → AsksTooFar s question
    → infer_window s.phrases (take max_question_chars question) s.now ≡ err other
unfolding infer_window first_match build
infer_window_raises s question h =
    rw h.not_hours (rw h.days (rw (back_raises (s.phrases.int h.text * day) s.now h.too_far) refl))

answer_question_raises :
    (s : Sources) (question : List ℕ) (i : String)
    → AsksTooFar s question
    → answer_question s question i ≡ err other
unfolding answer_question
answer_question_raises s question i h =
    ap (in_window s (take max_question_chars question) i) (infer_window_raises s question h)

-- In the first open thread, behind messages that are no replies of a person, such as the one that
-- opened it, stands a reply of a person that was not answered, and it asks too far.
pub record IsBlocked (w : World) (row : OpenThread) (m : Message) (seen : Option ℕ) : Type 0 where
  pub first : (call : ℕ) → (rows : List OpenThread) × (w.open_threads call ≡ row ∷ rows)
  pub replied :
      (call oldest : ℕ)
      → (before : List Message) × (more : List Message) × All
          (λ (x : Message). is_human_reply x row.thread_ts ≡ false)
          before
        × (w.replies call row.channel row.thread_ts oldest ≡ done (before ++ m ∷ more))
  pub sources : (call : ℕ) → Sources
  pub answered :
      (call : ℕ)
      → w.answer_question call m.text row.incident_id
        ≡ answer_question (sources call) m.text row.incident_id
  pub asks : (call : ℕ) → AsksTooFar (sources call) m.text
  pub human : is_human_reply m row.thread_ts ≡ true
  pub unseen : is_seen seen m.ts ≡ false

module _ (w : World) (row : OpenThread) (m : Message) where
  raises :
      (call : ℕ) (seen : Option ℕ)
      → IsBlocked w row m seen
      → w.answer_question call m.text row.incident_id ≡ err other
  raises call seen b =
      b.answered call ∙ answer_question_raises (b.sources call) m.text row.incident_id (b.asks call)

  answer_messages_raises :
      (more : List Message) (seen : Option ℕ) (posted : ℕ) (s : Threads)
      → IsBlocked w row m seen
      → answer_messages w row (m ∷ more) seen posted s ≡ (failed, called s)
  unfolding answer_messages
  answer_messages_raises more seen posted s b =
      rw b.human (rw b.unseen (rw (raises s.calls seen b) refl))

  behind_raises :
      (before more : List Message) (seen : Option ℕ) (posted : ℕ) (s : Threads)
      → All (λ (x : Message). is_human_reply x row.thread_ts ≡ false) before
      → IsBlocked w row m seen
      → answer_messages w row (before ++ m ∷ more) seen posted s ≡ (failed, called s)
  unfolding answer_messages
  behind_raises [] more seen posted s h b = answer_messages_raises more seen posted s b
  behind_raises (x ∷ before) more seen posted s h b =
      rw h.0 (behind_raises before more seen posted s h.1 b)

  visit_raises :
      (posted : ℕ) (s : Threads)
      → IsBlocked w row m (find row.incident_id s.seen)
      → visit w row posted s ≡ (failed, called (called s))
  unfolding visit
  visit_raises posted s b =
      let (before, more, h, e) =
        b.replied s.calls (get_or (find row.incident_id s.seen) row.thread_ts) in
      rw e (behind_raises before more (find row.incident_id s.seen) posted (called s) h b)

  poll_threads_raises :
      (s : Threads)
      → IsBlocked w row m (find row.incident_id s.seen)
      → poll_threads w s ≡ (failed, called (called (called s)))
  unfolding poll_threads visit_all
  poll_threads_raises s b =
      let (rows, e) = b.first s.calls in rw e (rw (visit_raises 0 (called s) b) refl)

  -- What a poll leaves behind.
  record Stays (s t : Threads) : Type 0 where
    pub answers : t.answers ≡ s.answers
    pub seen : t.seen ≡ s.seen

  abbrev waits : Threads → Bool
  waits s = ltb (w.now s.calls) s.next_at

  poll_raises :
      (s : Threads)
      → IsBlocked w row m (find row.incident_id s.seen)
      → ((poll w s).0 ≡ (if waits s then returned 0 else failed)) × Stays s (poll w s).1
  unfolding poll
  poll_raises s b = elim (Bool-cases (waits s)) [
    | inl early ↦ rw early (refl, record { answers = refl; seen = refl })
    | inr due ↦ rw due (
        rw (poll_threads_raises (record s { next_at = w.now s.calls + poll_interval }) b)
          (refl, record { answers = refl; seen = refl }))
  ]

  polls_stay :
      (n : ℕ) (s : Threads)
      → IsBlocked w row m (find row.incident_id s.seen)
      → Stays s (polls w n s)
  unfolding polls
  polls_stay zero s b = record { answers = refl; seen = refl }
  polls_stay (suc n) s b =
      let (raised, kept) = poll_raises s b in
      let later =
        polls_stay n (poll w s).1
          (subst (λ seen. IsBlocked w row m (find row.incident_id seen)) (sym kept.seen) b) in
      record { answers = later.answers ∙ kept.answers; seen = later.seen ∙ kept.seen }

  -- Where the first reply of a person in the first open thread, behind messages that are none, is not
  -- answered yet and asks about more days than the calendar has, as `last 1000000 days` does, at
  -- every poll: however often the threads are polled, nothing is posted or marked in
  -- any thread, and each poll that is due raises.
  pub polls_stuck :
      (n : ℕ) (s : Threads)
      → IsBlocked w row m (find row.incident_id s.seen)
      → let t = polls w n s in
        (t.answers ≡ s.answers)
        × (t.seen ≡ s.seen)
        × ((poll w t).0 ≡ (if ltb (w.now t.calls) t.next_at then returned 0 else failed))
  polls_stuck n s b =
      let kept = polls_stay n s b in
      let (raised, after) =
        poll_raises (polls w n s)
          (subst (λ seen. IsBlocked w row m (find row.incident_id seen)) (sym kept.seen) b) in
      (kept.answers, kept.seen, raised)
