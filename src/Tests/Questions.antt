-- ===== src/Tests/Questions.antt =====
-- Questions in a thread, one of them about more days than the calendar has.
use freshet.Prelude.{
  ℕ, ◌*◌, ◌≡◌, refl, String, false, none, some, Option, List, [], ◌∷◌, arith, take, ltb,
  if◌then◌else◌, true,
}
use freshet.Prelude.Table.{find}
use freshet.Prelude.Exec.{ok}
use freshet.Common.Time.{day}
use freshet.Rag.Timeframe
use freshet.Rag.Timeframe.{Pattern, last_n_days, infer_window}
use freshet.Pipeline.Chunking.{strip, lstrip, is_space}
use freshet.Autopilot.Threads.{
  Message, OpenThread, done, World, Threads, returned, failed, is_human_reply, poll, polls,
}
use freshet.Autopilot.Questions.{Sources, max_question_chars, codes, answer_question}
use freshet.Autopilot.Questions.Evidences.{IsAnswered, answer_question-IsAnswered}
use freshet.Autopilot.Questions.Stuck.{polls_stuck}

-- Every question asks about the last million days.
abbrev of_last_days : Pattern → Option String
of_last_days last_n_days = some "1000000"
of_last_days p = none

abbrev phrases : freshet.Rag.Timeframe.World
phrases = record { search = λ p question. of_last_days p; int = λ text. 1000000 }

abbrev sources : Sources
sources = record {
  phrases = phrases;
  now = 740000 * day;
  vec_rows = λ question since. [];
  kw_rows = λ question since. [];
  centered_floor = none;
  min_similarity = 0;
  rows = [];
  least = λ texts. "";
  compose = λ question evidence. ok [];
}

abbrev question : List ℕ
question = codes "What broke in the last 1000000 days?"

answer_question-IsAnswered_example :
    IsAnswered sources
      (take max_question_chars question)
      "zoom:1"
      (infer_window phrases (take max_question_chars question) (740000 * day))
      (answer_question sources question "zoom:1")
answer_question-IsAnswered_example = answer_question-IsAnswered sources question "zoom:1"

abbrev message : Message
message = record { has_bot_id = false; has_subtype = false; ts = 7; text = b'?' ∷ [] }

-- Slack gives the message that opened the thread first.
abbrev opening : Message
opening = record { has_bot_id = true; has_subtype = false; ts = 5; text = b'!' ∷ [] }

abbrev thread : OpenThread
thread = record { incident_id = "zoom:1"; thread_ts = 5; channel = "C1" }

abbrev slack : World
slack = record {
  open_threads = λ call. thread ∷ [];
  replies = λ call channel ts oldest. done (opening ∷ message ∷ []);
  answer_question = λ call text i. answer_question sources text i;
  post = λ call channel ts answer. done tt;
  mark_seen = λ call. ok tt;
  now = λ call. 0;
}

abbrev quiet : Threads
quiet = record { seen = []; answers = []; next_at = 0; calls = 0 }

polls_stuck_example :
    ((polls slack 9 quiet).answers ≡ [])
    × ((polls slack 9 quiet).seen ≡ [])
    × ((poll slack (polls slack 9 quiet)).0
        ≡ (if ltb 0 (polls slack 9 quiet).next_at then returned 0 else failed))
unfolding find is_human_reply strip lstrip is_space
polls_stuck_example = polls_stuck slack thread message 9 quiet (record {
  first = λ call. ([], refl);
  replied = λ call oldest. (opening ∷ [], [], (refl, tt), refl);
  sources = λ call. sources;
  answered = λ call. refl;
  asks = λ call. record { text = "1000000"; not_hours = refl; days = refl; too_far = omega arith };
  human = refl;
  unseen = refl;
})
