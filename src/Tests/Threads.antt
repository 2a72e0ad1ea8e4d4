-- ===== src/Tests/Threads.antt =====
-- The thread poller on one thread with one question.
use freshet.Prelude.{refl, false, [], ◌∷◌}
use freshet.Prelude.Table.{find}
use freshet.Prelude.Exec.{ok}
use freshet.Autopilot.Threads.{Message, OpenThread, done, World, Threads, polls}
use freshet.Autopilot.Threads.Answers.{IsTracked, latest, polls-IsTracked}

abbrev question : Message
question = record { has_bot_id = false; has_subtype = false; ts = 7; text = b'?' ∷ [] }

abbrev zoom : OpenThread
zoom = record { incident_id = "zoom:1"; thread_ts = 5; channel = "C1" }

-- Slack gives the same two messages at each poll.
abbrev chatty : World
chatty = record {
  open_threads = λ call. zoom ∷ [];
  replies = λ call channel ts oldest. done (question ∷ record question { ts = 9 } ∷ []);
  answer_question = λ call text i. ok (b'!' ∷ []);
  post = λ call channel ts answer. done tt;
  mark_seen = λ call. ok tt;
  now = λ call. call;
}

abbrev quiet : Threads
quiet = record { seen = []; answers = []; next_at = 0; calls = 0 }

polls-IsTracked_example : IsTracked (polls chatty 3 quiet).seen (polls chatty 3 quiet).answers
unfolding find latest
polls-IsTracked_example =
    polls-IsTracked chatty 3 quiet (record { seen_latest = λ i. refl; in_order = tt })
