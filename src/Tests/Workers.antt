-- ===== src/Tests/Workers.antt =====
-- The shared loops and the embedding worker on concrete inputs.
use freshet.Pipeline.Embedder.Rows.Returns.{Answers, handle-IsIndexed}
use freshet.Pipeline.Embedder.Rows.Handling.{IsHandled, handle-IsHandled, IsIndexed}
use freshet.Prelude.{
  ℕ, zero, suc, ◌≡◌, refl, true, false, none, some, List, [], ◌∷◌, arith, leb, if◌then◌else◌,
  select, suc, length, ap,
}
use freshet.Prelude.Table.{put}
use freshet.Prelude.Exec.{ok, err, other}
use freshet.Common.Kafka.{
  Config, Turn, received, stopping, consume, begin, commit_all, commit_pending, on_message, on_idle,
  leave,
}
use freshet.Common.Kafka.Commits.{uncommitted, CommitsSound, consume-CommitsSound}
use freshet.Common.Kafka.Returns.{consume_returns_committed}
use freshet.Common.Db.{Answer, returned, connection_error, Link, execute}
use freshet.Common.Db.Attempts.{After, execute_retries}
use freshet.Common.Heartbeat.{Beats, new_heartbeat}
use freshet.Pipeline.Chunking.{
  chunk_text, chunk_all, split_sentences, join, split_from, is_space, cut, ends_sentence,
  opens_sentence, strip, lstrip, chunk_step, pack,
}
use freshet.Pipeline.Chunking.Letters.{letters, all_letters, all_letters-chunk_text}
use freshet.Pipeline.Embedder.{all_of_dim, embedding_dim, Event, World, Worker, handle}
use freshet.Pipeline.Embedder.Schema.{IsValid}
use freshet.Pipeline.Embedder.Schema.Kept.{handle-IsValid}

-- Manual commits after two messages, and callbacks that return.
abbrev settings : Config
settings = record {
  handler = λ call value. ok tt;
  after_handler = λ call. ok tt;
  idle_hook = λ call. ok tt;
  pre_commit = λ call. ok tt;
  max_messages = none;
  auto_commit = false;
  idle_timeout = none;
  commit_every = 2;
}

abbrev update_at : ℕ → Turn
update_at offset = received 0 (record { partition = "updates-0"; offset = offset; value = "{}" })

abbrev turns : List Turn
turns = update_at 0 ∷ update_at 1 ∷ update_at 2 ∷ stopping ∷ []

consume-CommitsSound_example : CommitsSound (consume settings turns (begin 0)).1.log
consume-CommitsSound_example = consume-CommitsSound settings 0 turns refl

consume_returns_committed_example :
    uncommitted "updates-0" (consume settings turns (begin 0)).1.log ≡ none
unfolding consume commit_all commit_pending on_message on_idle leave put
consume_returns_committed_example =
    consume_returns_committed settings 0 turns 3 "updates-0" refl refl

-- The first call finds the connection lost.
abbrev driver : ℕ → Answer ℕ
driver call = if leb call 0 then connection_error else returned 7

abbrev new_link : Link
new_link = record { calls = 0; reconnects = 0; slept = 0 }

execute_retries_example : After driver 2 500 new_link (execute driver new_link)
execute_retries_example = execute_retries driver new_link

abbrev no_beats : Beats
no_beats = record { latest = []; log = [] }

abbrev sentence : List ℕ
sentence = b'U' ∷ b'p' ∷ b'.' ∷ b' ' ∷ b' ' ∷ b'O' ∷ b'k' ∷ []

all_letters-chunk_text_example : all_letters (chunk_text sentence 4) ≡ letters sentence
all_letters-chunk_text_example = all_letters-chunk_text sentence 4

abbrev parsed : Event
parsed = record {
  v = 1;
  event_id = "e1";
  incident_id = "zoom:1";
  service = "zoom";
  ts = 0;
  title = "";
  text = sentence;
}

-- A model that is down.
abbrev outage : World
outage = record {
  parse = λ value. some parsed;
  encode = λ call texts. err other;
  produce_sync = λ call. ok tt;
  database = λ call. ok tt;
  now = λ call. call;
  monotonic = λ call. call;
}

abbrev worker : Worker
worker = record {
  tables = record { incidents = []; services = [] };
  records = [];
  receipts = [];
  incident_events = [];
  deadletters = [];
  streak = 8;
  heartbeat = new_heartbeat "embedder";
  beats = no_beats;
  slept = 0;
  calls = 0;
}

one_chunk : chunk_text sentence 400 ≡ (b'U' ∷ b'p' ∷ b'.' ∷ b' ' ∷ b'O' ∷ b'k' ∷ []) ∷ []
unfolding chunk_text chunk_all split_sentences join split_from is_space select cut ends_sentence
    opens_sentence strip lstrip chunk_step pack
one_chunk = refl

handle-IsHandled_example :
    IsHandled "{}" "e1"
      (chunk_text sentence 400)
      worker
      (handle outage "{}" worker).0
      (handle outage "{}" worker).1
unfolding chunk_text
handle-IsHandled_example =
    handle-IsHandled outage "{}" parsed (b'U' ∷ b'p' ∷ b'.' ∷ b' ' ∷ b'O' ∷ b'k' ∷ []) [] worker
      refl one_chunk

-- A model that gives the zero vector for each text.
unfoldable zeros : ℕ → List ℕ
zeros zero = []
zeros (suc n) = 0 ∷ zeros n

length-zeros : (n : ℕ) → length (zeros n) ≡ n
unfolding zeros
length-zeros zero = refl
length-zeros (suc n) = ap suc (length-zeros n)

unfoldable blank_vectors : List (List ℕ) → List (List ℕ)
blank_vectors [] = []
blank_vectors (t ∷ ts) = zeros embedding_dim ∷ blank_vectors ts

length-blank_vectors : (ts : List (List ℕ)) → length (blank_vectors ts) ≡ length ts
unfolding blank_vectors
length-blank_vectors [] = refl
length-blank_vectors (t ∷ ts) = ap suc (length-blank_vectors ts)

all_of_dim-blank_vectors : (ts : List (List ℕ)) → all_of_dim (blank_vectors ts) ≡ true
unfolding blank_vectors all_of_dim
all_of_dim-blank_vectors [] = refl
all_of_dim-blank_vectors (t ∷ ts) =
    ground (arith, length-zeros embedding_dim, all_of_dim-blank_vectors ts)

abbrev healthy : World
healthy = record outage { encode = λ call texts. ok (blank_vectors texts) }

healthy-Answers : Answers healthy
healthy-Answers = record {
  database = λ call. refl;
  vectors = λ call texts. blank_vectors texts;
  encoded = λ call texts. refl;
  paired = λ call texts. length-blank_vectors texts;
  fitting = λ call texts. all_of_dim-blank_vectors texts;
}

handle-IsIndexed_example :
    ((handle healthy "{}" worker).0 ≡ ok tt)
    × IsIndexed "e1" (chunk_text sentence 400) worker (handle healthy "{}" worker).1
handle-IsIndexed_example =
    handle-IsIndexed healthy healthy-Answers "{}" parsed
      (b'U' ∷ b'p' ∷ b'.' ∷ b' ' ∷ b'O' ∷ b'k' ∷ []) [] worker refl one_chunk

handle-IsValid_example : IsValid (handle healthy "{}" worker).1.records
handle-IsValid_example = handle-IsValid healthy "{}" worker tt
