-- ===== src/Pipeline/Embedder.antt =====
-- freshet/pipeline/embedder.py: the handler of a message of normalized.updates, with the records and
-- the statements that it uses, and freshet/pipeline/deadletter.py. The source's `chunk_id` is made
-- of the event's id and the chunk's index, and is the pair of them here.
pub mod Streak
pub mod Rows
pub mod Schema
use freshet.Prelude.{
  ℕ, zero, suc, ◌+◌, ◌*◌, String, Bool, true, false, ◌&&◌, not, Option, none, some, List, [], ◌∷◌,
  leb, ◌==◌, str_eq, coalesce, is_none, if◌then◌else◌, length, select,
}
use freshet.Prelude.Exec.{Result, ok, err, Exec, pure, raise, other, ◌>>=◌, ◌>>◌}
use freshet.Prelude.Table.{Table, find, put, modify}
use freshet.Common.Incidents.{Tables, ensure_incident}
use freshet.Common.Heartbeat.{Heartbeat, Beats, beat}
use freshet.Pipeline.Chunking.{chunk_text, default_max_chars}

-- An `Event`. `incident_id` and `title` are the empty text where the source has `None`: the
-- handler asks for their truth only.
pub record Event : Type 0 where
  pub v : ℕ
  pub event_id : String
  pub incident_id : String
  pub service : String
  pub ts : ℕ
  pub title : String
  pub text : List ℕ

-- A row of `vector_records`, less its title and the columns that are copied from the event.
pub record VectorRecord : Type 0 where
  pub event_id : String
  pub chunk_index : ℕ
  pub text : List ℕ
  pub indexed_at : ℕ
  pub embedding : List ℕ

-- A row of `event_indexing`; the key is the event's id.
pub record Receipt : Type 0 where
  pub first_index_observed : Bool
  pub first_queryable_at : Option ℕ
  pub last_queryable_at : Option ℕ

-- EMBED_ATTEMPTS, MAX_CONSECUTIVE_DEADLETTERS, EMBEDDING_DIM
abbrev pub embed_attempts : ℕ
embed_attempts = 3

abbrev pub max_consecutive_deadletters : ℕ
max_consecutive_deadletters = 10

abbrev pub embedding_dim : ℕ
embedding_dim = 768

-- What is outside the source, by the number of the call: pydantic's parser, the model, the
-- producer, the database's answer to a statement, and the clocks.
pub record World : Type 0 where
  pub parse : String → Option Event
  pub encode : (call : ℕ) → List (List ℕ) → Result (List (List ℕ))
  pub produce_sync : (call : ℕ) → Result (Unit {0})
  pub database : (call : ℕ) → Result (Unit {0})
  pub now : (call : ℕ) → ℕ
  pub monotonic : (call : ℕ) → ℕ

-- The tables, the topic of dead letters (newest first), `streak` and the heartbeat.
pub record Worker : Type 0 where
  pub tables : Tables
  pub records : List VectorRecord
  pub receipts : Table Receipt
  pub incident_events : List (String × String)
  pub deadletters : List String
  pub streak : ℕ
  pub heartbeat : Heartbeat
  pub beats : Beats
  pub slept : ℕ
  pub calls : ℕ

abbrev pub Action : Type 0 → Type 0
Action A = Exec Worker A

abbrev pub call : {A : Type 0} → (ℕ → Result A) → Action A
call f s = (f s.calls, record s { calls = suc s.calls })

abbrev pub write : (Worker → Worker) → Action Unit
write f s = (ok tt, f s)

-- `conn.execute(...)`: a statement that raises has changed nothing.
abbrev pub statement : World → (Worker → Worker) → Action Unit
statement w f = call w.database >> write f

-- `streak["deadletters"] = ...`, and the test of it
unfoldable pub count_deadletter : Bool → Action Unit
count_deadletter systemic s =
    let n = if systemic then suc s.streak else 0 in
    if leb max_consecutive_deadletters n
    then (err other, record s { streak = n })
    else (ok tt, record s { streak = n })

-- `_dead_letter`
unfoldable pub dead_letter : World → Bool → String → Action Unit
dead_letter w systemic value =
    call w.produce_sync
    >> write (λ s. record s { deadletters = value ∷ s.deadletters })
    >> count_deadletter systemic

-- What an attempt to embed that is not the last one comes to: `again` is what the later ones do.
abbrev pub unless_embedded :
    Result (List (List ℕ))
    → Worker
    → Result (Option (List (List ℕ))) × Worker
    → Result (Option (List (List ℕ))) × Worker
unless_embedded (ok vectors) s again = (ok (some vectors), s)
unless_embedded (err e) s again = again

-- And the last one: `none` once the message is dead-lettered.
abbrev pub embedded_at_last :
    World → String → Result (List (List ℕ)) → Action (Option (List (List ℕ)))
embedded_at_last w value (ok vectors) = pure (some vectors)
embedded_at_last w value (err e) = dead_letter w true value >> pure none

-- The loop over the attempts, with the number of those after attempt `k`.
unfoldable pub embed : World → String → List (List ℕ) → ℕ → ℕ → Action (Option (List (List ℕ)))
embed w value texts zero k s =
    embedded_at_last w value (w.encode s.calls texts) (record s { calls = suc s.calls })
embed w value texts (suc left) k s =
    unless_embedded (w.encode s.calls texts) (record s { calls = suc s.calls })
      (embed w value texts left (suc k)
        (record s { calls = suc s.calls; slept = s.slept + 200 * k }))

-- `EXISTS (SELECT 1 FROM vector_records WHERE event_id = %s)`
unfoldable pub is_indexed : String → List VectorRecord → Bool
is_indexed e [] = false
is_indexed e (r ∷ rest) = if str_eq r.event_id e then true else is_indexed e rest

-- `_REGISTER_INDEXING_SQL`
unfoldable pub register_indexing : String → Worker → Worker
register_indexing e s =
    if is_none (find e s.receipts)
    then record s {
      receipts =
          put e
            (record {
              first_index_observed = not (is_indexed e s.records);
              first_queryable_at = none;
              last_queryable_at = none;
            })
            s.receipts;
    }
    else s

-- `UPSERT_SQL`
unfoldable pub upsert : VectorRecord → List VectorRecord → List VectorRecord
upsert r [] = r ∷ []
upsert r (q ∷ rest) =
    if str_eq q.event_id r.event_id && (q.chunk_index == r.chunk_index)
    then r ∷ rest
    else q ∷ upsert r rest

-- `upsert_record` for each chunk and its vector; `i` is the index of the first one.
unfoldable pub upsert_records : World → String → ℕ → List (List ℕ) → List (List ℕ) → Action Unit
upsert_records w e i [] vectors = pure tt
upsert_records w e i (text ∷ texts) [] = pure tt
upsert_records w e i (text ∷ texts) (vector ∷ vectors) =
    call (λ n. ok (w.now n))
    >>= (λ now. statement w (λ s. record s {
      records =
          upsert
            (record {
              event_id = e;
              chunk_index = i;
              text = text;
              indexed_at = now;
              embedding = vector;
            })
            s.records;
    }))
    >> upsert_records w e (suc i) texts vectors

-- `_DELETE_ORPHAN_CHUNKS_SQL`
unfoldable pub delete_orphans : String → ℕ → Worker → Worker
delete_orphans e n s = record s {
  records = select (λ r. not (str_eq r.event_id e && leb n r.chunk_index)) s.records;
}

-- `_INCIDENT_EVENT_SQL`
unfoldable pub add_incident_event :
    String → String → List (String × String) → List (String × String)
add_incident_event i e [] = (i, e) ∷ []
add_incident_event i e ((j, f) ∷ rest) =
    if str_eq j i && str_eq f e then (j, f) ∷ rest else (j, f) ∷ add_incident_event i e rest

-- `_COMPLETE_INDEXING_SQL`
unfoldable pub complete_indexing : String → ℕ → Worker → Worker
complete_indexing e at s = record s {
  receipts =
      modify e
        (λ r. record r {
          first_queryable_at =
              if r.first_index_observed then coalesce r.first_queryable_at (some at) else none;
          last_queryable_at = some at;
        })
        s.receipts;
}

abbrev pub ensure : Event → Worker → Worker
ensure ev s = record s {
  tables = ensure_incident ev.incident_id ev.service ev.ts ev.title s.tables;
}

-- `heartbeat.beat(conn)`
abbrev pub beat_heart : ℕ → ℕ → Worker → Worker
beat_heart now wall s =
    let (_, h, db) = beat now wall s.heartbeat s.beats in record s { heartbeat = h; beats = db }

abbrev pub link_incident : World → Event → Action Unit
link_incident w ev =
    if str_eq ev.incident_id ""
    then pure tt
    else statement w (λ s. record s {
      incident_events = add_incident_event ev.incident_id ev.event_id s.incident_events;
    })

-- The chunks of the event, and those that an earlier, longer text left behind.
abbrev pub replace_chunks : World → Event → List (List ℕ) → List (List ℕ) → Action Unit
replace_chunks w ev texts vectors =
    statement w (register_indexing ev.event_id)
    >> upsert_records w ev.event_id 0 texts vectors
    >> statement w (delete_orphans ev.event_id (length texts))

abbrev pub reset_streak : Worker → Worker
reset_streak s = record s { streak = 0 }

abbrev pub beat_now : World → Action Unit
beat_now w =
    call (λ n. ok (w.now n)) >>= λ wall. write (λ s. beat_heart (w.monotonic s.calls) wall s)

abbrev pub complete : World → Event → Action Unit
complete w ev =
    (call (λ n. ok (w.now n)) >>= λ at. statement w (complete_indexing ev.event_id at))
    >> write reset_streak
    >> beat_now w

-- What follows the embedding.
unfoldable pub index : World → Event → List (List ℕ) → List (List ℕ) → Action Unit
index w ev texts vectors =
    replace_chunks w ev texts vectors
    >> statement w (ensure ev)
    >> link_incident w ev
    >> complete w ev

unfoldable pub all_of_dim : List (List ℕ) → Bool
all_of_dim [] = true
all_of_dim (v ∷ rest) = length v == embedding_dim && all_of_dim rest

-- The two checks of what the model gave; `none` is a message that was dead-lettered.
unfoldable pub check_and_index :
    World → Event → List (List ℕ) → Option (List (List ℕ)) → Action Unit
check_and_index w ev texts none = pure tt
check_and_index w ev texts (some vectors) =
    if (length vectors == length texts) && all_of_dim vectors
    then index w ev texts vectors
    else raise other

-- `handle` of a message that is parsed; `texts` are those of `records_for_event`.
unfoldable pub handle_texts : World → String → Event → List (List ℕ) → Action Unit
handle_texts w value ev [] = statement w (ensure ev)
handle_texts w value ev (t ∷ ts) = embed w value (t ∷ ts) 2 1 >>= check_and_index w ev (t ∷ ts)

abbrev pub handle_parsed : World → String → Option Event → Action Unit
handle_parsed w value none = dead_letter w false value
handle_parsed w value (some ev) = handle_texts w value ev (chunk_text ev.text default_max_chars)

-- `handle`
unfoldable pub handle : World → String → Action Unit
handle w value = handle_parsed w value (w.parse value)
