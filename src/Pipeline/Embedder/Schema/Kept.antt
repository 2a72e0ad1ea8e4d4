-- ===== src/Pipeline/Embedder/Schema/Kept.antt =====
-- The table of vectors through the handler of freshet/pipeline/embedder.py.
use freshet.Pipeline.Chunking.{chunk_text, default_max_chars}
use freshet.Prelude.{
  ◌+◌, ◌*◌, ℕ, zero, suc, ◌≡◌, refl, sym, String, Bool, true, false, ◌&&◌, Option, none, some, List,
  [], ◌∷◌, leb, ◌==◌, str_eq, if◌then◌else◌, arith, length, subst, Bool-cases, inl, inr,
}
use freshet.Prelude.Exec.{Result, ok, err, pure, ◌>>=◌, ◌>>◌, bind_ind}
use freshet.Pipeline.Embedder.{
  Event, VectorRecord, World, Worker, Action, call, write, statement, count_deadletter, dead_letter,
  embed, unless_embedded, embedded_at_last, register_indexing, upsert, upsert_records,
  delete_orphans, complete_indexing, ensure, beat_heart, index, all_of_dim, check_and_index,
  handle_texts, handle_parsed, handle, max_consecutive_deadletters, is_none, find, link_incident,
  replace_chunks, complete, chunk_text, add_incident_event, reset_streak, beat_now,
}
use freshet.Pipeline.Embedder.Schema.{IsValid, upsert-IsValid, select-IsValid}

-- Whether it returns or raises.
abbrev Keeps : {A : Type 0} → Action A → Type 0
Keeps m = (s : Worker) → IsValid s.records → IsValid (m s).1.records

bind-Keeps :
    {A B : Type 0} (m : Action A) (f : A → Action B)
    → Keeps m
    → ((a : A) → Keeps (f a))
    → Keeps (m >>= f)
bind-Keeps m f first rest s h =
    bind_ind (λ _ t. IsValid t.records) (λ _ t. IsValid t.records) m f s (first s h) rest
      (λ e t h'. h')

call_then-Keeps :
    (c : ℕ → Result (Unit {0})) (f : Worker → Worker)
    → ((s : Worker) → IsValid s.records → IsValid (f s).records)
    → Keeps (call c >> write f)
call_then-Keeps c f keeps = bind-Keeps (call c) (λ _. write f) (λ s h. h) (λ _. keeps)

-- A statement on another table.
elsewhere-Keeps :
    (w : World) (f : Worker → Worker)
    → ((s : Worker) → (f s).records ≡ s.records)
    → Keeps (statement w f)
elsewhere-Keeps w f same = call_then-Keeps w.database f (λ s. subst IsValid (sym (same s)))

count_deadletter-Keeps : (systemic : Bool) → Keeps (count_deadletter systemic)
unfolding count_deadletter
count_deadletter-Keeps systemic s h =
    elim (Bool-cases (leb max_consecutive_deadletters (if systemic then suc s.streak else 0))) [
      | inl many ↦ rw many h
      | inr few ↦ rw few h
    ]

dead_letter-Keeps :
    (w : World) (systemic : Bool) (value : String) → Keeps (dead_letter w systemic value)
unfolding dead_letter
dead_letter-Keeps w systemic value =
    bind-Keeps
      (call w.produce_sync >> write (λ s. record s { deadletters = value ∷ s.deadletters }))
      (λ _. count_deadletter systemic)
      (call_then-Keeps w.produce_sync (λ s. record s { deadletters = value ∷ s.deadletters })
        (λ s h. h))
      (λ _. count_deadletter-Keeps systemic)

embedded-Keeps :
    (w : World) (value : String) (r : Result (List (List ℕ))) → Keeps (embedded_at_last w value r)
embedded-Keeps w value (ok vectors) s h = h
embedded-Keeps w value (err e) s h =
    bind-Keeps (dead_letter w true value) (λ _. pure none) (dead_letter-Keeps w true value)
      (λ _ s h. h) s h

unless_embedded-Keeps :
    (r : Result (List (List ℕ))) (s : Worker) (o : Result (Option (List (List ℕ))) × Worker)
    → IsValid s.records
    → IsValid o.1.records
    → IsValid (unless_embedded r s o).1.records
unless_embedded-Keeps (ok vectors) s o h again = h
unless_embedded-Keeps (err e) s o h again = again

embed-Keeps :
    (w : World) (value : String) (texts : List (List ℕ)) (left k : ℕ)
    → Keeps (embed w value texts left k)
unfolding embed
embed-Keeps w value texts zero k s h =
    embedded-Keeps w value (w.encode s.calls texts) (record s { calls = suc s.calls }) h
embed-Keeps w value texts (suc left) k s h =
    let next = record s { calls = suc s.calls; slept = s.slept + 200 * k } in
    unless_embedded-Keeps (w.encode s.calls texts) (record s { calls = suc s.calls })
      (embed w value texts left (suc k) next) h (embed-Keeps w value texts left (suc k) next h)

register_records : (e : String) (s : Worker) → (register_indexing e s).records ≡ s.records
unfolding register_indexing
register_records e s = elim (Bool-cases (is_none (find e s.receipts))) [
  | inl new ↦ rw new refl
  | inr old ↦ rw old refl
]

upsert_records-Keeps :
    (w : World) (e : String) (i : ℕ) (texts vectors : List (List ℕ))
    → all_of_dim vectors ≡ true
    → Keeps (upsert_records w e i texts vectors)
unfolding upsert_records all_of_dim
upsert_records-Keeps w e i [] vectors d s h = h
upsert_records-Keeps w e i (text ∷ texts) [] d s h = h
upsert_records-Keeps w e i (text ∷ texts) (vector ∷ vectors) d s h =
    bind-Keeps (call (λ n. ok (w.now n)) >>= store) (λ _. upsert_records w e (suc i) texts vectors)
      (bind-Keeps (call (λ n. ok (w.now n))) store (λ s h. h)
        (λ now.
          call_then-Keeps w.database (λ s. record s { records = upsert (row now) s.records })
            (λ s h. upsert-IsValid (row now) s.records (ground (arith, d)) h)))
      (λ _. upsert_records-Keeps w e (suc i) texts vectors (ground (arith, d))) s h
  where
    row : ℕ → VectorRecord
    row now = record {
      event_id = e;
      chunk_index = i;
      text = text;
      indexed_at = now;
      embedding = vector;
    }

    store : ℕ → Action Unit
    store now = statement w (λ s. record s { records = upsert (row now) s.records })

link-Keeps : (w : World) (ev : Event) → Keeps (link_incident w ev)
link-Keeps w ev s h = elim (Bool-cases (str_eq ev.incident_id "")) [
  | inl none_given ↦ rw none_given h
  | inr given ↦ rw given (elsewhere-Keeps w link (λ s. refl) s h)
]
  where
    link : Worker → Worker
    link s = record s {
      incident_events = add_incident_event ev.incident_id ev.event_id s.incident_events;
    }

replace-Keeps :
    (w : World) (ev : Event) (texts vectors : List (List ℕ))
    → all_of_dim vectors ≡ true
    → Keeps (replace_chunks w ev texts vectors)
replace-Keeps w ev texts vectors d =
    bind-Keeps
      (statement w (register_indexing ev.event_id) >> upsert_records w ev.event_id 0 texts vectors)
      (λ _. statement w (delete_orphans ev.event_id (length texts)))
      (bind-Keeps (statement w (register_indexing ev.event_id))
        (λ _. upsert_records w ev.event_id 0 texts vectors)
        (elsewhere-Keeps w (register_indexing ev.event_id) (register_records ev.event_id))
        (λ _. upsert_records-Keeps w ev.event_id 0 texts vectors d))
      (λ _.
        call_then-Keeps w.database (delete_orphans ev.event_id (length texts))
          (λ s h. unfold delete_orphans in select-IsValid ev.event_id (length texts) s.records h))

complete-Keeps : (w : World) (ev : Event) → Keeps (complete w ev)
complete-Keeps w ev =
    bind-Keeps (stamp >> write reset_streak) (λ _. beat_now w)
      (bind-Keeps stamp (λ _. write reset_streak)
        (bind-Keeps (call (λ n. ok (w.now n)))
          (λ at. statement w (complete_indexing ev.event_id at)) (λ s h. h)
          (λ at.
            elsewhere-Keeps w (complete_indexing ev.event_id at)
              (λ s. unfold complete_indexing in refl)))
        (λ _ s h. h))
      (λ _.
        bind-Keeps (call (λ n. ok (w.now n)))
          (λ wall. write (λ s. beat_heart (w.monotonic s.calls) wall s)) (λ s h. h) (λ wall s h. h))
  where
    stamp : Action Unit
    stamp = call (λ n. ok (w.now n)) >>= λ at. statement w (complete_indexing ev.event_id at)

index-Keeps :
    (w : World) (ev : Event) (texts vectors : List (List ℕ))
    → all_of_dim vectors ≡ true
    → Keeps (index w ev texts vectors)
unfolding index
index-Keeps w ev texts vectors d =
    bind-Keeps (replace_chunks w ev texts vectors >> statement w (ensure ev) >> link_incident w ev)
      (λ _. complete w ev)
      (bind-Keeps (replace_chunks w ev texts vectors >> statement w (ensure ev))
        (λ _. link_incident w ev)
        (bind-Keeps (replace_chunks w ev texts vectors) (λ _. statement w (ensure ev))
          (replace-Keeps w ev texts vectors d) (λ _. elsewhere-Keeps w (ensure ev) (λ s. refl)))
        (λ _. link-Keeps w ev))
      (λ _. complete-Keeps w ev)

check-Keeps :
    (w : World) (ev : Event) (texts : List (List ℕ)) (vectors : Option (List (List ℕ)))
    → Keeps (check_and_index w ev texts vectors)
unfolding check_and_index
check-Keeps w ev texts none s h = h
check-Keeps w ev texts (some vectors) s h =
    elim (Bool-cases ((length vectors == length texts) && all_of_dim vectors)) [
      | inl good ↦ rw good (index-Keeps w ev texts vectors (ground (arith, good)) s h)
      | inr bad ↦ rw bad h
    ]

handle_texts-Keeps :
    (w : World) (value : String) (ev : Event) (texts : List (List ℕ))
    → Keeps (handle_texts w value ev texts)
unfolding handle_texts
handle_texts-Keeps w value ev [] = elsewhere-Keeps w (ensure ev) (λ s. refl)
handle_texts-Keeps w value ev (t ∷ ts) =
    bind-Keeps (embed w value (t ∷ ts) 2 1) (check_and_index w ev (t ∷ ts))
      (embed-Keeps w value (t ∷ ts) 2 1) (check-Keeps w ev (t ∷ ts))

handle_parsed-Keeps :
    (w : World) (value : String) (e : Option Event) → Keeps (handle_parsed w value e)
handle_parsed-Keeps w value none = dead_letter-Keeps w false value
handle_parsed-Keeps w value (some ev) =
    handle_texts-Keeps w value ev (chunk_text ev.text default_max_chars)

-- Where each stored chunk has its id once and a vector of EMBEDDING_DIM entries, it is so after the
-- handler too, whatever the message is, whatever the model gives, at whichever statement the database
-- fails, and whether the handler returns or raises.
pub handle-IsValid :
    (w : World) (value : String) (s : Worker)
    → IsValid s.records
    → IsValid (handle w value s).1.records
unfolding handle
handle-IsValid w value = handle_parsed-Keeps w value (w.parse value)
