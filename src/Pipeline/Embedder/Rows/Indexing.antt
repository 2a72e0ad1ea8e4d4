-- ===== src/Pipeline/Embedder/Rows/Indexing.antt =====
-- The statements of the handler, one after the other, as changes of the chunks.
use freshet.Prelude.{
  ℕ, suc, ◌≡◌, refl, ◌∙◌, String, Bool, true, false, ◌&&◌, Option, none, some, List, [], ◌∷◌, leb,
  ◌==◌, str_eq, is_none, if◌then◌else◌, arith, length, Bool-cases, inl, inr,
}
use freshet.Prelude.Table.{find}
use freshet.Prelude.Exec.{Result, ok, err, pure, ◌>>=◌, ◌>>◌}
use freshet.Pipeline.Embedder.{
  Event, VectorRecord, World, Worker, Action, call, write, statement, register_indexing, upsert,
  upsert_records, delete_orphans, complete_indexing, ensure, index, link_incident, replace_chunks,
  complete, add_incident_event, reset_streak, beat_now, beat_heart,
}
use freshet.Pipeline.Embedder.Rows.{
  chunk_at, Change, Does, Gives, same, stored, replaced, bind-Gives, call-Gives, statement-Gives,
  chunk_at-upsert, chunk_at-select, stored-replaced,
}

upsert_records-Gives :
    (w : World) (e : String) (k : ℕ) (texts vectors : List (List ℕ))
    → length vectors ≡ length texts
    → Gives (stored e k texts) (upsert_records w e k texts vectors)
unfolding upsert_records stored
upsert_records-Gives w e k [] vectors h s = λ f i. refl
upsert_records-Gives w e k (text ∷ texts) [] h s = absurd (omega arith)
upsert_records-Gives w e k (text ∷ texts) (vector ∷ vectors) h s =
    bind-Gives put_one (stored e (suc k) texts) (call (λ n. ok (w.now n)) >>= store)
      (λ _. upsert_records w e (suc k) texts vectors)
      (bind-Gives same put_one (call (λ n. ok (w.now n))) store (call-Gives (λ n. ok (w.now n)))
        (λ now. statement-Gives w put_one _ (λ s f i. chunk_at-upsert f i (row now) s.records)))
      (λ _. upsert_records-Gives w e (suc k) texts vectors (omega arith)) s
  where
    put_one : Change
    put_one f i o = if str_eq e f && (k == i) then some text else o

    row : ℕ → VectorRecord
    row now = record {
      event_id = e;
      chunk_index = k;
      text = text;
      indexed_at = now;
      embedding = vector;
    }

    store : ℕ → Action Unit
    store now = statement w (λ s. record s { records = upsert (row now) s.records })

register-chunks :
    (e f : String) (i : ℕ) (s : Worker)
    → chunk_at f i (register_indexing e s).records ≡ chunk_at f i s.records
unfolding register_indexing
register-chunks e f i s = elim (Bool-cases (is_none (find e s.receipts))) [
  | inl new ↦ rw new refl
  | inr old ↦ rw old refl
]

orphans-chunks :
    (e f : String) (i n : ℕ) (s : Worker)
    → chunk_at f i (delete_orphans e n s).records
      ≡ (if str_eq e f && leb n i then none else chunk_at f i s.records)
unfolding delete_orphans
orphans-chunks e f i n s = chunk_at-select e f i n s.records

Does-as :
    {A : Type 0} (g h : Change) (s : Worker) (r : Result A) (s' : Worker)
    → ((f : String) (i : ℕ) (o : Option (List ℕ)) → g f i o ≡ h f i o)
    → Does g s r s'
    → Does h s r s'
Does-as g h s (ok a) s' e d = λ f i. d f i ∙ e f i (chunk_at f i s.records)
Does-as g h s (err x) s' e d = tt

replace-Gives :
    (w : World) (ev : Event) (texts vectors : List (List ℕ))
    → length vectors ≡ length texts
    → Gives (replaced ev.event_id texts) (replace_chunks w ev texts vectors)
replace-Gives w ev texts vectors h s =
    Does-as (λ f i o. orphaned f i (stored ev.event_id 0 texts f i o)) (replaced ev.event_id texts)
      s (replace_chunks w ev texts vectors s).0 (replace_chunks w ev texts vectors s).1
      (λ f i o. stored-replaced ev.event_id f i texts o)
      (bind-Gives (stored ev.event_id 0 texts) orphaned
        (statement w (register_indexing ev.event_id)
          >> upsert_records w ev.event_id 0 texts vectors)
        (λ _. statement w (delete_orphans ev.event_id (length texts)))
        (bind-Gives same (stored ev.event_id 0 texts) (statement w (register_indexing ev.event_id))
          (λ _. upsert_records w ev.event_id 0 texts vectors)
          (statement-Gives w same (register_indexing ev.event_id)
            (λ s f i. register-chunks ev.event_id f i s))
          (λ _. upsert_records-Gives w ev.event_id 0 texts vectors h))
        (λ _.
          statement-Gives w orphaned (delete_orphans ev.event_id (length texts))
            (λ s f i. orphans-chunks ev.event_id f i (length texts) s))
        s)
  where
    orphaned : Change
    orphaned f i o = if str_eq ev.event_id f && leb (length texts) i then none else o

link-Gives : (w : World) (ev : Event) → Gives same (link_incident w ev)
link-Gives w ev = linked (str_eq ev.incident_id "")
  where
    link : Worker → Worker
    link s = record s {
      incident_events = add_incident_event ev.incident_id ev.event_id s.incident_events;
    }

    linked : (b : Bool) → Gives same (if b then pure tt else statement w link)
    linked true s = λ f i. refl
    linked false s = statement-Gives w same link (λ s f i. refl) s

complete-Gives : (w : World) (ev : Event) → Gives same (complete w ev)
complete-Gives w ev =
    bind-Gives same same (stamp >> write reset_streak) (λ _. beat_now w)
      (bind-Gives same same stamp (λ _. write reset_streak)
        (bind-Gives same same (call (λ n. ok (w.now n)))
          (λ at. statement w (complete_indexing ev.event_id at)) (call-Gives (λ n. ok (w.now n)))
          (λ at.
            statement-Gives w same (complete_indexing ev.event_id at)
              (λ s f i. unfold complete_indexing in refl)))
        (λ _ s f i. refl))
      (λ _.
        bind-Gives same same (call (λ n. ok (w.now n)))
          (λ wall. write (λ s. beat_heart (w.monotonic s.calls) wall s))
          (call-Gives (λ n. ok (w.now n))) (λ wall s f i. refl))
  where
    stamp : Action Unit
    stamp = call (λ n. ok (w.now n)) >>= λ at. statement w (complete_indexing ev.event_id at)

pub index-Gives :
    (w : World) (ev : Event) (texts vectors : List (List ℕ))
    → length vectors ≡ length texts
    → Gives (replaced ev.event_id texts) (index w ev texts vectors)
unfolding index
index-Gives w ev texts vectors h =
    bind-Gives (replaced ev.event_id texts) same
      (replace_chunks w ev texts vectors >> statement w (ensure ev) >> link_incident w ev)
      (λ _. complete w ev)
      (bind-Gives (replaced ev.event_id texts) same
        (replace_chunks w ev texts vectors >> statement w (ensure ev)) (λ _. link_incident w ev)
        (bind-Gives (replaced ev.event_id texts) same (replace_chunks w ev texts vectors)
          (λ _. statement w (ensure ev)) (replace-Gives w ev texts vectors h)
          (λ _. statement-Gives w same (ensure ev) (λ s f i. refl)))
        (λ _. link-Gives w ev))
      (λ _. complete-Gives w ev)
