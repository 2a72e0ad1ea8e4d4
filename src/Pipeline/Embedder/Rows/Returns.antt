-- ===== src/Pipeline/Embedder/Rows/Returns.antt =====
-- What the handler leaves where the model and the database answer.
use freshet.Prelude.{
  ℕ, suc, ◌≡◌, refl, sym, subst, ap, ◌∙◌, arith, String, Bool, true, false, ◌&&◌, some, List, [],
  ◌∷◌, ◌==◌, str_eq, if◌then◌else◌, length, arith,
}
use freshet.Prelude.Exec.{Result, ok, err, pure, continue, ◌>>=◌, ◌>>◌}
use freshet.Pipeline.Chunking.{chunk_text, default_max_chars}
use freshet.Pipeline.Embedder.{
  Event, World, Worker, Action, call, write, statement, embed, register_indexing, upsert,
  upsert_records, delete_orphans, complete_indexing, ensure, index, all_of_dim, check_and_index,
  handle_texts, handle, link_incident, replace_chunks, complete, add_incident_event, reset_streak,
  beat_now, beat_heart,
}
use freshet.Pipeline.Embedder.Rows.{chunk_at, Does, replaced, arith}
use freshet.Pipeline.Embedder.Rows.Indexing.{index-Gives}
use freshet.Pipeline.Embedder.Rows.Handling.{IsIndexed}

abbrev Returns : {A : Type 0} → Action A → Type 0
Returns {A} m = (s : Worker) → (a : A) × ((m s).0 ≡ ok a)

bind-Returns :
    {A B : Type 0} (m : Action A) (f : A → Action B)
    → Returns m
    → ((a : A) → Returns (f a))
    → Returns (m >>= f)
bind-Returns m f first rest s =
    let (a, e) = first s in
    let (b, e') = rest a (m s).1 in (b, subst (λ r. (continue r f (m s).1).0 ≡ ok b) (sym e) e')

clock-Returns : (f : ℕ → ℕ) → Returns (call (λ n. ok (f n)))
clock-Returns f s = (f s.calls, refl)

-- Every statement is answered, and each encoding has a vector of the right size for each text.
pub record Answers (w : World) : Type 0 where
  pub database : (call : ℕ) → w.database call ≡ ok tt
  pub vectors : ℕ → List (List ℕ) → List (List ℕ)
  pub encoded : (call : ℕ) (texts : List (List ℕ)) → w.encode call texts ≡ ok (vectors call texts)
  pub paired : (call : ℕ) (texts : List (List ℕ)) → length (vectors call texts) ≡ length texts
  pub fitting : (call : ℕ) (texts : List (List ℕ)) → all_of_dim (vectors call texts) ≡ true

module _ (w : World) (answers : Answers w) where
  statement-Returns : (change : Worker → Worker) → Returns (statement w change)
  statement-Returns change =
      bind-Returns (call w.database) (λ _. write change) (λ s. (tt, answers.database s.calls))
        (λ _ s. (tt, refl))

  upsert_records-Returns :
      (e : String) (i : ℕ) (texts vectors : List (List ℕ))
      → Returns (upsert_records w e i texts vectors)
  unfolding upsert_records
  upsert_records-Returns e i [] vectors s = (tt, refl)
  upsert_records-Returns e i (text ∷ texts) [] s = (tt, refl)
  upsert_records-Returns e i (text ∷ texts) (vector ∷ vectors) s =
      bind-Returns (call (λ n. ok (w.now n)) >>= store)
        (λ _. upsert_records w e (suc i) texts vectors)
        (bind-Returns (call (λ n. ok (w.now n))) store (clock-Returns w.now)
          (λ now. statement-Returns _))
        (λ _. upsert_records-Returns e (suc i) texts vectors) s
    where
      store : ℕ → Action Unit
      store now = statement w (λ s. record s {
        records =
            upsert
              (record {
                event_id = e;
                chunk_index = i;
                text = text;
                indexed_at = now;
                embedding = vector;
              })
              s.records;
      })

  link-Returns : (ev : Event) → Returns (link_incident w ev)
  link-Returns ev = linked (str_eq ev.incident_id "")
    where
      link : Worker → Worker
      link s = record s {
        incident_events = add_incident_event ev.incident_id ev.event_id s.incident_events;
      }

      linked : (b : Bool) → Returns (if b then pure tt else statement w link)
      linked true s = (tt, refl)
      linked false s = statement-Returns link s

  complete-Returns : (ev : Event) → Returns (complete w ev)
  complete-Returns ev =
      bind-Returns (stamp >> write reset_streak) (λ _. beat_now w)
        (bind-Returns stamp (λ _. write reset_streak)
          (bind-Returns (call (λ n. ok (w.now n)))
            (λ at. statement w (complete_indexing ev.event_id at)) (clock-Returns w.now)
            (λ at. statement-Returns (complete_indexing ev.event_id at)))
          (λ _ s. (tt, refl)))
        (λ _.
          bind-Returns (call (λ n. ok (w.now n)))
            (λ wall. write (λ s. beat_heart (w.monotonic s.calls) wall s)) (clock-Returns w.now)
            (λ wall s. (tt, refl)))
    where
      stamp : Action Unit
      stamp = call (λ n. ok (w.now n)) >>= λ at. statement w (complete_indexing ev.event_id at)

  replace-Returns :
      (ev : Event) (texts vectors : List (List ℕ)) → Returns (replace_chunks w ev texts vectors)
  replace-Returns ev texts vectors =
      bind-Returns
        (statement w (register_indexing ev.event_id)
          >> upsert_records w ev.event_id 0 texts vectors)
        (λ _. statement w (delete_orphans ev.event_id (length texts)))
        (bind-Returns (statement w (register_indexing ev.event_id))
          (λ _. upsert_records w ev.event_id 0 texts vectors)
          (statement-Returns (register_indexing ev.event_id))
          (λ _. upsert_records-Returns ev.event_id 0 texts vectors))
        (λ _. statement-Returns (delete_orphans ev.event_id (length texts)))

  index-Returns : (ev : Event) (texts vectors : List (List ℕ)) → Returns (index w ev texts vectors)
  unfolding index
  index-Returns ev texts vectors =
      bind-Returns
        (replace_chunks w ev texts vectors >> statement w (ensure ev) >> link_incident w ev)
        (λ _. complete w ev)
        (bind-Returns (replace_chunks w ev texts vectors >> statement w (ensure ev))
          (λ _. link_incident w ev)
          (bind-Returns (replace_chunks w ev texts vectors) (λ _. statement w (ensure ev))
            (replace-Returns ev texts vectors) (λ _. statement-Returns (ensure ev)))
          (λ _. link-Returns ev))
        (λ _. complete-Returns ev)

  stored_after :
      (e : String) (texts : List (List ℕ)) (s s' : Worker) (r : Result (Unit {0})) (t : Worker)
      → s'.records ≡ s.records
      → (a : Unit {0}) × (r ≡ ok a)
      → Does (replaced e texts) s' r t
      → (r ≡ ok tt) × IsIndexed e texts s t
  stored_after e texts s s' (ok _) t same_rows returned d =
      (refl, λ f i. d f i ∙ ap (λ rs. replaced e texts f i (chunk_at f i rs)) same_rows)
  stored_after e texts s s' (err _) t same_rows returned d = cc

  handle_texts-returns :
      (value : String) (ev : Event) (t : List ℕ) (ts : List (List ℕ)) (s : Worker)
      → ((handle_texts w value ev (t ∷ ts) s).0 ≡ ok tt)
        × IsIndexed ev.event_id (t ∷ ts) s (handle_texts w value ev (t ∷ ts) s).1
  unfolding handle_texts embed check_and_index
  handle_texts-returns value ev t ts s =
      let vs = answers.vectors s.calls (t ∷ ts) in
      let s' = record s { calls = suc s.calls } in
      let fits : (length vs == length (t ∷ ts)) && all_of_dim vs ≡ true =
        ground (arith, answers.paired s.calls (t ∷ ts), answers.fitting s.calls (t ∷ ts)) in
      rw (answers.encoded s.calls (t ∷ ts), fits)
        (stored_after ev.event_id (t ∷ ts) s s' (index w ev (t ∷ ts) vs s').0
          (index w ev (t ∷ ts) vs s').1 refl (index-Returns ev (t ∷ ts) vs s')
          (index-Gives w ev (t ∷ ts) vs (answers.paired s.calls (t ∷ ts)) s'))

  -- Where every statement is answered and the model gives a vector of the right size for each text:
  -- for an event that has a text, the handler returns, the rows of the event are the chunks of its
  -- text, in order and no others, and the rows of every other event are as before.
  pub handle-IsIndexed :
      (value : String) (ev : Event) (t : List ℕ) (ts : List (List ℕ)) (s : Worker)
      → w.parse value ≡ some ev
      → chunk_text ev.text default_max_chars ≡ t ∷ ts
      → ((handle w value s).0 ≡ ok tt)
        × IsIndexed ev.event_id (chunk_text ev.text default_max_chars) s (handle w value s).1
  unfolding handle
  handle-IsIndexed value ev t ts s parsed chunks =
      rw (parsed, chunks) (handle_texts-returns value ev t ts s)
