-- ===== src/Pipeline/Embedder/Rows/Handling.antt =====
-- What the handling of one message comes to.
use freshet.Prelude.{
  ℕ, zero, suc, ◌+◌, ◌*◌, ◌≡◌, refl, ap, ◌∙◌, String, Bool, true, ◌&&◌, Option, none, some, List,
  ◌∷◌, leb, ◌==◌, str_eq, if◌then◌else◌, arith, length, get_elem?, Bool-cases, ◌⊎◌, inl, inr,
}
use freshet.Prelude.Exec.{Result, ok, err, pure, ◌>>◌, bind_ind}
use freshet.Pipeline.Chunking.{chunk_text, default_max_chars}
use freshet.Pipeline.Embedder.{
  Event, World, Worker, call, write, count_deadletter, dead_letter, embed, unless_embedded,
  embedded_at_last, index, all_of_dim, check_and_index, handle_texts, handle,
  max_consecutive_deadletters,
}
use freshet.Pipeline.Embedder.Rows.{chunk_at, Does, replaced}
use freshet.Pipeline.Embedder.Rows.Indexing.{index-Gives}

-- A message that was dead-lettered: it was added to the topic, and no row changed.
abbrev pub IsDeadLettered : String → Worker → Worker → Type 0
IsDeadLettered value s s' = (s'.deadletters ≡ value ∷ s.deadletters) × (s'.records ≡ s.records)

abbrev Untouched : Worker → Worker → Type 0
Untouched s s' = (s'.deadletters ≡ s.deadletters) × (s'.records ≡ s.records)

abbrev DeadLetters : {A : Type 0} → String → Worker → Result A → Worker → Type 0
DeadLetters value s (ok _) s' = IsDeadLettered value s s'
DeadLetters value s (err _) s' = Unit

-- While a message is embedded, no row changes.
abbrev Embedded : String → Worker → Result (Option (List (List ℕ))) → Worker → Type 0
Embedded value s (ok none) s' = IsDeadLettered value s s'
Embedded value s (ok (some _)) s' = s'.records ≡ s.records
Embedded value s (err _) s' = Unit

counted :
    (value : String) (systemic : Bool) (s s' : Worker)
    → IsDeadLettered value s s'
    → DeadLetters {A = Unit {0}} value s
        (count_deadletter systemic s').0
        (count_deadletter systemic s').1
unfolding count_deadletter
counted value systemic s s' h =
    elim (Bool-cases (leb max_consecutive_deadletters (if systemic then suc s'.streak else 0))) [
      | inl down ↦ rw down tt
      | inr up ↦ rw up h
    ]

letter-DeadLetters :
    (c : ℕ → Result (Unit {0})) (value : String) (s s' : Worker)
    → Untouched s s'
    → let m = call c >> write (λ s. record s { deadletters = value ∷ s.deadletters }) in
      DeadLetters {A = Unit {0}} value s (m s').0 (m s').1
letter-DeadLetters c value s s' h =
    bind_ind (λ (_ : Result (Unit {0})) t. Untouched s t) (DeadLetters {A = Unit {0}} value s)
      (call c) (λ _. write (λ s. record s { deadletters = value ∷ s.deadletters })) s' h
      (λ _ t q. (ap (λ l. value ∷ l) q.0, q.1)) (λ x t q. tt)

dead_letter-DeadLetters :
    (w : World) (systemic : Bool) (value : String) (s s' : Worker)
    → Untouched s s'
    → DeadLetters {A = Unit {0}} value s
        (dead_letter w systemic value s').0
        (dead_letter w systemic value s').1
unfolding dead_letter
dead_letter-DeadLetters w systemic value s s' h =
    bind_ind (DeadLetters {A = Unit {0}} value s) (DeadLetters {A = Unit {0}} value s)
      (call w.produce_sync >> write (λ s. record s { deadletters = value ∷ s.deadletters }))
      (λ _. count_deadletter systemic) s' (letter-DeadLetters w.produce_sync value s s' h)
      (λ _ t q. counted value systemic s t q) (λ x t q. tt)

embedded_at_last-Embedded :
    (w : World) (value : String) (r : Result (List (List ℕ))) (s s' : Worker)
    → Untouched s s'
    → Embedded value s (embedded_at_last w value r s').0 (embedded_at_last w value r s').1
embedded_at_last-Embedded w value (ok vectors) s s' h = h.1
embedded_at_last-Embedded w value (err e) s s' h =
    bind_ind (DeadLetters {A = Unit {0}} value s) (Embedded value s) (dead_letter w true value)
      (λ _. pure none) s' (dead_letter-DeadLetters w true value s s' h) (λ _ t q. q) (λ x t q. tt)

unless-Embedded :
    (value : String) (r : Result (List (List ℕ))) (s s' : Worker)
    (o : Result (Option (List (List ℕ))) × Worker)
    → Untouched s s'
    → Embedded value s o.0 o.1
    → Embedded value s (unless_embedded r s' o).0 (unless_embedded r s' o).1
unless-Embedded value (ok vectors) s s' o h again = h.1
unless-Embedded value (err e) s s' o h again = again

embed-Embedded :
    (w : World) (value : String) (texts : List (List ℕ)) (left k : ℕ) (s s' : Worker)
    → Untouched s s'
    → Embedded value s (embed w value texts left k s').0 (embed w value texts left k s').1
unfolding embed
embed-Embedded w value texts zero k s s' h =
    embedded_at_last-Embedded w value (w.encode s'.calls texts) s
      (record s' { calls = suc s'.calls }) h
embed-Embedded w value texts (suc left) k s s' h =
    unless-Embedded value (w.encode s'.calls texts) s (record s' { calls = suc s'.calls })
      (embed w value texts left (suc k)
        (record s' { calls = suc s'.calls; slept = s'.slept + 200 * k }))
      h
      (embed-Embedded w value texts left (suc k) s
        (record s' { calls = suc s'.calls; slept = s'.slept + 200 * k }) h)

-- The rows of an event are its texts in order and no others, and those of the other events stay.
abbrev pub IsIndexed : String → List (List ℕ) → Worker → Worker → Type 0
IsIndexed e texts s s' =
    (f : String) (i : ℕ)
    → chunk_at f i s'.records ≡ (if str_eq e f then get_elem? texts i else chunk_at f i s.records)

-- What the handling of a message comes to where it returns.
abbrev pub IsHandled :
    String → String → List (List ℕ) → Worker → Result (Unit {0}) → Worker → Type 0
IsHandled value e texts s (ok _) s' = IsDeadLettered value s s' ⊎ IsIndexed e texts s s'
IsHandled value e texts s (err _) s' = Unit

indexed-IsHandled :
    (value e : String) (texts : List (List ℕ)) (s s' : Worker) (r : Result (Unit {0}))
    (s'' : Worker)
    → s'.records ≡ s.records
    → Does (replaced e texts) s' r s''
    → IsHandled value e texts s r s''
indexed-IsHandled value e texts s s' (ok _) s'' h d =
    inr (λ f i. d f i ∙ ap (λ rs. replaced e texts f i (chunk_at f i rs)) h)
indexed-IsHandled value e texts s s' (err _) s'' h d = tt

and_left : (a b : Bool) → a && b ≡ true → a ≡ true
and_left a b h = ground arith

check-IsHandled :
    (w : World) (value : String) (ev : Event) (texts : List (List ℕ)) (o : Option (List (List ℕ)))
    (s s' : Worker)
    → Embedded value s (ok o) s'
    → IsHandled value ev.event_id texts s
        (check_and_index w ev texts o s').0
        (check_and_index w ev texts o s').1
unfolding check_and_index
check-IsHandled w value ev texts none s s' h = inl h
check-IsHandled w value ev texts (some vectors) s s' h =
    elim (Bool-cases ((length vectors == length texts) && all_of_dim vectors)) [
      | inl fits ↦ rw fits (
          indexed-IsHandled value ev.event_id texts s s' (index w ev texts vectors s').0
            (index w ev texts vectors s').1 h
            (index-Gives w ev texts vectors
              (ground (arith, and_left (length vectors == length texts) (all_of_dim vectors) fits))
              s'))
      | inr unfit ↦ rw unfit tt
    ]

handle_texts-IsHandled :
    (w : World) (value : String) (ev : Event) (t : List ℕ) (ts : List (List ℕ)) (s : Worker)
    → IsHandled value ev.event_id
        (t ∷ ts)
        s
        (handle_texts w value ev (t ∷ ts) s).0
        (handle_texts w value ev (t ∷ ts) s).1
unfolding handle_texts
handle_texts-IsHandled w value ev t ts s =
    bind_ind (Embedded value s) (IsHandled value ev.event_id (t ∷ ts) s)
      (embed w value (t ∷ ts) 2 1) (check_and_index w ev (t ∷ ts)) s
      (embed-Embedded w value (t ∷ ts) 2 1 s s (refl, refl))
      (λ o s' h. check-IsHandled w value ev (t ∷ ts) o s s' h) (λ x s' h. tt)

-- For an event that has a text: where the handler returns, either its message was dead-lettered and
-- no row changed, or the rows of the event are the chunks of its text, in order and no others, and
-- the rows of every other event are as before.
pub handle-IsHandled :
    (w : World) (value : String) (ev : Event) (t : List ℕ) (ts : List (List ℕ)) (s : Worker)
    → w.parse value ≡ some ev
    → chunk_text ev.text default_max_chars ≡ t ∷ ts
    → IsHandled value ev.event_id
        (chunk_text ev.text default_max_chars)
        s
        (handle w value s).0
        (handle w value s).1
unfolding handle
handle-IsHandled w value ev t ts s parsed chunks =
    rw (parsed, chunks) (handle_texts-IsHandled w value ev t ts s)
