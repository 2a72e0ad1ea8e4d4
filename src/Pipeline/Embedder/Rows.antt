-- ===== src/Pipeline/Embedder/Rows.antt =====
-- What the handler of freshet/pipeline/embedder.py leaves in `vector_records`.
pub mod Indexing
pub mod Handling
pub mod Returns
use freshet.Prelude.{
  ℕ, zero, suc, ◌+◌, ◌≤◌, ◌<◌, ◌≡◌, refl, sym, ap, ◌∙◌, String, true, false, ◌&&◌, not, Option,
  none, some, List, [], ◌∷◌, leb, ◌==◌, str_eq, coalesce, if◌then◌else◌, arith, length, get_elem?,
  select, eq_iff, Bool-cases, inl, inr,
}
use freshet.Prelude.Exec.{Result, ok, err, ◌>>=◌, bind_ind}
use freshet.Pipeline.Embedder.{VectorRecord, World, Worker, Action, call, write, statement, upsert}

-- The text of a chunk of an event.
unfoldable pub chunk_at : String → ℕ → List VectorRecord → Option (List ℕ)
chunk_at e i [] = none
chunk_at e i (r ∷ rest) =
    if str_eq r.event_id e && (r.chunk_index == i) then some r.text else chunk_at e i rest

pub chunk_at-upsert :
    (e : String) (i : ℕ) (r : VectorRecord) (rs : List VectorRecord)
    → chunk_at e i (upsert r rs)
      ≡ (if str_eq r.event_id e && (r.chunk_index == i) then some r.text else chunk_at e i rs)
unfolding chunk_at upsert
chunk_at-upsert e i r [] = refl
chunk_at-upsert e i r (q ∷ rs) = ground (
  arith,
  eq_iff r.event_id e,
  eq_iff q.event_id r.event_id,
  eq_iff q.event_id e,
  chunk_at-upsert e i r rs,
)

pub chunk_at-select :
    (e f : String) (i n : ℕ) (rs : List VectorRecord)
    → chunk_at f i (select (λ r. not (str_eq r.event_id e && leb n r.chunk_index)) rs)
      ≡ (if str_eq e f && leb n i then none else chunk_at f i rs)
unfolding chunk_at select
chunk_at-select e f i n [] = ground arith
chunk_at-select e f i n (r ∷ rs) =
    ground (arith, eq_iff e f, eq_iff r.event_id e, eq_iff r.event_id f, chunk_at-select e f i n rs)

-- What an action makes of each chunk, where it returns.
abbrev Change : Type 0
Change = String → ℕ → Option (List ℕ) → Option (List ℕ)

abbrev Does : {A : Type 0} → Change → Worker → Result A → Worker → Type 0
Does g s (ok _) s' = (f : String) (i : ℕ) → chunk_at f i s'.records ≡ g f i (chunk_at f i s.records)
Does g s (err _) s' = Unit

abbrev Gives : {A : Type 0} → Change → Action A → Type 0
Gives {A} g m = (s : Worker) → Does {A = A} g s (m s).0 (m s).1

abbrev same : Change
same f i o = o

Does-after :
    {B : Type 0} (g h : Change) (s s' : Worker) (r : Result B) (s'' : Worker)
    → ((f : String) (i : ℕ) → chunk_at f i s'.records ≡ g f i (chunk_at f i s.records))
    → Does h s' r s''
    → Does (λ f i o. h f i (g f i o)) s r s''
Does-after g h s s' (ok b) s'' first second = λ f i. second f i ∙ ap (h f i) (first f i)
Does-after g h s s' (err e) s'' first second = tt

bind-Gives :
    {A B : Type 0} (g h : Change) (m : Action A) (k : A → Action B)
    → Gives g m
    → ((a : A) → Gives h (k a))
    → Gives (λ f i o. h f i (g f i o)) (m >>= k)
bind-Gives {A} {B} g h m k first rest s =
    bind_ind (Does {A = A} g s) (Does {A = B} (λ f i o. h f i (g f i o)) s) m k s (first s)
      (λ a s' q. Does-after g h s s' (k a s').0 (k a s').1 q (rest a s')) (λ e s' q. tt)

call-Gives : {A : Type 0} (c : ℕ → Result A) → Gives same (call c)
call-Gives {A} c s = called (c s.calls)
  where
    called : (r : Result A) → Does same s r (record s { calls = suc s.calls })
    called (ok a) = λ f i. refl
    called (err e) = tt

statement-Gives :
    (w : World) (g : Change) (change : Worker → Worker)
    → ((s : Worker) (f : String) (i : ℕ)
        → chunk_at f i (change s).records ≡ g f i (chunk_at f i s.records))
    → Gives g (statement w change)
statement-Gives w g change h =
    bind-Gives same g (call w.database) (λ _. write change) (call-Gives w.database) (λ _ s. h s)

-- The texts of an event, stored from chunk `k` on.
unfoldable stored : String → ℕ → List (List ℕ) → Change
stored e k [] f i o = o
stored e k (t ∷ ts) f i o = stored e (suc k) ts f i (if str_eq e f && (k == i) then some t else o)

stored-below :
    (e f : String) (k i : ℕ) (ts : List (List ℕ)) (o : Option (List ℕ))
    → i < k
    → stored e k ts f i o ≡ o
unfolding stored
stored-below e f k i [] o h = refl
stored-below e f k i (t ∷ ts) o h = ground (arith, stored-below e f (suc k) i ts o (omega arith))

stored-other :
    (e f : String) (k i : ℕ) (ts : List (List ℕ)) (o : Option (List ℕ))
    → str_eq e f ≡ false
    → stored e k ts f i o ≡ o
unfolding stored
stored-other e f k i [] o h = refl
stored-other e f k i (t ∷ ts) o h = ground (arith, h, stored-other e f (suc k) i ts o h)

stored-at :
    (e f : String) (k j : ℕ) (ts : List (List ℕ)) (o : Option (List ℕ))
    → str_eq e f ≡ true
    → stored e k ts f (k + j) o ≡ coalesce (get_elem? ts j) o
unfolding stored get_elem?
stored-at e f k j [] o h = refl
stored-at e f k zero (t ∷ ts) o h =
    stored-below e f (suc k) (k + 0) ts (if str_eq e f && (k == k + 0) then some t else o)
      (omega arith)
    ∙ ground (arith, h)
stored-at e f k (suc j) (t ∷ ts) o h =
    ap (λ i. stored e (suc k) ts f i (if str_eq e f && (k == k + suc j) then some t else o))
      (omega arith)
    ∙ stored-at e f (suc k) j ts (if str_eq e f && (k == k + suc j) then some t else o) h
    ∙ ap (coalesce (get_elem? ts j)) (ground (arith, h))

get_elem?-past : {A : Type 0} (xs : List A) (k : ℕ) → length xs ≤ k → get_elem? xs k ≡ none
unfolding get_elem?
get_elem?-past [] k h = refl
get_elem?-past (x ∷ xs) zero h = absurd (omega arith)
get_elem?-past (x ∷ xs) (suc k) h = get_elem?-past xs k (omega arith)

get_elem?-before :
    {A : Type 0} (xs : List A) (k : ℕ) (o : Option A)
    → k < length xs
    → coalesce (get_elem? xs k) o ≡ get_elem? xs k
unfolding get_elem?
get_elem?-before [] k o h = absurd (omega arith)
get_elem?-before (x ∷ xs) zero o h = refl
get_elem?-before (x ∷ xs) (suc k) o h = get_elem?-before xs k o (omega arith)

-- The chunks of one event are replaced by some texts.
abbrev pub replaced : String → List (List ℕ) → Change
replaced e texts f i o = if str_eq e f then get_elem? texts i else o

stored-replaced :
    (e f : String) (i : ℕ) (texts : List (List ℕ)) (o : Option (List ℕ))
    → (if str_eq e f && leb (length texts) i then none else stored e 0 texts f i o)
      ≡ replaced e texts f i o
stored-replaced e f i texts o = elim (Bool-cases (str_eq e f)) [
  | inr other' ↦ rw other' (stored-other e f 0 i texts o other')
  | inl this ↦ elim (Bool-cases (leb (length texts) i)) [
    | inl past ↦ rw (this, past) (sym (get_elem?-past texts i (ground (arith, past))))
    | inr before ↦
        rw (this, before)
          (ap (λ j. stored e 0 texts f j o) (omega arith)
            ∙ stored-at e f 0 i texts o this
            ∙ get_elem?-before texts i o (ground (arith, before)))
  ]
]
