-- ===== src/Common/Kafka/Commits.antt =====
-- Which messages `consume_loop` commits.
use freshet.Prelude.{
  leb, max, ℕ, suc, ◌≡◌, refl, inl, inr, String, Bool, true, false, Option, none, some, List, [],
  ◌∷◌, arith, eq_iff, str_eq, if◌then◌else◌, Bool-cases,
}
use freshet.Prelude.Table.{Table, find, put, find-put, DistinctKeys, put-DistinctKeys}
use freshet.Prelude.Exec.{Result, ok, err, bind_ind, pure, ◌>>=◌, ◌>>◌}
use freshet.Common.Kafka.{
  Message, Turn, stopping, nothing, consumer_event, received, Event, handled, flushed, committed,
  Config, Loop, note_pending, batch, begin, Action, hook, commit_all, write_commits, commit_some,
  commit_pending, commit_unless_auto, note_handled, count_message, on_message, on_idle, idle_over,
  full, leave, consume, flush,
}

-- The newest handled message of a partition that no later commit covers.
unfoldable pub uncommitted : String → List Event → Option Message
uncommitted p [] = none
uncommitted p (handled m ∷ log) = if str_eq m.partition p then some m else uncommitted p log
uncommitted p (committed m ∷ log) = if str_eq m.partition p then none else uncommitted p log
uncommitted p (flushed r ∷ log) = uncommitted p log

-- A `pre_commit` returned, and only commits came after.
abbrev pub JustFlushed : List Event → Type 0
JustFlushed (committed _ ∷ log) = JustFlushed log
JustFlushed (flushed (ok _) ∷ log) = Unit
JustFlushed _ = ⊥

-- Each commit is of the newest handled message of its partition, after a flush that came after it.
abbrev pub CommitsSound : List Event → Type 0
CommitsSound [] = Unit
CommitsSound (committed m ∷ log) =
    (uncommitted m.partition log ≡ some m) × JustFlushed log × CommitsSound log
CommitsSound (_ ∷ log) = CommitsSound log

abbrev pub Tracks : Table Message → List Event → Type 0
Tracks t log = (p : String) → find p t ≡ uncommitted p log

-- The pending messages stand under their partitions.
abbrev pub Named : Table Message → Type 0
Named [] = Unit
Named ((p, m) ∷ t) = (m.partition ≡ p) × Named t

put-Named : (m : Message) (t : Table Message) → Named t → Named (put m.partition m t)
unfolding put
put-Named m [] h = (refl, tt)
put-Named m ((j, x) ∷ t) h = elim (Bool-cases (str_eq j m.partition)) [
  | inl same ↦ rw same (ground (arith, eq_iff j m.partition), h.1)
  | inr new ↦ rw new (h.0, put-Named m t h.1)
]

pub record Batch (t : Table Message) (log : List Event) : Type 0 where
  pub tracks : Tracks t log
  pub named : Named t
  pub distinct : DistinctKeys t
  pub sound : CommitsSound log

commit_all_sound :
    (t : Table Message) (log : List Event)
    → JustFlushed log
    → Batch t log
    → Batch [] (commit_all t log)
unfolding commit_all uncommitted find
commit_all_sound [] log f b = b
commit_all_sound ((p, m) ∷ rest) log f b = commit_all_sound rest (committed m ∷ log) f (record {
  tracks = λ q. tracks_rest q;
  named = b.named.1;
  distinct = b.distinct.1;
  sound = (newest, f, b.sound);
})
  where
    newest : uncommitted m.partition log ≡ some m
    newest = ground (arith, b.tracks p, b.named.0, eq_iff p p)

    tracks_rest : Tracks rest (committed m ∷ log)
    tracks_rest q = ground (arith, b.tracks q, b.named.0, b.distinct.0, eq_iff p q)

abbrev pub Kept : Loop → Type 0
Kept s = Batch s.pending s.log

-- After a raise the pending messages may lag behind; what was committed is still sound.
abbrev pub Safe : {A : Type 0} → Result A → Loop → Type 0
Safe (ok _) s = Kept s
Safe (err _) s = CommitsSound s.log

abbrev pub Keeps : {A : Type 0} → Action A → Type 0
Keeps m = (s : Loop) → Kept s → Safe (m s).0 (m s).1

Keeps-bind :
    {A B : Type 0} (m : Action A) (f : A → Action B)
    → Keeps m
    → ((a : A) → Keeps (f a))
    → Keeps (m >>= f)
Keeps-bind {A} {B} m f km kf s b =
    bind_ind (Safe {A = A}) (Safe {A = B}) m f s (km s b) (λ a s' b'. kf a s' b') (λ _ s' b'. b')

hook-Keeps : (f : ℕ → Result (Unit {0})) → Keeps (hook f)
hook-Keeps f s b = answer (f s.calls)
  where
    answer : (r : Result (Unit {0})) → Safe r (record s { calls = suc s.calls })
    answer (ok _) = b
    answer (err _) = b.sound

flush-Batch :
    {t : Table Message} {log : List Event} (r : Result (Unit {0}))
    → Batch t log
    → Batch t (flushed r ∷ log)
unfolding uncommitted
flush-Batch r b = record {
  tracks = b.tracks;
  named = b.named;
  distinct = b.distinct;
  sound = b.sound;
}

-- After a `pre_commit` that returned, nothing stands between it and the commits.
abbrev pub Flushed : Result (Unit {0}) → Loop → Type 0
Flushed (ok _) s = Kept s × JustFlushed s.log
Flushed (err _) s = CommitsSound s.log

flush-Flushed :
    (r : Result (Unit {0})) (s : Loop)
    → Kept s
    → Flushed r (record s { calls = suc s.calls; log = flushed r ∷ s.log })
flush-Flushed (ok _) s b = (flush-Batch (ok tt) b, tt)
flush-Flushed (err e) s b = b.sound

commit_some-Keeps : (c : Config) (t : Table Message) → Keeps (commit_some c t)
commit_some-Keeps c [] s b = b
commit_some-Keeps c (x ∷ t) s b =
    bind_ind Flushed (Safe {A = Unit {0}}) (flush c) (λ _. write_commits) s
      (flush-Flushed (c.pre_commit s.calls) s b)
      (λ _ s' h. commit_all_sound s'.pending s'.log h.1 h.0) (λ _ s' h. h)

commit_pending-Keeps : (c : Config) → Keeps (commit_pending c)
unfolding commit_pending
commit_pending-Keeps c s b = commit_some-Keeps c s.pending s b

note_pending-Batch :
    (m : Message) {t : Table Message} {log : List Event}
    → Batch t log
    → Batch (put m.partition m t) (handled m ∷ log)
unfolding uncommitted
note_pending-Batch m {t} b = record {
  tracks = λ p. ground (arith, find-put m.partition p m t, b.tracks p);
  named = put-Named m t b.named;
  distinct = put-DistinctKeys m.partition m t b.distinct;
  sound = b.sound;
}

-- `m` was handled and is not pending yet.
abbrev Half : Message → Loop → Type 0
Half m s = (log : List Event) × (s.log ≡ handled m ∷ log) × Batch s.pending log

Keeps-if :
    {A : Type 0} (b : Bool) (m m' : Action A) → Keeps m → Keeps m' → Keeps (if b then m else m')
Keeps-if true m m' k k' = k
Keeps-if false m m' k k' = k'

pub Safe-else :
    {A : Type 0} (b : Bool) (m m' : Action A) (s : Loop)
    → b ≡ false
    → Safe (m' s).0 (m' s).1
    → Safe ((if b then m else m') s).0 ((if b then m else m') s).1
Safe-else true m m' s e h = cc
Safe-else false m m' s e h = h

abbrev HalfSafe : Message → Result (Unit {0}) → Loop → Type 0
HalfSafe m (ok _) s = Half m s
HalfSafe m (err _) s = CommitsSound s.log

module _ (c : Config) (manual : c.auto_commit ≡ false) where
  commit_unless_auto-Keeps : Keeps (commit_unless_auto c)
  commit_unless_auto-Keeps s b =
      Safe-else c.auto_commit (pure tt) (commit_pending c) s manual (commit_pending-Keeps c s b)

  batch-Safe : (m : Message) (s : Loop) → Half m s → Safe (batch c m s).0 (batch c m s).1
  batch-Safe m s (log, e, b) =
      let s' = (note_pending m s).1 in
      let full? = leb (max 1 c.commit_every) s'.since_commit in
      let commit : Action (Unit {0}) = λ s''.
        (if leb (max 1 c.commit_every) s''.since_commit then commit_pending c else pure tt) s'' in
      let b' : Kept s' = rw e (note_pending-Batch m b) in
      Safe-else c.auto_commit (pure tt) (note_pending m >> commit) s manual
        (Keeps-if full? (commit_pending c) (pure tt) (commit_pending-Keeps c) (λ s'' k. k) s' b')

  -- What comes after the handler of `m` returned.
  abbrev rest_of : Message → Action (Unit {0})
  rest_of m = hook c.after_handler >> (batch c m >> count_message)

  rest_of-Safe : (m : Message) (s : Loop) → Half m s → Safe (rest_of m s).0 (rest_of m s).1
  rest_of-Safe m s h =
      bind_ind (HalfSafe m) (Safe {A = Unit {0}}) (hook c.after_handler)
        (λ _. batch c m >> count_message) s (answer (c.after_handler s.calls))
        (λ _ s' h'.
          bind_ind (Safe {A = Unit {0}}) (Safe {A = Unit {0}}) (batch c m) (λ _. count_message) s'
            (batch-Safe m s' h') (λ _ s'' b. b) (λ _ s'' b. b))
        (λ _ s' b. b)
    where
      answer : (r : Result (Unit {0})) → HalfSafe m r (record s { calls = suc s.calls })
      answer (ok _) = h
      answer (err _) = rw h.1 h.2.sound

  on_message-Keeps : (now : ℕ) (m : Message) → Keeps (on_message c now m)
  unfolding on_message
  on_message-Keeps now m s b =
      Keeps-bind (hook (λ call. c.handler call m.value)) (λ _. note_handled m >> rest_of m)
        (hook-Keeps (λ call. c.handler call m.value))
        (λ _ s' b'. rest_of-Safe m _ (s'.log, refl, b')) (record s { last_msg = now }) b

  on_idle-Keeps : Keeps (on_idle c)
  unfolding on_idle
  on_idle-Keeps =
      Keeps-bind (commit_unless_auto c) (λ _. hook c.idle_hook) commit_unless_auto-Keeps
        (λ _. hook-Keeps c.idle_hook)

  leave-Keeps : Keeps (leave c)
  unfolding leave
  leave-Keeps =
      Keeps-bind (commit_unless_auto c) (λ _ s. (ok (some s.n), s)) commit_unless_auto-Keeps
        (λ _ s b. b)

  pub consume-Keeps : (turns : List Turn) → Keeps (consume c turns)
  unfolding consume
  consume-Keeps [] s b = Keeps-if (full c s) (leave c) (pure none) leave-Keeps (λ s' b'. b') s b
  consume-Keeps (stopping ∷ turns) s b = leave-Keeps s b
  consume-Keeps (nothing now ∷ turns) s b =
      let over : Action (Option ℕ) =
        λ s'. (if idle_over c now s' then leave c else consume c turns) s' in
      Keeps-if (full c s) (leave c) (on_idle c >> over) leave-Keeps
        (Keeps-bind (on_idle c) (λ _. over) on_idle-Keeps
          (λ _ s' b'.
            Keeps-if (idle_over c now s') (leave c) (consume c turns) leave-Keeps
              (consume-Keeps turns) s' b'))
        s b
  consume-Keeps (consumer_event ∷ turns) s b =
      Keeps-if (full c s) (leave c) (consume c turns) leave-Keeps (consume-Keeps turns) s b
  consume-Keeps (received now m ∷ turns) s b =
      Keeps-if (full c s) (leave c) (on_message c now m >> consume c turns) leave-Keeps
        (Keeps-bind (on_message c now m) (λ _. consume c turns) (on_message-Keeps now m)
          (λ _. consume-Keeps turns))
        s b

Safe-sound : {A : Type 0} (r : Result A) (s : Loop) → Safe r s → CommitsSound s.log
Safe-sound (ok a) s b = b.sound
Safe-sound (err e) s b = b

pub begin-Kept : (now : ℕ) → Kept (begin now)
unfolding find uncommitted
begin-Kept now = record { tracks = λ p. refl; named = tt; distinct = tt; sound = tt }

-- With manual commits, whatever the polls give and whichever callback raises: each commit is of the
-- newest message of its partition that the handler returned from, and a successful `pre_commit`
-- stands between that message's handling and the commit, with nothing but commits after it.
pub consume-CommitsSound :
    (c : Config) (now : ℕ) (turns : List Turn)
    → c.auto_commit ≡ false
    → CommitsSound (consume c turns (begin now)).1.log
consume-CommitsSound c now turns manual =
    Safe-sound _ (consume c turns (begin now)).1
      (consume-Keeps c manual turns (begin now) (begin-Kept now))
