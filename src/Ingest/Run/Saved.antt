-- ===== src/Ingest/Run/Saved.antt =====
-- Which validators the loop of the poller saves, and what was delivered then.
use freshet.Prelude.{
  ℕ, zero, suc, ◌+◌, ◌≤◌, ◌≡◌, refl, sym, ap, ◌∙◌, subst, List, [], ◌++◌, map, length,
  length-append, arith, ◌⊎◌, inl, inr, Bool-cases, str_eq, length-map,
}
use mathlib.Core.List.{append-nil}
use freshet.Prelude.Exec.{Result, ok, err, bind_ind, continue}
use freshet.Common.Producer.{Message, Producer, flush_checked}
use freshet.Common.Producer.Delivery.{
  IsAccounted, IsFlushed, produce_all, produce_all-IsAccounted, flush_checked-after,
}
use freshet.Common.Producer.Grows.{
  Begins, Begins-refl, Begins-trans, produce_all-Begins, flush_checked-Begins,
}
use freshet.Ingest.Backoff.{Snapshot, snapshot}
use freshet.Ingest.Sweep.{Poller, poll_once}
use freshet.Ingest.Run.{
  Config, Disk, stored, Run, file_of, save, message, produce_updates, flush_run, round, rounds,
  start, run,
}

-- The messages of the first `n` sweeps and the poller behind them.
unfoldable pub swept : Config → ℕ → Poller → List Message × Poller
swept c zero p = ([], p)
swept c (suc n) p =
    let (ms, p') = swept c n p in
    let (updates, p'') = poll_once c.web c.pages p' in (ms ++ map (message c) updates, p'')

module _ (c : Config) (p : Poller) (disk : Disk) where
  -- The file is as at the start, or has the validators from behind one of the first `n` sweeps, and
  -- the broker has the messages of the sweeps up to it.
  abbrev pub IsBacked : ℕ → Disk → List Message → Type 0
  IsBacked n d delivered =
      (d ≡ disk)
      ⊎ ((k : ℕ) × (b : Snapshot) × (k ≤ n)
          × (d ≡ stored (file_of (swept c k p).1 b))
          × Begins (swept c k p).0 delivered)

  -- Between two rounds.
  record Between (n : ℕ) (t : Run) : Type 0 where
    pub poller : t.poller ≡ (swept c n p).1
    pub delivered : t.producer.delivered ≡ (swept c n p).0
    pub queued : t.producer.queued ≡ []
    pub errors : t.producer.errors ≡ []
    pub produced : t.produced ≡ length (swept c n p).0
    pub backed : IsBacked n t.disk t.producer.delivered

  IsBacked-grows :
      (n m : ℕ) (d : Disk) (xs ys : List Message)
      → n ≤ m
      → Begins xs ys
      → IsBacked n d xs
      → IsBacked m d ys
  IsBacked-grows n m d xs ys h b (inl e) = inl e
  IsBacked-grows n m d xs ys h b (inr (k, s, l, e, f)) =
      inr (k, s, omega arith, e, Begins-trans (swept c k p).0 xs ys f b)

  save-Between : (n : ℕ) (t : Run) → Between n t → Between n (save c t)
  unfolding save
  save-Between n t h = elim (Bool-cases (str_eq c.path "")) [
    | inl off ↦ rw off h
    | inr on ↦ elim (Bool-cases (c.writes t.saves)) [
      | inl written ↦ rw on (
          rw written (record {
            poller = h.poller;
            delivered = h.delivered;
            queued = h.queued;
            errors = h.errors;
            produced = h.produced;
            backed = inr (
              n,
              snapshot (c.web.now t.poller.calls) (c.wall t.poller.calls) t.poller.backoff,
              omega arith,
              ap
                  (λ q. stored (
                    file_of q (
                      snapshot (c.web.now t.poller.calls) (c.wall t.poller.calls)
                        t.poller.backoff)))
                  h.poller,
              subst (λ l. Begins (swept c n p).0 l) (sym h.delivered) (Begins-refl (swept c n p).0),
            );
          }))
      | inr failed ↦ rw on (
          rw failed (record {
            poller = h.poller;
            delivered = h.delivered;
            queued = h.queued;
            errors = h.errors;
            produced = h.produced;
            backed = h.backed;
          }))
    ]
  ]

  Between-IsAccounted :
      (n : ℕ) (t : Run) → Between n t → IsAccounted (swept c n p).0 t.producer.queued t.producer
  Between-IsAccounted n t h = record {
    total = omega (arith, ap length h.delivered, ap length h.queued, ap length h.errors);
    in_order = λ e.
        ap (λ q. t.producer.delivered ++ q) h.queued
        ∙ append-nil t.producer.delivered
        ∙ h.delivered;
  }

  -- What a round, or a number of them, from behind sweep `n` comes to.
  abbrev IsRound : ℕ → Result (Unit {0}) → Run → Type 0
  IsRound n (ok _) t = Between n t
  IsRound n (err _) t = IsBacked n t.disk t.producer.delivered

  -- The flush and the save behind a sweep.
  flushed-IsRound :
      (n : ℕ) (t : Run) (r : Result (Unit {0})) (q : Producer)
      → t.poller ≡ (swept c n p).1
      → t.produced ≡ length (swept c n p).0
      → IsBacked n t.disk q.delivered
      → IsFlushed (swept c n p).0 r q
      → (let s = continue r (λ _ t. (ok tt, save c t)) (record t { producer = q }) in
          IsRound n s.0 s.1)
  flushed-IsRound n t (ok _) q e f backed (delivered, queued, errors) =
      save-Between n (record t { producer = q })
        (record {
          poller = e;
          delivered = delivered;
          queued = queued;
          errors = errors;
          produced = f;
          backed = backed;
        })
  flushed-IsRound n t (err x) q e f backed h = backed

  round-IsRound : (n : ℕ) (t : Run) → Between n t → IsRound (suc n) (round c t).0 (round c t).1
  unfolding round flush_run produce_updates swept
  round-IsRound n t h =
      let new = map (message c) (poll_once c.web c.pages t.poller).0 in
      let made = produce_all c.broker new t.producer in
      let same = ap (λ q. map (message c) (poll_once c.web c.pages q).0) h.poller in
      let found = (poll_once c.web c.pages t.poller).0 in
      let sent = ap (λ l. (swept c n p).0 ++ l) same in
      flushed-IsRound (suc n) (produce_updates c (poll_once c.web c.pages t.poller) t)
        (flush_checked c.broker made).0 (flush_checked c.broker made).1
        (ap (λ q. (poll_once c.web c.pages q).1) h.poller)
        (omega (
          arith,
          h.produced,
          ap length sent,
          length-append (swept c n p).0 new,
          length-map (message c) found,
        ))
        (IsBacked-grows n (suc n) t.disk t.producer.delivered
          (flush_checked c.broker made).1.delivered (omega arith)
          (Begins-trans t.producer.delivered made.delivered
            (flush_checked c.broker made).1.delivered (produce_all-Begins c.broker new t.producer)
            (flush_checked-Begins c.broker made))
          h.backed)
        (subst (λ l. IsFlushed l (flush_checked c.broker made).0 (flush_checked c.broker made).1)
          sent
          (flush_checked-after c.broker ((swept c n p).0 ++ new) made (
            produce_all-IsAccounted c.broker new (swept c n p).0 t.producer
              (Between-IsAccounted n t h))))

  rounds-IsRound :
      (m n : ℕ) (t : Run) → Between n t → IsRound (n + m) (rounds c m t).0 (rounds c m t).1
  unfolding rounds
  rounds-IsRound zero n t h = subst (λ k. Between k t) (omega arith) h
  rounds-IsRound (suc m) n t h =
      bind_ind (IsRound (suc n)) (IsRound (n + suc m)) (round c) (λ _. rounds c m) t
        (round-IsRound n t h)
        (λ _ t' h'.
          subst (λ k. IsRound k (rounds c m t').0 (rounds c m t').1) (omega arith)
            (rounds-IsRound m (suc n) t' h'))
        (λ e t' h'.
          IsBacked-grows (suc n) (n + suc m) t'.disk t'.producer.delivered t'.producer.delivered
            (omega arith) (Begins-refl t'.producer.delivered) h')

-- What a run of `n` sweeps comes to.
abbrev pub IsRun : Config → Disk → ℕ → Result ℕ → Run → Type 0
IsRun c disk n (ok produced) t =
    let p = (start c disk).poller in
    (t.producer.delivered ≡ (swept c n p).0)
    × (produced ≡ length (swept c n p).0)
    × IsBacked c p disk n t.disk t.producer.delivered
IsRun c disk n (err _) t = IsBacked c (start c disk).poller disk n t.disk t.producer.delivered

start-Between : (c : Config) (disk : Disk) → Between c (start c disk).poller disk 0 (start c disk)
unfolding start swept
start-Between c disk = record {
  poller = refl;
  delivered = refl;
  queued = refl;
  errors = refl;
  produced = refl;
  backed = inl refl;
}

-- However the pages, the broker and the file answer: when `run` returns, the broker has the messages
-- of the updates of all its sweeps, in order and no others, and their number is returned. Whether it
-- returns or raises, the cache's file is as before the run, or it has the validators from behind one
-- of the sweeps, and the broker has the messages of all sweeps up to that one.
pub run-IsRun :
    (c : Config) (n : ℕ) (disk : Disk) → IsRun c disk n (run c n disk).0 (run c n disk).1
unfolding run
run-IsRun c n disk =
    let p = (start c disk).poller in
    bind_ind (IsRound c p disk n) (IsRun c disk n) (rounds c n) (λ _ t. (ok t.produced, t))
      (start c disk)
      (subst (λ k. IsRound c p disk k (rounds c n (start c disk)).0 (rounds c n (start c disk)).1)
        (omega arith) (rounds-IsRound c p disk n 0 (start c disk) (start-Between c disk)))
      (λ _ t h. (h.delivered, h.produced, h.backed)) (λ e t h. h)
