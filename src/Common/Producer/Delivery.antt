-- ===== src/Common/Producer/Delivery.antt =====
-- What a flush that did not raise says of the messages that were produced before it.
use mathlib.Core.List.{append_assoc, append-nil}
use freshet.Prelude.{
  ℕ, zero, suc, ◌+◌, ◌<◌, ◌≡◌, refl, sym, ap, ◌∙◌, Option, none, some, List, [], ◌∷◌, ◌++◌, length,
  length-append, arith, subst,
}
use freshet.Prelude.Exec.{Result, ok, err}
use freshet.Common.Producer.{
  Message, World, Producer, new_producer, note_report, serve, produce, flush, raise_first,
  flush_checked,
}

-- Of the messages that were sent each was delivered, failed or is queued, and as long as no error
-- was reported the broker has them in order.
pub record IsAccounted (sent queue : List Message) (p : Producer) : Type 0 where
  pub total : length p.delivered + length p.errors + length queue ≡ length sent
  pub in_order : p.errors ≡ [] → p.delivered ++ queue ≡ sent

snoc-nil : {A : Type 0} (xs : List A) (x : A) → xs ++ x ∷ [] ≡ [] → ⊥
snoc-nil [] x h = cc
snoc-nil (y ∷ ys) x h = cc

note-IsAccounted :
    (sent queue : List Message) (r : Option ℕ) (m : Message) (p : Producer)
    → IsAccounted sent (m ∷ queue) p
    → IsAccounted sent queue (note_report r m p)
note-IsAccounted sent queue none m p h = record {
  total = omega (arith, h.total, length-append p.delivered (m ∷ []));
  in_order = λ e. append_assoc p.delivered (m ∷ []) queue ∙ h.in_order e;
}
note-IsAccounted sent queue (some x) m p h = record {
  total = omega (arith, h.total, length-append p.errors (x ∷ []));
  in_order = λ e. absurd (snoc-nil p.errors x e);
}

serve-IsAccounted :
    (w : World) (sent : List Message) (n : ℕ) (queue : List Message) (p : Producer)
    → IsAccounted sent queue p
    → IsAccounted sent (serve w n queue p).queued (serve w n queue p)
unfolding serve
serve-IsAccounted w sent zero queue p h = record { total = h.total; in_order = h.in_order }
serve-IsAccounted w sent (suc n) [] p h = record { total = h.total; in_order = h.in_order }
serve-IsAccounted w sent (suc n) (m ∷ queue) p h =
    serve-IsAccounted w sent n queue
      (note_report (w.report p.calls) m (record p { calls = suc p.calls }))
      (note-IsAccounted sent queue (w.report p.calls) m (record p { calls = suc p.calls })
        (record { total = h.total; in_order = h.in_order }))

serve-empty :
    (w : World) (queue : List Message) (p : Producer) → (serve w (length queue) queue p).queued ≡ []
unfolding serve
serve-empty w [] p = refl
serve-empty w (m ∷ queue) p =
    serve-empty w queue (note_report (w.report p.calls) m (record p { calls = suc p.calls }))

produce-IsAccounted :
    (w : World) (sent : List Message) (m : Message) (p : Producer)
    → IsAccounted sent p.queued p
    → IsAccounted (sent ++ m ∷ []) (produce w m p).queued (produce w m p)
unfolding produce
produce-IsAccounted w sent m p h =
    serve-IsAccounted w (sent ++ m ∷ []) (w.served p.calls) (p.queued ++ m ∷ []) p (record {
      total = omega (arith, h.total, length-append p.queued (m ∷ []), length-append sent (m ∷ []));
      in_order = λ e.
          sym (append_assoc p.delivered p.queued (m ∷ [])) ∙ ap (λ l. l ++ m ∷ []) (h.in_order e);
    })

-- What a flush comes to after some messages: all of them were delivered, in order, or it raised and
-- one at least was not.
abbrev pub IsFlushed : List Message → Result (Unit {0}) → Producer → Type 0
IsFlushed sent (ok _) p = (p.delivered ≡ sent) × (p.queued ≡ []) × (p.errors ≡ [])
IsFlushed sent (err _) p = (length p.delivered < length sent) × (p.queued ≡ []) × (p.errors ≡ [])

raised-IsFlushed :
    (sent : List Message) (p : Producer) (errors : List ℕ)
    → p.errors ≡ errors
    → p.queued ≡ []
    → IsAccounted sent p.queued p
    → IsFlushed sent (raise_first errors p).0 (raise_first errors p).1
raised-IsFlushed sent p [] e empty h =
    (sym (append-nil p.delivered) ∙ ap (λ q. p.delivered ++ q) (sym empty) ∙ h.in_order e, empty, e)
raised-IsFlushed sent p (x ∷ xs) e empty h = (omega (arith, h.total, ap length e), empty, refl)

pub flush_checked-after :
    (w : World) (sent : List Message) (p : Producer)
    → IsAccounted sent p.queued p
    → IsFlushed sent (flush_checked w p).0 (flush_checked w p).1
unfolding flush_checked flush
flush_checked-after w sent p h =
    let q = serve w (length p.queued) p.queued p in
    raised-IsFlushed sent q q.errors refl (serve-empty w p.queued p)
      (serve-IsAccounted w sent (length p.queued) p.queued p h)

-- Messages that are produced one after the other.
unfoldable pub produce_all : World → List Message → Producer → Producer
produce_all w [] p = p
produce_all w (m ∷ ms) p = produce_all w ms (produce w m p)

pub produce_all-IsAccounted :
    (w : World) (ms sent : List Message) (p : Producer)
    → IsAccounted sent p.queued p
    → IsAccounted (sent ++ ms) (produce_all w ms p).queued (produce_all w ms p)
unfolding produce_all
produce_all-IsAccounted w [] sent p h =
    subst (λ l. IsAccounted l p.queued p) (sym (append-nil sent)) h
produce_all-IsAccounted w (m ∷ ms) sent p h =
    subst
      (λ l.
        IsAccounted l (produce_all w ms (produce w m p)).queued (produce_all w ms (produce w m p)))
      (append_assoc sent (m ∷ []) ms)
      (produce_all-IsAccounted w ms (sent ++ m ∷ []) (produce w m p)
        (produce-IsAccounted w sent m p h))

-- From a new producer, whenever the reports come: when flush_checked returns, the broker has every
-- message that was produced, in order, and when it raises, one at least was not delivered.
pub flush_checked-IsFlushed :
    (w : World) (ms : List Message)
    → let p = produce_all w ms new_producer in
      IsFlushed ms (flush_checked w p).0 (flush_checked w p).1
flush_checked-IsFlushed w ms =
    flush_checked-after w ms (produce_all w ms new_producer)
      (produce_all-IsAccounted w ms [] new_producer (record { total = refl; in_order = λ e. refl }))
