-- ===== src/Common/Producer/Grows.antt =====
-- The messages of the broker before and after the operations of a producer.
use mathlib.Core.List.{append_assoc, append-nil}
use freshet.Prelude.{
  ℕ, zero, suc, ◌≡◌, refl, sym, ap, ◌∙◌, Option, none, some, List, [], ◌∷◌, ◌++◌, length,
}
use freshet.Common.Producer.{
  Message, World, Producer, note_report, serve, produce, flush, raise_first, flush_checked, length,
}
use freshet.Common.Producer.Delivery.{produce_all}

-- The first list is what the second begins with.
abbrev pub Begins : List Message → List Message → Type 0
Begins xs ys = (rest : List Message) × (xs ++ rest ≡ ys)

pub Begins-refl : (xs : List Message) → Begins xs xs
Begins-refl xs = ([], append-nil xs)

pub Begins-trans : (xs ys zs : List Message) → Begins xs ys → Begins ys zs → Begins xs zs
Begins-trans xs ys zs (r, e) (q, f) = (r ++ q, sym (append_assoc xs r q) ∙ ap (λ l. l ++ q) e ∙ f)

note-Begins :
    (r : Option ℕ) (m : Message) (p : Producer) → Begins p.delivered (note_report r m p).delivered
note-Begins none m p = (m ∷ [], refl)
note-Begins (some e) m p = Begins-refl p.delivered

serve-Begins :
    (w : World) (n : ℕ) (queue : List Message) (p : Producer)
    → Begins p.delivered (serve w n queue p).delivered
unfolding serve
serve-Begins w zero queue p = Begins-refl p.delivered
serve-Begins w (suc n) [] p = Begins-refl p.delivered
serve-Begins w (suc n) (m ∷ queue) p =
    let q = note_report (w.report p.calls) m (record p { calls = suc p.calls }) in
    Begins-trans p.delivered q.delivered (serve w n queue q).delivered
      (note-Begins (w.report p.calls) m (record p { calls = suc p.calls }))
      (serve-Begins w n queue q)

pub produce_all-Begins :
    (w : World) (ms : List Message) (p : Producer)
    → Begins p.delivered (produce_all w ms p).delivered
unfolding produce_all produce
produce_all-Begins w [] p = Begins-refl p.delivered
produce_all-Begins w (m ∷ ms) p =
    Begins-trans p.delivered (produce w m p).delivered (produce_all w ms (produce w m p)).delivered
      (serve-Begins w (w.served p.calls) (p.queued ++ m ∷ []) p)
      (produce_all-Begins w ms (produce w m p))

raise_first_delivered :
    (errors : List ℕ) (p : Producer) → (raise_first errors p).1.delivered ≡ p.delivered
raise_first_delivered [] p = refl
raise_first_delivered (e ∷ es) p = refl

pub flush_checked-Begins :
    (w : World) (p : Producer) → Begins p.delivered (flush_checked w p).1.delivered
unfolding flush_checked flush
flush_checked-Begins w p =
    let (rest, e) = serve-Begins w (length p.queued) p.queued p in
    (rest, e ∙ sym (raise_first_delivered (flush w p).errors (flush w p)))
