-- ===== src/Common/Producer.antt =====
-- freshet/common/kafka_io.py: `BufferedProducer` and `produce_sync`. The client's queue is part of
-- the state; what the broker reports of a message depends on the number of the report.
pub mod Delivery
pub mod Grows
use freshet.Prelude.{ℕ, zero, suc, String, Option, none, some, List, [], ◌∷◌, ◌++◌, length}
use freshet.Prelude.Exec.{ok, err, Exec, other}

pub record Message : Type 0 where
  pub topic : String
  pub value : String
  pub key : Option String

-- The delivery report of a message, an error's number where there is one, and how many reports a
-- `poll(0)` serves.
pub record World : Type 0 where
  pub report : (call : ℕ) → Option ℕ
  pub served : (call : ℕ) → ℕ

-- The client's queue, what the broker has, `_errors`, and the number of reports.
pub record Producer : Type 0 where
  pub queued : List Message
  pub delivered : List Message
  pub errors : List ℕ
  pub calls : ℕ

abbrev pub new_producer : Producer
new_producer = record { queued = []; delivered = []; errors = []; calls = 0 }

-- `_cb`, called with the report of a message
abbrev pub note_report : Option ℕ → Message → Producer → Producer
note_report none m p = record p { delivered = p.delivered ++ m ∷ [] }
note_report (some e) m p = record p { errors = p.errors ++ e ∷ [] }

-- The client serves the reports of the first `n` messages of a queue.
unfoldable pub serve : World → ℕ → List Message → Producer → Producer
serve w zero queue p = record p { queued = queue }
serve w (suc n) [] p = record p { queued = [] }
serve w (suc n) (m ∷ queue) p =
    serve w n queue (note_report (w.report p.calls) m (record p { calls = suc p.calls }))

-- `BufferedProducer.produce`
unfoldable pub produce : World → Message → Producer → Producer
produce w m p = serve w (w.served p.calls) (p.queued ++ m ∷ []) p

-- `BufferedProducer.flush`
unfoldable pub flush : World → Producer → Producer
flush w p = serve w (length p.queued) p.queued p

abbrev pub raise_first : List ℕ → Exec Producer Unit
raise_first [] p = (ok tt, p)
raise_first (e ∷ es) p = (err other, record p { errors = [] })

-- `BufferedProducer.flush_checked`
unfoldable pub flush_checked : World → Exec Producer Unit
flush_checked w p = raise_first (flush w p).errors (flush w p)

-- The end of `produce_sync`: the report of its own message.
abbrev pub settle : Option ℕ → Message → Exec Producer Unit
settle none m p = (ok tt, record p { delivered = p.delivered ++ m ∷ [] })
settle (some e) m p = (err other, p)

-- `produce_sync`: the reports of what is queued go to the callbacks of those messages.
unfoldable pub produce_sync : World → Message → Exec Producer Unit
produce_sync w m p =
    let q = flush w p in settle (w.report q.calls) m (record q { calls = suc q.calls })
