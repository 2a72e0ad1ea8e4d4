-- ===== src/Pipeline/Replay/Kept.antt =====
-- What the broker has after the first batch of a replay.
use freshet.Prelude.{
  ◌≡◌, refl, String, List, [], ◌∷◌, false, ◌⊎◌, inl, Bool, none, true, ◌≢◌, inr, Bool-cases, eq_iff,
  arith,
}
use freshet.Prelude.Exec.{Result, ok, err, Exec, ◌>>◌}
use freshet.Common.Producer.{Message, World, Producer, new_producer, produce, flush_checked}
use freshet.Common.Producer.Delivery.{IsFlushed, produce_all, flush_checked-IsFlushed}
use freshet.Pipeline.Replay.{
  Envelope, route, send, replay_record, replay_all, replay, Field, missing, str, value, no_json,
  no_object, object, Bool, none, other, str_eq,
}

abbrev pub added : Result Message → Result (List Message) → Result (List Message)
added (err e) rest = err e
added (ok m) (err e) = err e
added (ok m) (ok ms) = ok (m ∷ ms)

-- Where the records go: each to its topic with its payload, or as it is to the topic of unusable
-- ones; or that one of them cannot be handled.
unfoldable pub routes : (String → Envelope) → List String → Result (List Message)
routes loads [] = ok []
routes loads (raw ∷ raws) = added (route raw (loads raw)) (routes loads raws)

-- The records were produced, or the first one that cannot be handled was met.
abbrev RunsAs : World → Producer → Result (List Message) → Result (Unit {0}) × Producer → Type 0
RunsAs w p (ok ms) o = o ≡ (ok tt, produce_all w ms p)
RunsAs w p (err e) o = o.0 ≡ err e

module _ (w : World) (rest : Exec Producer Unit) (ms : Result (List Message)) where
  send-RunsAs :
      (r : Result Message) (p : Producer)
      → ((q : Producer) → RunsAs w q ms (rest q))
      → RunsAs w p (added r ms) ((send w r >> rest) p)
  unfolding produce_all
  send-RunsAs (err e) p h = refl
  send-RunsAs (ok m) p h =
      elim ms
          as (λ ms'.
            RunsAs w (produce w m p) ms' (rest (produce w m p))
            → RunsAs w p (added (ok m) ms') ((send w (ok m) >> rest) p)) [
              | ok l ↦ λ e. e
              | err x ↦ λ e. e
            ]
        (h (produce w m p))

replay_all-RunsAs :
    (w : World) (loads : String → Envelope) (raws : List String) (p : Producer)
    → RunsAs w p (routes loads raws) (replay_all w loads raws p)
unfolding replay_all replay_record routes produce_all
replay_all-RunsAs w loads [] p = refl
replay_all-RunsAs w loads (raw ∷ raws) p =
    send-RunsAs w (replay_all w loads raws) (routes loads raws) (route raw (loads raw)) p
      (replay_all-RunsAs w loads raws)

-- A field that is not there, or is false.
abbrev pub IsFalse : Field → Type 0
IsFalse missing = Unit
IsFalse (str t) = t ≡ ""
IsFalse (value truth) = truth ≡ false

abbrev pub IsUnusable : Envelope → Type 0
IsUnusable no_json = Unit
IsUnusable no_object = ⊥
IsUnusable (object topic payload) = IsFalse topic ⊎ (payload ≡ missing)

-- JSON that is no object, or a topic and a payload of which one is no text.
abbrev pub IsBad : Envelope → Type 0
IsBad no_json = ⊥
IsBad no_object = Unit
IsBad (object topic payload) =
    ((b : Bool) × (payload ≡ value b) × ¬ (IsFalse topic))
    ⊎ ((topic ≡ value true) × (payload ≢ missing))

abbrev pub IsSent : String → Envelope → Message → Type 0
IsSent raw e m =
    (IsUnusable e × (m ≡ record { topic = "deadletter.unusable"; value = raw; key = none }))
    ⊎ ((topic : String) × (payload : String) × (e ≡ object (str topic) (str payload))
        × (topic ≢ "")
        × (m ≡ record { topic = topic; value = payload; key = none }))

abbrev Routed : String → Envelope → Result Message → Type 0
Routed raw e (ok m) = IsSent raw e m
Routed raw e (err x) = IsBad e × (x ≡ other)

route-Routed : (raw : String) (e : Envelope) → Routed raw e (route raw e)
unfolding route
route-Routed raw no_json = inl (tt, refl)
route-Routed raw no_object = (tt, refl)
route-Routed raw (object missing payload) = inl (inl tt, refl)
route-Routed raw (object (str topic) missing) = inl (inr refl, refl)
route-Routed raw (object (str topic) (str payload)) = elim (Bool-cases (str_eq topic "")) [
  | inl empty ↦ rw empty (inl (inl ((eq_iff topic "").0 empty), refl))
  | inr full ↦
      rw full (inr (topic, payload, refl, (λ e. ground (arith, full, (eq_iff topic "").1 e)), refl))
]
route-Routed raw (object (str topic) (value b)) = elim (Bool-cases (str_eq topic "")) [
  | inl empty ↦ rw empty (inl (inl ((eq_iff topic "").0 empty), refl))
  | inr full ↦ rw full (inl (b, refl, (λ e. ground (arith, full, (eq_iff topic "").1 e))), refl)
]
route-Routed raw (object (value truth) missing) = inl (inr refl, refl)
route-Routed raw (object (value true) (str payload)) = (inr (refl, λ e. cc), refl)
route-Routed raw (object (value false) (str payload)) = inl (inl refl, refl)
route-Routed raw (object (value true) (value b)) = (inr (refl, λ e. cc), refl)
route-Routed raw (object (value false) (value b)) = inl (inl refl, refl)

-- One message for each record, in order; or a record that cannot be handled.
abbrev pub AreSent : (String → Envelope) → List String → List Message → Type 0
AreSent loads [] [] = Unit
AreSent loads [] (m ∷ ms) = ⊥
AreSent loads (raw ∷ raws) [] = ⊥
AreSent loads (raw ∷ raws) (m ∷ ms) = IsSent raw (loads raw) m × AreSent loads raws ms

abbrev pub SomeBad : (String → Envelope) → List String → Type 0
SomeBad loads [] = ⊥
SomeBad loads (raw ∷ raws) = IsBad (loads raw) ⊎ SomeBad loads raws

abbrev AreRouted : (String → Envelope) → List String → Result (List Message) → Type 0
AreRouted loads raws (ok ms) = AreSent loads raws ms
AreRouted loads raws (err x) = SomeBad loads raws × (x ≡ other)

added-AreRouted :
    (loads : String → Envelope) (raw : String) (raws : List String) (r : Result Message)
    (rest : Result (List Message))
    → Routed raw (loads raw) r
    → AreRouted loads raws rest
    → AreRouted loads (raw ∷ raws) (added r rest)
added-AreRouted loads raw raws (err x) rest h t = (inl h.0, h.1)
added-AreRouted loads raw raws (ok m) (err x) h t = (inr t.0, t.1)
added-AreRouted loads raw raws (ok m) (ok ms) h t = (h, t)

routes-AreRouted :
    (loads : String → Envelope) (raws : List String) → AreRouted loads raws (routes loads raws)
unfolding routes
routes-AreRouted loads [] = tt
routes-AreRouted loads (raw ∷ raws) =
    added-AreRouted loads raw raws (route raw (loads raw)) (routes loads raws)
      (route-Routed raw (loads raw)) (routes-AreRouted loads raws)

-- What a replay comes to.
abbrev pub IsReplayed : (String → Envelope) → List String → Result (Unit {0}) → Producer → Type 0
IsReplayed loads raws r p =
    ((ms : List Message) × AreSent loads raws ms × IsFlushed ms r p)
    ⊎ (SomeBad loads raws × (r ≡ err other))

ran-IsReplayed :
    (w : World) (loads : String → Envelope) (raws : List String) (ms : Result (List Message))
    (m : Exec Producer Unit)
    → AreRouted loads raws ms
    → RunsAs w new_producer ms (m new_producer)
    → IsReplayed loads raws
        ((m >> flush_checked w) new_producer).0
        ((m >> flush_checked w) new_producer).1
ran-IsReplayed w loads raws (ok ms) m h e = inl (ms, h, rw e (flush_checked-IsFlushed w ms))
ran-IsReplayed w loads raws (err x) m h e = inr (h.0, rw e (rw h.1 refl))

-- For the first batch of a replay: where one of its records can not be handled, since it is JSON but
-- no object or has a topic or a payload that is no text, the replay raises. Else, when the flush
-- before its commit returns, the broker has exactly one message for each dead letter, in order: its
-- payload on its topic, or the record itself on the topic of the unusable ones; and when the flush
-- raises, one at least was not delivered.
pub replay-IsReplayed :
    (w : World) (loads : String → Envelope) (raws : List String)
    → IsReplayed loads raws
        (replay w loads raws new_producer).0
        (replay w loads raws new_producer).1
unfolding replay
replay-IsReplayed w loads raws =
    ran-IsReplayed w loads raws (routes loads raws) (replay_all w loads raws)
      (routes-AreRouted loads raws) (replay_all-RunsAs w loads raws new_producer)
