-- ===== src/Pipeline/Replay.antt =====
-- freshet/pipeline/replay_deadletter.py: what becomes of a dead letter. The parser of JSON is outside.
pub mod Kept
use freshet.Prelude.{String, Bool, List, [], ◌∷◌, str_eq, if◌then◌else◌, none}
use freshet.Prelude.Exec.{Result, ok, err, other, Exec, pure, ◌>>◌}
use freshet.Common.Producer.{Message, World, Producer, produce, flush_checked}

-- What `get` gives of a field: nothing or `None`, a text, or another value, which may be false.
pub data Field : Type 0 where
  missing : Field
  str : String → Field
  value : (truth : Bool) → Field

-- What `json.loads` makes of a record: it is no JSON, JSON but no object, or an object with its
-- `source_topic` and `payload`.
pub data Envelope : Type 0 where
  no_json no_object : Envelope
  object : (source_topic payload : Field) → Envelope

-- UNUSABLE_TOPIC
abbrev pub unusable_topic : String
unusable_topic = "deadletter.unusable"

abbrev pub quarantined : String → Message
quarantined raw = record { topic = unusable_topic; value = raw; key = none }

-- The call of `produce` raises for a topic or a payload that is no text.
abbrev pub to_topic : String → String → Field → Result Message
to_topic raw topic missing = ok (quarantined raw)
to_topic raw topic (str payload) = ok (
    if str_eq topic ""
    then quarantined raw
    else record { topic = topic; value = payload; key = none })
to_topic raw topic (value truth) = if str_eq topic "" then ok (quarantined raw) else err other

abbrev pub to_value : String → Bool → Field → Result Message
to_value raw truth missing = ok (quarantined raw)
to_value raw truth (str payload) = if truth then err other else ok (quarantined raw)
to_value raw truth (value b) = if truth then err other else ok (quarantined raw)

abbrev pub routed : String → Field → Field → Result Message
routed raw missing payload = ok (quarantined raw)
routed raw (str topic) payload = to_topic raw topic payload
routed raw (value truth) payload = to_value raw truth payload

-- The message that is produced for a record; `record.get` of what is no object raises.
unfoldable pub route : String → Envelope → Result Message
route raw no_json = ok (quarantined raw)
route raw no_object = err other
route raw (object source_topic payload) = routed raw source_topic payload

abbrev pub send : World → Result Message → Exec Producer Unit
send w (ok m) p = (ok tt, produce w m p)
send w (err e) p = (err e, p)

-- `replay_record`
unfoldable pub replay_record : World → (String → Envelope) → String → Exec Producer Unit
replay_record w loads raw p = send w (route raw (loads raw)) p

-- The handler of `main` over a batch of records, and the `pre_commit` behind it.
unfoldable pub replay_all : World → (String → Envelope) → List String → Exec Producer Unit
replay_all w loads [] = pure tt
replay_all w loads (raw ∷ raws) = replay_record w loads raw >> replay_all w loads raws

unfoldable pub replay : World → (String → Envelope) → List String → Exec Producer Unit
replay w loads raws = replay_all w loads raws >> flush_checked w
