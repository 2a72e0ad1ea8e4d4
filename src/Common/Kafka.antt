-- ===== src/Common/Kafka.antt =====
-- freshet/common/kafka_io.py: `consume_loop`. The client library is the list of what its polls give.
-- A (topic, partition) pair is named by one text.
pub mod Commits
pub mod Returns
use freshet.Prelude.{
  ℕ, suc, ◌-◌, max, String, Bool, false, Option, none, some, List, [], ◌∷◌, leb, if◌then◌else◌,
}
use freshet.Prelude.Table.{Table, put}
use freshet.Prelude.Exec.{Result, ok, Exec, pure, ◌>>=◌, ◌>>◌}

pub record Message : Type 0 where
  pub partition : String
  pub offset : ℕ
  pub value : String

-- One round of the loop: what `stop` and `poll` say, and the clock then.
pub data Turn : Type 0 where
  stopping : Turn
  nothing : (now : ℕ) → Turn
  consumer_event : Turn
  received : (now : ℕ) → Message → Turn

-- What the loop did, newest first.
pub data Event : Type 0 where
  handled : Message → Event
  -- what a call of `pre_commit` came to
  flushed : Result (Unit {0}) → Event
  committed : Message → Event

-- The arguments. A hook that is not given is one that returns. A callback's answer may depend on
-- how many calls were made before.
pub record Config : Type 0 where
  pub handler : (call : ℕ) → String → Result (Unit {0})
  pub after_handler : (call : ℕ) → Result (Unit {0})
  pub idle_hook : (call : ℕ) → Result (Unit {0})
  pub pre_commit : (call : ℕ) → Result (Unit {0})
  pub max_messages : Option ℕ
  pub auto_commit : Bool
  pub idle_timeout : Option ℕ
  pub commit_every : ℕ

pub record Loop : Type 0 where
  pub n : ℕ
  pub pending : Table Message
  pub since_commit : ℕ
  pub last_msg : ℕ
  pub calls : ℕ
  pub log : List Event

abbrev pub begin : ℕ → Loop
begin now = record { n = 0; pending = []; since_commit = 0; last_msg = now; calls = 0; log = [] }

abbrev pub Action : Type 0 → Type 0
Action A = Exec Loop A

abbrev pub hook : (ℕ → Result (Unit {0})) → Action Unit
hook f s = (f s.calls, record s { calls = suc s.calls })

-- `for m in pending.values(): c.commit(message=m, asynchronous=False)`
unfoldable pub commit_all : Table Message → List Event → List Event
commit_all [] log = log
commit_all ((p, m) ∷ rest) log = commit_all rest (committed m ∷ log)

-- `pre_commit()`
abbrev pub flush : Config → Action Unit
flush c s = (
  c.pre_commit s.calls,
  record s { calls = suc s.calls; log = flushed (c.pre_commit s.calls) ∷ s.log },
)

abbrev pub write_commits : Action Unit
write_commits s =
    (ok tt, record s { pending = []; since_commit = 0; log = commit_all s.pending s.log })

abbrev pub commit_some : Config → Table Message → Action Unit
commit_some c [] = pure tt
commit_some c (_ ∷ _) = flush c >> write_commits

-- `_commit_pending`
unfoldable pub commit_pending : Config → Action Unit
commit_pending c s = commit_some c s.pending s

-- `if not auto_commit: _commit_pending()`
abbrev pub commit_unless_auto : Config → Action Unit
commit_unless_auto c = if c.auto_commit then pure tt else commit_pending c

abbrev pub note_handled : Message → Action Unit
note_handled m s = (ok tt, record s { log = handled m ∷ s.log })

abbrev pub note_pending : Message → Action Unit
note_pending m s =
    (ok tt, record s { pending = put m.partition m s.pending; since_commit = suc s.since_commit })

-- What follows the handler when offsets are committed by hand.
abbrev pub batch : Config → Message → Action Unit
batch c m =
    if c.auto_commit
    then pure tt
    else (note_pending m >> λ s.
        (if leb (max 1 c.commit_every) s.since_commit then commit_pending c else pure tt) s)

abbrev pub count_message : Action Unit
count_message s = (ok tt, record s { n = suc s.n })

-- A record that `poll` gave.
unfoldable pub on_message : Config → ℕ → Message → Action Unit
on_message c now m = do
  λ s. (ok tt, record s { last_msg = now })
  hook (λ call. c.handler call m.value)
  note_handled m
  hook c.after_handler
  batch c m
  count_message

-- A poll that gave nothing.
unfoldable pub on_idle : Config → Action Unit
on_idle c = commit_unless_auto c >> hook c.idle_hook

abbrev pub idle_over : Config → ℕ → Loop → Bool
idle_over c now s = elim c.idle_timeout [ none ↦ false | some t ↦ leb t (now - s.last_msg) ]

abbrev pub full : Config → Loop → Bool
full c s = elim c.max_messages [ none ↦ false | some k ↦ leb k s.n ]

-- The loop is left: commit the tail of the batch and return the count.
unfoldable pub leave : Config → Action (Option ℕ)
leave c = commit_unless_auto c >> λ s. (ok (some s.n), s)

-- `some n`: the loop returned n. `none`: it waits for the next poll.
unfoldable pub consume : Config → List Turn → Action (Option ℕ)
consume c [] s = (if full c s then leave c else pure none) s
consume c (stopping ∷ turns) s = leave c s
consume c (nothing now ∷ turns) s =
    let rest = consume c turns in
    let over : Action (Option ℕ) = λ s'. (if idle_over c now s' then leave c else rest) s' in
    (if full c s then leave c else on_idle c >> over) s
consume c (consumer_event ∷ turns) s =
    let rest = consume c turns in (if full c s then leave c else rest) s
consume c (received now m ∷ turns) s =
    let rest = consume c turns in (if full c s then leave c else on_message c now m >> rest) s
