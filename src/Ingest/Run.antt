-- ===== src/Ingest/Run.antt =====
-- freshet/ingest/poller.py: the file of `ConditionalCache`, `to_message` and the loop of `run`. Its
-- pauses and its counters for the metrics are left out; `max_sweeps` is a number here.
pub mod Saved
use freshet.Prelude.{
  ℕ, zero, suc, ◌+◌, String, Bool, Option, none, some, List, [], map, str_eq, length, if◌then◌else◌,
}
use Prim.Native.String.{◌++◌ as ◌+str+◌}
use freshet.Prelude.Table.{Table}
use freshet.Prelude.Exec.{ok, Exec, ◌>>◌, ◌>>=◌, Result}
use freshet.Common.Producer
use freshet.Common.Producer.{Message, Producer, new_producer, flush_checked}
use freshet.Common.Producer.Delivery.{produce_all}
use freshet.Ingest.Backoff.{Snapshot, snapshot, restore, empty}
use freshet.Ingest.Sweep
use freshet.Ingest.Sweep.{IncidentUpdate, Page, Poller, poll_once}

-- A field of the file: missing or empty, a dictionary, or something that `dict` raises on.
pub data Field : Type 0 where
  missing broken : Field
  dict : Table String → Field

-- The file as `json.load` gives it. A backoff that is there has the entries that `save` writes.
pub record CacheFile : Type 0 where
  pub etag : Field
  pub modified : Field
  pub backoff : Option Snapshot

-- What is at the path: nothing, a file that is not read, or one that is.
pub data Disk : Type 0 where
  nothing unreadable : Disk
  stored : CacheFile → Disk

-- What `ConditionalCache` holds beside its path.
pub record ConditionalCache : Type 0 where
  pub etag : Table String
  pub modified : Table String
  pub backoff : Snapshot

abbrev pub no_backoff : Snapshot
no_backoff = record { failures = []; deadlines = [] }

abbrev pub cold : ConditionalCache
cold = record { etag = []; modified = []; backoff = no_backoff }

-- The three assignments of `_load`; those before one that raises stay.
abbrev pub load_backoff : Option Snapshot → ConditionalCache → ConditionalCache
load_backoff none c = c
load_backoff (some b) c = record c { backoff = b }

abbrev pub load_modified : Field → Option Snapshot → ConditionalCache → ConditionalCache
load_modified broken b c = c
load_modified missing b c = load_backoff b c
load_modified (dict t) b c = load_backoff b (record c { modified = t })

abbrev pub load_etag : CacheFile → Field → ConditionalCache → ConditionalCache
load_etag f broken c = c
load_etag f missing c = load_modified f.modified f.backoff c
load_etag f (dict t) c = load_modified f.modified f.backoff (record c { etag = t })

abbrev pub read_file : Disk → ConditionalCache
read_file nothing = cold
read_file unreadable = cold
read_file (stored f) = load_etag f f.etag cold

-- `_load`
unfoldable pub load : String → Disk → ConditionalCache
load path disk = if str_eq path "" then cold else read_file disk

-- The dictionary of `to_message`, whose version is always WIRE_VERSION.
pub record WireMessage : Type 0 where
  pub v : ℕ
  pub provider : String
  pub incident_id : String
  pub update_id : String
  pub body_digest : String
  pub created_at : String
  pub status : String
  pub text : String
  pub incident_name : String

-- The pages of the registry, the network with the monotonic clock, the broker, `time.time`, the path
-- of the cache, whether a write of the file succeeds, `isoformat` with its suffix and `json.dumps`.
pub record Config : Type 0 where
  pub pages : List Page
  pub web : Sweep.World
  pub broker : Producer.World
  pub wall : (call : ℕ) → ℕ
  pub path : String
  pub writes : (call : ℕ) → Bool
  pub iso : ℕ → String
  pub dumps : WireMessage → String

unfoldable pub to_message : (ℕ → String) → IncidentUpdate → WireMessage
to_message iso u = record {
  v = 1;
  provider = u.provider;
  incident_id = u.incident_id;
  update_id = u.update_id;
  body_digest = u.body_digest;
  created_at = iso u.created_at;
  status = u.status;
  text = u.text;
  incident_name = u.incident_name;
}

-- `IncidentUpdate.partition_key`
unfoldable pub partition_key : IncidentUpdate → String
partition_key u = u.provider +str+ (":" +str+ u.incident_id)

-- What the loop produces for an update, on RAW_TOPIC.
unfoldable pub message : Config → IncidentUpdate → Message
message c u = record {
  topic = "raw.incidents";
  value = c.dumps (to_message c.iso u);
  key = some (partition_key u);
}

-- The cache in memory with the backoff, what `self._backoff` has of it, the producer, the file, the
-- number of writes, and `produced`.
pub record Run : Type 0 where
  pub poller : Poller
  pub saved_backoff : Snapshot
  pub producer : Producer
  pub disk : Disk
  pub saves : ℕ
  pub produced : ℕ

abbrev pub file_of : Poller → Snapshot → CacheFile
file_of p b = record { etag = dict p.etag; modified = dict p.modified; backoff = some b }

abbrev pub write : Config → Run → Run
write c t =
    if c.writes t.saves
    then record t { disk = stored (file_of t.poller t.saved_backoff); saves = suc t.saves }
    else record t { saves = suc t.saves }

-- `save`, with the backoff that `run` passes
unfoldable pub save : Config → Run → Run
save c t =
    if str_eq c.path ""
    then t
    else write c (record t {
      saved_backoff = snapshot (c.web.now t.poller.calls) (c.wall t.poller.calls) t.poller.backoff;
    })

-- `produce` for each update of a sweep
unfoldable pub produce_updates : Config → List IncidentUpdate × Poller → Run → Run
produce_updates c (updates, poller) t = record t {
  poller = poller;
  producer = produce_all c.broker (map (message c) updates) t.producer;
  produced = t.produced + length updates;
}

-- `producer.flush_checked()`
unfoldable pub flush_run : Config → Exec Run Unit
flush_run c t = let (r, p) = flush_checked c.broker t.producer in (r, record t { producer = p })

-- A round of the loop.
unfoldable pub round : Config → Exec Run Unit
round c t =
    (flush_run c >> λ t. (ok tt, save c t)) (produce_updates c (poll_once c.web c.pages t.poller) t)

-- The loop, `max_sweeps` times.
unfoldable pub rounds : Config → ℕ → Exec Run Unit
rounds c zero t = (ok tt, t)
rounds c (suc n) t = (round c >> rounds c n) t

-- What stands before the loop.
unfoldable pub start : Config → Disk → Run
start c disk =
    let cache = load c.path disk in
    record {
      poller = record {
        etag = cache.etag;
        modified = cache.modified;
        backoff = restore (c.web.now 0) (c.wall 0) cache.backoff empty;
        calls = 0;
      };
      saved_backoff = cache.backoff;
      producer = new_producer;
      disk = disk;
      saves = 0;
      produced = 0;
    }

-- `run`, over what is at the path of the cache
unfoldable pub run : Config → ℕ → Disk → Result ℕ × Run
run c max_sweeps disk = (rounds c max_sweeps >>= λ _ t. (ok t.produced, t)) (start c disk)
