-- ===== src/Fake.antt =====
-- etcd_fsm/_fake_backend.py: the state of `FakeEtcdBackend`, the stored versions, and the functions
-- that only read the history. The operations are in the modules below. Each runs under the
-- backend's lock, so it is one function from a state to a result and a state. The queue that a
-- watcher refers to is an object of its own: the queues are a map from references.
pub mod Keys
pub mod History
pub mod Reads
pub mod Writes
pub mod Transaction
pub mod Leases
pub mod Compaction
pub mod Watching
use etcd_fsm.Common.{
  ℕ, suc, ◌+◌, Bool, false, ◌&&◌, Option, none, some, List, [], ◌∷◌, ◌++◌, map, reverse, leb, ◌==◌,
  if◌then◌else◌, filter, is_some, is_empty,
}
use etcd_fsm.Bytes.{Bytes, eq_bytes}
use etcd_fsm.Backend.{KeyValue, WatchEvent, WatchBatch, Result, ok, err, backend_closed}
use etcd_fsm.Fake.Keys.{key_in_range, sorted}

pub record Version : Type 0 where
  pub revision : ℕ
  pub value : Option Bytes
  pub create_revision : ℕ
  pub version : ℕ
  pub lease_id : Option ℕ

-- Times are in milliseconds, where the source has a float of seconds.
pub record LeaseState : Type 0 where
  pub ttl : ℕ
  pub deadline : ℕ

pub record Watcher : Type 0 where
  pub start : Bytes
  pub end : Option Bytes
  pub queue : ℕ

-- The keys in the order of their first write, each with its versions, oldest first.
abbrev pub History : Type 0
History = List (Bytes × List Version)

abbrev pub Queues : Type 0
Queues = ℕ → List (Option WatchBatch)

pub record FakeEtcdBackend : Type 0 where
  pub revision : ℕ
  pub compacted_revision : ℕ
  pub history : History
  pub events : List WatchBatch
  pub watchers : List Watcher
  pub queues : Queues
  pub next_queue : ℕ
  pub leases : List (ℕ × LeaseState)
  pub next_lease_id : ℕ
  pub clock : ℕ
  pub closed : Bool

abbrev pub init : FakeEtcdBackend
init = record {
  revision = 0;
  compacted_revision = 0;
  history = [];
  events = [];
  watchers = [];
  queues = λ q. [];
  next_queue = 0;
  leases = [];
  next_lease_id = 1;
  clock = 0;
  closed = false;
}

-- `_ensure_open`
unfoldable pub ensure_open : FakeEtcdBackend → Result (Unit {0})
ensure_open s = if s.closed then err backend_closed else ok tt

-- `self._history.get(key, ())`
unfoldable pub versions : History → Bytes → List Version
versions [] key = []
versions ((other, vs) ∷ h) key = if eq_bytes other key then vs else versions h key

-- `next((c for c in candidates if c.revision <= revision), None)`
unfoldable pub first_at : ℕ → List Version → Option Version
first_at revision [] = none
first_at revision (candidate ∷ rest) =
    if leb candidate.revision revision then some candidate else first_at revision rest

-- The last argument is the value, which is there where the source asserts it.
unfoldable pub as_key_value : Bytes → Version → Bytes → KeyValue
as_key_value key version value = record {
  key = key;
  value = value;
  create_revision = version.create_revision;
  mod_revision = version.revision;
  version = version.version;
  lease_id = version.lease_id;
}

-- A tombstone is a version with no value.
unfoldable pub live_version : Bytes → Option Version → Option KeyValue
live_version key none = none
live_version key (some version) = elim version.value [
  | none ↦ none
  | some value ↦ some (as_key_value key version value)
]

-- `_key_value_at_unlocked`
unfoldable pub key_value_at : History → Bytes → ℕ → Option KeyValue
unfolding live_version as_key_value
key_value_at h key revision = live_version key (first_at revision (reverse (versions h key)))

abbrev pub keys : History → List Bytes
keys = map (λ e. e.0)

-- `_keys_in_range_unlocked`, at the backend's revision
unfoldable pub keys_in_range : History → ℕ → Bytes → Option Bytes → List Bytes
keys_in_range h revision start end =
    filter (λ key. key_in_range key start end && is_some (key_value_at h key revision))
      (sorted (keys h))

-- `self._history.setdefault(key, []).append(version)`
unfoldable pub append_version : Bytes → Version → History → History
append_version key version [] = (key, version ∷ []) ∷ []
append_version key version ((other, vs) ∷ h) =
    if eq_bytes other key
    then (other, vs ++ version ∷ []) ∷ h
    else (other, vs) ∷ append_version key version h

-- `queue.put_nowait(item)`
unfoldable pub put_nowait : ℕ → Option WatchBatch → Queues → Queues
put_nowait queue item queues q = if q == queue then queues q ++ item ∷ [] else queues q

-- `_filter_batch`
unfoldable pub filter_batch : WatchBatch → Bytes → Option Bytes → Option WatchBatch
filter_batch batch start end =
    let kept = filter (λ event. key_in_range event.key_value.key start end) batch.events in
    if is_empty kept then none else some (record { events = kept; revision = batch.revision })

-- The loop of `_publish_unlocked` over the watchers.
unfoldable pub notify : WatchBatch → List Watcher → Queues → Queues
notify batch [] queues = queues
notify batch (watcher ∷ rest) queues =
    notify batch rest (elim (filter_batch batch watcher.start watcher.end) [
      | none ↦ queues
      | some filtered ↦ put_nowait watcher.queue (some filtered) queues
    ])

-- `_publish_unlocked`
unfoldable pub publish : List WatchEvent → ℕ → FakeEtcdBackend → FakeEtcdBackend
publish [] revision s = s
publish (event ∷ events) revision s =
    let batch : WatchBatch = record { events = event ∷ events; revision = revision } in
    record s { events = s.events ++ batch ∷ []; queues = notify batch s.watchers s.queues }
