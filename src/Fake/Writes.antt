-- ===== src/Fake/Writes.antt =====
-- etcd_fsm/_fake_backend.py: `_put_unlocked` and `_delete_unlocked`, which append versions to the
-- history.
pub mod Deleted
use etcd_fsm.Common.{ℕ, ◌+◌, Option, none, some, List, [], ◌∷◌, ◌++◌, length}
use etcd_fsm.Bytes.{Bytes}
use etcd_fsm.Backend.{
  KeyValue, Put, DeleteRange, WatchEvent, WatchEventKind, Result, ok, err, assertion_error,
}
use etcd_fsm.Fake.{
  FakeEtcdBackend, Version, as_key_value, key_value_at, keys_in_range, append_version,
}

-- The version that a put stores on top of the current value of its key.
unfoldable pub stored_version : Put → ℕ → Option KeyValue → Version
stored_version operation revision none = record {
  revision = revision;
  value = some operation.value;
  create_revision = revision;
  version = 1;
  lease_id = operation.lease_id;
}
stored_version operation revision (some current) = record {
  revision = revision;
  value = some operation.value;
  create_revision = current.create_revision;
  version = current.version + 1;
  lease_id = operation.lease_id;
}

-- `_put_unlocked`: the key's new value, and the state
unfoldable pub put_unlocked : Put → ℕ → FakeEtcdBackend → KeyValue × FakeEtcdBackend
unfolding stored_version as_key_value
put_unlocked operation revision s =
    let current = key_value_at s.history operation.key s.revision in
    let stored = stored_version operation revision current in
    (
      as_key_value operation.key stored operation.value,
      record s { history = append_version operation.key stored s.history },
    )

-- The tombstone of a deleted value.
unfoldable pub tombstone : KeyValue → ℕ → Version
tombstone current revision = record {
  revision = revision;
  value = none;
  create_revision = current.create_revision;
  version = current.version + 1;
  lease_id = none;
}

unfoldable pub delete_event : Bytes → KeyValue → ℕ → WatchEvent
delete_event key current revision = record {
  kind = WatchEventKind.delete;
  key_value = record {
    key = key;
    value = [];
    create_revision = current.create_revision;
    mod_revision = revision;
    version = current.version;
    lease_id = none;
  };
}

-- The loop of `_delete_unlocked`, with the events so far.
unfoldable pub delete_keys :
    List Bytes → ℕ → List WatchEvent → FakeEtcdBackend → Result (List WatchEvent) × FakeEtcdBackend
unfolding tombstone delete_event
delete_keys [] revision events s = (ok events, s)
delete_keys (key ∷ rest) revision events s = elim (key_value_at s.history key s.revision) [
  | none ↦ (err assertion_error, s)
  | some current ↦
      delete_keys rest revision (events ++ delete_event key current revision ∷ [])
        (record s { history = append_version key (tombstone current revision) s.history })
]

abbrev pub with_count :
    ℕ → Result (List WatchEvent) × FakeEtcdBackend → Result (ℕ × List WatchEvent) × FakeEtcdBackend
with_count n (ok events, s) = (ok (n, events), s)
with_count n (err e, s) = (err e, s)

-- `_delete_unlocked`: how many keys it deletes, their events, and the state
unfoldable pub delete_unlocked :
    DeleteRange → ℕ → FakeEtcdBackend → Result (ℕ × List WatchEvent) × FakeEtcdBackend
unfolding delete_keys
delete_unlocked operation revision s =
    let found = keys_in_range s.history s.revision operation.start operation.end in
    with_count (length found) (delete_keys found revision [] s)
