-- ===== src/Fake/Transaction/Spec.antt =====
-- What a transaction promises: on the map from keys to values its operations take effect one after
-- the other, all at one new revision. No history, no versions.
use etcd_fsm.Common.{ℕ, ◌+◌, Option, none, some, List, [], ◌∷◌, if◌then◌else◌}
use etcd_fsm.Bytes.{Bytes, eq_bytes}
use etcd_fsm.Backend.{KeyValue, Put, TransactionOperation, put, delete_range, get_range}
use etcd_fsm.Fake.{FakeEtcdBackend, key_value_at}
use etcd_fsm.Fake.Keys.{key_in_range}

abbrev pub View : Type 0
View = Bytes → Option KeyValue

-- What a client reads now.
abbrev pub view : FakeEtcdBackend → View
view s key = key_value_at s.history key s.revision

-- The value that a put gives its key: a new key is created at the revision, with version 1.
unfoldable pub put_value : Put → ℕ → Option KeyValue → KeyValue
put_value operation revision none = record {
  key = operation.key;
  value = operation.value;
  create_revision = revision;
  mod_revision = revision;
  version = 1;
  lease_id = operation.lease_id;
}
put_value operation revision (some current) = record {
  key = operation.key;
  value = operation.value;
  create_revision = current.create_revision;
  mod_revision = revision;
  version = current.version + 1;
  lease_id = operation.lease_id;
}

unfoldable pub apply_operation : TransactionOperation → ℕ → View → View
apply_operation (put operation) revision m key =
    if eq_bytes operation.key key then some (put_value operation revision (m key)) else m key
apply_operation (delete_range operation) revision m key =
    if key_in_range key operation.start operation.end then none else m key
apply_operation (get_range request) revision m key = m key

unfoldable pub apply_operations : List TransactionOperation → ℕ → View → View
apply_operations [] revision m = m
apply_operations (operation ∷ rest) revision m =
    apply_operations rest revision (apply_operation operation revision m)
