-- ===== src/Tests.antt =====
-- A backend with two leases and some keys, which the instances of the theorems run on.
mod Store
mod Imports
mod Graph
mod Definitions
mod Adapter
use etcd_fsm.Common.{
  ℕ, suc, ◌+◌, ◌≤◌, ◌<◌, ◌≡◌, refl, Bool, true, false, Option, none, some, List, [], ◌∷◌, ◌++◌, pos,
  any, filter, filter_map,
}
use etcd_fsm.Bytes.{Bytes, eq_bytes, lt_bytes, le_bytes, starts_with}
use etcd_fsm.Backend.{
  KeyValue, RangeRequest, Put, DeleteRange, TransactionOperation, put, delete_range, get_range,
  Compare, version, equal, int, ok,
}
use etcd_fsm.Backend.Prefix.{prefix_range_end}
use etcd_fsm.Fake.{
  FakeEtcdBackend, init, ensure_open, versions, first_at, live_version, as_key_value, key_value_at,
  keys_in_range, append_version, put_nowait, filter_batch, notify, publish,
}
use etcd_fsm.Fake.Keys.{key_in_range, ranges_overlap, insert_key, sorted}
use etcd_fsm.Fake.History.{IsHistory}
use etcd_fsm.Fake.Reads.{
  read_revision, values_at, check_limit, page, range_unlocked, range, actual_of, compare_ints,
  compare_bytes, compare_operands, compare_unlocked, all_compares,
}
use etcd_fsm.Fake.Writes.{
  stored_version, put_unlocked, tombstone, delete_event, delete_keys, with_count, delete_unlocked,
}
use etcd_fsm.Fake.Transaction.{
  lease_of, check_lease, write_range, check_operation, validate_transaction, changes_data, pinned,
  run_operation, behind, run_operations, finish, begin, next_revision, commit, transaction,
}
use etcd_fsm.Fake.Transaction.Refines
use etcd_fsm.Fake.Leases.{
  set_lease, pop_lease, grant_lease, attached, lease_keys, expire_keys, publish_expired,
  expire_lease_keys, revoke_lease, expired_leases, expire_leases, advance_time,
}
use etcd_fsm.Fake.Compaction.{last_only, compact_versions, compact_history, compact}

-- What the runs compute with.
pub program : Unit {0}
unfolding any filter filter_map eq_bytes lt_bytes le_bytes starts_with prefix_range_end ensure_open
    versions first_at live_version as_key_value key_value_at keys_in_range append_version put_nowait
    filter_batch notify publish key_in_range ranges_overlap insert_key sorted read_revision
    values_at check_limit page range_unlocked range actual_of compare_ints compare_bytes
    compare_operands compare_unlocked all_compares stored_version put_unlocked delete_keys
    delete_unlocked lease_of check_lease write_range check_operation validate_transaction
    changes_data pinned run_operation run_operations finish begin next_revision commit transaction
    set_lease pop_lease grant_lease attached lease_keys expire_keys expire_lease_keys revoke_lease
    expired_leases expire_leases advance_time last_only compact_versions compact_history compact
program = tt

abbrev pub orders : Bytes
orders = b'/' ∷ b'o' ∷ []

abbrev pub payments : Bytes
payments = b'/' ∷ b'p' ∷ []

abbrev pub put_order : Put
put_order = record { key = orders; value = 1 ∷ []; lease_id = some 1 }

abbrev pub put_payment : Put
put_payment = record { key = payments; value = 2 ∷ []; lease_id = none }

abbrev pub put_other : Put
put_other = record { key = orders; value = 3 ∷ []; lease_id = none }

abbrev pub past_read : RangeRequest
past_read = record { start = orders; end = none; revision = some 0; limit = none }

-- A lease of five seconds, under number 1, and one of ten, under number 2.
abbrev pub granted : FakeEtcdBackend
granted = (grant_lease (pos 10) (grant_lease (pos 5) init).1).1

-- The order, on the first lease, and the payment.
abbrev pub writes : List TransactionOperation
writes = put put_order ∷ put put_payment ∷ []

abbrev pub stored : FakeEtcdBackend
stored = (transaction [] writes [] granted).1

-- The order again, if it is at version 1; the payment goes.
abbrev pub is_first : Compare
is_first = record { key = orders; target = version; operator = equal; operand = int (pos 1) }

abbrev pub rewrites : List TransactionOperation
rewrites =
    put put_other
    ∷ delete_range (record { start = payments; end = none })
    ∷ get_range
        (record { start = b'/' ∷ []; end = some (0 ∷ []); revision = none; limit = some (pos 1) })
    ∷ []

abbrev pub rewritten : FakeEtcdBackend
rewritten = (transaction (is_first ∷ []) rewrites [] stored).1

pub init-IsHistory : IsHistory init.revision init.history
unfolding versions
init-IsHistory = record { ascending = λ key. tt; up_to = λ key. tt; distinct = tt }

pub granted-IsHistory : IsHistory granted.revision granted.history
unfolding program
granted-IsHistory = init-IsHistory

pub stored-IsHistory : IsHistory stored.revision stored.history
unfolding program
stored-IsHistory = Refines.transaction-IsHistory [] writes [] granted granted-IsHistory refl

pub rewritten-IsHistory : IsHistory rewritten.revision rewritten.history
unfolding program
rewritten-IsHistory =
    Refines.transaction-IsHistory (is_first ∷ []) rewrites [] stored stored-IsHistory refl
