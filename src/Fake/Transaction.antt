-- ===== src/Fake/Transaction.antt =====
-- etcd_fsm/_fake_backend.py: `transaction`. The guards up to the validation only read; the
-- operations then run one after the other on the state, and one that raises leaves what was
-- written before it.
pub mod Spec
pub mod Loop
pub mod Round
pub mod Run
pub mod Idle
pub mod Commit
pub mod Old
pub mod Refines
pub mod Atomic
pub mod Torn
pub mod Refused
use etcd_fsm.Common.{
  ℕ, ◌+◌, Bool, true, false, not, ◌||◌, Option, none, some, List, [], ◌∷◌, ◌++◌, ◌==◌,
  if◌then◌else◌, any, is_empty, is_some,
}
use etcd_fsm.Bytes.{Bytes}
use etcd_fsm.Backend.{
  RangeRequest, RangeResult, Compare, TransactionOperation, put, delete_range, get_range,
  TransactionResponse, put_result, delete_result, range_result, TransactionResult, WatchEvent,
  WatchEventKind, Result, ok, err, lease_not_found, overlapping_writes, historical_get_range, ◌>>=◌,
}
use etcd_fsm.Fake.Keys.{ranges_overlap}
use etcd_fsm.Fake.{FakeEtcdBackend, LeaseState, ensure_open, keys_in_range, publish}
use etcd_fsm.Fake.Reads.{range_unlocked, all_compares}
use etcd_fsm.Fake.Writes.{put_unlocked, delete_unlocked}

-- `self._leases.get(lease_id)`
unfoldable pub lease_of : ℕ → List (ℕ × LeaseState) → Option LeaseState
lease_of lease_id [] = none
lease_of lease_id ((other, lease) ∷ rest) =
    if other == lease_id then some lease else lease_of lease_id rest

abbrev pub WriteRange : Type 0
WriteRange = Bytes × Option Bytes

-- The lease of a put must be there.
unfoldable pub check_lease : List (ℕ × LeaseState) → Option ℕ → Result (Unit {0})
check_lease leases none = ok tt
check_lease leases (some lease_id) =
    if is_some (lease_of lease_id leases) then ok tt else err (lease_not_found lease_id)

-- The range that an operation writes.
unfoldable pub write_range : TransactionOperation → Option WriteRange
write_range (put operation) = some (operation.key, some (operation.key ++ 0 ∷ []))
write_range (delete_range operation) = some (operation.start, operation.end)
write_range (get_range request) = none

unfoldable pub check_operation : List (ℕ × LeaseState) → TransactionOperation → Result (Unit {0})
check_operation leases (put operation) = check_lease leases operation.lease_id
check_operation leases _ = ok tt

-- `_validate_transaction_unlocked`, with the ranges written so far
unfoldable pub validate_transaction :
    List (ℕ × LeaseState) → List TransactionOperation → List WriteRange → Result (Unit {0})
unfolding check_lease check_operation write_range
validate_transaction leases [] write_ranges = ok tt
validate_transaction leases (operation ∷ rest) write_ranges =
    elim (check_operation leases operation) [
      | err e ↦ err e
      | ok _ ↦ elim (write_range operation) [
        | none ↦ validate_transaction leases rest write_ranges
        | some candidate ↦ elim (any (ranges_overlap candidate) write_ranges) [
          | true ↦ err overlapping_writes
          | false ↦ validate_transaction leases rest (write_ranges ++ candidate ∷ [])
        ]
      ]
    ]

-- `_transaction_changes_data_unlocked`
unfoldable pub changes_data : FakeEtcdBackend → List TransactionOperation → Bool
changes_data s [] = false
changes_data s (put operation ∷ rest) = true
changes_data s (delete_range operation ∷ rest) =
    not (is_empty (keys_in_range s.history s.revision operation.start operation.end))
    || changes_data s rest
changes_data s (get_range request ∷ rest) = changes_data s rest

abbrev pub Outcome : Type 0
Outcome = Result (List TransactionResponse × List WatchEvent)

-- `self._revision or None`
unfoldable pub pinned : FakeEtcdBackend → RangeRequest → RangeRequest
pinned s request = record {
  start = request.start;
  end = request.end;
  revision = if s.revision == 0 then none else some s.revision;
  limit = request.limit;
}

abbrev pub deleted_outcome :
    Result (ℕ × List WatchEvent) × FakeEtcdBackend → Outcome × FakeEtcdBackend
deleted_outcome (ok (n, events), s) = (ok (delete_result n ∷ [], events), s)
deleted_outcome (err e, s) = (err e, s)

abbrev pub read_outcome : Result RangeResult → Outcome
read_outcome (ok result) = ok (range_result result ∷ [], [])
read_outcome (err e) = err e

-- One round of the loop over the operations: its response, its events, and the state.
unfoldable pub run_operation :
    TransactionOperation → ℕ → FakeEtcdBackend → Outcome × FakeEtcdBackend
unfolding pinned
run_operation (put operation) revision s =
    let (key_value, s') = put_unlocked operation revision s in
    (
      ok (
        put_result operation.key revision ∷ [],
        record { kind = WatchEventKind.put; key_value = key_value } ∷ [],
      ),
      s',
    )
run_operation (delete_range operation) revision s =
    deleted_outcome (delete_unlocked operation revision s)
run_operation (get_range request) revision s =
    if is_some request.revision
    then (err historical_get_range, s)
    else (read_outcome (range_unlocked s (pinned s request)), s)

-- What the later rounds give, behind the response and the events of this one.
abbrev pub behind : List TransactionResponse × List WatchEvent → Outcome → Outcome
behind done (ok later) = ok (done.0 ++ later.0, done.1 ++ later.1)
behind done (err e) = err e

unfoldable pub run_operations :
    List TransactionOperation → ℕ → FakeEtcdBackend → Outcome × FakeEtcdBackend
run_operations [] revision s = (ok ([], []), s)
run_operations (operation ∷ rest) revision s =
    let (outcome, s') = run_operation operation revision s in
    elim outcome [
      | err e ↦ (err e, s')
      | ok done ↦ let later = run_operations rest revision s' in (behind done later.0, later.1)
    ]

-- The end of `transaction`: the new revision and the events, where data changed.
unfoldable pub finish :
    Bool → Bool → ℕ → Outcome × FakeEtcdBackend → Result TransactionResult × FakeEtcdBackend
finish succeeded changed revision (err e, s) = (err e, s)
finish succeeded changed revision (ok (responses, events), s) =
    let s' = if changed then publish events revision (record s { revision = revision }) else s in
    (ok (record { succeeded = succeeded; responses = responses; revision = s'.revision }), s')

-- The guards of `transaction`: whether the compares passed, and the branch to run.
unfoldable pub begin :
    List Compare
    → List TransactionOperation
    → List TransactionOperation
    → FakeEtcdBackend
    → Result (Bool × List TransactionOperation)
begin compares success failure s = do
  _ ← ensure_open s
  succeeded ← all_compares s compares
  let operations = if succeeded then success else failure
  _ ← validate_transaction s.leases operations []
  ok (succeeded, operations)

-- The revision that a transaction writes at.
unfoldable pub next_revision : FakeEtcdBackend → List TransactionOperation → ℕ
next_revision s operations = if changes_data s operations then s.revision + 1 else s.revision

-- The rest of `transaction`, behind the guards.
unfoldable pub commit :
    Bool → List TransactionOperation → FakeEtcdBackend → Result TransactionResult × FakeEtcdBackend
unfolding next_revision finish
commit succeeded operations s =
    let revision = next_revision s operations in
    finish succeeded (changes_data s operations) revision (run_operations operations revision s)

-- `transaction`
unfoldable pub transaction :
    List Compare
    → List TransactionOperation
    → List TransactionOperation
    → FakeEtcdBackend
    → Result TransactionResult × FakeEtcdBackend
transaction compares success failure s = elim (begin compares success failure s) [
  | err e ↦ (err e, s)
  | ok (succeeded, operations) ↦ commit succeeded operations s
]
