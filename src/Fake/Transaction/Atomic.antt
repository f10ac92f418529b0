-- ===== src/Fake/Transaction/Atomic.antt =====
-- When a transaction raises: with operations that may be read, only in its guards, and then the
-- state is as before.
use etcd_fsm.Common.{
  ℕ, ◌+◌, ◌<◌, ◌≡◌, refl, Bool, true, false, ◌&&◌, none, List, [], ◌∷◌, arith, ap, is_some,
  Bool-cases, inl, inr, ◌⊎◌, All, ltb, leb, length,
}
use etcd_fsm.Bytes.{Bytes}
use etcd_fsm.Backend.{
  DeleteRange, RangeRequest, TransactionOperation, put, delete_range, get_range,
  TransactionResponse, TransactionResult, WatchEvent, Result, ok, err, Compare, Error,
}
use etcd_fsm.Fake.{FakeEtcdBackend, key_value_at, keys_in_range}
use etcd_fsm.Fake.History.Members.{mem_key-keys_in_range}
use etcd_fsm.Fake.Reads.{check_limit, read_revision, range_unlocked, page, values_at}
use etcd_fsm.Fake.Writes.{delete_unlocked, delete_keys, put_unlocked, with_count}
use etcd_fsm.Fake.Writes.Deleted.{delete_keys-frame, delete_keys-ok, AllLive}
use etcd_fsm.Fake.Transaction.{
  Outcome, changes_data, run_operation, run_operations, finish, commit, begin, transaction,
  deleted_outcome, pinned,
}
use etcd_fsm.Fake.Transaction.Run.{run_operations-ok, state-get_range, state-deleted_outcome}
use etcd_fsm.Fake.Transaction.Round.{state-delete_unlocked, All-of_mem}
use etcd_fsm.Fake.Transaction.Idle.{changes_data-cons, idle_round, empty_list}
use etcd_fsm.Fake.Transaction.Refines.{branch, begin-cases}

-- The backend has not compacted away its own current revision.
abbrev pub IsCurrentKept : FakeEtcdBackend → Type 0
IsCurrentKept s = (ltb 0 s.compacted_revision && leb s.revision s.compacted_revision) ≡ false

-- A read in a transaction names no revision and a limit that is positive.
abbrev pub IsReadable : TransactionOperation → Type 0
IsReadable (get_range request) = (request.revision ≡ none) × (check_limit request.limit ≡ ok tt)
IsReadable _ = Unit

with_count-ok :
    (n : ℕ) (out : Result (List WatchEvent) × FakeEtcdBackend) {events : List WatchEvent}
    → out.0 ≡ ok events
    → (done : List TransactionResponse × List WatchEvent) × ((deleted_outcome (with_count n out)).0
        ≡ ok done)
with_count-ok n (ok events, s) h = (_, refl)
with_count-ok n (err e, s) h = cc

-- A state that differs from `s0` in the history alone.
abbrev SameButHistory : FakeEtcdBackend → FakeEtcdBackend → Type 0
SameButHistory s0 s = s ≡ record s0 { history = s.history }

run_operation-frame :
    (operation : TransactionOperation) (R : ℕ) (s : FakeEtcdBackend)
    → SameButHistory s (run_operation operation R s).1
unfolding run_operation put_unlocked
run_operation-frame (put p) R s = refl
run_operation-frame (delete_range d) R s =
    rw (state-deleted_outcome (delete_unlocked d R s), state-delete_unlocked d R s)
      (delete_keys-frame (keys_in_range s.history s.revision d.start d.end) R [] s)
run_operation-frame (get_range q) R s = rw (state-get_range q R s)

found-AllLive :
    (d : DeleteRange) (s : FakeEtcdBackend)
    → AllLive (keys_in_range s.history s.revision d.start d.end) s
found-AllLive d s =
    All-of_mem (λ key. is_some (key_value_at s.history key s.revision) ≡ true)
      (keys_in_range s.history s.revision d.start d.end)
      (λ key m. ground (arith, mem_key-keys_in_range s.history s.revision d.start d.end key))

-- A read pinned to the current revision is answered.
pub range-pinned :
    (q : RangeRequest) (s : FakeEtcdBackend)
    → IsCurrentKept s
    → check_limit q.limit ≡ ok tt
    → range_unlocked s (pinned s q)
      ≡ ok (page (values_at s.history q.start q.end s.revision) s.revision q.limit)
unfolding range_unlocked read_revision pinned
range-pinned q s kept limited = ground arith

get_range-ok :
    (q : RangeRequest) (R : ℕ) (s : FakeEtcdBackend)
    → IsCurrentKept s
    → IsReadable (get_range q)
    → (done : List TransactionResponse × List WatchEvent) × ((run_operation (get_range q) R s).0
        ≡ ok done)
unfolding run_operation
get_range-ok q R s kept (unpinned, limited) = rw (unpinned, range-pinned q s kept limited) (_, refl)

delete-ok :
    (d : DeleteRange) (R : ℕ) (s : FakeEtcdBackend)
    → s.revision < R
    → (done : List TransactionResponse × List WatchEvent) × ((run_operation (delete_range d) R s).0
        ≡ ok done)
unfolding run_operation delete_unlocked
delete-ok d R s lt =
    let found : List Bytes = keys_in_range s.history s.revision d.start d.end in
    let (events, e) = delete_keys-ok found R [] s lt (found-AllLive d s) in
    with_count-ok (length found) (delete_keys found R [] s) e

pub run_operation-ok :
    (operation : TransactionOperation) (R : ℕ) (s : FakeEtcdBackend)
    → s.revision < R
    → IsCurrentKept s
    → IsReadable operation
    → (done : List TransactionResponse × List WatchEvent) × ((run_operation operation R s).0
        ≡ ok done)
run_operation-ok (put p) R s lt kept r = unfold run_operation in (_, refl)
run_operation-ok (delete_range d) R s lt kept r = delete-ok d R s lt
run_operation-ok (get_range q) R s lt kept r = get_range-ok q R s kept r

kept-run_operation :
    (operation : TransactionOperation) (R : ℕ) (s : FakeEtcdBackend)
    → IsCurrentKept s
    → IsCurrentKept (run_operation operation R s).1
kept-run_operation operation R s kept = rw (run_operation-frame operation R s) kept

revision-run_operation :
    (operation : TransactionOperation) (R : ℕ) (s : FakeEtcdBackend)
    → (run_operation operation R s).1.revision ≡ s.revision
revision-run_operation operation R s =
    ap (λ (t : FakeEtcdBackend). t.revision) (run_operation-frame operation R s)

-- No round raises.
run_operations-total :
    (operations : List TransactionOperation) (R : ℕ) (s : FakeEtcdBackend)
    → s.revision < R
    → IsCurrentKept s
    → All IsReadable operations
    → (done : List TransactionResponse × List WatchEvent) × ((run_operations operations R s).0
        ≡ ok done)
unfolding run_operations
run_operations-total [] R s lt kept r = (_, refl)
run_operations-total (operation ∷ rest) R s lt kept r =
    let (done, e) = run_operation-ok operation R s lt kept r.0 in
    let (later, e') =
      run_operations-total rest R (run_operation operation R s).1
        (rw (revision-run_operation operation R s) lt) (kept-run_operation operation R s kept)
        r.1 in
    rw (run_operations-ok operation rest R s e, e') (_, refl)

-- Nor does one of a transaction that changes nothing, where the revision stays.
idle_round-ok :
    (operation : TransactionOperation) (R : ℕ) (s : FakeEtcdBackend)
    → changes_data s (operation ∷ []) ≡ false
    → IsCurrentKept s
    → IsReadable operation
    → (done : List TransactionResponse × List WatchEvent) × ((run_operation operation R s).0
        ≡ ok done)
unfolding changes_data
idle_round-ok (put p) R s h kept r = cc
idle_round-ok (delete_range d) R s h kept r =
    let none_found : keys_in_range s.history s.revision d.start d.end ≡ [] =
      empty_list (keys_in_range s.history s.revision d.start d.end) (ground arith) in
    unfold run_operation delete_unlocked delete_keys in rw none_found (_, refl)
idle_round-ok (get_range q) R s h kept r = get_range-ok q R s kept r

idle_run-total :
    (operations : List TransactionOperation) (R : ℕ) (s : FakeEtcdBackend)
    → changes_data s operations ≡ false
    → IsCurrentKept s
    → All IsReadable operations
    → (done : List TransactionResponse × List WatchEvent) × ((run_operations operations R s).0
        ≡ ok done)
unfolding run_operations
idle_run-total [] R s h kept r = (_, refl)
idle_run-total (operation ∷ rest) R s h kept r =
    let (first, others) = changes_data-cons s operation rest h in
    let (done, e) = idle_round-ok operation R s first kept r.0 in
    let (later, e') = idle_run-total rest R s others kept r.1 in
    rw (run_operations-ok operation rest R s e, idle_round s operation R first, e') (_, refl)

finish-ok :
    (b changed : Bool) (R : ℕ) (out : Outcome × FakeEtcdBackend)
    {done : List TransactionResponse × List WatchEvent}
    → out.0 ≡ ok done
    → (result : TransactionResult) × ((finish b changed R out).0 ≡ ok result)
unfolding finish
finish-ok b changed R (ok done, s) h = (_, refl)
finish-ok b changed R (err e, s) h = cc

commit-total :
    (b : Bool) (operations : List TransactionOperation) (s : FakeEtcdBackend)
    → IsCurrentKept s
    → All IsReadable operations
    → (result : TransactionResult) × ((commit b operations s).0 ≡ ok result)
unfolding commit
commit-total b operations s kept r = elim (Bool-cases (changes_data s operations)) [
  | inl changed ↦ rw changed (
      finish-ok b true (s.revision + 1) (run_operations operations (s.revision + 1) s)
        (run_operations-total operations (s.revision + 1) s (omega arith) kept r).1)
  | inr idle ↦ rw idle (
      finish-ok b false s.revision (run_operations operations s.revision s)
        (idle_run-total operations s.revision s idle kept r).1)
]

-- Where the current revision is not compacted, and each read of both branches names no revision and
-- a limit that is valid, a transaction returns, or its guards raise and the state is as it was: no
-- operation raises after another has written.
pub transaction_atomic :
    (compares : List Compare) (success failure : List TransactionOperation) (s : FakeEtcdBackend)
    → IsCurrentKept s
    → All IsReadable success
    → All IsReadable failure
    → ((result : TransactionResult) × ((transaction compares success failure s).0 ≡ ok result))
      ⊎ ((e : Error) × (begin compares success failure s ≡ err e)
          × (transaction compares success failure s ≡ (err e, s)))
transaction_atomic compares success failure s kept rs rf =
    elim (begin-cases compares success failure s) [
      | inl refused ↦ inr refused
      | inr (b, h, validated) ↦
          let readable : All IsReadable (branch success failure b) =
            elim b as (λ x. All IsReadable (branch success failure x)) [ true ↦ rs | false ↦ rf ] in
          inl (rw h (commit-total b (branch success failure b) s kept readable))
    ]
