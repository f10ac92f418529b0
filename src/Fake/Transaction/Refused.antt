-- ===== src/Fake/Transaction/Refused.antt =====
-- `transaction` after a compaction at the current revision: a read in it is pinned to that revision.
use etcd_fsm.Common.{
  ◌<◌, ◌≡◌, refl, false, true, none, [], ◌∷◌, arith, ◌∙◌, ap, is_some, if◌then◌else◌,
}
use etcd_fsm.Backend.{
  RangeRequest, historical_get_range, get_range, Error, ok, err, compacted_revision,
}
use etcd_fsm.Fake.{FakeEtcdBackend, ensure_open}
use etcd_fsm.Fake.Reads.{
  read_revision, check_limit, values_at, page, range_unlocked, range, all_compares,
}
use etcd_fsm.Fake.Transaction.{
  validate_transaction, check_operation, changes_data, pinned, run_operation, read_outcome,
  run_operations, finish, begin, next_revision, commit, transaction,
}
use etcd_fsm.Fake.Transaction.Run.{run_operations-err}
use etcd_fsm.Fake.Transaction.Refines.{transaction_begun}

-- A transaction of one read ends as the read does when that raises.
commit-refused :
    (q : RangeRequest) (s : FakeEtcdBackend) {e : Error}
    → run_operation (get_range q) s.revision s ≡ (err e, s)
    → commit true (get_range q ∷ []) s ≡ (err e, s)
unfolding commit changes_data finish next_revision
commit-refused q s {e} h =
    let run : run_operations (get_range q ∷ []) s.revision s ≡ (err e, s) =
      run_operations-err (get_range q) [] s.revision s (ap (λ o. o.0) h)
      ∙ ap (λ o. (err e, o.1)) h in
    ap (finish true false s.revision) run

-- On an open backend whose current revision is compacted and not 0, a range that names no revision,
-- with a valid limit, is answered, and a transaction that makes the same range raises that the
-- current revision is compacted and changes nothing.
pub transaction-compacted :
    (q : RangeRequest) (s : FakeEtcdBackend)
    → s.closed ≡ false
    → 0 < s.revision
    → s.compacted_revision ≡ s.revision
    → q.revision ≡ none
    → check_limit q.limit ≡ ok tt
    → (range s q ≡ ok (page (values_at s.history q.start q.end s.revision) s.revision q.limit))
      × (transaction [] (get_range q ∷ []) [] s
          ≡ (err (compacted_revision s.revision s.revision), s))
unfolding range range_unlocked read_revision ensure_open begin all_compares validate_transaction
    check_operation run_operation pinned
transaction-compacted q s opened positive compacted unpinned limited =
    let pinned_refused : range_unlocked s (pinned s q)
        ≡ err (compacted_revision s.revision s.revision) =
      ground arith in
    let begins : begin [] (get_range q ∷ []) [] s ≡ ok (true, get_range q ∷ []) = ground arith in
    let round : run_operation (get_range q) s.revision s
        ≡ (err (compacted_revision s.revision s.revision), s) =
      ap
        (λ b.
          if b
          then (err historical_get_range, s)
          else (read_outcome (range_unlocked s (pinned s q)), s))
        (ap is_some unpinned)
      ∙ ap (λ a. (read_outcome a, s)) pinned_refused in
    (
      rw (opened, limited, unpinned) refl,
      transaction_begun [] (get_range q ∷ []) [] s true (get_range q ∷ []) begins
          ∙ commit-refused q s round,
    )
