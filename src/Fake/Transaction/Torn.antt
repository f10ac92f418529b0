-- ===== src/Fake/Transaction/Torn.antt =====
-- A transaction that raises between its operations: the writes in front stay in the history, at a
-- revision that the backend has not reached, and the next write makes them visible.
use etcd_fsm.Common.{ℕ, ◌+◌, ◌≡◌, refl, true, false, none, some, [], ◌∷◌, arith, ap, ◌∙◌, any}
use etcd_fsm.Bytes.{eq_bytes}
use etcd_fsm.Bytes.Order.{eq_bytes_refl}
use etcd_fsm.Backend.{Put, RangeRequest, put, get_range, ok, err, historical_get_range}
use etcd_fsm.Fake.{FakeEtcdBackend, History, append_version, ensure_open, publish}
use etcd_fsm.Fake.Reads.{all_compares}
use etcd_fsm.Fake.History.Append.{key_value_at-append_version}
use etcd_fsm.Fake.Writes.{put_unlocked, stored_version}
use etcd_fsm.Fake.Transaction.{
  begin, commit, transaction, validate_transaction, changes_data, run_operation, run_operations,
  finish, next_revision,
}
use etcd_fsm.Fake.Transaction.Spec.{view, put_value}
use etcd_fsm.Fake.Transaction.Run.{run_operations-ok, run_operations-err, state-get_range}
use etcd_fsm.Fake.Transaction.Round.{stored_version-revision, live-stored_version}
use etcd_fsm.Fake.Transaction.Refines.{transaction_begun}

-- The history with the version that a put stores.
abbrev with_put : Put → FakeEtcdBackend → History
with_put p s = append_version p.key (stored_version p (s.revision + 1) (view s p.key)) s.history

refused_read :
    (q : RangeRequest) (R : ℕ) (s : FakeEtcdBackend) {r : ℕ}
    → q.revision ≡ some r
    → run_operations (get_range q ∷ []) R s ≡ (err historical_get_range, s)
refused_read q R s pinned =
    run_operations-err (get_range q) [] R s {e = historical_get_range}
      (unfold run_operation in ground arith)
    ∙ ap (λ (t : FakeEtcdBackend). (err historical_get_range, t)) (state-get_range q R s)

module _ (p : Put) (s : FakeEtcdBackend) (opened : s.closed ≡ false)
    (unleased : p.lease_id ≡ none) where
  put-read_begins :
      (q : RangeRequest)
      → begin [] (put p ∷ get_range q ∷ []) [] s ≡ ok (true, put p ∷ get_range q ∷ [])
  unfolding begin ensure_open all_compares validate_transaction any
  put-read_begins q = ground arith

  torn_run :
      (q : RangeRequest) {r : ℕ}
      → q.revision ≡ some r
      → run_operations (put p ∷ get_range q ∷ []) (s.revision + 1) s
        ≡ (err historical_get_range, record s { history = with_put p s })
  unfolding run_operation put_unlocked
  torn_run q pinned =
      run_operations-ok (put p) (get_range q ∷ []) (s.revision + 1) s refl
      ∙ rw (refused_read q (s.revision + 1) (record s { history = with_put p s }) pinned)

  torn_commit :
      (q : RangeRequest) {r : ℕ}
      → q.revision ≡ some r
      → commit true (put p ∷ get_range q ∷ []) s
        ≡ (err historical_get_range, record s { history = with_put p s })
  unfolding commit changes_data finish
  torn_commit q pinned = ap (finish true true (s.revision + 1)) (torn_run q pinned)

  -- The raise leaves the written version behind.
  torn :
      (q : RangeRequest) {r : ℕ}
      → q.revision ≡ some r
      → transaction [] (put p ∷ get_range q ∷ []) [] s
        ≡ (err historical_get_range, record s { history = with_put p s })
  torn q pinned =
      transaction_begun [] (put p ∷ get_range q ∷ []) [] s true (put p ∷ get_range q ∷ [])
        (put-read_begins q)
      ∙ torn_commit q pinned

  put_begins : begin [] (put p ∷ []) [] s ≡ ok (true, put p ∷ [])
  unfolding begin ensure_open all_compares validate_transaction any
  put_begins = ground arith

  put_alone :
      ((transaction [] (put p ∷ []) [] s).1.history ≡ with_put p s)
      × ((transaction [] (put p ∷ []) [] s).1.revision ≡ s.revision + 1)
  put_alone = rw (transaction_begun [] (put p ∷ []) [] s true (put p ∷ []) put_begins) (
      unfold commit changes_data run_operations run_operation put_unlocked finish publish
        next_revision in
      (refl, refl))

torn_shows :
    (p other : Put) (s : FakeEtcdBackend)
    → s.closed ≡ false
    → other.lease_id ≡ none
    → eq_bytes other.key p.key ≡ false
    → view (transaction [] (put other ∷ []) [] (record s { history = with_put p s })).1 p.key
      ≡ some (put_value p (s.revision + 1) (view s p.key))
torn_shows p other s opened unleased distinct =
    let t : FakeEtcdBackend = record s { history = with_put p s } in
    let R : ℕ = s.revision + 1 in
    rw ((put_alone other t opened unleased).0, (put_alone other t opened unleased).1)
      (ground (
        arith,
        key_value_at-append_version other.key (stored_version other R (view t other.key)) t.history
            p.key R,
        key_value_at-append_version p.key (stored_version p R (view s p.key)) s.history p.key R,
        eq_bytes_refl p.key,
        stored_version-revision p R (view s p.key),
        live-stored_version p R (view s p.key),
      ))

-- On an open backend a transaction puts a key, without a lease, and then reads at a revision of the
-- past. It raises, and yet, once another transaction has put another key, also without a lease, the
-- current value is the one that was put.
pub torn_write :
    (p other : Put) (q : RangeRequest) (r : ℕ) (s : FakeEtcdBackend)
    → s.closed ≡ false
    → p.lease_id ≡ none
    → other.lease_id ≡ none
    → eq_bytes other.key p.key ≡ false
    → q.revision ≡ some r
    → ((transaction [] (put p ∷ get_range q ∷ []) [] s).0 ≡ err historical_get_range)
      × (view
            (transaction []
              (put other ∷ [])
              []
              (transaction [] (put p ∷ get_range q ∷ []) [] s).1).1
            p.key
          ≡ some (put_value p (s.revision + 1) (view s p.key)))
torn_write p other q r s opened unleased unleased' distinct pinned =
    rw (torn p s opened unleased q pinned) (refl, torn_shows p other s opened unleased' distinct)
