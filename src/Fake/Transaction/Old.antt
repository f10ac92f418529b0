-- ===== src/Fake/Transaction/Old.antt =====
-- The operations of a transaction in etcd_fsm/_fake_backend.py append versions at one revision, and leave what
-- is read below it, whatever the history is and whether they raise.
use etcd_fsm.Common.{
  ℕ, ◌+◌, ◌≤◌, ◌<◌, ◌≡◌, refl, ap, ◌∙◌, Bool, List, [], ◌∷◌, arith, Bool-cases, inl, inr,
}
use etcd_fsm.Bytes.{Bytes}
use etcd_fsm.Backend.{Put, TransactionOperation, put, delete_range, get_range}
use etcd_fsm.Fake.{FakeEtcdBackend, Version, key_value_at, append_version, keys_in_range}
use etcd_fsm.Fake.History.Append.{key_value_at-append_version}
use etcd_fsm.Fake.Writes.{put_unlocked, stored_version, delete_unlocked}
use etcd_fsm.Fake.Transaction.{changes_data, run_operation, run_operations, commit}
use etcd_fsm.Fake.Transaction.Run.{
  run_operations-ok, run_operations-err, state-get_range, state-deleted_outcome, Result-cases,
}
use etcd_fsm.Fake.Transaction.Round.{stored_version-revision, state-delete_unlocked}
use etcd_fsm.Fake.Writes.Deleted.{key_value_at-delete_keys_old}
use etcd_fsm.Fake.Transaction.Commit.{history-commit_changed, state-commit_idle}

-- What is read below a revision is the same in both states.
unfoldable pub ReadsSame : ℕ → FakeEtcdBackend → FakeEtcdBackend → Type 0
ReadsSame R s t =
    (key : Bytes) (r : ℕ) → r < R → key_value_at t.history key r ≡ key_value_at s.history key r

append-old :
    (j : Bytes) (v : Version) (s : FakeEtcdBackend)
    → ReadsSame v.revision s (record s { history = append_version j v s.history })
unfolding ReadsSame
append-old j v s key r lt = ground (arith, key_value_at-append_version j v s.history key r)

put-old : (p : Put) (R : ℕ) (s : FakeEtcdBackend) → ReadsSame R s (put_unlocked p R s).1
unfolding put_unlocked ReadsSame
put-old p R s key r lt =
    let current = key_value_at s.history p.key s.revision in
    let e = stored_version-revision p R current in
    append-old p.key (stored_version p R current) s key r (omega arith)

run_operation-old :
    (operation : TransactionOperation) (R : ℕ) (s : FakeEtcdBackend)
    → ReadsSame R s (run_operation operation R s).1
unfolding run_operation ReadsSame delete_unlocked
run_operation-old (put p) R s key r lt = put-old p R s key r lt
run_operation-old (delete_range d) R s key r lt =
    let found = keys_in_range s.history s.revision d.start d.end in
    ap (λ (t : FakeEtcdBackend). key_value_at t.history key r)
      (state-deleted_outcome (delete_unlocked d R s) ∙ state-delete_unlocked d R s)
    ∙ key_value_at-delete_keys_old found R [] s key r lt
run_operation-old (get_range q) R s key r lt =
    ap (λ (t : FakeEtcdBackend). key_value_at t.history key r) (state-get_range q R s)

run_operations-old :
    (operations : List TransactionOperation) (R : ℕ) (s : FakeEtcdBackend)
    → ReadsSame R s (run_operations operations R s).1
unfolding run_operations ReadsSame
run_operations-old [] R s key r lt = refl
run_operations-old (operation ∷ rest) R s key r lt =
    elim (Result-cases (run_operation operation R s).0) [
      | inl (done, e) ↦ rw (run_operations-ok operation rest R s e) (
          run_operations-old rest R (run_operation operation R s).1 key r lt
          ∙ run_operation-old operation R s key r lt)
      | inr (e, raised) ↦
          rw (run_operations-err operation rest R s raised)
            (run_operation-old operation R s key r lt)
    ]

pub commit-old :
    (b : Bool) (operations : List TransactionOperation) (s : FakeEtcdBackend) (key : Bytes) (r : ℕ)
    → r ≤ s.revision
    → key_value_at (commit b operations s).1.history key r ≡ key_value_at s.history key r
unfolding ReadsSame
commit-old b operations s key r le = elim (Bool-cases (changes_data s operations)) [
  | inl changed ↦
      rw (history-commit_changed b operations s changed)
        (run_operations-old operations (s.revision + 1) s key r (omega arith))
  | inr idle ↦ rw (state-commit_idle b operations s idle)
]
