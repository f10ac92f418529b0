-- ===== src/Fake/Transaction/Commit.antt =====
-- `transaction` as a whole, on a backend whose history is in order.
use etcd_fsm.Common.{
  ℕ, ◌+◌, ◌≡◌, refl, Bool, true, false, List, [], ◌∷◌, arith, ap, ◌∙◌, Bool-cases, inl, inr,
  fun_ext, sym,
}
use etcd_fsm.Backend.{
  TransactionOperation, TransactionResponse, TransactionResult, WatchEvent, ok, err,
}
use etcd_fsm.Fake.{FakeEtcdBackend, key_value_at, publish}
use etcd_fsm.Fake.History.{IsHistory}
use etcd_fsm.Fake.History.Append.{key_value_at-UpTo}
use etcd_fsm.Fake.History.Grow.{IsHistory-weaken}
use etcd_fsm.Fake.Transaction.{
  Outcome, WriteRange, validate_transaction, changes_data, run_operations, finish, commit,
  next_revision,
}
use etcd_fsm.Fake.Transaction.Spec.{View, view, apply_operations}
use etcd_fsm.Fake.Transaction.Loop.{IsRunning}
use etcd_fsm.Fake.Transaction.Run.{run_operations-IsRunning, run_operations-values}
use etcd_fsm.Fake.Transaction.Idle.{idle_run, idle_values}

module _ (events : List WatchEvent) (R : ℕ) (s : FakeEtcdBackend) where
  -- Publishing touches the log of events and the queues alone.
  pub publish-frame :
      publish events R s
      ≡ record s { events = (publish events R s).events; queues = (publish events R s).queues }
  unfolding publish
  publish-frame =
      elim events
        as (λ e.
          publish e R s
          ≡ record s { events = (publish e R s).events; queues = (publish e R s).queues }) [
            | [] ↦ refl
            | x ∷ r ↦ refl
          ]

  pub history-publish : (publish events R s).history ≡ s.history
  history-publish = ap (λ (t : FakeEtcdBackend). t.history) publish-frame

  pub revision-publish : (publish events R s).revision ≡ s.revision
  revision-publish = ap (λ (t : FakeEtcdBackend). t.revision) publish-frame

module _ (b : Bool) (R : ℕ) where
  history-finish :
      (changed : Bool) (out : Outcome × FakeEtcdBackend)
      → (finish b changed R out).1.history ≡ out.1.history
  unfolding finish
  history-finish changed (err e, s) = refl
  history-finish true (ok (responses, events), s) =
      history-publish events R (record s { revision = R })
  history-finish false (ok (responses, events), s) = refl

  revision-finish :
      (out : Outcome × FakeEtcdBackend) {result : TransactionResult}
      → (finish b true R out).0 ≡ ok result
      → (finish b true R out).1.revision ≡ R
  unfolding finish
  revision-finish (err e, s) h = cc
  revision-finish (ok (responses, events), s) h =
      revision-publish events R (record s { revision = R })

  -- A result comes from a loop that did not raise.
  ran :
      (changed : Bool) (out : Outcome × FakeEtcdBackend) {result : TransactionResult}
      → (finish b changed R out).0 ≡ ok result
      → (done : List TransactionResponse × List WatchEvent) × (out.0 ≡ ok done)
  unfolding finish
  ran changed (err e, s) h = cc
  ran changed (ok done, s) h = (done, refl)

  succeeded-finish :
      (changed : Bool) (out : Outcome × FakeEtcdBackend) {result : TransactionResult}
      → (finish b changed R out).0 ≡ ok result
      → result.succeeded ≡ b
  unfolding finish
  succeeded-finish changed (err e, s) h = cc
  succeeded-finish changed (ok (responses, events), s) h = ground arith

state-finish_idle :
    (b : Bool) (R : ℕ) (out : Outcome × FakeEtcdBackend) → (finish b false R out).1 ≡ out.1
unfolding finish
state-finish_idle b R (err e, s) = refl
state-finish_idle b R (ok (responses, events), s) = refl

IsRunning-start : (s : FakeEtcdBackend) → IsHistory s.revision s.history → IsRunning s [] s
IsRunning-start s valid = record {
  frame = refl;
  history = IsHistory-weaken s.history s.revision (s.revision + 1) (omega arith) valid;
  untouched = λ key h. refl;
}

module _ (b : Bool) (operations : List TransactionOperation) (s : FakeEtcdBackend) where
  commit_changed :
      changes_data s operations ≡ true
      → commit b operations s
        ≡ finish b true (s.revision + 1) (run_operations operations (s.revision + 1) s)
  unfolding commit
  commit_changed h = rw h

  commit_idle :
      changes_data s operations ≡ false
      → commit b operations s ≡ finish b false s.revision (run_operations operations s.revision s)
  unfolding commit
  commit_idle h = rw h

  -- Without a change of data the state stays as it is, also if an operation raises.
  pub state-commit_idle : changes_data s operations ≡ false → (commit b operations s).1 ≡ s
  state-commit_idle h = rw (commit_idle h) (
      state-finish_idle b s.revision (run_operations operations s.revision s)
      ∙ idle_run s operations s.revision h)

  pub history-commit_changed :
      changes_data s operations ≡ true
      → (commit b operations s).1.history ≡ (run_operations operations (s.revision + 1) s).1.history
  history-commit_changed h =
      rw (commit_changed h)
        (history-finish b (s.revision + 1) true (run_operations operations (s.revision + 1) s))

  pub succeeded-commit :
      {result : TransactionResult} → (commit b operations s).0 ≡ ok result → result.succeeded ≡ b
  unfolding commit
  succeeded-commit h =
      succeeded-finish b (next_revision s operations) (changes_data s operations)
        (run_operations operations (next_revision s operations) s) h

module _ (b : Bool) (operations : List TransactionOperation) (s : FakeEtcdBackend)
    (valid : IsHistory s.revision s.history)
    (validated : validate_transaction s.leases operations [] ≡ ok tt) where
  running : (w : List WriteRange) × IsRunning s w (run_operations operations (s.revision + 1) s).1
  running = run_operations-IsRunning s valid operations [] s validated (IsRunning-start s valid)

  module _ {result : TransactionResult} (committed : (commit b operations s).0 ≡ ok result) where
    revision-commit_changed :
        changes_data s operations ≡ true → (commit b operations s).1.revision ≡ s.revision + 1
    revision-commit_changed h =
        let out : Outcome × FakeEtcdBackend = run_operations operations (s.revision + 1) s in
        let committed' : (finish b true (s.revision + 1) out).0 ≡ ok result =
          rw (commit_changed b operations s h) at committed in
        rw (commit_changed b operations s h) (revision-finish b (s.revision + 1) out committed')

    pub commit-IsHistory :
        IsHistory (commit b operations s).1.revision (commit b operations s).1.history
    commit-IsHistory = elim (Bool-cases (changes_data s operations)) [
      | inl changed ↦
          rw (history-commit_changed b operations s changed, revision-commit_changed changed)
            running.1.history
      | inr idle ↦ rw (state-commit_idle b operations s idle) valid
    ]

    commit-view_changed :
        changes_data s operations ≡ true
        → view (commit b operations s).1 ≡ apply_operations operations (s.revision + 1) (view s)
    commit-view_changed h =
        let R : ℕ = s.revision + 1 in
        let out : Outcome × FakeEtcdBackend = run_operations operations R s in
        let committed' : (finish b true R out).0 ≡ ok result =
          rw (commit_changed b operations s h) at committed in
        let (done, e) = ran b R true out committed' in
        let values : View = λ key. key_value_at s.history key R in
        let unchanged : values ≡ view s =
          fun_ext
            (λ key. key_value_at-UpTo s.history key s.revision R (valid.up_to key) (omega arith)) in
        fun_ext (λ key.
          rw (history-commit_changed b operations s h, revision-commit_changed h)
            (ap (λ (m : View). m key)
              (run_operations-values s valid operations [] s validated (IsRunning-start s valid)
                  done e
                ∙ ap (apply_operations operations R) unchanged)))

    pub commit-view :
        view (commit b operations s).1 ≡ apply_operations operations (s.revision + 1) (view s)
    commit-view = elim (Bool-cases (changes_data s operations)) [
      | inl changed ↦ commit-view_changed changed
      | inr idle ↦
          rw (state-commit_idle b operations s idle)
            (sym (idle_values s operations (s.revision + 1) idle))
    ]
