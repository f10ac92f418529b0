-- ===== src/Fake/Transaction/Refines.antt =====
-- `transaction` against its specification.
use etcd_fsm.Common.{ℕ, ◌+◌, ◌≤◌, ◌≡◌, Bool, List, [], arith, ap, ◌∙◌, if◌then◌else◌, ◌⊎◌, inl, inr}
use etcd_fsm.Bytes.{Bytes}
use etcd_fsm.Backend.{Compare, TransactionOperation, TransactionResult, ok, err, Error}
use etcd_fsm.Fake.{FakeEtcdBackend, key_value_at}
use etcd_fsm.Fake.History.{IsHistory}
use etcd_fsm.Fake.Transaction.{begin, commit, transaction, validate_transaction}
use etcd_fsm.Fake.Transaction.Spec.{view, apply_operations}
use etcd_fsm.Fake.Transaction.Run.{Result-cases}
use etcd_fsm.Fake.Transaction.Old.{commit-old}
use etcd_fsm.Fake.Transaction.Commit.{commit-IsHistory, commit-view, succeeded-commit}

-- The branch that the compares chose.
abbrev pub branch :
    List TransactionOperation → List TransactionOperation → Bool → List TransactionOperation
branch success failure b = if b then success else failure

module _ (compares : List Compare) (success failure : List TransactionOperation)
    (s : FakeEtcdBackend) where
  pub transaction_refused :
      {e : Error}
      → begin compares success failure s ≡ err e
      → transaction compares success failure s ≡ (err e, s)
  unfolding transaction
  transaction_refused h = rw (h, transaction)

  pub transaction_begun :
      (b : Bool) (operations : List TransactionOperation)
      → begin compares success failure s ≡ ok (b, operations)
      → transaction compares success failure s ≡ commit b operations s
  unfolding transaction
  transaction_begun b operations h = rw (h, transaction)

  pub begun :
      (b : Bool) (operations : List TransactionOperation)
      → begin compares success failure s ≡ ok (b, operations)
      → (operations ≡ branch success failure b)
        × (validate_transaction s.leases operations [] ≡ ok tt)
  unfolding begin
  begun b operations h = ground arith

  -- The guards either stop the transaction, or hand a validated branch to the loop.
  pub begin-cases :
      ((e : Error) × (begin compares success failure s ≡ err e)
        × (transaction compares success failure s ≡ (err e, s)))
      ⊎ ((b : Bool) × (transaction compares success failure s
            ≡ commit b (branch success failure b) s)
          × (validate_transaction s.leases (branch success failure b) [] ≡ ok tt))
  begin-cases = elim (Result-cases (begin compares success failure s)) [
    | inl ((b, operations), h) ↦
        let (same, validated) = begun b operations h in
        inr (
          b,
          transaction_begun b operations h
              ∙ ap (λ (l : List TransactionOperation). commit b l s) same,
          rw same at validated,
        )
    | inr (e, h) ↦ inl (e, h, transaction_refused h)
  ]

  -- A transaction, whether it returns or raises, and in whatever state, leaves the value of every key at
  -- every revision up to the current one as it was.
  pub transaction-old :
      (key : Bytes) (r : ℕ)
      → r ≤ s.revision
      → key_value_at (transaction compares success failure s).1.history key r
        ≡ key_value_at s.history key r
  transaction-old key r le = elim begin-cases [
    | inl (e, _, h) ↦ rw h
    | inr (b, h, validated) ↦ rw h (commit-old b (branch success failure b) s key r le)
  ]

  module _ (valid : IsHistory s.revision s.history) where
    module _ {result : TransactionResult}
        (returned : (transaction compares success failure s).0 ≡ ok result) where
      -- Where the history is well formed, it is so after a transaction that returns.
      pub transaction-IsHistory :
          IsHistory
            (transaction compares success failure s).1.revision
            (transaction compares success failure s).1.history
      transaction-IsHistory = elim begin-cases [
        | inl (e, _, h) ↦ cc (returned, h)
        | inr (b, h, validated) ↦
            rw h
              (commit-IsHistory b (branch success failure b) s valid validated (rw h at returned))
      ]

      -- Where the history is well formed and the transaction returns, the map from keys to current
      -- values becomes what the operations of the branch that the result names make of it, one
      -- after the other, all at the revision after the current one.
      pub transaction-refines :
          view (transaction compares success failure s).1
          ≡ apply_operations (branch success failure result.succeeded) (s.revision + 1) (view s)
      transaction-refines = elim begin-cases [
        | inl (e, _, h) ↦ cc (returned, h)
        | inr (b, h, validated) ↦
            let committed : (commit b (branch success failure b) s).0 ≡ ok result =
              rw h at returned in
            rw (h, succeeded-commit b (branch success failure b) s committed)
              (commit-view b (branch success failure b) s valid validated committed)
      ]
