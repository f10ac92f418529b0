-- ===== src/Fake/Transaction/Idle.antt =====
-- A transaction that changes no data: its operations leave the state and the values as they are.
use etcd_fsm.Common.{
  ℕ, ◌≡◌, refl, true, false, List, [], ◌∷◌, arith, any, ap, ◌∙◌, inl, inr, fun_ext, is_empty,
}
use etcd_fsm.Bytes.{Bytes}
use etcd_fsm.Backend.{DeleteRange, TransactionOperation, put, delete_range, get_range}
use etcd_fsm.Fake.{FakeEtcdBackend, keys_in_range}
use etcd_fsm.Fake.History.{mem_key}
use etcd_fsm.Fake.History.Members.{mem_key-keys_in_range}
use etcd_fsm.Fake.Writes.{delete_unlocked, delete_keys}
use etcd_fsm.Fake.Transaction.{changes_data, run_operation, run_operations}
use etcd_fsm.Fake.Transaction.Spec.{view, apply_operation, apply_operations}
use etcd_fsm.Fake.Transaction.Run.{
  run_operations-ok, run_operations-err, state-get_range, Result-cases,
}

pub empty_list : (l : List Bytes) → is_empty l ≡ true → l ≡ []
empty_list [] h = refl
empty_list (x ∷ l) h = cc

module _ (s : FakeEtcdBackend) where
  -- A delete that finds no key appends nothing.
  delete_nothing :
      (d : DeleteRange) (R : ℕ)
      → keys_in_range s.history s.revision d.start d.end ≡ []
      → (run_operation (delete_range d) R s).1 ≡ s
  unfolding run_operation delete_unlocked delete_keys
  delete_nothing d R h = rw h

  pub idle_round :
      (operation : TransactionOperation) (R : ℕ)
      → changes_data s (operation ∷ []) ≡ false
      → (run_operation operation R s).1 ≡ s
  unfolding changes_data
  idle_round (put p) R h = cc
  idle_round (delete_range d) R h =
      delete_nothing d R
        (empty_list (keys_in_range s.history s.revision d.start d.end) (ground arith))
  idle_round (get_range q) R h = state-get_range q R s

  pub changes_data-cons :
      (operation : TransactionOperation) (rest : List TransactionOperation)
      → changes_data s (operation ∷ rest) ≡ false
      → (changes_data s (operation ∷ []) ≡ false) × (changes_data s rest ≡ false)
  unfolding changes_data
  changes_data-cons (put p) rest h = cc
  changes_data-cons (delete_range d) rest h = ground arith
  changes_data-cons (get_range q) rest h = (refl, h)

  pub idle_run :
      (operations : List TransactionOperation) (R : ℕ)
      → changes_data s operations ≡ false
      → (run_operations operations R s).1 ≡ s
  unfolding run_operations
  idle_run [] R h = refl
  idle_run (operation ∷ rest) R h =
      let (first, others) = changes_data-cons operation rest h in
      elim (Result-cases (run_operation operation R s).0) [
        | inl (done, e) ↦
            rw (run_operations-ok operation rest R s e, idle_round operation R first)
              (idle_run rest R others)
        | inr (e, raised) ↦
            rw (run_operations-err operation rest R s raised) (idle_round operation R first)
      ]

  idle_value :
      (operation : TransactionOperation) (R : ℕ)
      → changes_data s (operation ∷ []) ≡ false
      → (key : Bytes) → apply_operation operation R (view s) key ≡ view s key
  unfolding changes_data apply_operation any
  idle_value (put p) R h key = cc
  idle_value (delete_range d) R h key =
      let e : keys_in_range s.history s.revision d.start d.end ≡ [] =
        empty_list (keys_in_range s.history s.revision d.start d.end) (ground arith) in
      ground
        (arith, mem_key-keys_in_range s.history s.revision d.start d.end key, ap (mem_key key) e)
  idle_value (get_range q) R h key = refl

  pub idle_values :
      (operations : List TransactionOperation) (R : ℕ)
      → changes_data s operations ≡ false
      → apply_operations operations R (view s) ≡ view s
  unfolding apply_operations
  idle_values [] R h = refl
  idle_values (operation ∷ rest) R h =
      let (first, others) = changes_data-cons operation rest h in
      ap (apply_operations rest R) (fun_ext (idle_value operation R first))
      ∙ idle_values rest R others
