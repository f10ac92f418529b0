-- ===== src/Fake/Transaction/Run.antt =====
-- The whole loop over validated operations: the history stays in order, reads below the new
-- revision see what they saw, and where no round raises the values are those of the specification.
use etcd_fsm.Common.{
  ℕ, ◌+◌, ◌≡◌, refl, false, some, List, [], ◌∷◌, ◌++◌, arith, any, ap, ◌∙◌, sym, inl, inr, fun_ext,
  ◌⊎◌,
}
use etcd_fsm.Backend.{
  TransactionOperation, put, delete_range, get_range, TransactionResponse, WatchEvent, RangeRequest,
  Result, ok, err, Error,
}
use etcd_fsm.Fake.Keys.{ranges_overlap}
use etcd_fsm.Fake.{FakeEtcdBackend, key_value_at}
use etcd_fsm.Fake.History.{IsHistory}
use etcd_fsm.Fake.Writes.{delete_unlocked}
use etcd_fsm.Fake.Transaction.{
  WriteRange, Outcome, behind, validate_transaction, run_operation, run_operations, deleted_outcome,
}
use etcd_fsm.Fake.Transaction.Spec.{apply_operation, apply_operations}
use etcd_fsm.Fake.Transaction.Loop.{IsRunning}
use etcd_fsm.Fake.Transaction.Round.{
  put-IsRunning, view-put_unlocked, delete-IsRunning, view-delete_unlocked,
}

module _ (operation : TransactionOperation) (rest : List TransactionOperation) (R : ℕ)
    (s : FakeEtcdBackend) where
  pub run_operations-err :
      {e : Error}
      → (run_operation operation R s).0 ≡ err e
      → run_operations (operation ∷ rest) R s ≡ (err e, (run_operation operation R s).1)
  unfolding run_operations
  run_operations-err h = rw (h, run_operations)

  pub run_operations-ok :
      {done : List TransactionResponse × List WatchEvent}
      → (run_operation operation R s).0 ≡ ok done
      → run_operations (operation ∷ rest) R s ≡ (
        behind done (run_operations rest R (run_operation operation R s).1).0,
        (run_operations rest R (run_operation operation R s).1).1,
      )
  unfolding run_operations
  run_operations-ok h = rw (h, run_operations)

pub Result-cases {ℓ} :
    {A : Type ℓ} (r : Result A) → ((a : A) × (r ≡ ok a)) ⊎ ((e : Error) × (r ≡ err e))
Result-cases (ok a) = inl (a, refl)
Result-cases (err e) = inr (e, refl)

behind-eq-ok :
    (first : List TransactionResponse × List WatchEvent) (later : Outcome)
    {done : List TransactionResponse × List WatchEvent}
    → behind first later ≡ ok done
    → (more : List TransactionResponse × List WatchEvent) × (later ≡ ok more)
behind-eq-ok first (ok more) h = (more, refl)
behind-eq-ok first (err e) h = cc

-- Where the loop does not raise, neither do its first round and the others.
rest-ok :
    (operation : TransactionOperation) (rest : List TransactionOperation) (R : ℕ)
    (s : FakeEtcdBackend) (first done : List TransactionResponse × List WatchEvent)
    → (run_operation operation R s).0 ≡ ok first
    → (run_operations (operation ∷ rest) R s).0 ≡ ok done
    → (more : List TransactionResponse × List WatchEvent) × ((run_operations rest R
          (run_operation operation R s).1).0
        ≡ ok more)
rest-ok operation rest R s first done e h =
    behind-eq-ok first (run_operations rest R (run_operation operation R s).1).0 (
      ap (λ (out : Outcome × FakeEtcdBackend). out.0) (sym (run_operations-ok operation rest R s e))
      ∙ h)

pub state-deleted_outcome :
    (out : Result (ℕ × List WatchEvent) × FakeEtcdBackend) → (deleted_outcome out).1 ≡ out.1
state-deleted_outcome (ok (n, events), s) = refl
state-deleted_outcome (err e, s) = refl

pub state-get_range :
    (request : RangeRequest) (R : ℕ) (s : FakeEtcdBackend)
    → (run_operation (get_range request) R s).1 ≡ s
unfolding run_operation
state-get_range request R s = ground arith

-- What one validated round gives.
record Round (s0 s : FakeEtcdBackend) (operation : TransactionOperation)
    (rest : List TransactionOperation) : Type 0 where
  written : List WriteRange
  running : IsRunning s0 written (run_operation operation (s0.revision + 1) s).1
  validated : validate_transaction s0.leases rest written ≡ ok tt
  values :
      (λ key.
        key_value_at (run_operation operation (s0.revision + 1) s).1.history key (s0.revision + 1))
      ≡ apply_operation operation
          (s0.revision + 1)
          (λ key. key_value_at s.history key (s0.revision + 1))

module _ (s0 : FakeEtcdBackend) (valid : IsHistory s0.revision s0.history) where
  round :
      (operation : TransactionOperation) (rest : List TransactionOperation)
      (written : List WriteRange) (s : FakeEtcdBackend)
      → validate_transaction s0.leases (operation ∷ rest) written ≡ ok tt
      → IsRunning s0 written s
      → Round s0 s operation rest
  unfolding validate_transaction run_operation
  round (put p) rest written s v running =
      let fresh : any (ranges_overlap (p.key, some (p.key ++ 0 ∷ []))) written ≡ false =
        ground arith in
      record {
        written = written ++ (p.key, some (p.key ++ 0 ∷ [])) ∷ [];
        running = put-IsRunning s0 s written valid running p fresh;
        validated = ground arith;
        values = fun_ext (view-put_unlocked s0 s written valid running p fresh);
      }
  round (delete_range d) rest written s v running =
      let fresh : any (ranges_overlap (d.start, d.end)) written ≡ false = ground arith in
      let same : (run_operation (delete_range d) (s0.revision + 1) s).1
          ≡ (delete_unlocked d (s0.revision + 1) s).1 =
        state-deleted_outcome (delete_unlocked d (s0.revision + 1) s) in
      record {
        written = written ++ (d.start, d.end) ∷ [];
        running = rw same (delete-IsRunning s0 s written valid running d fresh);
        validated = ground arith;
        values = rw same (fun_ext (view-delete_unlocked s0 s written valid running d fresh));
      }
  round (get_range q) rest written s v running = record {
    written = written;
    running = rw (state-get_range q (s0.revision + 1) s) running;
    validated = v;
    values = rw (state-get_range q (s0.revision + 1) s) (unfold apply_operation in refl);
  }

  -- After the loop, whether it ended or a round raised.
  pub run_operations-IsRunning :
      (operations : List TransactionOperation) (written : List WriteRange) (s : FakeEtcdBackend)
      → validate_transaction s0.leases operations written ≡ ok tt
      → IsRunning s0 written s
      → (w : List WriteRange) × IsRunning s0 w (run_operations operations (s0.revision + 1) s).1
  unfolding run_operations
  run_operations-IsRunning [] written s v running = (written, running)
  run_operations-IsRunning (operation ∷ rest) written s v running =
      let R : ℕ = s0.revision + 1 in
      let r : Round s0 s operation rest = round operation rest written s v running in
      elim (Result-cases (run_operation operation R s).0) [
        | inl (done, e) ↦ rw (run_operations-ok operation rest R s e) (
            run_operations-IsRunning rest r.written (run_operation operation R s).1 r.validated
              r.running)
        | inr (e, raised) ↦ rw (run_operations-err operation rest R s raised) (r.written, r.running)
      ]

  -- After a loop in which no round raised.
  pub run_operations-values :
      (operations : List TransactionOperation) (written : List WriteRange) (s : FakeEtcdBackend)
      → validate_transaction s0.leases operations written ≡ ok tt
      → IsRunning s0 written s
      → (done : List TransactionResponse × List WatchEvent)
      → (run_operations operations (s0.revision + 1) s).0 ≡ ok done
      → (λ key.
          key_value_at
            (run_operations operations (s0.revision + 1) s).1.history
            key
            (s0.revision + 1))
        ≡ apply_operations operations
            (s0.revision + 1)
            (λ key. key_value_at s.history key (s0.revision + 1))
  unfolding run_operations apply_operations
  run_operations-values [] written s v running done h = refl
  run_operations-values (operation ∷ rest) written s v running done h =
      let R : ℕ = s0.revision + 1 in
      let r : Round s0 s operation rest = round operation rest written s v running in
      elim (Result-cases (run_operation operation R s).0) [
        | inl (first, e) ↦
            let (more, h') = rest-ok operation rest R s first done e h in
            rw (run_operations-ok operation rest R s e) (
              run_operations-values rest r.written (run_operation operation R s).1 r.validated
                r.running more h'
              ∙ ap (apply_operations rest R) r.values)
        | inr (e, raised) ↦ cc (h, run_operations-err operation rest R s raised)
      ]
