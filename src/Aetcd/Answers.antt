-- ===== src/Aetcd/Answers.antt =====
-- The result of a transaction of the adapter in etcd_fsm/_aetcd_backend.py.
use etcd_fsm.Common.{
  ℕ, ◌≡◌, refl, sym, ap, subst, Bool, not, none, List, [], ◌∷◌, map, ◌==◌, length, is_empty, ◌&&◌,
  if◌then◌else◌, Bool-cases, inl, inr,
}
use etcd_fsm.Backend
use etcd_fsm.Backend.{
  Compare, TransactionOperation, TransactionResponse, TransactionResult, RangeRequest, RangeResult,
  KeyValue, Result, ok, err,
}
use etcd_fsm.Backend.Chains.{then-ok, ok_inj}
use etcd_fsm.Aetcd.{
  Client, ResponseOp, TransactionReply, response_put, response_delete_range, response_range,
  key_value, range_result, transaction_response, validate_transaction_operations,
}
use etcd_fsm.Aetcd.Calls.{
  Action, carry_on, done, attempt, aetcd_connect, aetcd_transaction, transaction_message,
  transaction_responses, read_transaction,
}

-- The response is one for the operation, at the revision of the transaction.
unfoldable pub Answers : ℕ → TransactionOperation → TransactionResponse → Type 0
Answers revision (Backend.put p) response = response ≡ Backend.put_result p.key revision
Answers revision (Backend.delete_range d) response =
    (deleted : ℕ) × (response ≡ Backend.delete_result deleted)
Answers revision (Backend.get_range request) response =
    (result : RangeResult) × (response ≡ Backend.range_result result) × (result.revision ≡ revision)

-- One response for each operation, in order.
abbrev pub AllAnswers : ℕ → List TransactionOperation → List TransactionResponse → Type 0
AllAnswers revision [] [] = Unit
AllAnswers revision (operation ∷ operations) (response ∷ responses) =
    Answers revision operation response × AllAnswers revision operations responses
AllAnswers revision _ _ = ⊥

range_result-revision :
    (values : List KeyValue) (more : Bool) (revision : ℕ) (result : RangeResult)
    → range_result values more revision ≡ ok result
    → result.revision ≡ revision
unfolding range_result
range_result-revision values more revision result h = elim (Bool-cases (more && is_empty values)) [
  | inl empty ↦ let refusal = rw (empty, range_result) at h in cc
  | inr some_values ↦ ap (λ r. r.revision) (sym (ok_inj (rw (some_values, range_result) at h)))
]

transaction_response-Answers :
    (operation : TransactionOperation) (item : ResponseOp) (revision : ℕ)
    (response : TransactionResponse)
    → transaction_response operation item revision ≡ ok response
    → Answers revision operation response
unfolding transaction_response Answers
transaction_response-Answers (Backend.put p) response_put revision response h = sym (ok_inj h)
transaction_response-Answers (Backend.delete_range d) (response_delete_range deleted) revision
      response h =
    (deleted, sym (ok_inj h))
transaction_response-Answers (Backend.get_range request) (response_range kvs more) revision response
      h =
    let (result, e, k) = then-ok (range_result (map key_value kvs) more revision) _ response h in
    (result, sym (ok_inj k), range_result-revision (map key_value kvs) more revision result e)
transaction_response-Answers _ _ revision response h = cc

transaction_responses-AllAnswers :
    (operations : List TransactionOperation) (items : List ResponseOp) (revision : ℕ)
    (responses : List TransactionResponse)
    → transaction_responses operations items revision ≡ ok responses
    → AllAnswers revision operations responses
unfolding transaction_responses
transaction_responses-AllAnswers [] [] revision responses h =
    subst (AllAnswers revision []) (ok_inj h) tt
transaction_responses-AllAnswers (operation ∷ operations) (item ∷ items) revision responses h =
    let (response, e, h1) = then-ok (transaction_response operation item revision) _ responses h in
    let (later, e', h2) =
      then-ok (transaction_responses operations items revision) _ responses h1 in
    subst (AllAnswers revision (operation ∷ operations)) (ok_inj h2) (
      transaction_response-Answers operation item revision response e,
      transaction_responses-AllAnswers operations items revision later e',
    )
transaction_responses-AllAnswers _ _ revision responses h = cc

read_transaction-AllAnswers :
    (success failure : List TransactionOperation) (reply : TransactionReply)
    (result : TransactionResult)
    → read_transaction success failure reply ≡ ok result
    → AllAnswers result.revision (if result.succeeded then success else failure) result.responses
unfolding read_transaction
read_transaction-AllAnswers success failure reply result h =
    let selected = if reply.succeeded then success else failure in
    elim (Bool-cases (not (length selected == length reply.responses))) [
      | inl other_count ↦ let refusal = rw (other_count, read_transaction) at h in cc
      | inr same_count ↦
          let (responses, e, h1) =
            then-ok (transaction_responses selected reply.responses reply.header_revision) _ result
              (rw (same_count, read_transaction) at h) in
          subst (λ r. AllAnswers r.revision (if r.succeeded then success else failure) r.responses)
            (ok_inj h1)
            (transaction_responses-AllAnswers selected reply.responses reply.header_revision
              responses e)
    ]

-- What a chain of two actions that is ok went through.
carried :
    {S A B : Type 0} (f : A → Action S B) (step : Result A × S) (b : B) (last : S)
    → carry_on f step ≡ (ok b, last)
    → (a : A) × (next : S) × (step ≡ (ok a, next)) × (f a next ≡ (ok b, last))
carried f (ok a, next) b last h = (a, next, refl, h)
carried f (err e, next) b last h = elim (err_apart e b (ap (λ x. x.0) h)) [ ]
  where
    err_apart : {A : Type 0} (e : Backend.Error) (a : A) → err e ≡ ok a → ⊥
    err_apart e a h = cc

-- A transaction that returns has one response for each operation of the branch that was taken, of its kind
-- and in order, and all of them at the revision of the transaction.
pub aetcd_transaction-AllAnswers :
    {S : Type 0} (client : Client S) (compares : List Compare)
    (success failure : List TransactionOperation) (s last : S) (result : TransactionResult)
    → aetcd_transaction client compares success failure s ≡ (ok result, last)
    → AllAnswers result.revision (if result.succeeded then success else failure) result.responses
unfolding aetcd_transaction
aetcd_transaction-AllAnswers client compares success failure s last result h =
    let (_, s1, _, h1) =
      carried _ (done (validate_transaction_operations success) s) result last h in
    let (_, s2, _, h2) =
      carried _ (done (validate_transaction_operations failure) s1) result last h1 in
    let (_, s3, _, h3) = carried _ (aetcd_connect client s2) result last h2 in
    let (message, s4, _, h4) =
      carried _ (done (transaction_message compares success failure) s3) result last h3 in
    let (reply, s5, _, h5) =
      carried _ (attempt none none (client.transaction_call message) s4) result last h4 in
    read_transaction-AllAnswers success failure reply result (ap (λ x. x.0) h5)
