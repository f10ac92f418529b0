-- ===== src/Aetcd/Refused.antt =====
-- What the adapter of etcd_fsm/_aetcd_backend.py refuses before it calls the client, and what it refuses as the
-- in-memory backend does.
use etcd_fsm.Common.{
  ◌≡◌, refl, sym, ap, ◌∙◌, Bool, true, false, not, ◌||◌, ◌&&◌, ℤ, Option, none, some, List, [], ◌∷◌,
  any, is_some, if◌then◌else◌, arith, Bool-cases, Option-cases, inl, inr,
}
use etcd_fsm.Backend
use etcd_fsm.Backend.{
  Compare, CompareTarget, CompareOperator, Operand, bytes, int, TransactionOperation,
  TransactionResult, Result, ok, err, KeyValue, RangeRequest,
}
use etcd_fsm.Fake.{FakeEtcdBackend, key_value_at}
use etcd_fsm.Fake.Reads.{actual_of, compare_operands, compare_unlocked}
use etcd_fsm.Aetcd.{
  TargetUnion, create_revision, mod_revision, version, lease, is_int64, check_int64, set_field,
  Client, target_union, compare_message, validate_transaction_operations,
}
use etcd_fsm.Aetcd.Calls.{aetcd_transaction}

abbrev pub is_ok {ℓ} : {A : Type ℓ} → Result A → Bool
is_ok (ok a) = true
is_ok (err e) = false

-- A read that names a revision.
abbrev pub is_historical : TransactionOperation → Bool
is_historical (Backend.get_range request) = is_some request.revision
is_historical _ = false

validate-historical :
    (operations : List TransactionOperation)
    → any is_historical operations ≡ true
    → validate_transaction_operations operations ≡ err Backend.historical_get_range
unfolding any validate_transaction_operations
validate-historical [] h = cc
validate-historical (Backend.put p ∷ rest) h = validate-historical rest h
validate-historical (Backend.delete_range d ∷ rest) h = validate-historical rest h
validate-historical (Backend.get_range request ∷ rest) h =
    elim (Bool-cases (is_some request.revision)) [
      | inl past ↦ rw (past, validate_transaction_operations) refl
      | inr now ↦
          rw (now, validate_transaction_operations) (validate-historical rest (ground arith))
    ]

validate-current :
    (operations : List TransactionOperation)
    → any is_historical operations ≡ false
    → validate_transaction_operations operations ≡ ok tt
unfolding any validate_transaction_operations
validate-current [] h = refl
validate-current (Backend.put p ∷ rest) h = validate-current rest h
validate-current (Backend.delete_range d ∷ rest) h = validate-current rest h
validate-current (Backend.get_range request ∷ rest) h =
    elim (Bool-cases (is_some request.revision)) [
      | inl past ↦ cc
      | inr now ↦ rw (now, validate_transaction_operations) (validate-current rest (ground arith))
    ]

-- A transaction with a read that names a revision, in either branch, raises before any call of the client.
pub aetcd_transaction-historical :
    {S : Type 0} (client : Client S) (compares : List Compare)
    (success failure : List TransactionOperation) (s : S)
    → (any is_historical success || any is_historical failure) ≡ true
    → aetcd_transaction client compares success failure s ≡ (err Backend.historical_get_range, s)
unfolding aetcd_transaction
aetcd_transaction-historical client compares success failure s h =
    elim (Bool-cases (any is_historical success)) [
      | inl past ↦ rw (validate-historical success past, aetcd_transaction) refl
      | inr now ↦
          rw (validate-current success now, aetcd_transaction)
            (rw (validate-historical failure (ground arith)) refl)
    ]

-- Whether the value that a compare looks at is bytes.
is_bytes : Operand → Bool
is_bytes (bytes b) = true
is_bytes (int n) = false

actual_of-bytes :
    (target : CompareTarget) (current : Option KeyValue)
    → is_bytes (actual_of target current) ≡ is_bytes (actual_of target none)
unfolding actual_of is_bytes
actual_of-bytes Backend.value none = refl
actual_of-bytes Backend.create_revision none = refl
actual_of-bytes Backend.mod_revision none = refl
actual_of-bytes Backend.version none = refl
actual_of-bytes Backend.lease none = refl
actual_of-bytes Backend.value (some current) = refl
actual_of-bytes Backend.create_revision (some current) = refl
actual_of-bytes Backend.mod_revision (some current) = refl
actual_of-bytes Backend.version (some current) = refl
actual_of-bytes Backend.lease (some current) = elim (Option-cases current.lease_id) [
  | inl free ↦ rw (free, actual_of) refl
  | inr held ↦ rw (held.1, actual_of) refl
]

compare_operands-ok :
    (target : CompareTarget) (operator : CompareOperator) (actual operand : Operand)
    → is_ok (compare_operands target operator actual operand)
      ≡ (if is_bytes actual then is_bytes operand else not (is_bytes operand))
unfolding compare_operands is_bytes
compare_operands-ok target operator (bytes a) (bytes b) = refl
compare_operands-ok target operator (int a) (int b) = refl
compare_operands-ok target operator (bytes a) (int b) = refl
compare_operands-ok target operator (int a) (bytes b) = refl

-- An operand that is a number of 64 bits with a sign, or bytes.
abbrev pub fits : Operand → Bool
fits (bytes b) = true
fits (int n) = is_int64 n

set_field-ok : (field : ℤ → TargetUnion) (n : ℤ) → is_ok (set_field field n) ≡ (true && is_int64 n)
unfolding check_int64
set_field-ok field n = elim (Bool-cases (is_int64 n)) [
  | inl inside ↦ rw (inside, check_int64) refl
  | inr outside ↦ rw (outside, check_int64) refl
]

target_union-bytes :
    (target : CompareTarget) (operand : Operand)
    → is_ok (target_union target operand) ≡ (
        (if is_bytes (actual_of target none) then is_bytes operand else not (is_bytes operand))
        && fits operand)
unfolding target_union actual_of is_bytes
target_union-bytes Backend.value (bytes b) = refl
target_union-bytes Backend.value (int b) = refl
target_union-bytes Backend.create_revision (bytes b) = refl
target_union-bytes Backend.create_revision (int b) = set_field-ok create_revision b
target_union-bytes Backend.mod_revision (bytes b) = refl
target_union-bytes Backend.mod_revision (int b) = set_field-ok mod_revision b
target_union-bytes Backend.version (bytes b) = refl
target_union-bytes Backend.version (int b) = set_field-ok version b
target_union-bytes Backend.lease (bytes b) = refl
target_union-bytes Backend.lease (int b) = set_field-ok lease b

is_ok-then :
    {A : Type 0} {B : Type 0} (r : Result A) (f : A → B)
    → is_ok (Backend.◌>>=◌ r (λ a. ok (f a))) ≡ is_ok r
is_ok-then (ok a) f = refl
is_ok-then (err e) f = refl

target_union-ok :
    (target : CompareTarget) (operator : CompareOperator) (operand : Operand)
    (current : Option KeyValue)
    → is_ok (target_union target operand) ≡ (
        is_ok (compare_operands target operator (actual_of target current) operand) && fits operand)
target_union-ok target operator operand current =
    target_union-bytes target operand
    ∙ ap (λ b. (if b then is_bytes operand else not (is_bytes operand)) && fits operand)
        (sym (actual_of-bytes target current))
    ∙ ap (λ b. b && fits operand)
        (sym (compare_operands-ok target operator (actual_of target current) operand))

-- The adapter builds the message of a compare exactly if the in-memory backend evaluates it, in any state, and
-- its operand, where it is an int, is one of 64 bits with a sign.
pub compare_message-ok :
    (c : Compare) (s : FakeEtcdBackend)
    → is_ok (compare_message c) ≡ (is_ok (compare_unlocked s c) && fits c.operand)
unfolding compare_message compare_unlocked
compare_message-ok c s =
    is_ok-then (target_union c.target c.operand) _
    ∙ target_union-ok c.target c.operator c.operand (key_value_at s.history c.key s.revision)
