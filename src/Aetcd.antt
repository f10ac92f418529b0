-- ===== src/Aetcd.antt =====
-- etcd_fsm/_aetcd_backend.py: the messages that the adapter sends and reads, with the fields that it sets
-- or reads, the translation of exceptions, and the client as an interface.
pub mod Calls
pub mod Watching
pub mod Refused
pub mod Answers
pub mod Agrees
use etcd_fsm.Common.{
  ℕ, ◌+◌, Bool, true, false, not, ◌&&◌, ◌||◌, Option, none, some, List, [], ◌∷◌, ◌++◌, map, ◌==◌,
  leb, ltb, is_empty, any, is_some, ℤ, pos, negsuc, codes, if◌then◌else◌,
}
use etcd_fsm.Bytes.{Bytes}
use etcd_fsm.Naming.{Text}
use etcd_fsm.Backend
use etcd_fsm.Backend.{
  KeyValue, RangeRequest, RangeResult, Compare, CompareTarget, CompareOperator, Operand, bytes, int,
  Put, DeleteRange, TransactionOperation, TransactionResponse, Error, Result, ok, err, ◌>>=◌,
}
use etcd_fsm.Fake.Reads.{next_key_after}

-- `rpc.RangeRequest`; the sort by ascending keys and the linearizable read are the same in every message.
pub record RangeMessage : Type 0 where
  pub key : Bytes
  pub range_end : Bytes
  pub limit : ℤ
  pub revision : ℕ

-- A key-value of a response or of a watch event.
pub record KeyValueMessage : Type 0 where
  pub key : Bytes
  pub value : Bytes
  pub create_revision : ℕ
  pub mod_revision : ℕ
  pub version : ℕ
  pub lease : ℕ

pub record RangeReply : Type 0 where
  pub kvs : List KeyValueMessage
  pub more : Bool
  pub header_revision : ℕ

-- The field of `rpc.Compare` that is set.
pub data TargetUnion : Type 0 where
  value : Bytes → TargetUnion
  create_revision mod_revision version lease : ℤ → TargetUnion

pub record CompareMessage : Type 0 where
  pub key : Bytes
  pub result : CompareOperator
  pub target : CompareTarget
  pub target_union : TargetUnion

pub data RequestOp : Type 0 where
  request_put : Bytes → Bytes → ℕ → RequestOp
  request_delete_range : Bytes → Bytes → RequestOp
  request_range : RangeMessage → RequestOp

-- `response_other` is any other kind that `WhichOneof` names, or none.
pub data ResponseOp : Type 0 where
  response_put response_other : ResponseOp
  response_delete_range : ℕ → ResponseOp
  response_range : List KeyValueMessage → Bool → ResponseOp

pub record TransactionMessage : Type 0 where
  pub compare : List CompareMessage
  pub success : List RequestOp
  pub failure : List RequestOp

pub record TransactionReply : Type 0 where
  pub succeeded : Bool
  pub responses : List ResponseOp
  pub header_revision : ℕ

-- An event of a watch: whether its kind is PUT, and its key-value.
pub record EventMessage : Type 0 where
  pub is_put : Bool
  pub kv : KeyValueMessage

-- What is told apart in an exception: a `BackendError`, a `RevisionCompactedError`, and the text of
-- `details()` or of the exception.
pub data Failure : Type 0 where
  backend : Error → Failure
  revision_compacted : ℕ → Failure
  with_details : Text → Failure

-- What a call of the client comes to.
pub data Attempt (A : Type 0) : Type 0 where
  answered : A → Attempt A
  raised : Failure → Attempt A

-- The client of the aetcd package: each call takes it, and the servers behind it, from state to state.
pub record Client (S : Type 0) : Type 0 where
  pub connect_call : S → Attempt (Unit {0}) × S
  pub range_call : RangeMessage → S → Attempt RangeReply × S
  pub transaction_call : TransactionMessage → S → Attempt TransactionReply × S
  pub lease_call : ℤ → S → Attempt (ℕ × ℕ) × S
  pub refresh_call : ℕ → S → Attempt (Option ℤ) × S
  pub revoke_call : ℕ → S → Attempt (Unit {0}) × S
  pub close_call : S → Attempt (Unit {0}) × S
  pub watch_call : Bytes → Option Bytes → ℕ → S → Attempt ℕ × S
  pub event_call : ℕ → S → Attempt (Option EventMessage) × S
  pub cancel_call : ℕ → S → S

-- `value or 0`, where 0 counts as missing on the way back.
abbrev pub or_zero : Option ℕ → ℕ
or_zero none = 0
or_zero (some n) = n

abbrev pub or_none : ℕ → Option ℕ
or_none n = if n == 0 then none else some n

-- `end or b""`
abbrev pub or_empty : Option Bytes → Bytes
or_empty none = []
or_empty (some end) = end

abbrev pub limit_or_zero : Option ℤ → ℤ
limit_or_zero none = pos 0
limit_or_zero (some limit) = limit

-- The numbers of 64 bits with a sign, which the int64 fields of protobuf messages take.
abbrev pub is_int64 : ℤ → Bool
is_int64 (pos n) = ltb n 0x8000_0000_0000_0000
is_int64 (negsuc n) = ltb n 0x8000_0000_0000_0000

-- Setting an int64 field: protobuf raises ValueError for a number out of range.
unfoldable pub check_int64 : ℤ → Result (Unit {0})
check_int64 n = if is_int64 n then ok tt else err Backend.value_error

-- `_range_request`
unfoldable pub range_request : RangeRequest → Result RangeMessage
unfolding check_int64
range_request request = do
  _ ← check_int64 (limit_or_zero request.limit)
  _ ← check_int64 (pos (or_zero request.revision))
  ok (record {
    key = request.start;
    range_end = or_empty request.end;
    limit = limit_or_zero request.limit;
    revision = or_zero request.revision;
  })

-- `setattr(message, field, compare.operand)`, of an int64 field.
abbrev pub set_field : (ℤ → TargetUnion) → ℤ → Result TargetUnion
set_field field operand = do _ ← check_int64 operand; ok (field operand)

-- The field for the operand of a compare, by the target.
unfoldable pub target_union : CompareTarget → Operand → Result TargetUnion
unfolding check_int64
target_union Backend.value (bytes operand) = ok (value operand)
target_union Backend.create_revision (int operand) = set_field create_revision operand
target_union Backend.mod_revision (int operand) = set_field mod_revision operand
target_union Backend.version (int operand) = set_field version operand
target_union Backend.lease (int operand) = set_field lease operand
target_union target _ = err (Backend.incompatible_operand target)

-- `_compare`
unfoldable pub compare_message : Compare → Result CompareMessage
unfolding target_union
compare_message compare = do
  field ← target_union compare.target compare.operand
  ok (record {
    key = compare.key;
    result = compare.operator;
    target = compare.target;
    target_union = field;
  })

-- `_operation`
unfoldable pub operation_message : TransactionOperation → Result RequestOp
unfolding range_request check_int64
operation_message (Backend.put p) = do
  _ ← check_int64 (pos (or_zero p.lease_id))
  ok (request_put p.key p.value (or_zero p.lease_id))
operation_message (Backend.delete_range d) = ok (request_delete_range d.start (or_empty d.end))
operation_message (Backend.get_range request) = do
  message ← range_request request
  ok (request_range message)

-- `_validate_transaction_operations`
unfoldable pub validate_transaction_operations : List TransactionOperation → Result (Unit {0})
validate_transaction_operations [] = ok tt
validate_transaction_operations (Backend.get_range request ∷ rest) =
    let later = validate_transaction_operations rest in
    if is_some request.revision then err Backend.historical_get_range else later
validate_transaction_operations (_ ∷ rest) = validate_transaction_operations rest

-- `_key_value`
unfoldable pub key_value : KeyValueMessage → KeyValue
key_value kv = record {
  key = kv.key;
  value = kv.value;
  create_revision = kv.create_revision;
  mod_revision = kv.mod_revision;
  version = kv.version;
  lease_id = or_none kv.lease;
}

-- The last lines of `range`, and those of `_transaction_response` for a range.
unfoldable pub range_result : List KeyValue → Bool → ℕ → Result RangeResult
range_result values more revision =
    if more && is_empty values
    then err Backend.empty_page
    else ok (record {
      values = values;
      revision = revision;
      more = more;
      next_key = if more then next_key_after values else none;
    })

-- `_transaction_response`
unfoldable pub transaction_response :
    TransactionOperation → ResponseOp → ℕ → Result TransactionResponse
unfolding range_result key_value
transaction_response (Backend.put p) response_put revision = ok (Backend.put_result p.key revision)
transaction_response (Backend.delete_range d) (response_delete_range deleted) revision =
    ok (Backend.delete_result deleted)
transaction_response (Backend.get_range request) (response_range kvs more) revision = do
  result ← range_result (map key_value kvs) more revision
  ok (Backend.range_result result)
transaction_response _ _ revision = err Backend.mismatched_response

-- `text.lower()`, of which the letters A to Z matter to the texts that are looked for.
abbrev pub lower : Text → Text
lower text = map (λ c. if leb 65 c && leb c 90 then c + 32 else c) text

abbrev pub starts_with : Text → Text → Bool
starts_with [] text = true
starts_with (c ∷ needle) [] = false
starts_with (c ∷ needle) (x ∷ text) = (c == x) && starts_with needle text

-- `needle in text`
unfoldable pub is_part : Text → Text → Bool
is_part needle [] = is_empty needle
is_part needle (x ∷ text) = starts_with needle (x ∷ text) || is_part needle text

-- What `_translate_error` makes of a text that no revision was requested with.
unfoldable pub translate_lease : Text → Option ℕ → Error
translate_lease details none = Backend.backend_error details
translate_lease details (some lease_id) =
    if is_part (codes "lease not found") (lower details)
    then Backend.lease_not_found lease_id
    else Backend.backend_error details

-- What `_translate_error` makes of a text.
unfoldable pub translate_details : Text → Option ℕ → Option ℕ → Error
unfolding translate_lease
translate_details details none lease_id = translate_lease details lease_id
translate_details details (some requested) lease_id =
    if is_part (codes "compacted") (lower details)
    then Backend.compacted_revision requested requested
    else if is_part (codes "future revision") (lower details)
    then Backend.future_revision requested 0
    else translate_lease details lease_id

-- `requested_revision or error.compacted_revision`
abbrev pub requested_or : Option ℕ → ℕ → ℕ
requested_or none compacted = compacted
requested_or (some requested) compacted = if requested == 0 then compacted else requested

-- `_translate_error`
unfoldable pub translate_error : Failure → Option ℕ → Option ℕ → Error
unfolding translate_details
translate_error (backend e) requested lease_id = e
translate_error (revision_compacted compacted) requested lease_id =
    Backend.compacted_revision (requested_or requested compacted) compacted
translate_error (with_details details) requested lease_id =
    translate_details details requested lease_id
