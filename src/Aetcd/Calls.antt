-- ===== src/Aetcd/Calls.antt =====
-- The methods of `AetcdBackend` in etcd_fsm/_aetcd_backend.py, which call the client.
use etcd_fsm.Common.{
  ℕ, zero, suc, Bool, true, false, not, Option, none, some, List, [], ◌∷◌, map, ◌==◌, length, ℤ,
  pos, negsuc, if◌then◌else◌,
}
use etcd_fsm.Backend
use etcd_fsm.Backend.{
  RangeRequest, RangeResult, Compare, Lease, TransactionOperation, TransactionResponse,
  TransactionResult, Error, Result, ok, err,
}
use etcd_fsm.Aetcd.{
  Client, Attempt, answered, raised, RangeReply, TransactionReply, TransactionMessage, ResponseOp,
  translate_error, or_zero, range_request, key_value, range_result, compare_message,
  operation_message, validate_transaction_operations, transaction_response,
}

-- A method: from the client's state to a result, or the exception, and the next state.
abbrev pub Action : Type 0 → Type 0 → Type 0
Action S A = S → Result A × S

module _ {S : Type 0} where
  abbrev pub done : {A : Type 0} → Result A → Action S A
  done result s = (result, s)

  abbrev pub carry_on : {A B : Type 0} → (A → Action S B) → Result A × S → Result B × S
  carry_on f (ok a, s) = f a s
  carry_on f (err e, s) = (err e, s)

  infixl 5 ◌>>=◌
  abbrev pub ◌>>=◌ : {A B : Type 0} → Action S A → (A → Action S B) → Action S B
  (m >>= f) s = carry_on f (m s)

  -- A call of the client whose exceptions are translated.
  abbrev pub attempt : {A : Type 0} → Option ℕ → Option ℕ → (S → Attempt A × S) → Action S A
  attempt requested lease_id call s = translated (call s)
    where
      translated : {A : Type 0} → Attempt A × S → Result A × S
      translated (answered a, next) = (ok a, next)
      translated (raised failure, next) = (err (translate_error failure requested lease_id), next)

-- The signs that are checked before a call: `limit <= 0` and `ttl <= 0`.
abbrev pub is_positive : ℤ → Bool
is_positive (pos zero) = false
is_positive (pos (suc n)) = true
is_positive (negsuc n) = false

unfoldable pub check_request_limit : Option ℤ → Result (Unit {0})
check_request_limit none = ok tt
check_request_limit (some limit) = if is_positive limit then ok tt else err Backend.value_error

-- The last lines of `range`: `request.revision or response.header.revision`.
unfoldable pub read_reply : RangeRequest → RangeReply → Result RangeResult
read_reply request reply =
    range_result (map key_value reply.kvs) reply.more
      (if or_zero request.revision == 0 then reply.header_revision else or_zero request.revision)

-- `[f(item) for item in items]`, which stops at the first that raises.
unfoldable pub each_message : {A B : Type 0} → (A → Result B) → List A → Result (List B)
each_message f [] = ok []
each_message f (a ∷ rest) =
    Backend.◌>>=◌ (f a)
      (λ message. Backend.◌>>=◌ (each_message f rest) (λ later. ok (message ∷ later)))

-- `rpc.TxnRequest`
unfoldable pub transaction_message :
    List Compare → List TransactionOperation → List TransactionOperation → Result TransactionMessage
transaction_message compares success failure =
    Backend.◌>>=◌ (each_message compare_message compares) (λ compare_messages.
      Backend.◌>>=◌ (each_message operation_message success) (λ success_messages.
        Backend.◌>>=◌ (each_message operation_message failure) (λ failure_messages. ok (record {
          compare = compare_messages;
          success = success_messages;
          failure = failure_messages;
        }))))

-- The responses to the operations, one for each.
unfoldable pub transaction_responses :
    List TransactionOperation → List ResponseOp → ℕ → Result (List TransactionResponse)
transaction_responses [] [] revision = ok []
transaction_responses (operation ∷ operations) (item ∷ items) revision =
    Backend.◌>>=◌ (transaction_response operation item revision) (λ response.
      Backend.◌>>=◌ (transaction_responses operations items revision)
        (λ later. ok (response ∷ later)))
transaction_responses _ _ revision = err Backend.unexpected_response_count

-- The last lines of `transaction`.
unfoldable pub read_transaction :
    List TransactionOperation
    → List TransactionOperation
    → TransactionReply
    → Result TransactionResult
read_transaction success failure reply =
    let selected = if reply.succeeded then success else failure in
    if not (length selected == length reply.responses)
    then err Backend.unexpected_response_count
    else Backend.◌>>=◌ (transaction_responses selected reply.responses reply.header_revision)
        (λ responses. ok (record {
          succeeded = reply.succeeded;
          responses = responses;
          revision = reply.header_revision;
        }))

-- The lease that `refresh_lease` answers with, if it is still held.
unfoldable pub read_refresh : ℕ → Option ℤ → Result ℤ
read_refresh lease_id none = err (Backend.lease_not_found lease_id)
read_refresh lease_id (some ttl) =
    if is_positive ttl then ok ttl else err (Backend.lease_not_found lease_id)

module _ {S : Type 0} (client : Client S) where
  -- `connect`
  unfoldable pub aetcd_connect : Action S (Unit {0})
  aetcd_connect = attempt none none client.connect_call

  -- `range`
  unfoldable pub aetcd_range : RangeRequest → Action S RangeResult
  unfolding aetcd_connect
  aetcd_range request = do
    _ ← done (check_request_limit request.limit)
    _ ← aetcd_connect
    message ← done (range_request request)
    reply ← attempt request.revision none (client.range_call message)
    done (read_reply request reply)

  -- `transaction`
  unfoldable pub aetcd_transaction :
      List Compare
      → List TransactionOperation
      → List TransactionOperation
      → Action S TransactionResult
  unfolding aetcd_connect
  aetcd_transaction compares success failure = do
    _ ← done (validate_transaction_operations success)
    _ ← done (validate_transaction_operations failure)
    _ ← aetcd_connect
    message ← done (transaction_message compares success failure)
    reply ← attempt none none (client.transaction_call message)
    done (read_transaction success failure reply)

  -- `grant_lease`
  unfoldable pub aetcd_grant_lease : ℤ → Action S Lease
  unfolding aetcd_connect
  aetcd_grant_lease ttl = do
    _ ← done (check_request_limit (some ttl))
    _ ← aetcd_connect
    lease ← attempt none none (client.lease_call ttl)
    done (ok (record { id = lease.0; ttl = lease.1 }))

  -- `keep_alive`
  unfoldable pub aetcd_keep_alive : ℕ → Action S ℤ
  unfolding aetcd_connect
  aetcd_keep_alive lease_id = do
    _ ← aetcd_connect
    response ← attempt none (some lease_id) (client.refresh_call lease_id)
    done (read_refresh lease_id response)

  -- `revoke_lease`
  unfoldable pub aetcd_revoke_lease : ℕ → Action S (Unit {0})
  unfolding aetcd_connect
  aetcd_revoke_lease lease_id = do
    _ ← aetcd_connect
    attempt none (some lease_id) (client.revoke_call lease_id)

  -- `close`
  unfoldable pub aetcd_close : Action S (Unit {0})
  aetcd_close = attempt none none client.close_call
