-- ===== src/Tests/Adapter.antt =====
-- The theorems on the adapter to etcd and on the pages of a range, with a client that reads from the backend of
-- the tests.
use etcd_fsm.Common.{ℕ, suc, ◌≡◌, refl, true, ◌&&◌, none, some, [], ◌∷◌, ◌++◌, map, pos, any, codes}
use etcd_fsm.Backend
use etcd_fsm.Backend.{
  KeyValue, RangeRequest, RangeResult, TransactionResult, TransactionOperation, Result, ok, err,
  put, get_range, put_result,
}
use etcd_fsm.Fake.{FakeEtcdBackend}
use etcd_fsm.Fake.Reads.{range, values_at, compare_unlocked}
use etcd_fsm.Fake.Reads.Pages
use etcd_fsm.Fake.Reads.Pages.{IsPage}
use etcd_fsm.Aetcd.{
  Client, Attempt, answered, raised, with_details, RangeReply, EventMessage, response_put,
  check_int64, compare_message, target_union, operation_message, validate_transaction_operations,
  transaction_response,
}
use etcd_fsm.Aetcd.Calls.{
  aetcd_connect, aetcd_range, aetcd_transaction, transaction_message, each_message,
  transaction_responses, read_transaction,
}
use etcd_fsm.Aetcd.Watching
use etcd_fsm.Aetcd.Watching.{watch_events, event_batch, given_events}
use etcd_fsm.Aetcd.Refused
use etcd_fsm.Aetcd.Answers
use etcd_fsm.Aetcd.Answers.{AllAnswers}
use etcd_fsm.Aetcd.Agrees
use etcd_fsm.Aetcd.Agrees.{value_message, request_of, Serves, IsPlain}
use etcd_fsm.Tests.{program, stored, orders, is_first, put_other, past_read}

abbrev reply_of : FakeEtcdBackend → Result RangeResult → Attempt RangeReply
reply_of fake (ok result) = answered (record {
  kvs = map value_message result.values;
  more = result.more;
  header_revision = fake.revision;
})
reply_of fake (err e) = raised (with_details (codes "error"))

-- An order that was put.
abbrev event : EventMessage
event = record {
  is_put = true;
  kv = record {
    key = orders;
    value = 1 ∷ [];
    create_revision = 1;
    mod_revision = 1;
    version = 1;
    lease = 0;
  };
}

-- A client whose state is the number of watches that were cancelled.
abbrev reader : FakeEtcdBackend → Client ℕ
reader fake = record {
  connect_call = λ s. (answered tt, s);
  range_call = λ message s. (reply_of fake (range fake (request_of message)), s);
  transaction_call = λ message s. (
    answered (record { succeeded = true; responses = response_put ∷ []; header_revision = 2 }),
    s,
  );
  lease_call = λ ttl s. (answered (1, 5), s);
  refresh_call = λ lease_id s. (answered (some (pos 5)), s);
  revoke_call = λ lease_id s. (answered tt, s);
  close_call = λ s. (answered tt, s);
  watch_call = λ start end revision s. (answered 1, s);
  event_call = λ handle s. (answered (some event), s);
  cancel_call = λ handle s. suc s;
}

-- One value of all keys from the slash on.
abbrev first_request : RangeRequest
first_request = record {
  start = b'/' ∷ [];
  end = some (0 ∷ []);
  revision = none;
  limit = some (pos 1);
}

abbrev first_page : RangeResult
first_page = record {
  values =
      record {
        key = orders;
        value = 1 ∷ [];
        create_revision = 1;
        mod_revision = 1;
        version = 1;
        lease_id = some 1;
      }
      ∷ [];
  revision = 1;
  more = true;
  next_key = some (orders ++ 0 ∷ []);
}

range-IsPage_example : IsPage 1 (values_at stored.history (b'/' ∷ []) (some (0 ∷ [])) 1) first_page
unfolding program
range-IsPage_example = Pages.range-IsPage stored first_request first_page 1 refl refl

reader-Serves : Serves (reader stored) stored 0
unfolding Serves
reader-Serves = (refl, λ message result h. rw h refl)

plain : IsPlain first_request
unfolding IsPlain
plain = ((λ h. cc), (λ h. cc), refl, refl)

aetcd_range-agrees_example : aetcd_range (reader stored) first_request 0 ≡ (ok first_page, 0)
unfolding program
aetcd_range-agrees_example =
    Agrees.aetcd_range-agrees (reader stored) stored 0 first_request first_page reader-Serves plain
      ((λ h. cc), tt) refl

aetcd_transaction-historical_example :
    aetcd_transaction (reader stored) [] (get_range past_read ∷ []) [] 0
    ≡ (err Backend.historical_get_range, 0)
unfolding any
aetcd_transaction-historical_example =
    Refused.aetcd_transaction-historical (reader stored) [] (get_range past_read ∷ []) [] 0 refl

compare_message-ok_example :
    Refused.is_ok (compare_message is_first)
    ≡ (Refused.is_ok (compare_unlocked stored is_first) && Refused.fits is_first.operand)
compare_message-ok_example = Refused.compare_message-ok is_first stored

aetcd_transaction-AllAnswers_example : AllAnswers 2 (put put_other ∷ []) (put_result orders 2 ∷ [])
unfolding aetcd_transaction aetcd_connect validate_transaction_operations transaction_message
    each_message check_int64 compare_message target_union operation_message read_transaction
    transaction_responses transaction_response
aetcd_transaction-AllAnswers_example =
    Answers.aetcd_transaction-AllAnswers (reader stored) (is_first ∷ []) (put put_other ∷ []) [] 0 0
      (record { succeeded = true; responses = put_result orders 2 ∷ []; revision = 2 }) refl

watch_events_lem_example :
    ((watch_events (reader stored) 1 1 2 0).0.batches
      ≡ map event_batch (given_events (reader stored) 1 2 0).0)
    × ((watch_events (reader stored) 1 1 2 0).1
        ≡ (reader stored).cancel_call 1 (given_events (reader stored) 1 2 0).1)
watch_events_lem_example = Watching.watch_events_lem (reader stored) 1 1 2 0
