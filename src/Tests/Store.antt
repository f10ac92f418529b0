-- ===== src/Tests/Store.antt =====
-- The theorems on the in-memory backend, at the states of the tests.
use etcd_fsm.Common.{
  ◌++◌, filter_map, filter, leb, ℕ, ◌+◌, ◌≤◌, ◌≡◌, ◌==◌, ◌↔◌, ◌⊎◌, refl, true, none, some, [], ◌∷◌,
  pos, arith, if◌then◌else◌,
}
use etcd_fsm.Bytes.{Bytes, starts_with}
use etcd_fsm.Backend.{
  RangeRequest, WatchEvent, WatchEventKind, put, get_range, TransactionResult, Error, ok, err,
  historical_get_range, compacted_revision,
}
use etcd_fsm.Backend.Prefix.{prefix_range_end}
use etcd_fsm.Fake.{FakeEtcdBackend, key_value_at, publish, filter_batch}
use etcd_fsm.Fake.Keys.{key_in_range, ranges_overlap}
use etcd_fsm.Fake.Keys.Prefix
use etcd_fsm.Fake.Keys.Overlap
use etcd_fsm.Fake.History.{IsHistory}
use etcd_fsm.Fake.Reads.{values_at, page, range}
use etcd_fsm.Fake.Reads.Values
use etcd_fsm.Fake.Transaction.{lease_of, begin, transaction}
use etcd_fsm.Fake.Transaction.Spec.{view, put_value, apply_operations}
use etcd_fsm.Fake.Transaction.Refines
use etcd_fsm.Fake.Transaction.Atomic
use etcd_fsm.Fake.Transaction.Torn
use etcd_fsm.Fake.Transaction.Refused
use etcd_fsm.Fake.Leases.{attached, revoke_lease, advance_time}
use etcd_fsm.Fake.Leases.Revoke
use etcd_fsm.Fake.Leases.Advance
use etcd_fsm.Fake.Compaction.{compact}
use etcd_fsm.Fake.Compaction.Reads as CompactionReads
use etcd_fsm.Fake.Watching.{Subscription, watch, backlog_of}
use etcd_fsm.Fake.Watching.Steps.{pending}
use etcd_fsm.Fake.Watching.Delivery
use etcd_fsm.Fake.Watching.Delivery.{Watching, opened, published, other_opened}
use etcd_fsm.Tests.{
  program, orders, payments, put_payment, put_other, past_read, stored, is_first, rewrites,
  rewritten, stored-IsHistory, rewritten-IsHistory,
}

prefix_range_end-covers_example :
    key_in_range payments (b'/' ∷ []) (some (prefix_range_end (b'/' ∷ [])))
    ≡ starts_with payments (b'/' ∷ [])
prefix_range_end-covers_example =
    Prefix.prefix_range_end-covers (b'/' ∷ []) payments (omega arith) (omega arith)

all_255 : prefix_range_end (255 ∷ 255 ∷ []) ≡ 0 ∷ []
unfolding program
all_255 = refl

transaction-refines_example :
    view rewritten ≡ apply_operations rewrites (stored.revision + 1) (view stored)
unfolding program
transaction-refines_example =
    Refines.transaction-refines (is_first ∷ []) rewrites [] stored stored-IsHistory refl

transaction-old_example :
    key_value_at rewritten.history payments stored.revision
    ≡ key_value_at stored.history payments stored.revision
transaction-old_example =
    Refines.transaction-old (is_first ∷ []) rewrites [] stored payments stored.revision
      (omega arith)

transaction-IsHistory_example : IsHistory rewritten.revision rewritten.history
unfolding program
transaction-IsHistory_example =
    Refines.transaction-IsHistory (is_first ∷ []) rewrites [] stored stored-IsHistory refl

transaction_atomic_example :
    ((result : TransactionResult) × ((transaction (is_first ∷ []) rewrites [] stored).0
        ≡ ok result))
    ⊎ ((e : Error) × (begin (is_first ∷ []) rewrites [] stored ≡ err e)
        × (transaction (is_first ∷ []) rewrites [] stored ≡ (err e, stored)))
unfolding program
transaction_atomic_example =
    Atomic.transaction_atomic (is_first ∷ []) rewrites [] stored refl (tt, (tt, ((refl, refl), tt)))
      tt

torn_write_example :
    ((transaction [] (put put_other ∷ get_range past_read ∷ []) [] stored).0
      ≡ err historical_get_range)
    × (view
          (transaction []
            (put put_payment ∷ [])
            []
            (transaction [] (put put_other ∷ get_range past_read ∷ []) [] stored).1).1
          orders
        ≡ some (put_value put_other (stored.revision + 1) (view stored orders)))
unfolding program
torn_write_example =
    Torn.torn_write put_other put_payment past_read 0 stored refl refl refl refl refl

ranges_overlap_iff_example : (ranges_overlap (orders, none) (b'/' ∷ [], some (0 ∷ [])) ≡ true) ↔ (
    (key : Bytes) × (key_in_range key orders none ≡ true)
    × (key_in_range key (b'/' ∷ []) (some (0 ∷ [])) ≡ true))
unfolding program
ranges_overlap_iff_example =
    Overlap.ranges_overlap_iff (orders, none) (b'/' ∷ [], some (0 ∷ [])) ((λ e. cc), refl)
      ((λ e. cc), refl)

find_value-values_at_example :
    Values.find_value orders (values_at rewritten.history (b'/' ∷ []) (some (0 ∷ [])) 1) ≡ (
      if key_in_range orders (b'/' ∷ []) (some (0 ∷ []))
      then key_value_at rewritten.history orders 1
      else none)
find_value-values_at_example =
    Values.find_value-values_at rewritten.history (b'/' ∷ []) (some (0 ∷ [])) 1 orders

values_at-IsSorted_example :
    Values.IsSorted (Values.keys_of (values_at stored.history (b'/' ∷ []) (some (0 ∷ [])) 1))
values_at-IsSorted_example =
    Values.values_at-IsSorted stored.history (b'/' ∷ []) (some (0 ∷ [])) 1 stored-IsHistory.distinct

revoke_lease_lem_example :
    ((revoke_lease 1 stored).0 ≡ ok tt)
    × ((key : Bytes)
        → view (revoke_lease 1 stored).1 key
          ≡ (if attached 1 (view stored key) then none else view stored key))
    × ((key : Bytes) (r : ℕ)
        → r ≤ stored.revision
        → key_value_at (revoke_lease 1 stored).1.history key r ≡ key_value_at stored.history key r)
    × ((other : ℕ)
        → lease_of other (revoke_lease 1 stored).1.leases
          ≡ (if 1 == other then none else lease_of other stored.leases))
unfolding program
revoke_lease_lem_example =
    Revoke.revoke_lease_lem 1 stored stored-IsHistory ((refl, tt), (tt, tt)) refl refl

advance_time_lem_example :
    ((advance_time (pos 6000) stored).0 ≡ ok tt)
    × ((advance_time (pos 6000) stored).1.clock ≡ stored.clock + 6000)
    × ((key : Bytes)
        → view (advance_time (pos 6000) stored).1 key ≡ (
            if Advance.is_expired_value (stored.clock + 6000) stored.leases (view stored key)
            then none
            else view stored key))
    × ((key : Bytes) (r : ℕ)
        → r ≤ stored.revision
        → key_value_at (advance_time (pos 6000) stored).1.history key r
          ≡ key_value_at stored.history key r)
    × ((k : ℕ)
        → lease_of k (advance_time (pos 6000) stored).1.leases ≡ (
            if Advance.is_expired (stored.clock + 6000) stored.leases k
            then none
            else lease_of k stored.leases))
unfolding program
advance_time_lem_example =
    Advance.advance_time_lem 6000 stored stored-IsHistory ((refl, tt), (tt, tt)) refl

abbrev present_read : RangeRequest
present_read = record {
  start = b'/' ∷ [];
  end = some (0 ∷ []);
  revision = some 2;
  limit = some (pos 1);
}

range-compact_example : range (compact 1 rewritten).1 present_read ≡ range rewritten present_read
unfolding program
range-compact_example =
    CompactionReads.range-compact 1 rewritten refl (omega arith) (omega arith) present_read
      rewritten-IsHistory
      (λ r e. let two : some 2 ≡ some r = e in let same : 2 ≡ r = cc in omega arith)

range-compact_refused_example :
    range (compact 1 rewritten).1 past_read ≡ err (compacted_revision 0 1)
unfolding program
range-compact_refused_example =
    CompactionReads.range-compact_refused 1 rewritten refl (omega arith) (omega arith) past_read 0
      refl (omega arith) refl

abbrev all_read : RangeRequest
all_read = record { start = b'/' ∷ []; end = some (0 ∷ []); revision = none; limit = some (pos 1) }

-- The state after a compaction at its revision.
abbrev all_compacted : FakeEtcdBackend
all_compacted = (compact 1 stored).1

transaction-compacted_example :
    (range all_compacted all_read
      ≡ ok (page (values_at all_compacted.history (b'/' ∷ []) (some (0 ∷ [])) 1) 1 (some (pos 1))))
    × (transaction [] (get_range all_read ∷ []) [] all_compacted
        ≡ (err (compacted_revision 1 1), all_compacted))
unfolding program
transaction-compacted_example =
    Refused.transaction-compacted all_read all_compacted refl (omega arith) refl refl refl

-- A watch of the store from revision 1 on, another watch, of one key, and the next transaction.
abbrev watched : FakeEtcdBackend
watched = (watch payments none 1 (watch (b'/' ∷ []) (some (0 ∷ [])) 1 stored).1).1

abbrev subscription : Subscription
subscription = record {
  backlog = backlog_of stored.events (b'/' ∷ []) (some (0 ∷ [])) 1;
  watcher = record { start = b'/' ∷ []; end = some (0 ∷ []); queue = 0 };
}

abbrev put_event : WatchEvent
put_event = record {
  kind = WatchEventKind.put;
  key_value = put_value put_other 2 (view stored orders);
}

watching :
    Watching
      (b'/' ∷ [])
      (some (0 ∷ []))
      1
      stored
      []
      (record { events = put_event ∷ []; revision = 2 } ∷ [])
      subscription
      (publish (put_event ∷ []) 2 watched)
unfolding program watch backlog_of
watching = published put_event [] 2 (other_opened payments none 1 (opened refl) refl)

watch-delivers_example :
    pending subscription (publish (put_event ∷ []) 2 watched)
    ≡ filter_map
        (λ batch. filter_batch batch (b'/' ∷ []) (some (0 ∷ [])))
        (filter (λ batch. leb 1 batch.revision) stored.events)
      ++ filter_map
          (λ batch. filter_batch batch (b'/' ∷ []) (some (0 ∷ [])))
          (record { events = put_event ∷ []; revision = 2 } ∷ [])
unfolding program
watch-delivers_example =
    Delivery.watch-delivers (b'/' ∷ []) (some (0 ∷ [])) 1 stored tt refl watching
