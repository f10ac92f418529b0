-- ===== src/Fake/Watching.antt =====
-- etcd_fsm/_fake_backend.py: `_watch` and `close`. The generator's first step registers a watcher
-- under the lock and takes the backlog; its later steps yield the backlog, then what the queue
-- holds, and end at `None`.
pub mod Told
pub mod Steps
pub mod Delivery
use etcd_fsm.Common.{
  ℕ, ◌+◌, true, Option, none, some, List, [], ◌∷◌, ◌++◌, ◌&&◌, not, ltb, leb, ◌==◌, if◌then◌else◌,
  filter, filter_map,
}
use etcd_fsm.Bytes.{Bytes}
use etcd_fsm.Backend.{WatchBatch, Result, ok, err, compacted_revision}
use etcd_fsm.Fake.{FakeEtcdBackend, Watcher, Queues, ensure_open, filter_batch, put_nowait}

-- The generator's own state: the batches of the backlog that it has not yielded, and its watcher.
pub record Subscription : Type 0 where
  pub backlog : List WatchBatch
  pub watcher : Watcher

-- The batches of the log from a revision on, in the range.
unfoldable pub backlog_of : List WatchBatch → Bytes → Option Bytes → ℕ → List WatchBatch
backlog_of events start end start_revision =
    filter_map
      (λ batch. if leb start_revision batch.revision then filter_batch batch start end else none)
      events

-- The part of `_watch` up to the first `yield`
unfoldable pub watch :
    Bytes → Option Bytes → ℕ → FakeEtcdBackend → Result Subscription × FakeEtcdBackend
watch start end start_revision s = elim (ensure_open s) [
  | err e ↦ (err e, s)
  | ok _ ↦
      if ltb 0 s.compacted_revision && leb start_revision s.compacted_revision
      then (err (compacted_revision start_revision s.compacted_revision), s)
      else let watcher : Watcher = record { start = start; end = end; queue = s.next_queue } in
        (
          ok (record { backlog = backlog_of s.events start end start_revision; watcher = watcher }),
          record s { watchers = s.watchers ++ watcher ∷ []; next_queue = s.next_queue + 1 },
        )
]

-- `self._watchers.discard(watcher)`; a watcher is told from others by its queue
unfoldable pub discard : Watcher → List Watcher → List Watcher
discard watcher = filter (λ other. not (other.queue == watcher.queue))

-- `queue.get()` of a queue that holds something
unfoldable pub set_queue : ℕ → List (Option WatchBatch) → Queues → Queues
set_queue queue items queues q = if q == queue then items else queues q

-- What one step of the generator does.
pub data Step : Type 0 where
  yield_batch : WatchBatch → Subscription → Step
  wait stop : Step

abbrev pub take_item :
    Subscription → List (Option WatchBatch) → FakeEtcdBackend → Step × FakeEtcdBackend
take_item sub [] s = (wait, s)
take_item sub (some batch ∷ rest) s =
    (yield_batch batch sub, record s { queues = set_queue sub.watcher.queue rest s.queues })
take_item sub (none ∷ rest) s = (
  stop,
  record s {
    queues = set_queue sub.watcher.queue rest s.queues;
    watchers = discard sub.watcher s.watchers;
  },
)

abbrev pub next_of : List WatchBatch → Subscription → FakeEtcdBackend → Step × FakeEtcdBackend
next_of (batch ∷ rest) sub s = (yield_batch batch (record sub { backlog = rest }), s)
next_of [] sub s = take_item sub (s.queues sub.watcher.queue) s

-- The loops of `_watch` up to the next `yield`, the wait, or the return with its `finally`
unfoldable pub next : Subscription → FakeEtcdBackend → Step × FakeEtcdBackend
next sub s = next_of sub.backlog sub s

-- The loop of `close` over the watchers.
unfoldable pub end_all : List Watcher → Queues → Queues
end_all [] queues = queues
end_all (watcher ∷ rest) queues = end_all rest (put_nowait watcher.queue none queues)

-- `close`
unfoldable pub close : FakeEtcdBackend → FakeEtcdBackend
close s =
    if s.closed
    then s
    else record s { closed = true; queues = end_all s.watchers s.queues; watchers = [] }
