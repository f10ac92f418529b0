-- ===== src/Fake/Watching/Steps.antt =====
-- The steps of a watch in etcd_fsm/_fake_backend.py: what a watch opens with, what a step takes from it, and
-- that other watches leave its queue alone.
use etcd_fsm.Common.{
  filter_map-none, filter_map-some, if◌then◌else◌, ℕ, ◌+◌, ◌<◌, ◌≤◌, filter, ◌&&◌, ltb, leb, ◌≡◌,
  refl, sym, ap, ◌∙◌, subst, true, false, Option, none, some, List, [], ◌∷◌, ◌++◌, append-nil, ◌==◌,
  filter_map, arith, Bool-cases, Option-cases, inl, inr,
}
use etcd_fsm.Bytes.{Bytes}
use etcd_fsm.Backend.{WatchBatch, ok}
use etcd_fsm.Fake.{FakeEtcdBackend, ensure_open, Watcher, filter_batch}
use etcd_fsm.Fake.Watching.Told.{items, own, own-append, Spares}
use etcd_fsm.Fake.Watching.{
  Subscription, backlog_of, watch, next, yield_batch, set_queue, next_of, take_item,
}

-- The batches that a subscription is still to yield.
abbrev pub pending : Subscription → FakeEtcdBackend → List WatchBatch
pending sub s = sub.backlog ++ items (s.queues sub.watcher.queue)

-- What a step that yields a batch does: it takes the first of what is pending.
pub record Yields (batch : WatchBatch) (sub sub' : Subscription) (s s' : FakeEtcdBackend)
    : Type 0 where
  pub watchers : s'.watchers ≡ s.watchers
  pub watcher : sub'.watcher ≡ sub.watcher
  pub issued : s'.next_queue ≡ s.next_queue
  pub first : pending sub s ≡ batch ∷ pending sub' s'

take_item-Yields :
    (queue : List (Option WatchBatch)) (sub sub' : Subscription) (s s' : FakeEtcdBackend)
    (batch : WatchBatch)
    → sub.backlog ≡ []
    → s.queues sub.watcher.queue ≡ queue
    → take_item sub queue s ≡ (yield_batch batch sub', s')
    → Yields batch sub sub' s s'
unfolding items set_queue
take_item-Yields [] sub sub' s s' batch empty q h = cc
take_item-Yields (none ∷ rest) sub sub' s s' batch empty q h = cc
take_item-Yields (some b ∷ rest) sub sub' s s' batch empty q h =
    let t : FakeEtcdBackend = record s { queues = set_queue sub.watcher.queue rest s.queues } in
    let e1 : sub ≡ sub' = cc in
    let e2 : t ≡ s' = cc in
    let e3 : b ≡ batch = cc in
    let same : (sub.watcher.queue == sub.watcher.queue) ≡ true = ground arith in
    let left : set_queue sub.watcher.queue rest s.queues sub.watcher.queue ≡ rest =
      rw (same, set_queue) refl in
    record {
      watchers = ap (λ (x : FakeEtcdBackend). x.watchers) (sym e2);
      watcher = ap (λ (u : Subscription). u.watcher) (sym e1);
      issued = ap (λ (x : FakeEtcdBackend). x.next_queue) (sym e2);
      first =
          ap (λ l. l ++ items (s.queues sub.watcher.queue)) empty
          ∙ ap items q
          ∙ ap (λ l. b ∷ items l) (sym left)
          ∙ ap (λ l. b ∷ (l ++ items (t.queues sub.watcher.queue))) (sym empty)
          ∙ ap (λ c. c ∷ pending sub t) e3
          ∙ ap (λ u. batch ∷ pending u t) e1
          ∙ ap (λ x. batch ∷ pending sub' x) e2;
    }

next_of-Yields :
    (backlog : List WatchBatch) (sub sub' : Subscription) (s s' : FakeEtcdBackend)
    (batch : WatchBatch)
    → sub.backlog ≡ backlog
    → next_of backlog sub s ≡ (yield_batch batch sub', s')
    → Yields batch sub sub' s s'
next_of-Yields [] sub sub' s s' batch e h = take_item-Yields _ sub sub' s s' batch e refl h
next_of-Yields (b ∷ rest) sub sub' s s' batch e h =
    let after : Subscription = record sub { backlog = rest } in
    let e1 : after ≡ sub' = cc in
    let e2 : s ≡ s' = cc in
    let e3 : b ≡ batch = cc in
    record {
      watchers = ap (λ (x : FakeEtcdBackend). x.watchers) (sym e2);
      watcher = ap (λ (u : Subscription). u.watcher) (sym e1);
      issued = ap (λ (x : FakeEtcdBackend). x.next_queue) (sym e2);
      first =
          ap (λ l. l ++ items (s.queues sub.watcher.queue)) e
          ∙ ap (λ c. c ∷ pending after s) e3
          ∙ ap (λ u. batch ∷ pending u s) e1
          ∙ ap (λ x. batch ∷ pending sub' x) e2;
    }

pub next-Yields :
    (sub sub' : Subscription) (s s' : FakeEtcdBackend) (batch : WatchBatch)
    → next sub s ≡ (yield_batch batch sub', s')
    → Yields batch sub sub' s s'
unfolding next
next-Yields sub sub' s s' batch h = next_of-Yields sub.backlog sub sub' s s' batch refl h

pub watch-opened :
    (start : Bytes) (end : Option Bytes) (start_revision : ℕ) (s0 s : FakeEtcdBackend)
    (sub : Subscription)
    → watch start end start_revision s0 ≡ (ok sub, s)
    → (sub ≡ record {
      backlog = backlog_of s0.events start end start_revision;
      watcher = record { start = start; end = end; queue = s0.next_queue };
    })
      × (s ≡ record s0 {
        watchers = s0.watchers ++ record { start = start; end = end; queue = s0.next_queue } ∷ [];
        next_queue = s0.next_queue + 1;
      })
unfolding watch ensure_open
watch-opened start end start_revision s0 s sub h = elim (Bool-cases s0.closed) [
  | inl closed ↦ cc (rw (closed, watch) at h)
  | inr running ↦
      elim (Bool-cases (ltb 0 s0.compacted_revision && leb start_revision s0.compacted_revision)) [
        | inl gone ↦ let k = rw (running, gone, watch) at h in cc
        | inr kept ↦ let k = rw (running, kept, watch) at h in (cc, cc)
      ]
]

pub filter_map-append :
    (f : WatchBatch → Option WatchBatch) (xs : List WatchBatch) (x : WatchBatch)
    → filter_map f (xs ++ x ∷ []) ≡ filter_map f xs ++ (elim (f x) [ none ↦ [] | some b ↦ b ∷ [] ])
unfolding filter_map
filter_map-append f [] x = elim (Option-cases (f x)) [
  | inl skipped ↦ rw skipped refl
  | inr (b, kept) ↦ rw kept refl
]
filter_map-append f (y ∷ xs) x = elim (Option-cases (f y)) [
  | inl skipped ↦ rw (skipped, filter_map) (filter_map-append f xs x)
  | inr (b, kept) ↦ rw (kept, filter_map) (ap (λ l. b ∷ l) (filter_map-append f xs x))
]

-- Another watch that opens gets another queue.
pub watch-Spares :
    (q : ℕ) (start : Bytes) (end : Option Bytes) (start_revision : ℕ) (s t : FakeEtcdBackend)
    (other : Subscription)
    → q < s.next_queue
    → watch start end start_revision s ≡ (ok other, t)
    → Spares q s t × (s.next_queue ≤ t.next_queue)
unfolding filter
watch-Spares q start end start_revision s t other below h =
    let (_, f) = watch-opened start end start_revision s t other h in
    let new : Watcher = record { start = start; end = end; queue = s.next_queue } in
    let apart : (q == s.next_queue) ≡ false = ground arith in
    let after : FakeEtcdBackend = record s {
      watchers = s.watchers ++ new ∷ [];
      next_queue = s.next_queue + 1;
    } in
    subst (λ x. Spares q s x × (s.next_queue ≤ x.next_queue)) (sym f)
      (
        record {
          watchers =
              own-append q s.watchers (new ∷ [])
              ∙ ap (λ l. own q s.watchers ++ l) (rw apart refl)
              ∙ append-nil (own q s.watchers);
          queue = refl;
        },
        omega arith,
      )

-- The backlog is the retained batches from the start revision on, each cut down to the range.
pub backlog_of-filter :
    (events : List WatchBatch) (start : Bytes) (end : Option Bytes) (start_revision : ℕ)
    → backlog_of events start end start_revision
      ≡ filter_map
          (λ batch. filter_batch batch start end)
          (filter (λ batch. leb start_revision batch.revision) events)
unfolding backlog_of filter filter_map
backlog_of-filter [] start end start_revision = refl
backlog_of-filter (b ∷ rest) start end start_revision =
    let due = λ (batch : WatchBatch). leb start_revision batch.revision in
    let cut = λ (batch : WatchBatch). filter_batch batch start end in
    let kept = λ (batch : WatchBatch). if due batch then cut batch else none in
    let later = backlog_of-filter rest start end start_revision in
    elim (Bool-cases (due b)) [
      | inr early ↦ rw early (filter_map-none kept b rest (rw early refl) ∙ later)
      | inl late ↦ elim (Option-cases (cut b)) [
        | inl skipped ↦
            filter_map-none kept b rest (rw late skipped)
            ∙ later
            ∙ sym (rw late (filter_map-none cut b (filter due rest) skipped))
        | inr (first, e) ↦
            filter_map-some kept b rest (rw late e)
            ∙ ap (λ l. first ∷ l) later
            ∙ sym (rw late (filter_map-some cut b (filter due rest) e))
      ]
    ]
