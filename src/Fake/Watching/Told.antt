-- ===== src/Fake/Watching/Told.antt =====
-- The queues of the watchers in etcd_fsm/_fake_backend.py: what publication and the steps of other watches
-- do to one of them.
use etcd_fsm.Common.{
  ℕ, ◌≡◌, refl, sym, ap, ◌∙◌, true, false, Option, none, some, List, [], ◌∷◌, ◌++◌, append-nil,
  ◌==◌, filter, All, arith, Bool-cases, Option-cases, inl, inr,
}
use etcd_fsm.Bytes.{Bytes}
use etcd_fsm.Backend.{WatchBatch}
use etcd_fsm.Fake.{FakeEtcdBackend, Watcher, Queues, put_nowait, filter_batch, notify}
use etcd_fsm.Fake.Watching.{Subscription, next, set_queue, next_of, take_item, discard}

-- The batches that a queue holds.
unfoldable pub items : List (Option WatchBatch) → List WatchBatch
items [] = []
items (none ∷ rest) = items rest
items (some batch ∷ rest) = batch ∷ items rest

pub items-append : (xs ys : List (Option WatchBatch)) → items (xs ++ ys) ≡ items xs ++ items ys
unfolding items
items-append [] ys = refl
items-append (none ∷ xs) ys = items-append xs ys
items-append (some b ∷ xs) ys = ap (λ l. b ∷ l) (items-append xs ys)

-- What a batch comes to for one watcher.
abbrev pub seen : WatchBatch → Bytes → Option Bytes → List WatchBatch
seen batch start end = elim (filter_batch batch start end) [ none ↦ [] | some b ↦ b ∷ [] ]

-- The watchers that are told by a queue.
abbrev pub own : ℕ → List Watcher → List Watcher
own q ws = filter (λ w. q == w.queue) ws

-- Publication reaches a queue by its own watchers only.
pub notify-own :
    (batch : WatchBatch) (q : ℕ) (ws : List Watcher) (queues queues' : Queues)
    → queues q ≡ queues' q
    → notify batch ws queues q ≡ notify batch (own q ws) queues' q
unfolding notify put_nowait filter
notify-own batch q [] queues queues' h = h
notify-own batch q (w ∷ ws) queues queues' h =
    elim (Option-cases (filter_batch batch w.start w.end)) [
      | inl skipped ↦ elim (Bool-cases (q == w.queue)) [
        | inl same ↦ rw (same, skipped, notify) (notify-own batch q ws queues queues' h)
        | inr apart ↦ rw (apart, skipped, notify) (notify-own batch q ws queues queues' h)
      ]
      | inr (b, kept) ↦ elim (Bool-cases (q == w.queue)) [
        | inl same ↦
            rw (same, kept, notify)
              (notify-own batch q ws _ (put_nowait w.queue (some b) queues')
                (rw (same, put_nowait) (ap (λ l. l ++ some b ∷ []) h)))
        | inr apart ↦
            rw (apart, kept, notify) (notify-own batch q ws _ queues' (rw (apart, put_nowait) h))
      ]
    ]

pub notify-one :
    (batch : WatchBatch) (w : Watcher) (queues : Queues)
    → items (notify batch (w ∷ []) queues w.queue)
      ≡ items (queues w.queue) ++ seen batch w.start w.end
unfolding notify put_nowait items
notify-one batch w queues = elim (Option-cases (filter_batch batch w.start w.end)) [
  | inl skipped ↦
      let told : notify batch (w ∷ []) queues ≡ queues = rw (skipped, notify) refl in
      ap (λ qs. items (qs w.queue)) told
      ∙ rw (skipped, seen) (sym (append-nil (items (queues w.queue))))
  | inr (b, kept) ↦
      let told : notify batch (w ∷ []) queues ≡ put_nowait w.queue (some b) queues =
        rw (kept, notify) refl in
      let same : (w.queue == w.queue) ≡ true = ground arith in
      let put : put_nowait w.queue (some b) queues w.queue ≡ queues w.queue ++ some b ∷ [] =
        rw (same, put_nowait) refl in
      ap (λ qs. items (qs w.queue)) told
      ∙ ap items put
      ∙ rw (kept, seen) (items-append (queues w.queue) (some b ∷ []))
]

pub own-apart : (q : ℕ) (ws : List Watcher) → All (λ w. (q == w.queue) ≡ false) ws → own q ws ≡ []
unfolding filter
own-apart q [] h = refl
own-apart q (w ∷ ws) h = rw h.0 (own-apart q ws h.1)

pub own-append : (q : ℕ) (xs ys : List Watcher) → own q (xs ++ ys) ≡ own q xs ++ own q ys
unfolding filter
own-append q [] ys = refl
own-append q (x ∷ xs) ys = elim (Bool-cases (q == x.queue)) [
  | inl same ↦ rw same (ap (λ l. x ∷ l) (own-append q xs ys))
  | inr apart ↦ rw apart (own-append q xs ys)
]

-- A watcher that goes leaves those of other queues.
pub own-discard :
    (q : ℕ) (watcher : Watcher) (ws : List Watcher)
    → (q == watcher.queue) ≡ false
    → own q (discard watcher ws) ≡ own q ws
unfolding filter discard
own-discard q watcher [] h = refl
own-discard q watcher (w ∷ ws) h = elim (Bool-cases (w.queue == watcher.queue)) [
  | inl gone ↦
      let apart : (q == w.queue) ≡ false = ground arith in
      rw (gone, apart) (own-discard q watcher ws h)
  | inr stays ↦ elim (Bool-cases (q == w.queue)) [
    | inl same ↦ rw (stays, same) (ap (λ l. w ∷ l) (own-discard q watcher ws h))
    | inr apart ↦ rw (stays, apart) (own-discard q watcher ws h)
  ]
]

-- From one state to the next nothing changes for the watchers of a queue.
pub record Spares (q : ℕ) (s t : FakeEtcdBackend) : Type 0 where
  pub watchers : own q t.watchers ≡ own q s.watchers
  pub queue : t.queues q ≡ s.queues q

take_item-Spares :
    (q : ℕ) (other : Subscription) (queue : List (Option WatchBatch)) (s : FakeEtcdBackend)
    → (q == other.watcher.queue) ≡ false
    → Spares q s (take_item other queue s).1
      × ((take_item other queue s).1.next_queue ≡ s.next_queue)
unfolding set_queue
take_item-Spares q other [] s h = (record { watchers = refl; queue = refl }, refl)
take_item-Spares q other (some b ∷ rest) s h = (record { watchers = refl; queue = rw h refl }, refl)
take_item-Spares q other (none ∷ rest) s h =
    (record { watchers = own-discard q other.watcher s.watchers h; queue = rw h refl }, refl)

next_of-Spares :
    (q : ℕ) (other : Subscription) (backlog : List WatchBatch) (s : FakeEtcdBackend)
    → (q == other.watcher.queue) ≡ false
    → Spares q s (next_of backlog other s).1
      × ((next_of backlog other s).1.next_queue ≡ s.next_queue)
next_of-Spares q other [] s h = take_item-Spares q other (s.queues other.watcher.queue) s h
next_of-Spares q other (b ∷ rest) s h = (record { watchers = refl; queue = refl }, refl)

-- A step of another watch, its last one included, spares the queue.
pub next-Spares :
    (q : ℕ) (other : Subscription) (s : FakeEtcdBackend)
    → (q == other.watcher.queue) ≡ false
    → Spares q s (next other s).1 × ((next other s).1.next_queue ≡ s.next_queue)
unfolding next
next-Spares q other s h = next_of-Spares q other other.backlog s h
