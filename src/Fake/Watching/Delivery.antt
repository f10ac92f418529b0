-- ===== src/Fake/Watching/Delivery.antt =====
-- What a watch delivers: the retained batches first, then each one that is published, in order.
use etcd_fsm.Common.{
  ℕ, leb, ◌<◌, ◌≤◌, filter, ◌≡◌, refl, sym, ap, ◌∙◌, subst, true, false, Option, List, [], ◌∷◌,
  ◌++◌, append_assoc, ◌==◌, filter_map, All, arith,
}
use etcd_fsm.Bytes.{Bytes}
use etcd_fsm.Backend.{WatchBatch, WatchEvent, ok}
use etcd_fsm.Fake.{FakeEtcdBackend, Watcher, filter_batch, notify, publish}
use etcd_fsm.Fake.Watching.Told.{
  items, seen, own, notify-own, notify-one, own-apart, own-append, own-discard, Spares, next-Spares,
}
use etcd_fsm.Fake.Watching.Steps.{
  pending, Yields, next-Yields, watch-opened, filter_map-append, watch-Spares, backlog_of-filter,
}
use etcd_fsm.Fake.Watching.{discard, Subscription, backlog_of, watch, next, yield_batch}

-- A watch of an open backend, the batches it has yielded and those published since, in their order.
-- In between batches are published, the watch takes its next step, other watches open, take their steps,
-- end or go, and the rest of the state changes.
pub data Watching (start : Bytes) (end : Option Bytes) (start_revision : ℕ) (s0 : FakeEtcdBackend)
    : List WatchBatch → List WatchBatch → Subscription → FakeEtcdBackend → Type 0 where
  opened :
      {sub : Subscription} {s : FakeEtcdBackend}
      → watch start end start_revision s0 ≡ (ok sub, s)
      → Watching start end start_revision s0 [] [] sub s
  published :
      {delivered batches : List WatchBatch} {sub : Subscription} {s : FakeEtcdBackend}
      (event : WatchEvent) (events : List WatchEvent) (revision : ℕ)
      → Watching start end start_revision s0 delivered batches sub s
      → Watching start end start_revision s0 delivered
          (batches ++ record { events = event ∷ events; revision = revision } ∷ [])
          sub
          (publish (event ∷ events) revision s)
  yielded :
      {delivered batches : List WatchBatch} {sub sub' : Subscription} {s s' : FakeEtcdBackend}
      {batch : WatchBatch}
      → Watching start end start_revision s0 delivered batches sub s
      → next sub s ≡ (yield_batch batch sub', s')
      → Watching start end start_revision s0 (delivered ++ batch ∷ []) batches sub' s'
  other_opened :
      {delivered batches : List WatchBatch} {sub other : Subscription} {s t : FakeEtcdBackend}
      (other_start : Bytes) (other_end : Option Bytes) (other_revision : ℕ)
      → Watching start end start_revision s0 delivered batches sub s
      → watch other_start other_end other_revision s ≡ (ok other, t)
      → Watching start end start_revision s0 delivered batches sub t
  other_stepped :
      {delivered batches : List WatchBatch} {sub : Subscription} {s : FakeEtcdBackend}
      (other : Subscription)
      → Watching start end start_revision s0 delivered batches sub s
      → (sub.watcher.queue == other.watcher.queue) ≡ false
      → Watching start end start_revision s0 delivered batches sub (next other s).1
  other_left :
      {delivered batches : List WatchBatch} {sub : Subscription} {s : FakeEtcdBackend}
      (other : Watcher)
      → Watching start end start_revision s0 delivered batches sub s
      → (sub.watcher.queue == other.queue) ≡ false
      → Watching start end start_revision s0 delivered batches sub
          (record s { watchers = discard other s.watchers })
  changed :
      {delivered batches : List WatchBatch} {sub : Subscription} {s t : FakeEtcdBackend}
      → Watching start end start_revision s0 delivered batches sub s
      → t.watchers ≡ s.watchers
      → t.queues ≡ s.queues
      → t.next_queue ≡ s.next_queue
      → Watching start end start_revision s0 delivered batches sub t

-- The watcher of the subscription is registered, once, with the range of the watch, and its queue is
-- not one that will be given out.
record IsOnly (start : Bytes) (end : Option Bytes) (sub : Subscription) (s : FakeEtcdBackend)
    : Type 0 where
  registered : own sub.watcher.queue s.watchers ≡ sub.watcher ∷ []
  range : (sub.watcher.start ≡ start) × (sub.watcher.end ≡ end)
  issued : sub.watcher.queue < s.next_queue

-- A change that spares the queue of a watch keeps its watcher registered.
Spares-IsOnly :
    {start : Bytes} {end : Option Bytes} (sub : Subscription) (s t : FakeEtcdBackend)
    → IsOnly start end sub s
    → Spares sub.watcher.queue s t
    → s.next_queue ≤ t.next_queue
    → IsOnly start end sub t
Spares-IsOnly sub s t only spares le =
    let below = only.issued in
    record {
      registered = spares.watchers ∙ only.registered;
      range = only.range;
      issued = omega arith;
    }

Spares-pending :
    (delivered : List WatchBatch) (sub : Subscription) (s t : FakeEtcdBackend)
    → Spares sub.watcher.queue s t
    → delivered ++ pending sub t ≡ delivered ++ pending sub s
Spares-pending delivered sub s t spares =
    ap (λ q. delivered ++ (sub.backlog ++ items q)) spares.queue

publish-pending :
    (event : WatchEvent) (events : List WatchEvent) (revision : ℕ) (sub : Subscription)
    (s : FakeEtcdBackend) {start : Bytes} {end : Option Bytes}
    → IsOnly start end sub s
    → pending sub (publish (event ∷ events) revision s)
      ≡ pending sub s ++ seen (record { events = event ∷ events; revision = revision }) start end
unfolding publish
publish-pending event events revision sub s {start} {end} only =
    let batch : WatchBatch = record { events = event ∷ events; revision = revision } in
    let w = sub.watcher in
    let told : items (notify batch s.watchers s.queues w.queue)
        ≡ items (s.queues w.queue) ++ seen batch w.start w.end =
      ap items (notify-own batch w.queue s.watchers s.queues s.queues refl)
      ∙ ap (λ ws. items (notify batch ws s.queues w.queue)) only.registered
      ∙ notify-one batch w s.queues in
    ap (λ l. sub.backlog ++ l)
      (told
        ∙ ap (λ a. items (s.queues w.queue) ++ seen batch a w.end) only.range.0
        ∙ ap (λ e. items (s.queues w.queue) ++ seen batch start e) only.range.1)
    ∙ sym (append_assoc sub.backlog (items (s.queues w.queue)) (seen batch start end))

module _ (start : Bytes) (end : Option Bytes) (start_revision : ℕ) (s0 : FakeEtcdBackend)
    (others_apart : All (λ w. (s0.next_queue == w.queue) ≡ false) s0.watchers)
    (empty : s0.queues s0.next_queue ≡ []) where
  opened-IsOnly :
      (sub : Subscription) (s : FakeEtcdBackend)
      → watch start end start_revision s0 ≡ (ok sub, s)
      → IsOnly start end sub s
  unfolding filter
  opened-IsOnly sub s h =
      let (e, f) = watch-opened start end start_revision s0 s sub h in
      let new : Watcher = record { start = start; end = end; queue = s0.next_queue } in
      let same : (s0.next_queue == s0.next_queue) ≡ true = ground arith in
      subst (λ u. IsOnly start end u s) (sym e)
        (subst
          (IsOnly start end
            (record { backlog = backlog_of s0.events start end start_revision; watcher = new }))
          (sym f)
          (record {
            registered =
                own-append s0.next_queue s0.watchers (new ∷ [])
                ∙ ap (λ l. l ++ own s0.next_queue (new ∷ []))
                    (own-apart s0.next_queue s0.watchers others_apart)
                ∙ (rw same refl);
            range = (refl, refl);
            issued = omega arith;
          }))

  yielded-IsOnly :
      (batch : WatchBatch) (sub sub' : Subscription) (s s' : FakeEtcdBackend)
      → IsOnly start end sub s
      → Yields batch sub sub' s s'
      → IsOnly start end sub' s'
  yielded-IsOnly batch sub sub' s s' only y =
      let kept : own sub.watcher.queue s'.watchers ≡ sub.watcher ∷ [] =
        ap (own sub.watcher.queue) y.watchers ∙ only.registered in
      let below = only.issued in
      let same = y.issued in
      let below' : sub.watcher.queue < s'.next_queue = omega arith in
      record {
        registered = subst (λ (u : Watcher). own u.queue s'.watchers ≡ u ∷ []) (sym y.watcher) kept;
        range =
            subst (λ (u : Watcher). (u.start ≡ start) × (u.end ≡ end)) (sym y.watcher) only.range;
        issued = subst (λ (u : Watcher). u.queue < s'.next_queue) (sym y.watcher) below';
      }

  Watching-IsOnly :
      {delivered batches : List WatchBatch} {sub : Subscription} {s : FakeEtcdBackend}
      → Watching start end start_revision s0 delivered batches sub s
      → IsOnly start end sub s
  unfolding publish
  Watching-IsOnly (opened {sub} {s} h) = opened-IsOnly sub s h
  Watching-IsOnly (published event events revision w) =
      let only = Watching-IsOnly w in
      record { registered = only.registered; range = only.range; issued = only.issued }
  Watching-IsOnly (yielded {sub = sub} {sub'} {s} {s'} {batch} w h) =
      yielded-IsOnly batch sub sub' s s' (Watching-IsOnly w) (next-Yields sub sub' s s' batch h)
  Watching-IsOnly (other_opened {sub = sub} {other} {s} {t} a b r w h) =
      let only = Watching-IsOnly w in
      let (spares, le) = watch-Spares sub.watcher.queue a b r s t other only.issued h in
      Spares-IsOnly sub s t only spares le
  Watching-IsOnly (other_stepped {sub = sub} {s} other w h) =
      let (spares, same) = next-Spares sub.watcher.queue other s h in
      Spares-IsOnly sub s (next other s).1 (Watching-IsOnly w) spares (omega arith)
  Watching-IsOnly (other_left {sub = sub} {s} other w h) =
      Spares-IsOnly sub s (record s { watchers = discard other s.watchers }) (Watching-IsOnly w)
        (record { watchers = own-discard sub.watcher.queue other s.watchers h; queue = refl })
        (omega arith)
  Watching-IsOnly (changed {sub = sub} {s} {t} w same queues counted) =
      Spares-IsOnly sub s t (Watching-IsOnly w)
        (record {
          watchers = ap (own sub.watcher.queue) same;
          queue = ap (λ qs. qs sub.watcher.queue) queues;
        })
        (omega arith)

  watch_kept :
      {delivered batches : List WatchBatch} {sub : Subscription} {s : FakeEtcdBackend}
      → Watching start end start_revision s0 delivered batches sub s
      → delivered ++ pending sub s
        ≡ backlog_of s0.events start end start_revision
          ++ filter_map (λ batch. filter_batch batch start end) batches
  unfolding filter_map items
  watch_kept (opened {sub} {s} h) =
      let (e, f) = watch-opened start end start_revision s0 s sub h in
      ap (λ u. pending u s) e
      ∙ ap (λ t. backlog_of s0.events start end start_revision ++ items (t.queues s0.next_queue)) f
      ∙ ap (λ q. backlog_of s0.events start end start_revision ++ items q) empty
  watch_kept (published {delivered} {batches} {sub} {s} event events revision w) =
      let batch : WatchBatch = record { events = event ∷ events; revision = revision } in
      let before = filter_map (λ batch. filter_batch batch start end) batches in
      let retained = backlog_of s0.events start end start_revision in
      ap (λ l. delivered ++ l) (publish-pending event events revision sub s (Watching-IsOnly w))
      ∙ sym (append_assoc delivered (pending sub s) (seen batch start end))
      ∙ ap (λ l. l ++ seen batch start end) (watch_kept w)
      ∙ append_assoc retained before (seen batch start end)
      ∙ ap (λ l. retained ++ l)
          (sym (filter_map-append (λ batch. filter_batch batch start end) batches batch))
  watch_kept (other_opened {delivered} {sub = sub} {other} {s} {t} a b r w h) =
      let (spares, _) =
        watch-Spares sub.watcher.queue a b r s t other (Watching-IsOnly w).issued h in
      Spares-pending delivered sub s t spares ∙ watch_kept w
  watch_kept (other_stepped {delivered} {sub = sub} {s} other w h) =
      let (spares, _) = next-Spares sub.watcher.queue other s h in
      Spares-pending delivered sub s (next other s).1 spares ∙ watch_kept w
  watch_kept (other_left _ w h) = watch_kept w
  watch_kept (changed {delivered} {sub = sub} w _ same _) =
      ap (λ qs. delivered ++ (sub.backlog ++ items (qs sub.watcher.queue))) same ∙ watch_kept w
  watch_kept (yielded {delivered} {batches} {sub} {sub'} {s} {s'} {batch} w h) =
      let y = next-Yields sub sub' s s' batch h in
      append_assoc delivered (batch ∷ []) (pending sub' s')
      ∙ ap (λ l. delivered ++ l) (sym y.first)
      ∙ watch_kept w

  -- Where no watcher and no item uses the queue that a watch will get, whatever the watch has yielded,
  -- followed by what it is still to yield, is the retained batches from its start revision on, then
  -- all of the batches published since, also those below its start revision, each cut down to the
  -- range and left out if nothing of it is in the range: nothing is lost, repeated or out of order. In
  -- between other watches open, take steps, end and go, and the backend is not closed.
  pub watch-delivers :
      {delivered batches : List WatchBatch} {sub : Subscription} {s : FakeEtcdBackend}
      → Watching start end start_revision s0 delivered batches sub s
      → delivered ++ pending sub s
        ≡ filter_map
            (λ batch. filter_batch batch start end)
            (filter (λ batch. leb start_revision batch.revision) s0.events)
          ++ filter_map (λ batch. filter_batch batch start end) batches
  watch-delivers {batches = batches} w =
      watch_kept w
      ∙ ap (λ l. l ++ filter_map (λ batch. filter_batch batch start end) batches)
          (backlog_of-filter s0.events start end start_revision)
