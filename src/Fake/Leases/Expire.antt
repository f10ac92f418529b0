-- ===== src/Fake/Leases/Expire.antt =====
-- `_expire_lease_keys_unlocked` deletes the keys of a lease, each once, at one new revision.
use etcd_fsm.Common.{
  ℕ, ◌+◌, ◌≤◌, ◌<◌, ◌≡◌, refl, Bool, true, false, ◌&&◌, Option, none, some, List, [], ◌∷◌, ◌++◌,
  arith, any, filter, ap, ◌∙◌, is_some, is_empty, if◌then◌else◌, Bool-cases, Option-cases, inl, inr,
}
use etcd_fsm.Bytes.{Bytes, eq_bytes}
use etcd_fsm.Bytes.Order.{eq_of_eq_bytes, eq_bytes_refl}
use etcd_fsm.Backend.{KeyValue, WatchEvent, Result, ok, err}
use etcd_fsm.Fake.{
  FakeEtcdBackend, History, Watcher, LeaseState, keys, versions, key_value_at, keys_in_range,
  append_version, publish,
}
use etcd_fsm.Fake.Keys.{key_in_range, sorted}
use etcd_fsm.Fake.History.{mem_key, IsDistinct, IsHistory, UpTo}
use etcd_fsm.Fake.History.Append.{key_value_at-UpTo, keys-append_version-IsDistinct}
use etcd_fsm.Fake.History.Grow.{IsHistory-weaken}
use etcd_fsm.Fake.History.Members.{
  mem_key-sorted, sorted-IsDistinct, mem_key-filter, filter-IsDistinct, key_value_at-absent,
}
use etcd_fsm.Fake.Writes.{delete_keys, delete_unlocked, tombstone, delete_event}
use etcd_fsm.Fake.Writes.Deleted.{
  AllLive, AllOld, AllLive-append_version, delete_keys-live, delete_keys-ok, delete_keys-IsHistory,
  key_value_at-delete_keys, delete_keys-frame, key_value_at-delete_keys_old,
}
use etcd_fsm.Fake.Transaction.Commit.{publish-frame, history-publish, revision-publish}
use etcd_fsm.Fake.Transaction.Idle.{empty_list}
use etcd_fsm.Fake.Transaction.Spec.{view}
use etcd_fsm.Fake.Transaction.Round.{All-of_mem}
use etcd_fsm.Fake.Leases.{attached, lease_keys, expire_keys, publish_expired, expire_lease_keys}

filter_absent :
    (p : Bytes → Bool) (k : Bytes) (l : List Bytes)
    → mem_key k l ≡ false
    → filter (λ x. eq_bytes x k && p x) l ≡ []
unfolding filter any
filter_absent p k [] m = refl
filter_absent p k (x ∷ l) m = ground (arith, filter_absent p k l)

-- In a list without doubles a test that holds of one member alone keeps that one.
filter_single :
    (p : Bytes → Bool) (k : Bytes) (l : List Bytes)
    → IsDistinct l
    → mem_key k l ≡ true
    → p k ≡ true
    → filter (λ x. eq_bytes x k && p x) l ≡ k ∷ []
unfolding filter any
filter_single p k [] d m h = cc
filter_single p k (x ∷ l) d m h = elim (Bool-cases (eq_bytes x k)) [
  | inl same ↦
      let e : x ≡ k = eq_of_eq_bytes x k same in
      let others : mem_key k l ≡ false = rw e at d.0 in
      rw (e, eq_bytes_refl k, h, filter_absent p k l others)
  | inr other ↦ rw other (filter_single p k l d.1 (ground arith) h)
]

keys_in_range_single :
    (h : History) (r : ℕ) (k : Bytes)
    → IsDistinct (keys h)
    → is_some (key_value_at h k r) ≡ true
    → keys_in_range h r k none ≡ k ∷ []
unfolding keys_in_range key_in_range
keys_in_range_single h r k d live =
    filter_single (λ x. is_some (key_value_at h x r)) k (sorted (keys h))
      (sorted-IsDistinct (keys h) d)
      (rw (mem_key-sorted k (keys h)) (elim (Bool-cases (mem_key k (keys h))) [
        | inl there ↦ there
        | inr absent ↦ cc (live, key_value_at-absent h k r absent)
      ]))
      live

-- The delete of one key that has a value.
delete_one :
    (key : Bytes) (R : ℕ) (s : FakeEtcdBackend) {c : KeyValue}
    → IsDistinct (keys s.history)
    → key_value_at s.history key s.revision ≡ some c
    → delete_unlocked (record { start = key; end = none }) R s ≡ (
      ok (1, delete_event key c R ∷ []),
      record s { history = append_version key (tombstone c R) s.history },
    )
unfolding delete_unlocked delete_keys
delete_one key R s d live =
    let single : keys_in_range s.history s.revision key none ≡ key ∷ [] =
      keys_in_range_single s.history s.revision key d (rw live) in
    rw single (rw (delete_keys-live key [] R [] s live))

expire_keys-deleted :
    (key : Bytes) (rest : List Bytes) (R : ℕ) (events : List WatchEvent) (s : FakeEtcdBackend)
    {more : List WatchEvent} {n : ℕ} {s' : FakeEtcdBackend}
    → delete_unlocked (record { start = key; end = none }) R s ≡ (ok (n, more), s')
    → expire_keys (key ∷ rest) R events s ≡ expire_keys rest R (events ++ more) s'
unfolding expire_keys
expire_keys-deleted key rest R events s {more} h =
    rw (h, expire_keys)
      (ap
        (λ (out : Result (ℕ × List WatchEvent) × FakeEtcdBackend).
          expire_keys rest R (events ++ more) out.1)
        h)

-- The loop over the keys of a lease is the loop of a delete.
expire_keys-delete_keys :
    (found : List Bytes) (R : ℕ) (events : List WatchEvent) (s : FakeEtcdBackend)
    → s.revision < R
    → IsDistinct (keys s.history)
    → AllLive found s
    → expire_keys found R events s ≡ delete_keys found R events s
unfolding expire_keys delete_keys tombstone
expire_keys-delete_keys [] R events s lt d l = refl
expire_keys-delete_keys (key ∷ rest) R events s lt d l =
    elim (Option-cases (key_value_at s.history key s.revision)) [
      | inl gone ↦ cc (l.0, gone)
      | inr (c, live) ↦
          rw
            (
              expire_keys-deleted key rest R events s (delete_one key R s d live),
              delete_keys-live key rest R events s live,
            )
            (expire_keys-delete_keys rest R (events ++ delete_event key c R ∷ [])
              (record s { history = append_version key (tombstone c R) s.history }) lt
              (keys-append_version-IsDistinct key (tombstone c R) s.history d)
              (AllLive-append_version rest key (tombstone c R) s lt l.1))
    ]

-- The keys found for a lease are those whose value is attached to it.
pub mem_key-lease_keys :
    (h : History) (r lease_id : ℕ) (k : Bytes)
    → mem_key k (lease_keys h r lease_id) ≡ attached lease_id (key_value_at h k r)
unfolding lease_keys attached
mem_key-lease_keys h r lease_id k =
    rw (mem_key-filter (λ key. attached lease_id (key_value_at h key r)) k (keys h))
      (ground (arith, key_value_at-absent h k r))

-- The fields that no write and no expiry touches.
abbrev pub Others : Type 0
Others = ℕ × List Watcher × ℕ × List (ℕ × LeaseState) × ℕ × ℕ × Bool

abbrev pub rest_of : FakeEtcdBackend → Others
rest_of s =
    (s.compacted_revision, s.watchers, s.next_queue, s.leases, s.next_lease_id, s.clock, s.closed)

-- What expiring a lease does to the state.
pub record Expires (lease_id : ℕ) (s s' : FakeEtcdBackend) : Type 0 where
  -- The values of the lease are gone, the others are as they were.
  pub values :
      (key : Bytes) → view s' key ≡ (if attached lease_id (view s key) then none else view s key)
  pub old :
      (key : Bytes) (r : ℕ)
      → r ≤ s.revision
      → key_value_at s'.history key r ≡ key_value_at s.history key r
  pub history : IsHistory s'.revision s'.history
  pub others : rest_of s' ≡ rest_of s
  pub revision : s.revision ≤ s'.revision

attached-live : (lease_id : ℕ) (o : Option KeyValue) → attached lease_id o ≡ true → is_some o ≡ true
unfolding attached
attached-live lease_id none h = cc
attached-live lease_id (some current) h = refl

published :
    (R : ℕ) (out : Result (List WatchEvent) × FakeEtcdBackend) {more : List WatchEvent}
    → out.0 ≡ ok more
    → publish_expired R out ≡ (ok tt, publish more R (record out.1 { revision = R }))
published R (ok events, s) h = ground arith
published R (err e, s) h = cc

module _ (lease_id : ℕ) (s : FakeEtcdBackend) (valid : IsHistory s.revision s.history) where
  abbrev found : List Bytes
  found = lease_keys s.history s.revision lease_id

  found-live : AllLive found s
  found-live =
      All-of_mem (λ key. is_some (key_value_at s.history key s.revision) ≡ true) found
        (λ key m. ground (
          arith,
          mem_key-lease_keys s.history s.revision lease_id key,
          attached-live lease_id (view s key),
        ))

  found-old : AllOld found s
  found-old =
      All-of_mem (λ key. UpTo s.revision (versions s.history key)) found (λ key m. valid.up_to key)

  found-IsDistinct : IsDistinct found
  unfolding lease_keys
  found-IsDistinct = filter-IsDistinct _ (keys s.history) valid.distinct

  -- Where the lease has no key nothing happens.
  Expires-nothing : is_empty found ≡ true → Expires lease_id s s
  Expires-nothing none_found = record {
    values = λ key.
        let none_there : found ≡ [] = empty_list found none_found in
        unfold any in
        ground (
          arith,
          mem_key-lease_keys s.history s.revision lease_id key,
          ap (mem_key key) none_there,
        );
    old = λ key r le. refl;
    history = valid;
    others = refl;
    revision = omega arith;
  }

  abbrev after : FakeEtcdBackend
  after = (delete_keys found (s.revision + 1) [] s).1

  -- Where it has some, their deletes are published at a new revision.
  Expires-published :
      (more : List WatchEvent)
      → Expires lease_id s
          (publish more (s.revision + 1) (record after { revision = s.revision + 1 }))
  Expires-published more =
      let R : ℕ = s.revision + 1 in
      let t : FakeEtcdBackend = record after { revision = R } in
      let ascended : IsHistory R after.history =
        delete_keys-IsHistory found R [] s (omega arith) found-IsDistinct found-old
          (IsHistory-weaken s.history s.revision R (omega arith) valid) in
      record {
        values = λ key. rw (
          history-publish more R t,
          revision-publish more R t,
          key_value_at-delete_keys found R [] s key R (omega arith) (omega arith) found-live,
          mem_key-lease_keys s.history s.revision lease_id key,
          key_value_at-UpTo s.history key s.revision R (valid.up_to key) (omega arith),
        );
        old = λ key r le.
            rw (history-publish more R t)
              (key_value_at-delete_keys_old found R [] s key r (omega arith));
        history = rw (history-publish more R t, revision-publish more R t) ascended;
        others = ap rest_of (publish-frame more R t) ∙ ap rest_of (delete_keys-frame found R [] s);
        revision = rw (revision-publish more R t) (omega arith);
      }

  -- Expiring a lease never raises.
  pub expire_lease_keys-Expires :
      ((expire_lease_keys lease_id s).0 ≡ ok tt)
      × Expires lease_id s (expire_lease_keys lease_id s).1
  unfolding expire_lease_keys
  expire_lease_keys-Expires = elim (Bool-cases (is_empty found)) [
    | inl none_found ↦ rw none_found (refl, Expires-nothing none_found)
    | inr some_found ↦
        let R : ℕ = s.revision + 1 in
        let (more, e) = delete_keys-ok found R [] s (omega arith) found-live in
        rw
          (
            some_found,
            expire_keys-delete_keys found R [] s (omega arith) valid.distinct found-live,
            published R (delete_keys found R [] s) e,
          )
          (refl, Expires-published more)
  ]
