-- ===== src/Fake/Writes/Deleted.antt =====
-- What the loop of `_delete_unlocked` leaves in the history.
use etcd_fsm.Common.{
  ℕ, ◌≤◌, ◌<◌, ◌≡◌, refl, true, false, none, some, List, [], ◌∷◌, ◌++◌, arith, if◌then◌else◌, All,
  any, is_some, Option-cases, inl, inr,
}
use etcd_fsm.Bytes.{Bytes, eq_bytes}
use etcd_fsm.Backend.{KeyValue, WatchEvent, ok, err, assertion_error}
use etcd_fsm.Fake.{
  FakeEtcdBackend, Version, History, versions, live_version, key_value_at, append_version,
}
use etcd_fsm.Fake.History.{UpTo, mem_key, IsDistinct, IsHistory}
use etcd_fsm.Fake.History.Append.{
  eq_bytes-sym, versions-append_version, key_value_at-append_version,
}
use etcd_fsm.Fake.History.Grow.{append_version-IsHistory}
use etcd_fsm.Fake.Writes.{tombstone, delete_event, delete_keys}

module _ (key : Bytes) (rest : List Bytes) (R : ℕ) (events : List WatchEvent)
    (s : FakeEtcdBackend) where
  -- One round on a key that has a value.
  pub delete_keys-live :
      {c : KeyValue}
      → key_value_at s.history key s.revision ≡ some c
      → delete_keys (key ∷ rest) R events s
        ≡ delete_keys rest R
            (events ++ delete_event key c R ∷ [])
            (record s { history = append_version key (tombstone c R) s.history })
  unfolding delete_keys
  delete_keys-live live = rw (live, delete_keys)

  delete_keys-gone :
      key_value_at s.history key s.revision ≡ none
      → delete_keys (key ∷ rest) R events s ≡ (err assertion_error, s)
  unfolding delete_keys
  delete_keys-gone gone = rw (gone, delete_keys)

-- Only the history changes.
pub delete_keys-frame :
    (found : List Bytes) (R : ℕ) (events : List WatchEvent) (s : FakeEtcdBackend)
    → (delete_keys found R events s).1
      ≡ record s { history = (delete_keys found R events s).1.history }
unfolding delete_keys
delete_keys-frame [] R events s = refl
delete_keys-frame (key ∷ rest) R events s =
    elim (Option-cases (key_value_at s.history key s.revision)) [
      | inl gone ↦ rw (delete_keys-gone key rest R events s gone)
      | inr (c, live) ↦ rw (delete_keys-live key rest R events s live) (
          delete_keys-frame rest R (events ++ delete_event key c R ∷ [])
            (record s { history = append_version key (tombstone c R) s.history }))
    ]

-- A key that is not deleted keeps its versions.
pub versions-delete_keys :
    (found : List Bytes) (R : ℕ) (events : List WatchEvent) (s : FakeEtcdBackend) (k : Bytes)
    → mem_key k found ≡ false
    → versions (delete_keys found R events s).1.history k ≡ versions s.history k
unfolding delete_keys any
versions-delete_keys [] R events s k m = refl
versions-delete_keys (key ∷ rest) R events s k m =
    elim (Option-cases (key_value_at s.history key s.revision)) [
      | inl gone ↦ rw (delete_keys-gone key rest R events s gone)
      | inr (c, live) ↦ rw (delete_keys-live key rest R events s live) (
          ground (
            arith,
            versions-delete_keys rest R (events ++ delete_event key c R ∷ [])
                (record s { history = append_version key (tombstone c R) s.history }) k,
            versions-append_version key (tombstone c R) s.history k,
          ))
    ]

-- A read below the new revision sees what it saw.
pub key_value_at-delete_keys_old :
    (found : List Bytes) (R : ℕ) (events : List WatchEvent) (s : FakeEtcdBackend) (k : Bytes)
    (r : ℕ)
    → r < R
    → key_value_at (delete_keys found R events s).1.history k r ≡ key_value_at s.history k r
unfolding delete_keys tombstone
key_value_at-delete_keys_old [] R events s k r lt = refl
key_value_at-delete_keys_old (key ∷ rest) R events s k r lt =
    elim (Option-cases (key_value_at s.history key s.revision)) [
      | inl gone ↦ rw (delete_keys-gone key rest R events s gone)
      | inr (c, live) ↦ rw (delete_keys-live key rest R events s live) (
          ground (
            arith,
            key_value_at-delete_keys_old rest R (events ++ delete_event key c R ∷ [])
                (record s { history = append_version key (tombstone c R) s.history }) k r,
            key_value_at-append_version key (tombstone c R) s.history k r,
          ))
    ]

-- The keys that the loop deletes have a value at the backend's revision.
abbrev pub AllLive : List Bytes → FakeEtcdBackend → Type 0
AllLive found s = All (λ key. is_some (key_value_at s.history key s.revision) ≡ true) found

pub AllLive-append_version :
    (found : List Bytes) (j : Bytes) (v : Version) (s : FakeEtcdBackend)
    → s.revision < v.revision
    → AllLive found s
    → AllLive found (record s { history = append_version j v s.history })
AllLive-append_version [] j v s lt l = tt
AllLive-append_version (key ∷ rest) j v s lt l = (
  ground (arith, key_value_at-append_version j v s.history key s.revision, l.0),
  AllLive-append_version rest j v s lt l.1,
)

-- The assertion holds on every round.
pub delete_keys-ok :
    (found : List Bytes) (R : ℕ) (events : List WatchEvent) (s : FakeEtcdBackend)
    → s.revision < R
    → AllLive found s
    → (more : List WatchEvent) × ((delete_keys found R events s).0 ≡ ok more)
unfolding delete_keys tombstone
delete_keys-ok [] R events s lt l = (events, refl)
delete_keys-ok (key ∷ rest) R events s lt l =
    elim (Option-cases (key_value_at s.history key s.revision)) [
      | inl gone ↦ cc (l.0, gone)
      | inr (c, live) ↦ rw (delete_keys-live key rest R events s live) (
          delete_keys-ok rest R (events ++ delete_event key c R ∷ [])
            (record s { history = append_version key (tombstone c R) s.history }) lt
            (AllLive-append_version rest key (tombstone c R) s lt l.1))
    ]

-- Where the key has been deleted once, the later rounds cannot bring it back.
stays_deleted :
    (found : List Bytes) (R : ℕ) (events : List WatchEvent) (s : FakeEtcdBackend) (k : Bytes)
    (t : ℕ)
    → R ≤ t
    → key_value_at s.history k t ≡ none
    → key_value_at (delete_keys found R events s).1.history k t ≡ none
unfolding delete_keys tombstone live_version
stays_deleted [] R events s k t le gone = gone
stays_deleted (key ∷ rest) R events s k t le gone =
    elim (Option-cases (key_value_at s.history key s.revision)) [
      | inl absent ↦ rw (delete_keys-gone key rest R events s absent) gone
      | inr (c, live) ↦ rw (delete_keys-live key rest R events s live) (
          stays_deleted rest R (events ++ delete_event key c R ∷ [])
            (record s { history = append_version key (tombstone c R) s.history }) k t le
            (ground (arith, key_value_at-append_version key (tombstone c R) s.history k t)))
    ]

-- From the new revision on a deleted key has no value.
pub key_value_at-delete_keys :
    (found : List Bytes) (R : ℕ) (events : List WatchEvent) (s : FakeEtcdBackend) (k : Bytes)
    (t : ℕ)
    → s.revision < R
    → R ≤ t
    → AllLive found s
    → key_value_at (delete_keys found R events s).1.history k t
      ≡ (if mem_key k found then none else key_value_at s.history k t)
unfolding delete_keys tombstone any live_version
key_value_at-delete_keys [] R events s k t lt le l = refl
key_value_at-delete_keys (key ∷ rest) R events s k t lt le l =
    elim (Option-cases (key_value_at s.history key s.revision)) [
      | inl gone ↦ cc (l.0, gone)
      | inr (c, live) ↦
          let h' : History = append_version key (tombstone c R) s.history in
          rw (delete_keys-live key rest R events s live) (
            ground (
              arith,
              key_value_at-delete_keys rest R (events ++ delete_event key c R ∷ [])
                  (record s { history = h' }) k t lt le
                  (AllLive-append_version rest key (tombstone c R) s lt l.1),
              key_value_at-append_version key (tombstone c R) s.history k t,
              stays_deleted rest R (events ++ delete_event key c R ∷ []) (record s { history = h' })
                  k t le,
            ))
    ]

-- The keys have no version above the backend's revision.
abbrev pub AllOld : List Bytes → FakeEtcdBackend → Type 0
AllOld found s = All (λ key. UpTo s.revision (versions s.history key)) found

AllOld-append_version :
    (found : List Bytes) (j : Bytes) (v : Version) (s : FakeEtcdBackend)
    → mem_key j found ≡ false
    → AllOld found s
    → AllOld found (record s { history = append_version j v s.history })
unfolding any
AllOld-append_version [] j v s m l = tt
AllOld-append_version (key ∷ rest) j v s m l =
    let other : eq_bytes key j ≡ false = ground arith in
    (
      rw (versions-append_version j v s.history key, eq_bytes-sym j key, other) l.0,
      AllOld-append_version rest j v s (ground arith) l.1,
    )

-- The loop keeps the history in order.
pub delete_keys-IsHistory :
    (found : List Bytes) (R : ℕ) (events : List WatchEvent) (s : FakeEtcdBackend)
    → s.revision < R
    → IsDistinct found
    → AllOld found s
    → IsHistory R s.history
    → IsHistory R (delete_keys found R events s).1.history
unfolding delete_keys tombstone
delete_keys-IsHistory [] R events s lt d old valid = valid
delete_keys-IsHistory (key ∷ rest) R events s lt d old valid =
    elim (Option-cases (key_value_at s.history key s.revision)) [
      | inl gone ↦ rw (delete_keys-gone key rest R events s gone) valid
      | inr (c, live) ↦ rw (delete_keys-live key rest R events s live) (
          delete_keys-IsHistory rest R (events ++ delete_event key c R ∷ [])
            (record s { history = append_version key (tombstone c R) s.history }) lt d.1
            (AllOld-append_version rest key (tombstone c R) s d.0 old.1)
            (append_version-IsHistory key (tombstone c R) s.history s.revision R lt refl old.0
              valid))
    ]
