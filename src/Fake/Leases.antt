-- ===== src/Fake/Leases.antt =====
-- etcd_fsm/_fake_backend.py: leases and the clock. A time in seconds is a number of milliseconds.
pub mod Expire
pub mod Revoke
pub mod Advance
use etcd_fsm.Common.{
  ℕ, suc, ◌+◌, ◌-◌, ◌*◌, ◌/◌, Bool, false, Option, none, some, List, [], ◌∷◌, ◌++◌, map, ℤ, pos,
  negsuc, leb, ◌==◌, if◌then◌else◌, filter, is_empty, is_some,
}
use etcd_fsm.Bytes.{Bytes}
use etcd_fsm.Backend.{
  KeyValue, Lease, WatchEvent, Result, ok, err, value_error, lease_not_found, ◌>>=◌,
}
use etcd_fsm.Fake.{FakeEtcdBackend, History, LeaseState, ensure_open, key_value_at, keys, publish}
use etcd_fsm.Fake.Transaction.{lease_of}
use etcd_fsm.Fake.Writes.{delete_unlocked}

abbrev pub second : ℕ
second = 1000

-- `self._leases[lease_id] = lease`
unfoldable pub set_lease : ℕ → LeaseState → List (ℕ × LeaseState) → List (ℕ × LeaseState)
set_lease lease_id lease [] = (lease_id, lease) ∷ []
set_lease lease_id lease ((other, old) ∷ rest) =
    if other == lease_id
    then (other, lease) ∷ rest
    else (other, old) ∷ set_lease lease_id lease rest

-- `self._leases.pop(lease_id)`
unfoldable pub pop_lease : ℕ → List (ℕ × LeaseState) → List (ℕ × LeaseState)
pop_lease lease_id [] = []
pop_lease lease_id ((other, lease) ∷ rest) =
    if other == lease_id then rest else (other, lease) ∷ pop_lease lease_id rest

-- `grant_lease`
unfoldable pub grant_lease : ℤ → FakeEtcdBackend → Result Lease × FakeEtcdBackend
grant_lease (pos (suc n)) s = elim (ensure_open s) [
  | err e ↦ (err e, s)
  | ok _ ↦
      let lease : LeaseState = record { ttl = suc n; deadline = s.clock + suc n * second } in
      (
        ok (record { id = s.next_lease_id; ttl = suc n }),
        record s {
          next_lease_id = s.next_lease_id + 1;
          leases = set_lease s.next_lease_id lease s.leases;
        },
      )
]
grant_lease _ s = (err value_error, s)

-- `keep_alive`
unfoldable pub keep_alive : ℕ → FakeEtcdBackend → Result ℕ × FakeEtcdBackend
keep_alive lease_id s = elim (ensure_open s) [
  | err e ↦ (err e, s)
  | ok _ ↦ elim (lease_of lease_id s.leases) [
    | none ↦ (err (lease_not_found lease_id), s)
    | some lease ↦ (
      ok lease.ttl,
      record s {
        leases =
            set_lease lease_id (record lease { deadline = s.clock + lease.ttl * second }) s.leases;
      },
    )
  ]
]

-- `current.lease_id == lease_id`
unfoldable pub attached : ℕ → Option KeyValue → Bool
attached lease_id none = false
attached lease_id (some current) = elim current.lease_id [
  | none ↦ false
  | some other ↦ other == lease_id
]

-- The keys of a lease, in the order of the history.
unfoldable pub lease_keys : History → ℕ → ℕ → List Bytes
unfolding attached
lease_keys h revision lease_id =
    filter (λ key. attached lease_id (key_value_at h key revision)) (keys h)

-- The loop of `_expire_lease_keys_unlocked`, with the events so far.
unfoldable pub expire_keys :
    List Bytes → ℕ → List WatchEvent → FakeEtcdBackend → Result (List WatchEvent) × FakeEtcdBackend
expire_keys [] revision events s = (ok events, s)
expire_keys (key ∷ rest) revision events s =
    let (deleted, s') = delete_unlocked (record { start = key; end = none }) revision s in
    elim deleted [
      | err e ↦ (err e, s')
      | ok (_, more) ↦ expire_keys rest revision (events ++ more) s'
    ]

abbrev pub publish_expired :
    ℕ → Result (List WatchEvent) × FakeEtcdBackend → Result (Unit {0}) × FakeEtcdBackend
publish_expired revision (err e, s) = (err e, s)
publish_expired revision (ok events, s) =
    (ok tt, publish events revision (record s { revision = revision }))

-- `_expire_lease_keys_unlocked`
unfoldable pub expire_lease_keys : ℕ → FakeEtcdBackend → Result (Unit {0}) × FakeEtcdBackend
unfolding lease_keys expire_keys
expire_lease_keys lease_id s =
    let found = lease_keys s.history s.revision lease_id in
    let revision = s.revision + 1 in
    if is_empty found
    then (ok tt, s)
    else publish_expired revision (expire_keys found revision [] s)

-- `revoke_lease`
unfoldable pub revoke_lease : ℕ → FakeEtcdBackend → Result (Unit {0}) × FakeEtcdBackend
revoke_lease lease_id s = elim (ensure_open s) [
  | err e ↦ (err e, s)
  | ok _ ↦
      if is_some (lease_of lease_id s.leases)
      then expire_lease_keys lease_id (record s { leases = pop_lease lease_id s.leases })
      else (err (lease_not_found lease_id), s)
]

-- The ids of the leases whose deadline the clock has reached.
unfoldable pub expired_leases : ℕ → List (ℕ × LeaseState) → List ℕ
expired_leases clock leases = map (λ e. e.0) (filter (λ e. leb e.1.deadline clock) leases)

-- The loop of `advance_time` over the expired leases.
unfoldable pub expire_leases : List ℕ → FakeEtcdBackend → Result (Unit {0}) × FakeEtcdBackend
expire_leases [] s = (ok tt, s)
expire_leases (lease_id ∷ rest) s =
    let (done, s') =
      expire_lease_keys lease_id (record s { leases = pop_lease lease_id s.leases }) in
    elim done [ err e ↦ (err e, s') | ok _ ↦ expire_leases rest s' ]

-- `advance_time`
unfoldable pub advance_time : ℤ → FakeEtcdBackend → Result (Unit {0}) × FakeEtcdBackend
advance_time (negsuc n) s = (err value_error, s)
advance_time (pos elapsed) s = elim (ensure_open s) [
  | err e ↦ (err e, s)
  | ok _ ↦
      let clock = s.clock + elapsed in
      expire_leases (expired_leases clock s.leases) (record s { clock = clock })
]

-- `lease_time_to_live`: whole seconds, rounded up, and 0 behind the deadline
unfoldable pub lease_time_to_live : ℕ → FakeEtcdBackend → Result ℕ
lease_time_to_live lease_id s = do
  _ ← ensure_open s
  elim (lease_of lease_id s.leases) [
    | none ↦ err (lease_not_found lease_id)
    | some lease ↦ ok ((lease.deadline - s.clock + (second - 1)) / second)
  ]
