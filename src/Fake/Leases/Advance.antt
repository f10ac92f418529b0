-- ===== src/Fake/Leases/Advance.antt =====
-- `advance_time`: which values are gone afterwards, and which leases are left.
use etcd_fsm.Common.{
  ℕ, ◌+◌, ◌≤◌, ◌≡◌, refl, Bool, false, Option, none, some, List, [], ◌∷◌, arith, any, filter, ap,
  ◌∙◌, if◌then◌else◌, Bool-cases, Option-cases, inl, inr, All, leb, ◌==◌, pos,
}
use etcd_fsm.Bytes.{Bytes}
use etcd_fsm.Backend.{KeyValue, ok}
use etcd_fsm.Fake.{FakeEtcdBackend, LeaseState, key_value_at, ensure_open}
use etcd_fsm.Fake.History.{IsHistory}
use etcd_fsm.Fake.Transaction.{lease_of}
use etcd_fsm.Fake.Transaction.Spec.{view}
use etcd_fsm.Fake.Leases.{
  attached, pop_lease, expire_lease_keys, expired_leases, expire_leases, advance_time,
}
use etcd_fsm.Fake.Leases.Expire.{Others, expire_lease_keys-Expires}
use etcd_fsm.Fake.Leases.Revoke.{HasLeasesOnce, lease_of-pop_lease, pop_lease-HasLeasesOnce}

-- The value hangs on one of the leases.
abbrev pub attached_to : List ℕ → Option KeyValue → Bool
attached_to ids current = any (λ lease_id. attached lease_id current) ids

-- What expiring several leases does to the state.
pub record ExpiresAll (ids : List ℕ) (s s' : FakeEtcdBackend) : Type 0 where
  pub values :
      (key : Bytes) → view s' key ≡ (if attached_to ids (view s key) then none else view s key)
  pub old :
      (key : Bytes) (r : ℕ)
      → r ≤ s.revision
      → key_value_at s'.history key r ≡ key_value_at s.history key r
  pub leases :
      (k : ℕ) → lease_of k s'.leases ≡ (if any (λ j. k == j) ids then none else lease_of k s.leases)
  pub clock : s'.clock ≡ s.clock
  pub history : IsHistory s'.revision s'.history

gone_once :
    (lease_id : ℕ) (ids : List ℕ) (v v1 v2 : Option KeyValue)
    → v1 ≡ (if attached lease_id v then none else v)
    → v2 ≡ (if attached_to ids v1 then none else v1)
    → v2 ≡ (if attached_to (lease_id ∷ ids) v then none else v)
unfolding any
gone_once lease_id ids v v1 v2 p q = elim (Bool-cases (attached lease_id v)) [
  | inl here ↦ let p' : v1 ≡ none = rw here at p in rw here (ground arith)
  | inr there ↦ let p' : v1 ≡ v = rw there at p in rw there (rw p' at q)
]

expire_leases-step :
    (lease_id : ℕ) (ids : List ℕ) (s : FakeEtcdBackend)
    → (expire_lease_keys lease_id (record s { leases = pop_lease lease_id s.leases })).0 ≡ ok tt
    → expire_leases (lease_id ∷ ids) s
      ≡ expire_leases ids
          (expire_lease_keys lease_id (record s { leases = pop_lease lease_id s.leases })).1
unfolding expire_leases
expire_leases-step lease_id ids s h = rw (h, expire_leases)

expire_leases-ExpiresAll :
    (ids : List ℕ) (s : FakeEtcdBackend)
    → IsHistory s.revision s.history
    → HasLeasesOnce s.leases
    → ((expire_leases ids s).0 ≡ ok tt) × ExpiresAll ids s (expire_leases ids s).1
unfolding any expire_leases
expire_leases-ExpiresAll [] s valid once = (
  refl,
  record {
    values = λ key. refl;
    old = λ key r le. refl;
    leases = λ k. refl;
    clock = refl;
    history = valid;
  },
)
expire_leases-ExpiresAll (lease_id ∷ ids) s valid once =
    let popped : FakeEtcdBackend = record s { leases = pop_lease lease_id s.leases } in
    let s1 : FakeEtcdBackend = (expire_lease_keys lease_id popped).1 in
    let (returned, first) = expire_lease_keys-Expires lease_id popped valid in
    let kept : s1.leases ≡ pop_lease lease_id s.leases = ap (λ (o : Others). o.3) first.others in
    let once1 : HasLeasesOnce s1.leases =
      rw kept (pop_lease-HasLeasesOnce lease_id s.leases once) in
    let (returned', later) = expire_leases-ExpiresAll ids s1 first.history once1 in
    rw (expire_leases-step lease_id ids s returned) (
      returned',
      record {
        values = λ key.
            gone_once lease_id ids (view s key) (view s1 key) (view (expire_leases ids s1).1 key)
              (first.values key) (later.values key);
        old = λ key r le.
            let before : r ≤ s.revision = le in
            let reached : s.revision ≤ s1.revision = first.revision in
            later.old key r (omega arith) ∙ first.old key r le;
        leases = λ k. ground (
          arith,
          later.leases k,
          ap (lease_of k) kept,
          lease_of-pop_lease lease_id k s.leases once,
        );
        clock = later.clock ∙ ap (λ (o : Others). o.5) first.others;
        history = later.history;
      },
    )

-- The clock has reached the deadline of a lease.
abbrev pub is_expired : ℕ → List (ℕ × LeaseState) → ℕ → Bool
is_expired clock leases lease_id = elim (lease_of lease_id leases) [
  | none ↦ false
  | some lease ↦ leb lease.deadline clock
]

-- The value hangs on a lease whose deadline the clock has reached.
abbrev pub is_expired_value : ℕ → List (ℕ × LeaseState) → Option KeyValue → Bool
is_expired_value clock leases none = false
is_expired_value clock leases (some current) = elim current.lease_id [
  | none ↦ false
  | some lease_id ↦ is_expired clock leases lease_id
]

not_expired-absent :
    (clock k : ℕ) (leases : List (ℕ × LeaseState))
    → All (λ o. (o.0 == k) ≡ false) leases
    → any (λ j. k == j) (expired_leases clock leases) ≡ false
unfolding any expired_leases filter
not_expired-absent clock k [] h = refl
not_expired-absent clock k ((i, l) ∷ rest) h = ground (arith, not_expired-absent clock k rest h.1)

-- The list of the expired leases has just those.
expired_leases-is_expired :
    (clock k : ℕ) (leases : List (ℕ × LeaseState))
    → HasLeasesOnce leases
    → any (λ j. k == j) (expired_leases clock leases) ≡ is_expired clock leases k
unfolding any expired_leases filter lease_of
expired_leases-is_expired clock k [] h = refl
expired_leases-is_expired clock k ((i, l) ∷ rest) h =
    ground (arith, expired_leases-is_expired clock k rest h.1, not_expired-absent clock i rest h.0)

any-false : (ids : List ℕ) → any (λ (j : ℕ). false) ids ≡ false
unfolding any
any-false [] = refl
any-false (j ∷ ids) = any-false ids

attached_to-expired :
    (clock : ℕ) (leases : List (ℕ × LeaseState)) (v : Option KeyValue)
    → HasLeasesOnce leases
    → attached_to (expired_leases clock leases) v ≡ is_expired_value clock leases v
unfolding attached
attached_to-expired clock leases none h = any-false (expired_leases clock leases)
attached_to-expired clock leases (some current) h = elim (Option-cases current.lease_id) [
  | inl unleased ↦ simp unleased (any-false (expired_leases clock leases))
  | inr (k, leased) ↦ simp leased (expired_leases-is_expired clock k leases h)
]

advanced :
    (elapsed : ℕ) (s : FakeEtcdBackend)
    → s.closed ≡ false
    → advance_time (pos elapsed) s
      ≡ expire_leases
          (expired_leases (s.clock + elapsed) s.leases)
          (record s { clock = s.clock + elapsed })
unfolding advance_time ensure_open
advanced elapsed s opened = ground arith

-- Where the history is well formed, each lease stands once and the backend is open, advancing the
-- clock returns and adds the time to it. The values whose lease has reached its deadline are gone
-- and all others stay, the values at every revision up to the current one stay, and just the leases
-- that have reached their deadline are gone.
pub advance_time_lem :
    (elapsed : ℕ) (s : FakeEtcdBackend)
    → IsHistory s.revision s.history
    → HasLeasesOnce s.leases
    → s.closed ≡ false
    → ((advance_time (pos elapsed) s).0 ≡ ok tt)
      × ((advance_time (pos elapsed) s).1.clock ≡ s.clock + elapsed)
      × ((key : Bytes)
          → view (advance_time (pos elapsed) s).1 key ≡ (
              if is_expired_value (s.clock + elapsed) s.leases (view s key)
              then none
              else view s key))
      × ((key : Bytes) (r : ℕ)
          → r ≤ s.revision
          → key_value_at (advance_time (pos elapsed) s).1.history key r
            ≡ key_value_at s.history key r)
      × ((k : ℕ)
          → lease_of k (advance_time (pos elapsed) s).1.leases
            ≡ (if is_expired (s.clock + elapsed) s.leases k then none else lease_of k s.leases))
advance_time_lem elapsed s valid once opened =
    let clock : ℕ = s.clock + elapsed in
    let (returned, done) =
      expire_leases-ExpiresAll (expired_leases clock s.leases) (record s { clock = clock }) valid
        once in
    rw (advanced elapsed s opened) (
      returned,
      done.clock,
      λ key. rw (← attached_to-expired clock s.leases (view s key) once) (done.values key),
      done.old,
      λ k. rw (← expired_leases-is_expired clock k s.leases once) (done.leases k),
    )
