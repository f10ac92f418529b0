-- ===== src/Fake/Leases/Revoke.antt =====
-- `revoke_lease` and `advance_time`: which values are gone afterwards, and which leases are left.
use etcd_fsm.Common.{
  ℕ, ◌≤◌, ◌≡◌, refl, true, false, none, List, [], ◌∷◌, arith, ap, ◌∙◌, is_some, if◌then◌else◌,
  Bool-cases, inl, inr, All, ◌==◌,
}
use etcd_fsm.Bytes.{Bytes}
use etcd_fsm.Backend.{ok}
use etcd_fsm.Fake.{FakeEtcdBackend, LeaseState, key_value_at, ensure_open}
use etcd_fsm.Fake.History.{IsHistory}
use etcd_fsm.Fake.Transaction.{lease_of}
use etcd_fsm.Fake.Transaction.Spec.{view}
use etcd_fsm.Fake.Leases.{attached, pop_lease, expire_lease_keys, revoke_lease}
use etcd_fsm.Fake.Leases.Expire.{Others, expire_lease_keys-Expires}

-- Each lease stands once.
abbrev pub HasLeasesOnce : List (ℕ × LeaseState) → Type 0
HasLeasesOnce [] = Unit
HasLeasesOnce (e ∷ rest) = All (λ o. (o.0 == e.0) ≡ false) rest × HasLeasesOnce rest

lease_of-absent :
    (k : ℕ) (leases : List (ℕ × LeaseState))
    → All (λ o. (o.0 == k) ≡ false) leases
    → lease_of k leases ≡ none
unfolding lease_of
lease_of-absent k [] h = refl
lease_of-absent k ((i, l) ∷ rest) h = ground (arith, lease_of-absent k rest h.1)

pub lease_of-pop_lease :
    (j k : ℕ) (leases : List (ℕ × LeaseState))
    → HasLeasesOnce leases
    → lease_of k (pop_lease j leases) ≡ (if j == k then none else lease_of k leases)
unfolding lease_of pop_lease
lease_of-pop_lease j k [] h = ground arith
lease_of-pop_lease j k ((i, l) ∷ rest) h =
    ground (arith, lease_of-absent i rest h.0, lease_of-pop_lease j k rest h.1)

All-pop_lease :
    (x j : ℕ) (leases : List (ℕ × LeaseState))
    → All (λ o. (o.0 == x) ≡ false) leases
    → All (λ o. (o.0 == x) ≡ false) (pop_lease j leases)
unfolding pop_lease
All-pop_lease x j [] h = tt
All-pop_lease x j ((i, l) ∷ rest) h = elim (Bool-cases (i == j)) [
  | inl here ↦ rw here h.1
  | inr there ↦ rw there (h.0, All-pop_lease x j rest h.1)
]

pub pop_lease-HasLeasesOnce :
    (j : ℕ) (leases : List (ℕ × LeaseState))
    → HasLeasesOnce leases
    → HasLeasesOnce (pop_lease j leases)
unfolding pop_lease
pop_lease-HasLeasesOnce j [] h = tt
pop_lease-HasLeasesOnce j ((i, l) ∷ rest) h = elim (Bool-cases (i == j)) [
  | inl here ↦ rw here h.1
  | inr there ↦ rw there (All-pop_lease i j rest h.0, pop_lease-HasLeasesOnce j rest h.1)
]

revoked :
    (lease_id : ℕ) (s : FakeEtcdBackend)
    → s.closed ≡ false
    → is_some (lease_of lease_id s.leases) ≡ true
    → revoke_lease lease_id s
      ≡ expire_lease_keys lease_id (record s { leases = pop_lease lease_id s.leases })
unfolding revoke_lease ensure_open
revoked lease_id s opened held = ground arith

-- Where the history is well formed, each lease stands once and the backend is open, revoking a
-- lease that is held returns. The values attached to it are gone and all others stay, the values at
-- every revision up to the current one stay, and of the leases just this one is gone.
pub revoke_lease_lem :
    (lease_id : ℕ) (s : FakeEtcdBackend)
    → IsHistory s.revision s.history
    → HasLeasesOnce s.leases
    → s.closed ≡ false
    → is_some (lease_of lease_id s.leases) ≡ true
    → ((revoke_lease lease_id s).0 ≡ ok tt)
      × ((key : Bytes)
          → view (revoke_lease lease_id s).1 key
            ≡ (if attached lease_id (view s key) then none else view s key))
      × ((key : Bytes) (r : ℕ)
          → r ≤ s.revision
          → key_value_at (revoke_lease lease_id s).1.history key r ≡ key_value_at s.history key r)
      × ((other : ℕ)
          → lease_of other (revoke_lease lease_id s).1.leases
            ≡ (if lease_id == other then none else lease_of other s.leases))
revoke_lease_lem lease_id s valid once opened held =
    let (returned, done) =
      expire_lease_keys-Expires lease_id (record s { leases = pop_lease lease_id s.leases })
        valid in
    rw (revoked lease_id s opened held) (
      returned,
      done.values,
      done.old,
      λ other.
          ap (λ (o : List (ℕ × LeaseState)). lease_of other o)
            (ap (λ (o : Others). o.3) done.others)
          ∙ lease_of-pop_lease lease_id other s.leases once,
    )
