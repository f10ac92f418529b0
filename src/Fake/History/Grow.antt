-- ===== src/Fake/History/Grow.antt =====
-- `append_version` of a new revision keeps the history in order.
use etcd_fsm.Common.{ℕ, ◌≤◌, ◌<◌, ◌≡◌, arith, List, Bool-cases, inl, inr}
use etcd_fsm.Bytes.{Bytes, eq_bytes}
use etcd_fsm.Bytes.Order.{eq_of_eq_bytes}
use etcd_fsm.Fake.{Version, History, versions, append_version}
use etcd_fsm.Fake.History.{IsAscending, UpTo, IsHistory}
use etcd_fsm.Fake.History.Append.{
  versions-append_version, All-snoc, All-weaken, IsAscending-snoc, keys-append_version-IsDistinct,
}

pub UpTo-weaken : (vs : List Version) (r t : ℕ) → r ≤ t → UpTo r vs → UpTo t vs
UpTo-weaken vs r t le =
    All-weaken (λ v. v.revision ≤ r) (λ v. v.revision ≤ t) (λ v h. omega arith) vs

module _ (j : Bytes) (v : Version) (h : History) (r R : ℕ) (older : r < R) (fits : v.revision ≡ R)
    (old : UpTo r (versions h j)) (valid : IsHistory R h) where
  appended-IsAscending : (k : Bytes) → IsAscending (versions (append_version j v h) k)
  appended-IsAscending k = rw (versions-append_version j v h k) (elim (Bool-cases (eq_bytes j k)) [
    | inl same ↦
        rw (same, ← eq_of_eq_bytes j k same)
          (IsAscending-snoc (versions h j) v (valid.ascending j) (
            All-weaken (λ w. w.revision ≤ r) (λ w. w.revision < v.revision) (λ w b. omega arith)
              (versions h j) old))
    | inr other ↦ rw other (valid.ascending k)
  ])

  appended-UpTo : (k : Bytes) → UpTo R (versions (append_version j v h) k)
  appended-UpTo k = rw (versions-append_version j v h k) (elim (Bool-cases (eq_bytes j k)) [
    | inl same ↦
        rw same (All-snoc (λ w. w.revision ≤ R) (versions h k) (valid.up_to k) (omega arith))
    | inr other ↦ rw other (valid.up_to k)
  ])

  pub append_version-IsHistory : IsHistory R (append_version j v h)
  append_version-IsHistory = record {
    ascending = appended-IsAscending;
    up_to = appended-UpTo;
    distinct = keys-append_version-IsDistinct j v h valid.distinct;
  }

pub IsHistory-weaken : (h : History) (r t : ℕ) → r ≤ t → IsHistory r h → IsHistory t h
IsHistory-weaken h r t le valid = record {
  ascending = valid.ascending;
  up_to = λ k. UpTo-weaken (versions h k) r t le (valid.up_to k);
  distinct = valid.distinct;
}
