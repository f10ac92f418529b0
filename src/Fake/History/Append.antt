-- ===== src/Fake/History/Append.antt =====
-- The versions of a key, and what a read at a revision sees, after `append_version`.
use mathlib.Core.List.{reverse-append, reverse-cons}
use etcd_fsm.Common.{
  ℕ, ◌≤◌, ◌<◌, ◌≡◌, refl, true, ◌&&◌, some, List, [], ◌∷◌, ◌++◌, reverse, arith, leb, if◌then◌else◌,
  All, any, ap, Bool-cases, inl, inr,
}
use etcd_fsm.Bytes.{Bytes, eq_bytes}
use etcd_fsm.Bytes.Order.{eq_of_eq_bytes, eq_bytes_refl}
use etcd_fsm.Fake.{
  Version, History, keys, versions, first_at, live_version, key_value_at, append_version,
}
use etcd_fsm.Fake.History.{IsAscending, UpTo, mem_key, IsDistinct}

pub eq_bytes-sym : (x y : Bytes) → eq_bytes x y ≡ eq_bytes y x
eq_bytes-sym x y = elim (Bool-cases (eq_bytes x y)) [
  | inl same ↦ rw (eq_of_eq_bytes x y same)
  | inr other ↦ elim (Bool-cases (eq_bytes y x)) [
    | inl same ↦ rw (eq_of_eq_bytes y x same)
    | inr other' ↦ rw (other, other')
  ]
]

pub versions-append_version :
    (j : Bytes) (v : Version) (h : History) (k : Bytes)
    → versions (append_version j v h) k
      ≡ (if eq_bytes j k then versions h k ++ v ∷ [] else versions h k)
unfolding versions append_version
versions-append_version j v [] k = refl
versions-append_version j v ((i, vs) ∷ h) k = elim (Bool-cases (eq_bytes i j)) [
  | inl same ↦ rw (eq_of_eq_bytes i j same, eq_bytes_refl j) (ground arith)
  | inr other ↦ elim (Bool-cases (eq_bytes i k)) [
    | inl here ↦ rw (other, here) (rw (← eq_of_eq_bytes i k here, eq_bytes-sym j i, other))
    | inr there ↦ rw (other, there) (versions-append_version j v h k)
  ]
]

-- A read sees an appended version from its revision on, and nothing else changes.
pub key_value_at-append_version :
    (j : Bytes) (v : Version) (h : History) (k : Bytes) (r : ℕ)
    → key_value_at (append_version j v h) k r
      ≡ (if eq_bytes j k && leb v.revision r then live_version k (some v) else key_value_at h k r)
unfolding key_value_at first_at
key_value_at-append_version j v h k r =
    rw (versions-append_version j v h k) (elim (Bool-cases (eq_bytes j k)) [
      | inl same ↦ rw (same, reverse-append) (ground arith)
      | inr other ↦ rw other
    ])

pub All-snoc {ℓ κ} :
    {A : Type ℓ} (P : A → Type κ) (xs : List A) {x : A} → All P xs → P x → All P (xs ++ x ∷ [])
All-snoc P [] h p = (p, tt)
All-snoc P (y ∷ xs) h p = (h.0, All-snoc P xs h.1 p)

pub All-weaken {ℓ κ μ} :
    {A : Type ℓ} (P : A → Type κ) (Q : A → Type μ)
    → ((a : A) → P a → Q a)
    → (xs : List A) → All P xs
    → All Q xs
All-weaken P Q f [] h = tt
All-weaken P Q f (y ∷ xs) h = (f y h.0, All-weaken P Q f xs h.1)

pub IsAscending-snoc :
    (vs : List Version) (v : Version)
    → IsAscending vs
    → All (λ w. w.revision < v.revision) vs
    → IsAscending (vs ++ v ∷ [])
IsAscending-snoc [] v h b = (tt, tt)
IsAscending-snoc (w ∷ vs) v h b =
    (All-snoc (λ u. w.revision < u.revision) vs h.0 b.0, IsAscending-snoc vs v h.1 b.1)

All-reverse {ℓ κ} : {A : Type ℓ} (P : A → Type κ) (xs : List A) → All P xs → All P (reverse xs)
All-reverse P [] h = tt
All-reverse P (x ∷ xs) h =
    rw (reverse-cons x xs) (All-snoc P (reverse xs) (All-reverse P xs h.1) h.0)

first_at-UpTo : (ws : List Version) (r t : ℕ) → UpTo r ws → r ≤ t → first_at t ws ≡ first_at r ws
unfolding first_at
first_at-UpTo [] r t h le = refl
first_at-UpTo (w ∷ ws) r t h le = ground arith

-- With no version above `r`, a read at any later revision sees the same.
pub key_value_at-UpTo :
    (h : History) (k : Bytes) (r t : ℕ)
    → UpTo r (versions h k)
    → r ≤ t
    → key_value_at h k t ≡ key_value_at h k r
unfolding key_value_at
key_value_at-UpTo h k r t b le = ap (live_version k) (
    first_at-UpTo (reverse (versions h k)) r t (All-reverse (λ v. v.revision ≤ r) (versions h k) b)
      le)

pub mem_key-append_version :
    (j : Bytes) (v : Version) (h : History) (k : Bytes)
    → mem_key k (keys (append_version j v h)) ≡ (if eq_bytes j k then true else mem_key k (keys h))
unfolding append_version any
mem_key-append_version j v [] k = ground arith
mem_key-append_version j v ((i, vs) ∷ h) k = elim (Bool-cases (eq_bytes i j)) [
  | inl same ↦ rw same (rw (eq_of_eq_bytes i j same) (ground arith))
  | inr other ↦ rw other (ground (arith, mem_key-append_version j v h k))
]

pub keys-append_version-IsDistinct :
    (j : Bytes) (v : Version) (h : History)
    → IsDistinct (keys h)
    → IsDistinct (keys (append_version j v h))
unfolding append_version any
keys-append_version-IsDistinct j v [] d = (refl, tt)
keys-append_version-IsDistinct j v ((i, vs) ∷ h) d = elim (Bool-cases (eq_bytes i j)) [
  | inl same ↦ rw same d
  | inr other ↦ rw other (
    rw (mem_key-append_version j v h i, eq_bytes-sym j i, other) d.0,
    keys-append_version-IsDistinct j v h d.1,
  )
]
