-- ===== src/Fake/Reads/Values.antt =====
-- What a range returns: the values of the keys in the range, each once, in the order of the keys.
use etcd_fsm.Common.{
  ℕ, ◌≡◌, refl, true, false, Option, none, some, List, [], ◌∷◌, map, arith, All, any, filter_map,
  filter_map-none, filter_map-some, sym, if◌then◌else◌, ap, Bool-cases, Option-cases, inl, inr,
}
use etcd_fsm.Bytes.{Bytes, eq_bytes, lt_bytes, le_bytes}
use etcd_fsm.Bytes.Order.{eq_of_eq_bytes, eq_bytes_refl, lt_bytes_trans, lt_bytes-total}
use etcd_fsm.Backend.{KeyValue}
use etcd_fsm.Fake.{History, Version, keys, key_value_at, first_at, live_version, as_key_value}
use etcd_fsm.Fake.Keys.{key_in_range, insert_key, sorted}
use etcd_fsm.Fake.History.{mem_key, IsDistinct}
use etcd_fsm.Fake.History.Members.{mem_key-sorted, key_value_at-absent}
use etcd_fsm.Fake.Reads.{values_at}

-- Strictly in order.
abbrev pub IsSorted : List Bytes → Type 0
IsSorted [] = Unit
IsSorted (x ∷ l) = All (λ y. lt_bytes x y ≡ true) l × IsSorted l

All-insert_key :
    (x y : Bytes) (l : List Bytes)
    → lt_bytes x y ≡ true
    → All (λ z. lt_bytes x z ≡ true) l
    → All (λ z. lt_bytes x z ≡ true) (insert_key y l)
unfolding insert_key
All-insert_key x y [] lt h = (lt, tt)
All-insert_key x y (z ∷ l) lt h = elim (Bool-cases (le_bytes y z)) [
  | inl first ↦ rw first (lt, h)
  | inr later ↦ rw later (h.0, All-insert_key x y l lt h.1)
]

All-below :
    (x y : Bytes) (l : List Bytes)
    → lt_bytes x y ≡ true
    → All (λ z. lt_bytes y z ≡ true) l
    → All (λ z. lt_bytes x z ≡ true) l
All-below x y [] lt h = tt
All-below x y (z ∷ l) lt h = (lt_bytes_trans x y z lt h.0, All-below x y l lt h.1)

lt_of_le_ne : (x y : Bytes) → lt_bytes y x ≡ false → eq_bytes y x ≡ false → lt_bytes x y ≡ true
lt_of_le_ne x y le ne = elim (Bool-cases (lt_bytes x y)) [
  | inl below ↦ below
  | inr above ↦ cc (ne, eq_bytes_refl y, ap (eq_bytes y) (lt_bytes-total x y above le))
]

insert_key-IsSorted :
    (x : Bytes) (l : List Bytes) → mem_key x l ≡ false → IsSorted l → IsSorted (insert_key x l)
unfolding insert_key any le_bytes
insert_key-IsSorted x [] m h = (tt, tt)
insert_key-IsSorted x (y ∷ l) m h = elim (Bool-cases (le_bytes x y)) [
  | inl first ↦
      let below : lt_bytes x y ≡ true = lt_of_le_ne x y (ground arith) (ground arith) in
      rw first ((below, All-below x y l below h.0), h)
  | inr later ↦
      let above : lt_bytes y x ≡ true = ground arith in
      rw later (All-insert_key y x l above h.0, insert_key-IsSorted x l (ground arith) h.1)
]

pub sorted-IsSorted : (l : List Bytes) → IsDistinct l → IsSorted (sorted l)
unfolding sorted
sorted-IsSorted [] d = tt
sorted-IsSorted (x ∷ l) d =
    insert_key-IsSorted x (sorted l) (rw (mem_key-sorted x l) d.0) (sorted-IsSorted l d.1)

key-live_version :
    (k : Bytes) (o : Option Version) {v : KeyValue} → live_version k o ≡ some v → v.key ≡ k
unfolding live_version as_key_value
key-live_version k none e = cc
key-live_version k (some version) e = ground arith

-- The value that is stored under a key bears the key.
pub key-key_value_at :
    (h : History) (k : Bytes) (r : ℕ) {v : KeyValue} → key_value_at h k r ≡ some v → v.key ≡ k
unfolding key_value_at
key-key_value_at h k r e = key-live_version k (first_at r _) e

abbrev pub keys_of : List KeyValue → List Bytes
keys_of = map (λ v. v.key)

-- The value of a key in a result.
unfoldable pub find_value : Bytes → List KeyValue → Option KeyValue
find_value k [] = none
find_value k (v ∷ vs) = if eq_bytes v.key k then some v else find_value k vs

module _ (h : History) (start : Bytes) (end : Option Bytes) (r : ℕ) where
  -- The value of a key that the range asks for.
  abbrev pub ranged : Bytes → Option KeyValue
  ranged key = if key_in_range key start end then key_value_at h key r else none

  key-ranged : (k : Bytes) {v : KeyValue} → ranged k ≡ some v → v.key ≡ k
  key-ranged k {v} e = key-key_value_at h k r {v = v} (ground arith)

  All-keys_of :
      (x : Bytes) (l : List Bytes)
      → All (λ z. lt_bytes x z ≡ true) l
      → All (λ z. lt_bytes x z ≡ true) (keys_of (filter_map ranged l))
  unfolding filter_map
  All-keys_of x [] a = tt
  All-keys_of x (z ∷ l) a = elim (Option-cases (ranged z)) [
    | inl skipped ↦ rw (filter_map-none ranged z l skipped) (All-keys_of x l a.1)
    | inr (v, found) ↦
        rw (filter_map-some ranged z l found) (rw (key-ranged z found) a.0, All-keys_of x l a.1)
  ]

  keys_of-IsSorted : (l : List Bytes) → IsSorted l → IsSorted (keys_of (filter_map ranged l))
  unfolding filter_map
  keys_of-IsSorted [] s = tt
  keys_of-IsSorted (z ∷ l) s = elim (Option-cases (ranged z)) [
    | inl skipped ↦ rw (filter_map-none ranged z l skipped) (keys_of-IsSorted l s.1)
    | inr (v, found) ↦
        rw (filter_map-some ranged z l found)
          (rw (key-ranged z found) (All-keys_of z l s.0), keys_of-IsSorted l s.1)
  ]

  find_value-filter_map :
      (k : Bytes) (l : List Bytes)
      → find_value k (filter_map ranged l) ≡ (if mem_key k l then ranged k else none)
  unfolding filter_map find_value any
  find_value-filter_map k [] = refl
  find_value-filter_map k (z ∷ l) = elim (Option-cases (ranged z)) [
    | inl skipped ↦
        rw (filter_map-none ranged z l skipped, find_value-filter_map k l)
          (elim (Bool-cases (eq_bytes z k)) [
            | inl same ↦
                let gone : ranged k ≡ none = rw (eq_of_eq_bytes z k same) at skipped in ground arith
            | inr other ↦ rw other
          ])
    | inr (v, found) ↦ rw (filter_map-some ranged z l found) (elim (Bool-cases (eq_bytes z k)) [
      | inl same ↦
          let there : ranged k ≡ some v = rw (eq_of_eq_bytes z k same) at found in
          let bears : eq_bytes v.key k ≡ true = rw (key-ranged z found) same in
          rw (bears, same) (sym there)
      | inr other ↦
          let bears : eq_bytes v.key k ≡ false = rw (key-ranged z found) other in
          rw (bears, other) (find_value-filter_map k l)
    ])
  ]

  -- Where each key stands once in the history, the values of a range are strictly in the order of
  -- their keys.
  pub values_at-IsSorted : IsDistinct (keys h) → IsSorted (keys_of (values_at h start end r))
  unfolding values_at
  values_at-IsSorted d = keys_of-IsSorted (sorted (keys h)) (sorted-IsSorted (keys h) d)

  -- The values of a range have, for each key in the range, its value at the revision, and nothing
  -- for any other key.
  pub find_value-values_at :
      (k : Bytes)
      → find_value k (values_at h start end r)
        ≡ (if key_in_range k start end then key_value_at h k r else none)
  unfolding values_at
  find_value-values_at k =
      rw (find_value-filter_map k (sorted (keys h)), mem_key-sorted k (keys h))
        (ground (arith, key_value_at-absent h k r))
