-- ===== src/Fake/History/Members.antt =====
-- The keys that the scans of the history find.
use etcd_fsm.Common.{
  ℕ, ◌≡◌, refl, Bool, false, ◌&&◌, ◌||◌, Option, none, List, [], ◌∷◌, arith, any, filter, is_some,
  Bool-cases, inl, inr,
}
use etcd_fsm.Bytes.{Bytes, eq_bytes}
use etcd_fsm.Bytes.Order.{eq_of_eq_bytes, eq_bytes_refl}
use etcd_fsm.Fake.Keys.{key_in_range, insert_key, sorted}
use etcd_fsm.Fake.{History, versions, key_value_at, keys, keys_in_range, first_at}
use etcd_fsm.Fake.History.{mem_key, IsDistinct}
use etcd_fsm.Fake.History.Append.{eq_bytes-sym}

mem_key-insert_key :
    (k x : Bytes) (l : List Bytes) → mem_key k (insert_key x l) ≡ (eq_bytes x k || mem_key k l)
unfolding insert_key any
mem_key-insert_key k x [] = refl
mem_key-insert_key k x (y ∷ l) = ground (arith, mem_key-insert_key k x l)

pub mem_key-sorted : (k : Bytes) (l : List Bytes) → mem_key k (sorted l) ≡ mem_key k l
unfolding sorted any
mem_key-sorted k [] = refl
mem_key-sorted k (x ∷ l) = ground (arith, mem_key-insert_key k x (sorted l), mem_key-sorted k l)

pub mem_key-filter :
    (p : Bytes → Bool) (k : Bytes) (l : List Bytes) → mem_key k (filter p l) ≡ (p k && mem_key k l)
unfolding filter any
mem_key-filter p k [] = ground arith
mem_key-filter p k (x ∷ l) = elim (Bool-cases (eq_bytes x k)) [
  | inl same ↦
      rw (eq_of_eq_bytes x k same, eq_bytes_refl k)
        (ground (arith, mem_key-filter p k l, eq_bytes_refl k))
  | inr other ↦ ground (arith, mem_key-filter p k l)
]

insert_key-IsDistinct :
    (x : Bytes) (l : List Bytes) → mem_key x l ≡ false → IsDistinct l → IsDistinct (insert_key x l)
unfolding insert_key any
insert_key-IsDistinct x [] h d = (refl, tt)
insert_key-IsDistinct x (y ∷ l) h d =
    ground (arith, insert_key-IsDistinct x l, mem_key-insert_key y x l, eq_bytes-sym x y)

pub sorted-IsDistinct : (l : List Bytes) → IsDistinct l → IsDistinct (sorted l)
unfolding sorted
sorted-IsDistinct [] d = tt
sorted-IsDistinct (x ∷ l) d =
    insert_key-IsDistinct x (sorted l) (rw (mem_key-sorted x l) d.0) (sorted-IsDistinct l d.1)

pub filter-IsDistinct : (p : Bytes → Bool) (l : List Bytes) → IsDistinct l → IsDistinct (filter p l)
unfolding filter
filter-IsDistinct p [] d = tt
filter-IsDistinct p (x ∷ l) d = elim (Bool-cases (p x)) [
  | inl kept ↦ rw kept (ground (arith, mem_key-filter p x l, d.0), filter-IsDistinct p l d.1)
  | inr dropped ↦ rw dropped (filter-IsDistinct p l d.1)
]

-- Only a key of the dictionary has versions.
pub key_value_at-absent :
    (h : History) (k : Bytes) (r : ℕ) → mem_key k (keys h) ≡ false → key_value_at h k r ≡ none
unfolding key_value_at versions any first_at
key_value_at-absent [] k r m = refl
key_value_at-absent ((j, vs) ∷ h) k r m = elim (Bool-cases (eq_bytes j k)) [
  | inl same ↦ ground arith
  | inr other ↦ rw other (key_value_at-absent h k r (ground arith))
]

-- `_keys_in_range_unlocked` finds the keys of the range that have a value, and each once.
pub mem_key-keys_in_range :
    (h : History) (r : ℕ) (start : Bytes) (end : Option Bytes) (k : Bytes)
    → mem_key k (keys_in_range h r start end)
      ≡ (key_in_range k start end && is_some (key_value_at h k r))
unfolding keys_in_range
mem_key-keys_in_range h r start end k =
    rw
      (
        mem_key-filter (λ key. key_in_range key start end && is_some (key_value_at h key r)) k
            (sorted (keys h)),
        mem_key-sorted k (keys h),
      )
      (ground (arith, key_value_at-absent h k r))

pub keys_in_range-IsDistinct :
    (h : History) (r : ℕ) (start : Bytes) (end : Option Bytes)
    → IsDistinct (keys h)
    → IsDistinct (keys_in_range h r start end)
unfolding keys_in_range
keys_in_range-IsDistinct h r start end d =
    filter-IsDistinct (λ key. key_in_range key start end && is_some (key_value_at h key r))
      (sorted (keys h)) (sorted-IsDistinct (keys h) d)
