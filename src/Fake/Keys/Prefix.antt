-- ===== src/Fake/Keys/Prefix.antt =====
-- The range of a prefix: `prefix_range_end` of _backend.py under `_key_in_range` of
-- _fake_backend.py.
use etcd_fsm.Common.{
  ◌≡◌, refl, false, ◌&&◌, none, some, [], ◌∷◌, arith, length, inl, inr, Option-cases,
}
use etcd_fsm.Bytes.{Bytes, IsBytes, eq_bytes, lt_bytes, le_bytes, starts_with}
use etcd_fsm.Bytes.Order.{lt_bytes-nil}
use etcd_fsm.Backend.Prefix.{prefix_range_end}
use etcd_fsm.Backend.Prefix.Carry.{carry, carry_or, take-length, bump_last-carry}
use etcd_fsm.Fake.Keys.{key_in_range, no_end}

-- Where every byte is 255 the prefix is the largest of its length.
below_full :
    (prefix key : Bytes)
    → IsBytes prefix
    → IsBytes key
    → carry prefix ≡ none
    → le_bytes prefix key ≡ starts_with key prefix
unfolding carry le_bytes lt_bytes starts_with
below_full [] [] p k h = refl
below_full [] (b ∷ key) p k h = refl
below_full (a ∷ prefix) [] p k h = refl
below_full (a ∷ prefix) (b ∷ key) p k h = ground (arith, below_full prefix key p.1 k.1)

-- Where some byte is smaller, the raised bytes bound the keys with the prefix.
below_carry :
    (prefix key : Bytes) {e : Bytes}
    → IsBytes prefix
    → IsBytes key
    → carry prefix ≡ some e
    → (le_bytes prefix key && lt_bytes key e) ≡ starts_with key prefix
unfolding carry le_bytes lt_bytes starts_with
below_carry [] key p k h = cc
below_carry (a ∷ prefix) [] p k h = ground arith
below_carry (a ∷ prefix) (b ∷ key) p k h = elim (Option-cases (carry prefix)) [
  | inl full ↦ ground (arith, below_full prefix key p.1 k.1 full, lt_bytes-nil key)
  | inr (e', raised) ↦ ground (arith, below_carry prefix key {e = e'} p.1 k.1 raised)
]

carry-ne-nil : (prefix : Bytes) {e : Bytes} → carry prefix ≡ some e → eq_bytes e [] ≡ false
unfolding carry eq_bytes
carry-ne-nil [] h = cc
carry-ne-nil (a ∷ prefix) h = ground arith

carry-ne-no_end : (prefix : Bytes) {e : Bytes} → carry prefix ≡ some e → eq_bytes e no_end ≡ false
unfolding carry eq_bytes
carry-ne-no_end [] h = cc
carry-ne-no_end (a ∷ prefix) h = elim (Option-cases (carry prefix)) [
  | inl full ↦ ground arith
  | inr (e', raised) ↦ ground (arith, carry-ne-nil prefix {e = e'} raised)
]

prefix_range_end-carry : (prefix : Bytes) → prefix_range_end prefix ≡ carry_or (carry prefix)
unfolding prefix_range_end
prefix_range_end-carry [] = unfold carry carry_or in refl
prefix_range_end-carry (c ∷ prefix) =
    let x : Bytes = c ∷ prefix in rw (bump_last-carry x (length x) (omega arith), take-length)

ends_with_carry :
    (prefix key : Bytes)
    → IsBytes prefix
    → IsBytes key
    → key_in_range key prefix (some (carry_or (carry prefix))) ≡ starts_with key prefix
unfolding key_in_range
ends_with_carry prefix key p k = elim (Option-cases (carry prefix)) [
  | inl full ↦ rw full (unfold carry_or eq_bytes in below_full prefix key p k full)
  | inr (e, raised) ↦
      rw raised
        (unfold carry_or in rw (carry-ne-no_end prefix raised) (below_carry prefix key p k raised))
]

-- A key lies in the range from a prefix to `prefix_range_end` of it exactly when it starts with
-- the prefix, for all byte strings: the empty prefix and prefixes of 255s included.
pub prefix_range_end-covers :
    (prefix key : Bytes)
    → IsBytes prefix
    → IsBytes key
    → key_in_range key prefix (some (prefix_range_end prefix)) ≡ starts_with key prefix
prefix_range_end-covers prefix key p k =
    rw (prefix_range_end-carry prefix) (ends_with_carry prefix key p k)
