-- ===== src/Fake/Keys/Overlap.antt =====
-- `_ranges_overlap` against `_key_in_range`.
use etcd_fsm.Common.{
  ◌≡◌, ◌≢◌, ◌↔◌, ◌⊎◌, refl, true, false, Option, none, some, [], ◌∷◌, ◌++◌, arith, inl, inr,
  Bool-cases,
}
use etcd_fsm.Bytes.{Bytes, eq_bytes, lt_bytes, le_bytes}
use etcd_fsm.Bytes.Order.{
  eq_bytes_refl, lt_bytes_irrefl, lt_bytes-total, lt_bytes-successor, lt_of_le_of_lt,
  lt_bytes-asymm, eq_of_eq_bytes,
}
use etcd_fsm.Fake.Keys.{key_in_range, ranges_overlap, effective_end, no_end}

-- The range of a single key that is not empty ends right behind it.
at_most :
    (key start : Bytes)
    → start ≢ []
    → (eq_bytes (start ++ 0 ∷ []) no_end ≡ true) ⊎ (lt_bytes key (start ++ 0 ∷ []) ≡ true)
    → lt_bytes start key ≡ false
unfolding eq_bytes le_bytes
at_most key [] p d = absurd (p refl)
at_most key (b ∷ []) p d = ground (arith, lt_bytes-successor (b ∷ []) key)
at_most key (b ∷ c ∷ y) p d = ground (arith, lt_bytes-successor (b ∷ c ∷ y) key)

module _ (key start : Bytes) where
  not_below_start :
      (end : Option Bytes) → key_in_range key start end ≡ true → lt_bytes key start ≡ false
  unfolding key_in_range le_bytes
  not_below_start none h = rw (eq_of_eq_bytes key start h, lt_bytes_irrefl)
  not_below_start (some end) h = ground arith

  below_end :
      (end : Option Bytes)
      → key_in_range key start end ≡ true
      → eq_bytes (effective_end start end) no_end ≡ false
      → lt_bytes key (effective_end start end) ≡ true
  unfolding key_in_range le_bytes
  below_end none h p =
      ground
        (arith, lt_bytes-successor start key, eq_of_eq_bytes key start h, lt_bytes_irrefl start)
  below_end (some end) h p = ground arith

  in_range :
      (end : Option Bytes)
      → start ≢ []
      → lt_bytes key start ≡ false
      → (eq_bytes (effective_end start end) no_end ≡ true)
        ⊎ (lt_bytes key (effective_end start end) ≡ true)
      → key_in_range key start end ≡ true
  unfolding key_in_range le_bytes
  in_range none p h d =
      rw (lt_bytes-total key start h (at_most key start p d)) (eq_bytes_refl start)
  in_range (some end) p h d = ground arith

-- A key in both ranges makes them overlap.
pub ranges_overlap_of_common :
    (left right : Bytes × Option Bytes) (key : Bytes)
    → key_in_range key left.0 left.1 ≡ true
    → key_in_range key right.0 right.1 ≡ true
    → ranges_overlap left right ≡ true
unfolding ranges_overlap
ranges_overlap_of_common (ls, le) (rs, re) key p q = ground (
  arith,
  below_end key ls le p,
  below_end key rs re q,
  lt_of_le_of_lt ls key (effective_end rs re) (not_below_start key ls le p),
  lt_of_le_of_lt rs key (effective_end ls le) (not_below_start key rs re q),
)

-- A range that holds its own start, which is not empty: not one like [b, a).
abbrev pub IsProper : Bytes × Option Bytes → Type 0
IsProper r = (r.0 ≢ []) × (key_in_range r.0 r.0 r.1 ≡ true)

-- Where both are proper, overlapping ranges share the later of the two starts.
common_of_ranges_overlap :
    (left right : Bytes × Option Bytes)
    → IsProper left
    → IsProper right
    → ranges_overlap left right ≡ true
    → (key : Bytes) × (key_in_range key left.0 left.1 ≡ true)
      × (key_in_range key right.0 right.1 ≡ true)
unfolding ranges_overlap
common_of_ranges_overlap (ls, le) (rs, re) p q h = elim (Bool-cases (lt_bytes ls rs)) [
  | inl below ↦ (rs, in_range rs ls le p.0 (lt_bytes-asymm ls rs below) (ground arith), q.1)
  | inr not_below ↦ (ls, p.1, in_range ls rs re q.0 not_below (ground arith))
]

-- Two ranges that each hold their own start, which is not empty, pass the test for an overlap
-- exactly if some key lies in both.
pub ranges_overlap_iff :
    (left right : Bytes × Option Bytes)
    → IsProper left
    → IsProper right
    → (ranges_overlap left right ≡ true) ↔ (
        (key : Bytes) × (key_in_range key left.0 left.1 ≡ true)
        × (key_in_range key right.0 right.1 ≡ true))
ranges_overlap_iff left right p q =
    (common_of_ranges_overlap left right p q, λ c. ranges_overlap_of_common left right c.0 c.1 c.2)
