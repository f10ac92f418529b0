-- ===== src/Backend/Prefix.antt =====
-- etcd_fsm/_backend.py: `prefix_range_end` and `prefix_range`. The loop runs over the indices
-- from the last to the first, so it is a recursion on the number of indices that are left.
pub mod Carry
use etcd_fsm.Common.{
  ℕ, zero, suc, ◌+◌, Option, some, ℤ, List, [], ◌∷◌, ◌++◌, length, take, ltb, if◌then◌else◌,
}
use etcd_fsm.Bytes.{Bytes}
use etcd_fsm.Backend.{RangeRequest}

-- `candidate[index]`
abbrev pub byte_at : Bytes → ℕ → ℕ
byte_at [] i = 0
byte_at (c ∷ x) zero = c
byte_at (c ∷ x) (suc i) = byte_at x i

-- The rounds of the loop at the indices below the count.
pub bump_last : Bytes → ℕ → Bytes
bump_last candidate zero = 0 ∷ []
bump_last candidate (suc index) =
    let earlier = bump_last candidate index in
    if ltb (byte_at candidate index) 255
    then take index candidate ++ (byte_at candidate index + 1) ∷ []
    else earlier

unfoldable pub prefix_range_end : Bytes → Bytes
unfolding bump_last
prefix_range_end [] = 0 ∷ []
prefix_range_end (c ∷ prefix) = bump_last (c ∷ prefix) (length (c ∷ prefix))

unfoldable pub prefix_range : Bytes → Option ℕ → Option ℤ → RangeRequest
prefix_range prefix revision limit = record {
  start = prefix;
  end = some (prefix_range_end prefix);
  revision = revision;
  limit = limit;
}
