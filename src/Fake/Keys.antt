-- ===== src/Fake/Keys.antt =====
-- etcd_fsm/_fake_backend.py: `_key_in_range` and `_ranges_overlap`, and `sorted` on keys.
pub mod Overlap
pub mod Prefix
use etcd_fsm.Common.{Bool, ◌&&◌, ◌||◌, Option, none, some, List, [], ◌∷◌, ◌++◌, if◌then◌else◌}
use etcd_fsm.Bytes.{Bytes, eq_bytes, lt_bytes, le_bytes}

-- The `end` that means "all keys from the start on".
abbrev pub no_end : Bytes
no_end = 0 ∷ []

unfoldable pub key_in_range : Bytes → Bytes → Option Bytes → Bool
key_in_range key start none = eq_bytes key start
key_in_range key start (some end) =
    if eq_bytes end no_end then le_bytes start key else le_bytes start key && lt_bytes key end

abbrev pub effective_end : Bytes → Option Bytes → Bytes
effective_end start none = start ++ 0 ∷ []
effective_end start (some end) = end

unfoldable pub ranges_overlap : Bytes × Option Bytes → Bytes × Option Bytes → Bool
ranges_overlap (left_start, left_end) (right_start, right_end) =
    let effective_left_end = effective_end left_start left_end in
    let effective_right_end = effective_end right_start right_end in
    if eq_bytes effective_left_end no_end
    then eq_bytes effective_right_end no_end || lt_bytes left_start effective_right_end
    else if eq_bytes effective_right_end no_end
    then lt_bytes right_start effective_left_end
    else lt_bytes left_start effective_right_end && lt_bytes right_start effective_left_end

unfoldable pub insert_key : Bytes → List Bytes → List Bytes
insert_key key [] = key ∷ []
insert_key key (other ∷ rest) =
    let behind = insert_key key rest in
    if le_bytes key other then key ∷ other ∷ rest else other ∷ behind

-- `sorted(keys)`
unfoldable pub sorted : List Bytes → List Bytes
unfolding insert_key
sorted [] = []
sorted (key ∷ rest) = insert_key key (sorted rest)
