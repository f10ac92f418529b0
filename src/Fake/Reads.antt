-- ===== src/Fake/Reads.antt =====
-- etcd_fsm/_fake_backend.py: `range` and the compares, which read the state and may raise.
pub mod Values
pub mod Pages
use etcd_fsm.Common.{
  ℕ, suc, Bool, true, false, not, ◌&&◌, Option, none, some, List, [], ◌∷◌, ◌++◌, ℤ, pos, ltb, leb,
  if◌then◌else◌, filter_map, length, take, lt_int, eq_int, get_last?,
}
use etcd_fsm.Bytes.{Bytes, eq_bytes, lt_bytes}
use etcd_fsm.Backend.{
  KeyValue, RangeRequest, RangeResult, Compare, CompareTarget, CompareOperator, value,
  create_revision, mod_revision, version, lease, equal, not_equal, greater, less, Operand, bytes,
  int, Result, ok, err, value_error, compacted_revision, future_revision, incompatible_operand,
  ◌>>=◌,
}
use etcd_fsm.Fake.Keys.{key_in_range, sorted}
use etcd_fsm.Fake.{FakeEtcdBackend, History, ensure_open, key_value_at, keys}

-- The revision that a request reads at: the current one, or a kept one.
unfoldable pub read_revision : FakeEtcdBackend → Option ℕ → Result ℕ
read_revision s none = ok s.revision
read_revision s (some revision) =
    if ltb 0 s.compacted_revision && leb revision s.compacted_revision
    then err (compacted_revision revision s.compacted_revision)
    else if ltb s.revision revision
    then err (future_revision revision s.revision)
    else ok revision

-- The values of a range at a revision, in the order of the keys.
unfoldable pub values_at : History → Bytes → Option Bytes → ℕ → List KeyValue
values_at h start end revision =
    filter_map (λ key. if key_in_range key start end then key_value_at h key revision else none)
      (sorted (keys h))

-- `range limit must be positive`
unfoldable pub check_limit : Option ℤ → Result (Unit {0})
check_limit none = ok tt
check_limit (some (pos (suc n))) = ok tt
check_limit (some _) = err value_error

-- `values[-1].key + b"\0"`
abbrev pub next_key_after : List KeyValue → Option Bytes
next_key_after values = elim (get_last? values) [
  | none ↦ none
  | some last ↦ some (last.key ++ 0 ∷ [])
]

-- The page that the limit leaves.
unfoldable pub page : List KeyValue → ℕ → Option ℤ → RangeResult
page values revision (some (pos limit)) =
    let kept = take limit values in
    let more = ltb limit (length values) in
    record {
      values = kept;
      revision = revision;
      more = more;
      next_key = if more then next_key_after kept else none;
    }
page values revision _ = record {
  values = values;
  revision = revision;
  more = false;
  next_key = none;
}

-- `_range_unlocked`
unfoldable pub range_unlocked : FakeEtcdBackend → RangeRequest → Result RangeResult
range_unlocked s request = do
  _ ← check_limit request.limit
  revision ← read_revision s request.revision
  ok (page (values_at s.history request.start request.end revision) revision request.limit)

-- `range`; it leaves the state as it is.
unfoldable pub range : FakeEtcdBackend → RangeRequest → Result RangeResult
range s request = do _ ← ensure_open s; range_unlocked s request

-- The `actual` of `_compare_unlocked`.
unfoldable pub actual_of : CompareTarget → Option KeyValue → Operand
actual_of value none = bytes []
actual_of value (some current) = bytes current.value
actual_of _ none = int (pos 0)
actual_of create_revision (some current) = int (pos current.create_revision)
actual_of mod_revision (some current) = int (pos current.mod_revision)
actual_of version (some current) = int (pos current.version)
actual_of lease (some current) = elim current.lease_id [
  | none ↦ int (pos 0)
  | some lease_id ↦ int (pos lease_id)
]

unfoldable pub compare_bytes : Bytes → Bytes → CompareOperator → Bool
compare_bytes actual operand equal = eq_bytes actual operand
compare_bytes actual operand not_equal = not (eq_bytes actual operand)
compare_bytes actual operand greater = lt_bytes operand actual
compare_bytes actual operand less = lt_bytes actual operand

unfoldable pub compare_ints : ℤ → ℤ → CompareOperator → Bool
compare_ints actual operand equal = eq_int actual operand
compare_ints actual operand not_equal = not (eq_int actual operand)
compare_ints actual operand greater = lt_int operand actual
compare_ints actual operand less = lt_int actual operand

unfoldable pub compare_operands : CompareTarget → CompareOperator → Operand → Operand → Result Bool
compare_operands target operator (bytes actual) (bytes operand) =
    ok (compare_bytes actual operand operator)
compare_operands target operator (int actual) (int operand) =
    ok (compare_ints actual operand operator)
compare_operands target operator _ _ = err (incompatible_operand target)

-- `_compare_unlocked`
unfoldable pub compare_unlocked : FakeEtcdBackend → Compare → Result Bool
unfolding actual_of
compare_unlocked s c =
    compare_operands c.target c.operator
      (actual_of c.target (key_value_at s.history c.key s.revision)) c.operand

-- `all(self._compare_unlocked(c) for c in compares)`, which stops at the first that fails.
unfoldable pub all_compares : FakeEtcdBackend → List Compare → Result Bool
all_compares s [] = ok true
all_compares s (c ∷ rest) = elim (compare_unlocked s c) [
  | err e ↦ err e
  | ok passed ↦ elim passed [ true ↦ all_compares s rest | false ↦ ok false ]
]
