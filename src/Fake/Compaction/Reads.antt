-- ===== src/Fake/Compaction/Reads.antt =====
-- What a compaction keeps: every read above the compacted revision, and the order of the history.
use etcd_fsm.Common.{
  ℕ, ◌≤◌, ◌<◌, ◌≡◌, refl, false, Option, none, some, List, [], ◌∷◌, reverse, arith, ltb,
  if◌then◌else◌, filter, ap, ◌∙◌, Option-cases, Bool-cases, inl, inr, fun_ext, filter_map,
}
use etcd_fsm.Bytes.{Bytes, eq_bytes}
use etcd_fsm.Backend.{KeyValue, RangeRequest, ok, err, compacted_revision}
use etcd_fsm.Fake.{
  FakeEtcdBackend, Version, History, keys, versions, first_at, live_version, key_value_at,
  ensure_open,
}
use etcd_fsm.Fake.Keys.{key_in_range, sorted}
use etcd_fsm.Fake.Reads.{range, range_unlocked, check_limit, read_revision, values_at}
use etcd_fsm.Fake.History.{IsHistory}
use etcd_fsm.Fake.Compaction.{compact_versions, compact_history, compact, last_only}
use etcd_fsm.Fake.Compaction.Versions.{
  first_at-compact_versions, compact_versions-IsAscending, compact_versions-UpTo,
}

keys-compact_history : (c : ℕ) (h : History) → keys (compact_history c h) ≡ keys h
unfolding compact_history
keys-compact_history c [] = refl
keys-compact_history c (e ∷ h) = ap (◌∷◌ e.0) (keys-compact_history c h)

versions-compact_history :
    (c : ℕ) (h : History) (k : Bytes)
    → versions (compact_history c h) k ≡ compact_versions c (versions h k)
unfolding compact_history versions compact_versions filter last_only
versions-compact_history c [] k = refl
versions-compact_history c ((j, vs) ∷ h) k = elim (Bool-cases (eq_bytes j k)) [
  | inl here ↦ rw here
  | inr there ↦ rw there (versions-compact_history c h k)
]

module _ (c : ℕ) (h : History) (r : ℕ) (valid : IsHistory r h) where
  pub compact_history-IsHistory : IsHistory r (compact_history c h)
  compact_history-IsHistory = record {
    ascending = λ k.
        rw (versions-compact_history c h k)
          (compact_versions-IsAscending c (versions h k) (valid.ascending k));
    up_to = λ k.
        rw (versions-compact_history c h k)
          (compact_versions-UpTo c r (versions h k) (valid.ascending k) (valid.up_to k));
    distinct = rw (keys-compact_history c h) valid.distinct;
  }

  pub key_value_at-compact_history :
      (k : Bytes) (t : ℕ) → c ≤ t → key_value_at (compact_history c h) k t ≡ key_value_at h k t
  unfolding key_value_at
  key_value_at-compact_history k t le = ap (live_version k) (
      ap (λ (l : List Version). first_at t (reverse l)) (versions-compact_history c h k)
      ∙ first_at-compact_versions c t (versions h k) (valid.ascending k) le)

  values_at-compact_history :
      (start : Bytes) (end : Option Bytes) (t : ℕ)
      → c ≤ t
      → values_at (compact_history c h) start end t ≡ values_at h start end t
  unfolding values_at
  values_at-compact_history start end t le = rw (keys-compact_history c h) (
      ap
        (λ (f : Bytes → Option KeyValue).
          filter_map (λ key. if key_in_range key start end then f key else none) (sorted (keys h)))
        (fun_ext (λ k. key_value_at-compact_history k t le)))

module _ (revision : ℕ) (s : FakeEtcdBackend) (opened : s.closed ≡ false)
    (newer : s.compacted_revision < revision) (reached : revision ≤ s.revision) where
  compacted : (compact revision s).1 ≡ record s {
    compacted_revision = revision;
    events = filter (λ batch. ltb revision batch.revision) s.events;
    history = compact_history revision s.history;
  }
  unfolding compact ensure_open
  compacted = ground arith

  -- On an open backend, a compaction at a revision above the compacted one and not above the
  -- current one leaves the answer of each range as it was that names no revision or one above it,
  -- where the history is well formed.
  pub range-compact :
      (request : RangeRequest)
      → IsHistory s.revision s.history
      → ((r : ℕ) → request.revision ≡ some r → revision < r)
      → range (compact revision s).1 request ≡ range s request
  unfolding range range_unlocked read_revision ensure_open
  range-compact request valid above = rw compacted (elim (Option-cases request.revision) [
    | inl current ↦ ground (
      arith,
      values_at-compact_history revision s.history s.revision valid request.start request.end
          s.revision reached,
    )
    | inr (r, pinned) ↦
        let lt : revision < r = above r pinned in
        ground (
          arith,
          values_at-compact_history revision s.history s.revision valid request.start request.end r
              (omega arith),
        )
  ])

  -- After such a compaction each range with a valid limit that names its revision or one below
  -- raises that the revision is compacted.
  pub range-compact_refused :
      (request : RangeRequest) (r : ℕ)
      → request.revision ≡ some r
      → r ≤ revision
      → check_limit request.limit ≡ ok tt
      → range (compact revision s).1 request ≡ err (compacted_revision r revision)
  unfolding range range_unlocked read_revision ensure_open
  range-compact_refused request r e le limited = rw compacted (ground arith)
