-- ===== src/Fake/Compaction.antt =====
-- etcd_fsm/_fake_backend.py: `compact`
pub mod Versions
pub mod Reads
use etcd_fsm.Common.{ℕ, List, [], ◌∷◌, ◌++◌, map, ltb, leb, if◌then◌else◌, filter}
use etcd_fsm.Backend.{Result, ok, err, future_revision}
use etcd_fsm.Fake.{FakeEtcdBackend, Version, History, ensure_open}

-- `[baseline[-1]] if baseline else []`
unfoldable pub last_only : List Version → List Version
last_only [] = []
last_only (version ∷ []) = version ∷ []
last_only (version ∷ next ∷ rest) = last_only (next ∷ rest)

-- The versions of one key that are kept: the last one up to the revision, and the newer ones.
unfoldable pub compact_versions : ℕ → List Version → List Version
unfolding last_only
compact_versions revision vs =
    last_only (filter (λ version. leb version.revision revision) vs)
    ++ filter (λ version. ltb revision version.revision) vs

unfoldable pub compact_history : ℕ → History → History
compact_history revision = map (λ e. (e.0, compact_versions revision e.1))

-- `compact`
unfoldable pub compact : ℕ → FakeEtcdBackend → Result (Unit {0}) × FakeEtcdBackend
unfolding compact_history
compact revision s = elim (ensure_open s) [
  | err e ↦ (err e, s)
  | ok _ ↦
      if ltb s.revision revision
      then (err (future_revision revision s.revision), s)
      else if leb revision s.compacted_revision
      then (ok tt, s)
      else (
        ok tt,
        record s {
          compacted_revision = revision;
          events = filter (λ batch. ltb revision batch.revision) s.events;
          history = compact_history revision s.history;
        },
      )
]
