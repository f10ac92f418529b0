-- ===== src/Fake/History.antt =====
-- Facts about the history of _fake_backend.py: what the versions of a key are after an append, and
-- which keys a scan of the dictionary finds.
pub mod Append
pub mod Members
pub mod Grow
use etcd_fsm.Common.{ℕ, ◌≡◌, ◌≤◌, ◌<◌, Bool, false, Option, List, [], ◌∷◌, All, any}
use etcd_fsm.Bytes.{Bytes, eq_bytes}
use etcd_fsm.Backend.{KeyValue}
use etcd_fsm.Fake.{Version, History, keys, versions, key_value_at}

-- Each version is older than those behind it.
abbrev pub IsAscending : List Version → Type 0
IsAscending [] = Unit
IsAscending (v ∷ vs) = All (λ w. v.revision < w.revision) vs × IsAscending vs

abbrev pub UpTo : ℕ → List Version → Type 0
UpTo revision = All (λ v. v.revision ≤ revision)

-- `key in found`
abbrev pub mem_key : Bytes → List Bytes → Bool
mem_key key = any (λ other. eq_bytes other key)

-- No key stands twice.
abbrev pub IsDistinct : List Bytes → Type 0
IsDistinct [] = Unit
IsDistinct (key ∷ rest) = (mem_key key rest ≡ false) × IsDistinct rest

-- The history of a backend at a revision: per key one version for each revision, in order, none
-- newer than the revision.
pub record IsHistory (revision : ℕ) (h : History) : Type 0 where
  pub ascending : (key : Bytes) → IsAscending (versions h key)
  pub up_to : (key : Bytes) → UpTo revision (versions h key)
  pub distinct : IsDistinct (keys h)
