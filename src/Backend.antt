-- ===== src/Backend.antt =====
-- etcd_fsm/_backend.py: the values that cross the internal etcd boundary, its errors, and the
-- prefix ranges. Revisions and lease ids are numbers that are never negative. Limits, TTLs and
-- compare operands, of which the code checks the sign, are integers.
pub mod Prefix
pub mod Chains
use etcd_fsm.Common.{ℕ, Bool, Option, List, ℤ}
use etcd_fsm.Bytes.{Bytes}

pub data CompareTarget : Type 0 where
  value create_revision mod_revision version lease : CompareTarget

pub data CompareOperator : Type 0 where
  equal not_equal greater less : CompareOperator

pub data WatchEventKind : Type 0 where
  put delete : WatchEventKind

pub record KeyValue : Type 0 where
  pub key : Bytes
  pub value : Bytes
  pub create_revision : ℕ
  pub mod_revision : ℕ
  pub version : ℕ
  pub lease_id : Option ℕ

pub record RangeRequest : Type 0 where
  pub start : Bytes
  pub end : Option Bytes
  pub revision : Option ℕ
  pub limit : Option ℤ

pub record RangeResult : Type 0 where
  pub values : List KeyValue
  pub revision : ℕ
  pub more : Bool
  pub next_key : Option Bytes

-- `bytes | int`
pub data Operand : Type 0 where
  bytes : Bytes → Operand
  int : ℤ → Operand

pub record Compare : Type 0 where
  pub key : Bytes
  pub target : CompareTarget
  pub operator : CompareOperator
  pub operand : Operand

pub record Put : Type 0 where
  pub key : Bytes
  pub value : Bytes
  pub lease_id : Option ℕ

pub record DeleteRange : Type 0 where
  pub start : Bytes
  pub end : Option Bytes

pub data TransactionOperation : Type 0 where
  put : Put → TransactionOperation
  delete_range : DeleteRange → TransactionOperation
  get_range : RangeRequest → TransactionOperation

pub data TransactionResponse : Type 0 where
  put_result : Bytes → ℕ → TransactionResponse
  delete_result : ℕ → TransactionResponse
  range_result : RangeResult → TransactionResponse

pub record TransactionResult : Type 0 where
  pub succeeded : Bool
  pub responses : List TransactionResponse
  pub revision : ℕ

pub record WatchEvent : Type 0 where
  pub kind : WatchEventKind
  pub key_value : KeyValue

pub record WatchBatch : Type 0 where
  pub events : List WatchEvent
  pub revision : ℕ

pub record Lease : Type 0 where
  pub id : ℕ
  pub ttl : ℕ

-- The exceptions. `ValueError` and the failure of an `assert` are the language's. The messages of a plain
-- `BackendError` are constructors, and `backend_error` has the text of a client's exception.
pub data Error : Type 0 where
  value_error assertion_error : Error
  backend_closed : Error
  lease_not_found : ℕ → Error
  compacted_revision : ℕ → ℕ → Error
  future_revision : ℕ → ℕ → Error
  incompatible_operand : CompareTarget → Error
  overlapping_writes : Error
  historical_get_range : Error
  empty_page unexpected_response_count mismatched_response : Error
  backend_error : List ℕ → Error

pub data Result {ℓ} (A : Type ℓ) : Type ℓ where
  ok : A → Result A
  err : Error → Result A

infixl 5 ◌>>=◌
abbrev pub ◌>>=◌ {ℓ κ} : {A : Type ℓ} {B : Type κ} → Result A → (A → Result B) → Result B
ok a >>= f = f a
err e >>= f = err e
