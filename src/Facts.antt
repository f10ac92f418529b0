-- ===== src/Facts.antt =====
-- etcd_fsm/schema.py: what `make_schema` reads of the classes it is given, as records of facts, and the
-- compiled schema that it returns. A class, an enum type and an enum member are told apart by identity,
-- which a number stands for.
use etcd_fsm.Common.{ℕ, Bool, Option, none, some, List, [], ◌∷◌, ◌==◌, if◌then◌else◌}
use etcd_fsm.Naming.{Text}
use etcd_fsm.Annotations.{Annotation}

-- `list(enum_type)`, and how many names `__members__` has, those of aliases included.
pub record EnumType : Type 0 where
  pub identity : ℕ
  pub members : List ℕ
  pub name_count : ℕ

-- A value that stands in a Literal or as a default: its type, and which one it is.
pub record Value : Type 0 where
  pub type : ℕ
  pub value : ℕ

-- A field's annotation, as far as it is looked at.
pub data Hint : Type 0 where
  literal : List Value → Hint
  other : Hint

-- What `pydantic_generic_argument(model, Command)` gives.
pub data GenericArgument : Type 0 where
  not_found any_type : GenericArgument
  argument : Annotation → GenericArgument

-- What the code looks at in a class. `none` as `hint` and `fsm_key_returns_str` is an annotation that
-- cannot be resolved, as `default` it is a field that is missing or required.
pub record ModelFacts : Type 0 where
  pub identity : ℕ
  pub is_model : Bool
  pub is_abstract : Bool
  pub is_frozen : Bool
  pub fsm_key_is_coroutine : Bool
  pub fsm_key_parameter_count : ℕ
  pub fsm_key_returns_str : Option Bool
  pub declares_discriminator : Bool
  pub hint : Option Hint
  pub default : Option Value
  pub result_type : GenericArgument

pub record CommandDefinition : Type 0 where
  pub model : ℕ
  pub discriminator : ℕ
  pub result_type : Annotation

pub record FsmSchema : Type 0 where
  pub identity : ℕ
  pub name : Text
  pub namespace : Text
  pub state_enum : EnumType
  pub command_enum : Option EnumType
  pub states : List (ℕ × ℕ)
  pub commands : List (ℕ × CommandDefinition)

-- `mapping.get(key)`
unfoldable pub lookup {ℓ} : {V : Type ℓ} → ℕ → List (ℕ × V) → Option V
lookup key [] = none
lookup key (entry ∷ rest) =
    let later = lookup key rest in if entry.0 == key then some entry.1 else later
