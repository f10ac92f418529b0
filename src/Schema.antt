-- ===== src/Schema.antt =====
-- etcd_fsm/schema.py: the schema of a state machine, compiled from the facts about its state and its
-- command models, and what is looked up in it.
pub mod Registered
pub mod Models
pub mod Values
pub mod Lookups
use etcd_fsm.Common.{
  ℕ, Bool, true, false, not, ◌||◌, ◌&&◌, Option, none, some, List, [], ◌∷◌, ◌++◌, map, ◌==◌, leb,
  length, filter, any, is_empty, member, if◌then◌else◌,
}
use etcd_fsm.Facts.{
  EnumType, Value, Hint, literal, other, GenericArgument, not_found, any_type, argument, ModelFacts,
  CommandDefinition, FsmSchema, lookup,
}
use etcd_fsm.Naming.{Text, contains, validate_namespace}
use etcd_fsm.Annotations.{Annotation}
use etcd_fsm.Checked.{
  Checked, accepted, refused, and_then, raise_if, ◌>>=◌, ◌>>◌, invalid_schema_name,
  invalid_namespace, enum_aliases, command_enum_required, registered_twice, wrong_base,
  abstract_model, not_frozen, fsm_key_not_synchronous, fsm_key_parameters, fsm_key_unresolved,
  fsm_key_not_str, no_local_discriminator, unresolved_discriminator, not_a_literal, not_one_literal,
  other_enum, no_default, other_default, no_result_type, unresolved_result_type,
  discriminator_declared_twice, missing_models, no_state_models, unregistered_discriminator,
  unregistered_command,
}

-- `_reject_enum_aliases`
unfoldable pub reject_enum_aliases : EnumType → Checked (Unit {0})
reject_enum_aliases enum_type =
    raise_if (not (enum_type.name_count == length enum_type.members)) enum_aliases

-- `_validate_model_contract`
unfoldable pub validate_model_contract : ModelFacts → Checked (Unit {0})
validate_model_contract m = do
  raise_if (not m.is_frozen) (not_frozen m.identity)
  raise_if m.fsm_key_is_coroutine (fsm_key_not_synchronous m.identity)
  raise_if (not (m.fsm_key_parameter_count == 1)) (fsm_key_parameters m.identity)
  elim m.fsm_key_returns_str [
    | none ↦ refused (fsm_key_unresolved m.identity)
    | some returns_str ↦ raise_if (not returns_str) (fsm_key_not_str m.identity)
  ]

-- The one member of a Literal annotation.
unfoldable pub literal_member : ModelFacts → Option Hint → Checked Value
literal_member m none = refused (unresolved_discriminator m.identity)
literal_member m (some other) = refused (not_a_literal m.identity)
literal_member m (some (literal (v ∷ []))) = accepted v
literal_member m (some (literal _)) = refused (not_one_literal m.identity)

-- `_literal_discriminator`
unfoldable pub literal_discriminator : ModelFacts → EnumType → Checked ℕ
unfolding literal_member
literal_discriminator m enum_type = do
  raise_if (not m.declares_discriminator) (no_local_discriminator m.identity)
  discriminator ← literal_member m m.hint
  raise_if (not (discriminator.type == enum_type.identity)) (other_enum m.identity)
  elim m.default [
    | none ↦ refused (no_default m.identity)
    | some default ↦ do
      raise_if (not (default.type == discriminator.type && default.value == discriminator.value))
          (other_default m.identity)
      accepted discriminator.value
  ]

-- What both loops look at first in a model.
unfoldable pub check_model : EnumType → ModelFacts → Checked ℕ
unfolding validate_model_contract literal_discriminator
check_model enum_type m = do
  raise_if (not m.is_model) (wrong_base m.identity)
  raise_if m.is_abstract (abstract_model m.identity)
  validate_model_contract m
  literal_discriminator m enum_type

-- What a state model is registered as.
unfoldable pub check_state : EnumType → ModelFacts → Checked (ℕ × ℕ)
unfolding check_model
check_state enum_type m = do
  discriminator ← check_model enum_type m
  accepted (discriminator, m.identity)

-- What a command model is registered as.
unfoldable pub check_command : EnumType → ModelFacts → Checked (ℕ × CommandDefinition)
unfolding check_model
check_command enum_type m = do
  discriminator ← check_model enum_type m
  elim m.result_type [
    | not_found ↦ refused (no_result_type m.identity)
    | any_type ↦ refused (unresolved_result_type m.identity)
    | argument result_type ↦ accepted (
      discriminator,
      record { model = m.identity; discriminator = discriminator; result_type = result_type },
    )
  ]

-- The loop over the models, of `_compile_states` and of `_compile_commands`, with the models seen so far
-- and the mapping so far.
unfoldable pub register {ℓ} :
    {V : Type ℓ}
    → (ModelFacts → Checked (ℕ × V))
    → List ModelFacts
    → List ℕ
    → List (ℕ × V)
    → Checked (List (ℕ × V))
register check [] seen mapping = accepted mapping
register check (m ∷ rest) seen mapping = elim (member m.identity seen) [
  | true ↦ refused (registered_twice m.identity)
  | false ↦ and_then (check m) (λ entry. elim (lookup entry.0 mapping) [
    | some _ ↦ refused (discriminator_declared_twice entry.0 m.identity)
    | none ↦ register check rest (m.identity ∷ seen) (mapping ++ entry ∷ [])
  ])
]

-- `expected.difference(mapping)`
abbrev pub missing {ℓ} : {V : Type ℓ} → EnumType → List (ℕ × V) → List ℕ
missing enum_type mapping =
    filter (λ discriminator. not (member discriminator (map (λ entry. entry.0) mapping)))
      enum_type.members

-- `_compile_states`
unfoldable pub compile_states : EnumType → List ModelFacts → Checked (List (ℕ × ℕ))
compile_states enum_type models = do
  mapping ← register (check_state enum_type) models [] []
  raise_if (not (is_empty (missing enum_type mapping))) (missing_models (missing enum_type mapping))
  raise_if (is_empty mapping) no_state_models
  accepted mapping

-- `_compile_commands`
unfoldable pub compile_commands :
    Option EnumType → List ModelFacts → Checked (List (ℕ × CommandDefinition))
compile_commands none models = do
  raise_if (not (is_empty models)) command_enum_required
  accepted []
compile_commands (some enum_type) models = do
  mapping ← register (check_command enum_type) models [] []
  raise_if (not (is_empty (missing enum_type mapping))) (missing_models (missing enum_type mapping))
  accepted mapping

-- The characters that `str.strip` takes off.
abbrev pub is_space : ℕ → Bool
is_space c =
    (leb 9 c && leb c 13)
    || (leb 28 c && leb c 32)
    || c == 133
    || c == 160
    || c == 5760
    || (leb 8192 c && leb c 8202)
    || c == 8232
    || c == 8233
    || c == 8239
    || c == 8287
    || c == 12288

-- `_validate_name`; a name of blanks only is empty once it is stripped.
unfoldable pub validate_name : Text → Checked Text
validate_name name = do
  raise_if (not (any (λ c. not (is_space c)) name)) invalid_schema_name
  raise_if (contains b'/' name) invalid_schema_name
  accepted name

abbrev pub checked_namespace : Text → Checked Text
checked_namespace namespace = elim (validate_namespace namespace) [
  | none ↦ refused invalid_namespace
  | some accepted_namespace ↦ accepted accepted_namespace
]

abbrev pub reject_command_aliases : Option EnumType → Checked (Unit {0})
reject_command_aliases none = accepted tt
reject_command_aliases (some command_enum) = reject_enum_aliases command_enum

-- `FSMSchema.__init__`
unfoldable pub make_schema :
    ℕ
    → Text
    → Text
    → EnumType
    → List ModelFacts
    → Option EnumType
    → List ModelFacts
    → Checked FsmSchema
make_schema identity name namespace state_enum states command_enum commands = do
  name ← validate_name name
  namespace ← checked_namespace namespace
  reject_enum_aliases state_enum
  reject_command_aliases command_enum
  state_mapping ← compile_states state_enum states
  command_mapping ← compile_commands command_enum commands
  accepted (record {
    identity = identity;
    name = name;
    namespace = namespace;
    state_enum = state_enum;
    command_enum = command_enum;
    states = state_mapping;
    commands = command_mapping;
  })

-- `state_model`
unfoldable pub state_model : FsmSchema → ℕ → Checked ℕ
state_model s discriminator = elim (lookup discriminator s.states) [
  | none ↦ refused (unregistered_discriminator discriminator)
  | some model ↦ accepted model
]

-- The loop of `command_definition`.
unfoldable pub find_command : List (ℕ × CommandDefinition) → ℕ → Option CommandDefinition
find_command [] model = none
find_command (entry ∷ rest) model =
    let later = find_command rest model in if entry.1.model == model then some entry.1 else later

-- `command_definition`
unfoldable pub command_definition : FsmSchema → ℕ → Checked CommandDefinition
command_definition s model = elim (find_command s.commands model) [
  | none ↦ refused (unregistered_command model)
  | some definition ↦ accepted definition
]

-- `_state_models`
abbrev pub state_models : FsmSchema → List ℕ
state_models s = map (λ entry. entry.1) s.states

-- `contains_state_model`
unfoldable pub contains_state_model : FsmSchema → ℕ → Bool
contains_state_model s model = member model (state_models s)

-- `contains_command_model`
unfoldable pub contains_command_model : FsmSchema → ℕ → Bool
contains_command_model s model = member model (map (λ entry. entry.1.model) s.commands)
