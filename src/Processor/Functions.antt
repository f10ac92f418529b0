-- ===== src/Processor/Functions.antt =====
-- etcd_fsm/processor.py: how a function that is registered with a processor is compiled. What the code
-- finds out about a function with inspect and typing is a record of facts, and what it asks of classes
-- is an interface.
use etcd_fsm.Common.{
  ℕ, Bool, true, false, not, ◌||◌, ◌&&◌, Option, none, some, List, [], ◌∷◌, ◌==◌, filter,
  filter_map, length, is_empty, member, if◌then◌else◌,
}
use etcd_fsm.Naming.{Text}
use etcd_fsm.Checked
use etcd_fsm.Checked.{Checked, accepted, refused, and_then, raise_if, ◌>>=◌, ◌>>◌}
use etcd_fsm.Annotations.{Annotation, annotated, Member, state, command, flatten_union}
use etcd_fsm.Annotations
use etcd_fsm.Facts.{Value, CommandDefinition, FsmSchema}
use etcd_fsm.Schema.{state_models, contains_state_model, command_definition}
use etcd_fsm.Processor.{
  MatchMode, exact, subclasses, ReactionDefinition, CommandHandlerDefinition, InitializerDefinition,
}
use etcd_fsm.Processor.Returns.{reaction_return, command_return}

-- A resolved annotation of a parameter or of the return, where there is one; `Any` stands apart.
pub data ResolvedHint : Type 0 where
  unannotated any_hint : ResolvedHint
  hint : Annotation → ResolvedHint

-- A parameter, which may be *args or **kwargs.
pub record Parameter : Type 0 where
  pub is_variadic : Bool
  pub hint : ResolvedHint

pub record Function : Type 0 where
  pub identity : ℕ
  pub qualified_name : Text
  pub is_coroutine : Bool
  pub hints_resolve : Bool
  pub parameters : List Parameter
  pub returns : ResolvedHint

-- What `pydantic_generic_argument(model, BaseState)` gives.
pub data Binding : Type 0 where
  unresolved type_variable any_binding other_binding : Binding
  whole_enum : ℕ → Binding
  literal_binding : List Value → Binding

-- What is asked of classes: the argument that BaseState has in a model, `pydantic_generic_origin`, and
-- `issubclass`.
pub record Classes : Type 0 where
  pub binding_of : ℕ → Binding
  pub origin_of : ℕ → ℕ
  pub is_subclass : ℕ → ℕ → Bool

abbrev pub resolve_parameter : Parameter → ResolvedHint → Checked Annotation
resolve_parameter parameter any_hint = do
  raise_if parameter.is_variadic Checked.variadic_parameter
  refused Checked.any_parameter
resolve_parameter parameter unannotated = do
  raise_if parameter.is_variadic Checked.variadic_parameter
  refused Checked.unannotated_parameter
resolve_parameter parameter (hint annotation) = do
  raise_if parameter.is_variadic Checked.variadic_parameter
  accepted annotation

-- The loop of `_resolved_signature`.
unfoldable pub resolve_parameters : List Parameter → Checked (List Annotation)
resolve_parameters [] = accepted []
resolve_parameters (parameter ∷ rest) = do
  annotation ← resolve_parameter parameter parameter.hint
  later ← resolve_parameters rest
  accepted (annotation ∷ later)

abbrev pub resolve_return : ResolvedHint → Checked Annotation
resolve_return unannotated = refused Checked.no_return_annotation
resolve_return any_hint = refused Checked.any_return
resolve_return (hint annotation) = accepted annotation

-- `_resolved_signature`
unfoldable pub resolved_signature : Function → Checked (List Annotation × Annotation)
unfolding resolve_parameters
resolved_signature function = do
  raise_if (not function.is_coroutine) Checked.not_async
  raise_if (not function.hints_resolve) Checked.unresolved_hints
  parameters ← resolve_parameters function.parameters
  return_annotation ← resolve_return function.returns
  accepted (parameters, return_annotation)

-- `sources.add`, and `sources.update`
unfoldable pub set_update : List ℕ → List ℕ → List ℕ
set_update [] sources = sources
set_update (model ∷ rest) sources =
    set_update rest (if member model sources then sources else model ∷ sources)

-- `all(type(member) is schema.state_enum for member in members)`
abbrev pub all_of_enum : FsmSchema → List Value → Bool
all_of_enum s [] = true
all_of_enum s (v ∷ rest) = (v.type == s.state_enum.identity) && all_of_enum s rest

-- What is left of `_validate_state_binding` once the binding is known.
unfoldable pub check_binding : FsmSchema → Binding → Checked (Unit {0})
check_binding s unresolved = refused Checked.unresolved_binding
check_binding s type_variable = refused Checked.open_binding
check_binding s any_binding = refused Checked.open_binding
check_binding s other_binding = refused Checked.binding_of_other_enum
check_binding s (whole_enum enum_type) =
    raise_if (not (enum_type == s.state_enum.identity)) Checked.binding_of_other_enum
check_binding s (literal_binding values) =
    raise_if (is_empty values || not (all_of_enum s values)) Checked.binding_of_other_enum

module _ (classes : Classes) (s : FsmSchema) where
  -- `_validate_state_binding`
  abbrev pub validate_state_binding : ℕ → Checked (Unit {0})
  validate_state_binding model = check_binding s (classes.binding_of model)

  -- `{concrete for concrete in schema.states.values() if issubclass(concrete, origin)}`
  abbrev pub matched_by : ℕ → List ℕ
  matched_by model =
      filter (λ concrete. classes.is_subclass concrete (classes.origin_of model)) (state_models s)

  -- The states that one member of the annotation stands for.
  unfoldable pub expand_member : MatchMode → ℕ → Checked (List ℕ)
  expand_member exact model = do
    raise_if (not (contains_state_model s model)) (Checked.unregistered_state model)
    accepted (model ∷ [])
  expand_member subclasses model = do
    validate_state_binding model
    raise_if (is_empty (matched_by model)) (Checked.matches_no_state model)
    accepted (matched_by model)

  -- The loop of `_expand_state_annotation`.
  unfoldable pub expand_members : MatchMode → List Member → List ℕ → Checked (List ℕ)
  unfolding expand_member
  expand_members match [] sources = accepted sources
  expand_members match (state model ∷ rest) sources =
      and_then (expand_member match model)
        (λ found. expand_members match rest (set_update found sources))
  expand_members match (_ ∷ rest) sources = refused Checked.not_a_state_model

  -- `_expand_state_annotation`
  unfoldable pub expand_state_annotation : Annotation → MatchMode → Checked (List ℕ)
  unfolding expand_members
  expand_state_annotation annotation match = do
    raise_if (is_empty (flatten_union annotation)) Checked.no_state_declared
    expand_members match (flatten_union annotation) []

-- `strip_annotated`
unfoldable pub strip_annotated : Annotation → Annotation
strip_annotated (annotated a) = strip_annotated a
strip_annotated a = a

-- `_is_command_model`, with the class.
abbrev pub command_model : Annotation → Option ℕ
command_model (Annotations.member (command model)) = some model
command_model _ = none

-- `_is_state_model`
abbrev pub is_state_model : Member → Bool
is_state_model (state model) = true
is_state_model _ = false

abbrev pub all_state_models : List Member → Bool
all_state_models [] = true
all_state_models (m ∷ rest) = is_state_model m && all_state_models rest

-- `_command_parameters`
unfoldable pub one_of_each :
    FsmSchema → List ℕ → List Annotation → Checked (CommandDefinition × Annotation)
one_of_each s (model ∷ []) (annotation ∷ []) = do
  found ← command_definition s model
  accepted (found, annotation)
one_of_each s _ _ = refused Checked.not_one_command_and_state

unfoldable pub command_parameters :
    FsmSchema → List Annotation → Checked (CommandDefinition × Annotation)
unfolding one_of_each
command_parameters s parameters = do
  raise_if (not (length parameters == 2)) Checked.wrong_parameter_count
  one_of_each s (filter_map (λ annotation. command_model (strip_annotated annotation)) parameters)
      (filter (λ annotation. all_state_models (flatten_union annotation)) parameters)

-- The one parameter of a reaction or an initializer.
abbrev pub one_parameter : List Annotation → Checked Annotation
one_parameter (annotation ∷ []) = accepted annotation
one_parameter _ = refused Checked.wrong_parameter_count

-- `_is_command_model(command_model)`, and the definition of the command.
abbrev pub registered_command : FsmSchema → Option ℕ → Checked CommandDefinition
registered_command s none = refused Checked.not_a_command_model
registered_command s (some model) = command_definition s model

module _ (classes : Classes) (s : FsmSchema) where
  -- `_compile_reaction`
  unfoldable pub compile_reaction : Function → MatchMode → Text → Checked ReactionDefinition
  compile_reaction function match name = do
    signature ← resolved_signature function
    parameter ← one_parameter signature.0
    sources ← expand_state_annotation classes s parameter match
    returns ← reaction_return (state_models s) signature.1
    accepted (record {
      name = name;
      function = function.identity;
      match = match;
      sources = sources;
      targets = returns.targets;
      can_delete = returns.can_delete;
      can_retry = returns.can_retry;
      can_leave_unchanged = returns.can_leave_unchanged;
    })

  -- `_compile_command`
  unfoldable pub compile_command : Function → MatchMode → Text → Checked CommandHandlerDefinition
  compile_command function match name = do
    signature ← resolved_signature function
    found ← command_parameters s signature.0
    sources ← expand_state_annotation classes s found.1 match
    returns ← command_return (state_models s) found.0.result_type signature.1
    accepted (record {
      name = name;
      function = function.identity;
      match = match;
      command = found.0;
      sources = sources;
      targets = returns.targets;
      can_delete = returns.can_delete;
      can_retry = returns.can_retry;
    })

  -- `_compile_initializer`
  unfoldable pub compile_initializer : Function → Text → Checked InitializerDefinition
  compile_initializer function name = do
    signature ← resolved_signature function
    parameter ← one_parameter signature.0
    found ← registered_command s (command_model (strip_annotated parameter))
    returns ← command_return (state_models s) found.result_type signature.1
    raise_if (is_empty returns.targets) Checked.initializer_without_target
    raise_if returns.can_delete Checked.initializer_deletes
    accepted (record {
      name = name;
      function = function.identity;
      command = found;
      targets = returns.targets;
      can_retry = returns.can_retry;
    })
