-- ===== src/Tests/Definitions.antt =====
-- The theorems on schemas, on processors that are finalized, and on the graphs that are drawn of them, at a
-- schema with two states and one command.
use etcd_fsm.Common.{
  ℕ, ◌≡◌, ◌↔◌, inl, inr, refl, true, false, Option, none, some, List, [], ◌∷◌, ◌++◌, ◌==◌, ◌+◌,
  if◌then◌else◌, map, filter, any, All, member, has_duplicate, is_some, codes,
}
use native.Mathlib.Decide.{ℕ_discrete}
use etcd_fsm.Naming.{
  Text, contains, eq_text, validate_fsm_key, validate_namespace, split, is_abnormal,
}
use etcd_fsm.Checked.{accepted}
use etcd_fsm.Annotations.{
  Annotation, Member, state, command, applied, mentions, eq_member, member_discrete, has, from_keys,
  flatten_union, flatten_members,
}
use etcd_fsm.Annotations
use etcd_fsm.Facts.{EnumType, ModelFacts, FsmSchema, Hint, GenericArgument, lookup}
use etcd_fsm.Schema.{
  reject_enum_aliases, validate_model_contract, literal_member, literal_discriminator, check_model,
  check_state, check_command, register, compile_states, compile_commands, validate_name,
  make_schema, state_model, contains_state_model, find_command, command_definition,
  contains_command_model,
}
use etcd_fsm.Schema.Models.{Matches, CommandsMatch}
use etcd_fsm.Schema.Models
use etcd_fsm.Schema.Lookups
use etcd_fsm.Schema.Lookups.{IsFound}
use etcd_fsm.Schema.Values
use etcd_fsm.Schema.Values.{validate_state_value, validate_command_value, is_other_enum}
use etcd_fsm.Processor.{
  exact, subclasses, composed, ReactionDefinition, InitializerDefinition, reaction, initializer,
  FsmProcessor, concat_map, compose_processors, validate_transitioning_reactions, claim_all,
  claim_commands, owner_of, has_repeated,
}
use etcd_fsm.Processor.Returns.{
  contains_model, reaction_members, reaction_return, command_members, all_in, command_return,
}
use etcd_fsm.Processor.Functions.{
  Function, ResolvedHint, Classes, Binding, resolve_parameters, resolved_signature, set_update,
  check_binding, expand_member, expand_members, expand_state_annotation, strip_annotated,
  one_of_each, command_parameters, compile_reaction, compile_command, compile_initializer,
}
use etcd_fsm.Processor.Finalize.{
  OpenProcessor, function_name, compile_pending, compile_all, finalize, require_finalized,
  finalize_all, compose_open,
}
use etcd_fsm.Processor.Sources
use etcd_fsm.Processor.Sources.{stands_for}
use etcd_fsm.Processor.Finalized
use etcd_fsm.Processor.Finalized.{IsFinalized}
use etcd_fsm.Processor.Ends as EdgeEnds
use etcd_fsm.Processor.Ends.{EndsIn}
use etcd_fsm.Generics.{ModelClass, model_class, end, and, type, pydantic_generic_argument}
use etcd_fsm.Generics.Ends
use etcd_fsm.Generics.Ends.{IsScoped, has_ended}
use etcd_fsm.Graph.{Labels, state_nodes}
use etcd_fsm.Graph.Texts.{dot_text, mermaid_text, double_quote}
use etcd_fsm.Graph.Dot
use etcd_fsm.Graph.Dot.{read_label, special}
use etcd_fsm.Graph.Ids
use etcd_fsm.Graph.Shown
use etcd_fsm.Graph.Shown.{IsCoherent}
use etcd_fsm.Graph.Render.{
  ImportedDefinitions, compose_graph, compose_schemas, render_graph, mermaid, dot,
}

abbrev facts : ℕ → ℕ → ℕ → GenericArgument → ModelFacts
facts identity enum_type discriminator result_type = record {
  identity = identity;
  is_model = true;
  is_abstract = false;
  is_frozen = true;
  fsm_key_is_coroutine = false;
  fsm_key_parameter_count = 1;
  fsm_key_returns_str = some true;
  declares_discriminator = true;
  hint = some (Hint.literal (record { type = enum_type; value = discriminator } ∷ []));
  default = some (record { type = enum_type; value = discriminator });
  result_type = result_type;
}

abbrev state_enum : EnumType
state_enum = record { identity = 10; members = 1 ∷ 2 ∷ []; name_count = 2 }

abbrev command_enum : Option EnumType
command_enum = some (record { identity = 11; members = 5 ∷ []; name_count = 1 })

-- `Applied[StateOne]`
abbrev opens : Annotation
opens = Annotations.member (applied (state 101))

abbrev states : List ModelFacts
states = facts 101 10 1 GenericArgument.not_found ∷ facts 102 10 2 GenericArgument.not_found ∷ []

abbrev commands : List ModelFacts
commands = facts 107 11 5 (GenericArgument.argument opens) ∷ []

abbrev path : Text
path = codes "/fsm"

abbrev orders : FsmSchema
orders = record {
  identity = 0;
  name = codes "orders";
  namespace = path;
  state_enum = state_enum;
  command_enum = command_enum;
  states = (1, 101) ∷ (2, 102) ∷ [];
  commands = (5, record { model = 107; discriminator = 5; result_type = opens }) ∷ [];
}

-- What the examples compute with.
definitions : Unit {0}
unfolding make_schema validate_name contains any validate_namespace split is_abnormal eq_text
    reject_enum_aliases compile_states compile_commands register check_state check_command
    check_model validate_model_contract literal_discriminator literal_member lookup member filter
    find_command command_definition contains_command_model has_duplicate has from_keys flatten_union
    flatten_members eq_member member_discrete ℕ_discrete contains_state_model concat_map
    compose_processors validate_transitioning_reactions claim_all claim_commands owner_of
    has_repeated contains_model reaction_members reaction_return command_members all_in
    command_return resolve_parameters resolved_signature set_update check_binding expand_member
    expand_members expand_state_annotation strip_annotated one_of_each command_parameters
    compile_reaction compile_command compile_initializer function_name compile_pending compile_all
    finalize require_finalized finalize_all compose_open compose_graph compose_schemas
definitions = tt

make_schema-Matches_example :
    (orders.state_enum ≡ state_enum)
    × Matches (check_state state_enum) state_enum states orders.states
    × CommandsMatch command_enum commands orders.commands
unfolding definitions
make_schema-Matches_example =
    Models.make_schema-Matches 0 (codes "orders") path state_enum states command_enum commands
      orders refl

make_schema-total_example :
    ((discriminator : ℕ)
      → member discriminator state_enum.members ≡ true
      → (model : ℕ) × (state_model orders discriminator ≡ accepted model)
        × (contains_state_model orders model ≡ true))
    × All (IsFound orders) commands
unfolding definitions
make_schema-total_example =
    Lookups.make_schema-total 0 (codes "orders") path state_enum states command_enum commands orders
      refl

-- Values that are numbers: the state with the value 1, which pydantic leaves as it is.
abbrev numbers : Values.Values ℕ
numbers = record {
  class_of = λ v. if v == 5 then 107 else v + 100;
  state_of = λ v. record { type = 10; value = v };
  command_of = λ v. some (record { type = 11; value = v });
  model_validate = λ model v. some v;
  fsm_key = λ v. codes "key";
}

validate_state_value_iff_example : (validate_state_value numbers orders 1 ≡ accepted 1) ↔ (
    ((numbers.state_of 1).type ≡ orders.state_enum.identity)
    × (lookup (numbers.state_of 1).value orders.states ≡ some (numbers.class_of 1))
    × (numbers.model_validate (numbers.class_of 1) 1 ≡ some 1)
    × (is_some (validate_fsm_key (numbers.fsm_key 1)) ≡ true))
validate_state_value_iff_example = Values.validate_state_value_iff numbers orders 1 1

-- Each model is its own origin and its own only subclass.
abbrev flat : Classes
flat = record {
  binding_of = λ model. Binding.whole_enum 10;
  origin_of = λ model. model;
  is_subclass = λ a b. a == b;
}

-- StateOne
abbrev first_state : Annotation
first_state = Annotations.member (state 101)

expand_state_annotation_lem_example :
    ((concrete : ℕ)
      → (member concrete (101 ∷ []) ≡ true) ↔ (
          (model : ℕ) × (mentions (state model) first_state ≡ true)
          × (stands_for flat orders subclasses model concrete ≡ true)))
    × ((concrete : ℕ)
        → member concrete (101 ∷ []) ≡ true
        → contains_state_model orders concrete ≡ true)
    × (has_duplicate (101 ∷ []) ≡ false)
unfolding definitions
expand_state_annotation_lem_example =
    Sources.expand_state_annotation_lem flat orders first_state subclasses (101 ∷ []) refl

abbrev takes : Annotation → Annotation → Function
takes parameter returns = record {
  identity = 1;
  qualified_name = codes "module.function";
  is_coroutine = true;
  hints_resolve = true;
  parameters = record { is_variadic = false; hint = ResolvedHint.hint parameter } ∷ [];
  returns = ResolvedHint.hint returns;
}

-- A reaction from StateOne to StateTwo, and an initializer that starts in StateOne.
abbrev processor : OpenProcessor
processor = record {
  schema = orders;
  name = codes "worker";
  pending =
      record {
        kind = reaction;
        function = takes first_state (Annotations.member (state 102));
        name = none;
        match = exact;
      }
      ∷ record {
        kind = initializer;
        function = takes (Annotations.member (command 107)) opens;
        name = some (codes "open");
        match = exact;
      }
      ∷ [];
  finalized = none;
}

abbrev reacts : ReactionDefinition
reacts = record {
  name = codes "module.function";
  function = 1;
  match = exact;
  sources = 101 ∷ [];
  targets = 102 ∷ [];
  can_delete = false;
  can_retry = false;
  can_leave_unchanged = false;
}

abbrev starts : InitializerDefinition
starts = record {
  name = codes "open";
  function = 1;
  command = record { model = 107; discriminator = 5; result_type = opens };
  targets = 101 ∷ [];
  can_retry = false;
}

abbrev made : FsmProcessor
made = record {
  schema = orders;
  name = codes "worker";
  reactions = reacts ∷ [];
  commands = [];
  initializers = (107, starts) ∷ [];
}

finalize-IsFinalized_example :
    IsFinalized flat processor (record processor { finalized = some made })
unfolding definitions
finalize-IsFinalized_example =
    Finalized.finalize-IsFinalized flat processor (record processor { finalized = some made }) refl
      refl

compose_open-EndsIn_example : (orders ≡ orders) × All (EndsIn orders) (composed made []).edges
unfolding definitions
compose_open-EndsIn_example =
    EdgeEnds.compose_open-EndsIn orders flat (record processor { finalized = some made } ∷ [])
      (composed made []) ((refl, inr (processor, refl, refl, refl)), tt) refl

abbrev labels : Labels
labels = record {
  member_name = λ d. codes "MEMBER";
  member_value = λ d. codes "member";
  qualname = λ m. codes "State";
}

abbrev imported : ImportedDefinitions
imported = record { schemas = orders ∷ []; processors = processor ∷ [] }

render_graph_total_example :
    ((text : Text) × (render_graph flat labels imported mermaid ≡ accepted text))
    × ((text : Text) × (render_graph flat labels imported dot ≡ accepted text))
unfolding definitions IsCoherent
render_graph_total_example =
    Shown.render_graph_total flat labels imported (composed made [] ∷ [])
      ((inl refl, ((λ _. refl), tt)), tt) refl

read_label-dot_text_example :
    read_label false (dot_text (codes "a\"b") ++ double_quote ∷ codes "];")
    ≡ some (codes "a\"b", codes "];")
read_label-dot_text_example = Dot.read_label-dot_text (codes "a\"b") (codes "];")

contains-mermaid_text_example : contains 34 (mermaid_text (codes " ") (codes "a\"b")) ≡ false
unfolding member contains
contains-mermaid_text_example = Dot.contains-mermaid_text (codes " ") (codes "a\"b") 34 refl refl

node_ids_distinct_example :
    has_repeated (
      (codes "schema_0" ++ codes "_initial")
      ∷ (codes "schema_0" ++ codes "_deleted")
      ∷ map (λ node. node.node_id) (state_nodes labels orders (codes "schema_0")))
    ≡ false
node_ids_distinct_example = Ids.node_ids_distinct labels orders (codes "schema_0")

-- `class Order(State[OrderEnum])`, with State as class 7.
abbrev order_class : ModelClass
order_class = model_class 101 none [] (and (model_class 7 (some (type 10 ∷ [])) (5 ∷ []) end) end)

pydantic_generic_argument-ends_example :
    has_ended (pydantic_generic_argument 2 order_class 7) ≡ true
unfolding IsScoped
pydantic_generic_argument-ends_example =
    Ends.pydantic_generic_argument-ends order_class 7 (tt, (((refl, tt), tt), tt))
