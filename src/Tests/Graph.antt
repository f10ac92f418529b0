-- ===== src/Tests/Graph.antt =====
-- The theorems on names and on composed graphs, at two processors of one schema, and
-- on return annotations.
use etcd_fsm.Common.{◌≡◌, ◌↔◌, refl, true, false, some, [], ◌∷◌, All, any, ℕ, filter}
use native.Mathlib.Decide.{ℕ_discrete}
use etcd_fsm.Naming.{Text, eq_text, validate_fsm_key, validate_namespace, is_reserved, is_abnormal}
use etcd_fsm.Naming.Paths
use etcd_fsm.Checked.{is_accepted}
use etcd_fsm.Facts.{FsmSchema}
use etcd_fsm.Processor.{
  ReactionDefinition, InitializerDefinition, FsmProcessor, exact, composed, compose_processors,
  validate_transitioning_reactions, owner_of, claim_all, claim_commands, concat_map, has_repeated,
}
use etcd_fsm.Annotations.{
  Member, none_type, retry, delete, state, base_model, applied, rejected, Annotation, member,
  annotated, alias, union, end, and, eq_member, member_discrete, has, from_keys, flatten_union,
  flatten_members, mentions, repeats,
}
use etcd_fsm.Annotations
use etcd_fsm.Processor.Returns.{
  ReturnDefinition, contains_model, reaction_members, reaction_return, command_members, all_in,
  command_return,
}
use etcd_fsm.Processor.Returns.Declared
use etcd_fsm.Processor.Returns.Applied
use etcd_fsm.Processor.Owners
use etcd_fsm.Processor.Edges
use etcd_fsm.Processor.Composed

abbrev key : Text
key = b'a' ∷ b'/' ∷ b'b' ∷ []

validate_fsm_key_iff_example : (validate_fsm_key key ≡ some key) ↔ Paths.IsPathOf is_reserved key
validate_fsm_key_iff_example = Paths.validate_fsm_key_iff key

validate_namespace_iff_example :
    (validate_namespace (b'/' ∷ key) ≡ some (b'/' ∷ key))
    ↔ ((path : Text) × (b'/' ∷ key ≡ b'/' ∷ path) × Paths.IsPathOf is_abnormal path)
validate_namespace_iff_example = Paths.validate_namespace_iff (b'/' ∷ key)

-- A schema with the states 1, 2 and 3 and the command 7.
abbrev orders : FsmSchema
orders = record {
  identity = 0;
  name = b'x' ∷ [];
  namespace = b'/' ∷ b'x' ∷ [];
  state_enum = record { identity = 10; members = 1 ∷ 2 ∷ 3 ∷ []; name_count = 3 };
  command_enum = some (record { identity = 11; members = 0 ∷ []; name_count = 1 });
  states = (1, 1) ∷ (2, 2) ∷ (3, 3) ∷ [];
  commands = (0, record { model = 7; discriminator = 0; result_type = member none_type }) ∷ [];
}

-- From state 1 to state 2.
abbrev start : ReactionDefinition
start = record {
  name = b's' ∷ [];
  function = 1;
  match = exact;
  sources = 1 ∷ [];
  targets = 2 ∷ [];
  can_delete = false;
  can_retry = true;
  can_leave_unchanged = false;
}

-- From states 2 and 3 to the end.
abbrev finish : ReactionDefinition
finish = record {
  name = b'f' ∷ [];
  function = 2;
  match = exact;
  sources = 2 ∷ 3 ∷ [];
  targets = [];
  can_delete = true;
  can_retry = false;
  can_leave_unchanged = true;
}

abbrev open_order : InitializerDefinition
open_order = record {
  name = b'o' ∷ [];
  function = 3;
  command = record { model = 7; discriminator = 0; result_type = member none_type };
  targets = 1 ∷ [];
  can_retry = false;
}

abbrev starter : FsmProcessor
starter = record {
  schema = orders;
  name = b'p' ∷ [];
  reactions = start ∷ [];
  commands = [];
  initializers = (7, open_order) ∷ [];
}

abbrev finisher : FsmProcessor
finisher = record {
  schema = orders;
  name = b'q' ∷ [];
  reactions = finish ∷ [];
  commands = [];
  initializers = [];
}

compose_processors_iff_example :
    is_accepted (compose_processors (starter ∷ finisher ∷ []))
    ≡ Owners.is_composable (starter ∷ finisher ∷ [])
compose_processors_iff_example = Owners.compose_processors_iff (starter ∷ finisher ∷ [])

compose_processors-IsOwned_example :
    All
      (Edges.IsOwned (Edges.find_owner (starter ∷ finisher ∷ [])))
      (composed starter (finisher ∷ [])).edges
unfolding compose_processors validate_transitioning_reactions owner_of claim_all claim_commands
    concat_map has_repeated any eq_text
compose_processors-IsOwned_example =
    Composed.compose_processors-IsOwned (starter ∷ finisher ∷ []) (composed starter (finisher ∷ []))
      refl

-- `Annotated[StateOne | Retry, ...] | None`, with StateOne as model 1.
abbrev outcomes : Annotation
outcomes = union (
    and (annotated (union (and (member (state 1)) (and (member retry) end))))
      (and (member none_type) end))

abbrev found : ReturnDefinition
found = record {
  targets = 1 ∷ [];
  can_delete = false;
  can_retry = true;
  can_leave_unchanged = true;
}

flatten_union_lem_example :
    ((m : Member) → has m (flatten_union outcomes) ≡ mentions m outcomes)
    × (repeats (flatten_union outcomes) ≡ false)
flatten_union_lem_example = Annotations.flatten_union_lem outcomes

reaction_return_lem_example :
    ((m : ℕ) → contains_model found.targets m ≡ mentions (state m) outcomes)
    × ((m : ℕ) → mentions (state m) outcomes ≡ true → contains_model (1 ∷ 2 ∷ []) m ≡ true)
    × (found.can_delete ≡ mentions delete outcomes)
    × (found.can_retry ≡ mentions retry outcomes)
    × (found.can_leave_unchanged ≡ mentions none_type outcomes)
unfolding reaction_return reaction_members contains_model flatten_union from_keys flatten_members
    filter eq_member member_discrete
reaction_return_lem_example = Declared.reaction_return_lem (1 ∷ 2 ∷ []) outcomes found refl

-- `Applied[StateTwo] | Rejected[Error] | Delete`
abbrev result : Annotation
result = union (
    and (member (applied (state 2)))
      (and (member (rejected (base_model 9))) (and (member delete) end)))

abbrev result_or_retry : Annotation
result_or_retry = union (and (alias result) (and (member retry) end))

abbrev applies : ReturnDefinition
applies = record {
  targets = 2 ∷ [];
  can_delete = true;
  can_retry = true;
  can_leave_unchanged = false;
}

command_return_lem_example :
    ((m : Member) → eq_member retry m ≡ false → mentions m result_or_retry ≡ mentions m result)
    × ((m : ℕ) → contains_model applies.targets m ≡ mentions (applied (state m)) result_or_retry)
    × ((m : ℕ)
        → mentions (applied (state m)) result_or_retry ≡ true
        → contains_model (1 ∷ 2 ∷ []) m ≡ true)
    × (applies.can_delete ≡ mentions delete result_or_retry)
    × (applies.can_retry ≡ mentions retry result_or_retry)
    × (applies.can_leave_unchanged ≡ false)
unfolding command_return command_members all_in has contains_model flatten_union from_keys
    flatten_members filter eq_member member_discrete ℕ_discrete
command_return_lem_example =
    Applied.command_return_lem (1 ∷ 2 ∷ []) result result_or_retry applies refl
