-- ===== src/Processor/Returns.antt =====
-- etcd_fsm/processor.py: what the return annotation of a reaction and of a command function declares.
pub mod Declared
pub mod Applied
use etcd_fsm.Common.{
  ℕ, ◌≡◌, refl, sym, ap, ◌∙◌, subst, Bool, true, false, not, ◌||◌, ◌&&◌, List, [], ◌∷◌, ◌==◌,
  filter, if◌then◌else◌, is_empty, arith, Bool-cases, inl, inr,
}
use etcd_fsm.Checked.{
  Checked, accepted, refused, and_then, no_outcomes, unsupported_outcome, different_result,
  invalid_applied, invalid_rejected, unregistered_state,
}
use etcd_fsm.Annotations.{
  Member, none_type, retry, delete, ignored, state, command, base_model, other, applied, rejected,
  Annotation, eq_member, eq_member_refl, eq_of_eq_member, member_discrete, has, has-filter,
  flatten_union, mentions, flatten_union_lem,
}

pub record ReturnDefinition : Type 0 where
  pub targets : List ℕ
  pub can_delete : Bool
  pub can_retry : Bool
  pub can_leave_unchanged : Bool

-- `schema.contains_state_model(model)`, of the models that the schema registers; also `model in targets`.
unfoldable pub contains_model : List ℕ → ℕ → Bool
contains_model [] model = false
contains_model (m ∷ rest) model = (m == model) || contains_model rest model

-- The loop of `_reaction_return` over the members.
unfoldable pub reaction_members : List ℕ → List Member → ReturnDefinition → Checked ReturnDefinition
reaction_members registered [] r = accepted r
reaction_members registered (none_type ∷ rest) r =
    reaction_members registered rest (record r { can_leave_unchanged = true })
reaction_members registered (retry ∷ rest) r =
    reaction_members registered rest (record r { can_retry = true })
reaction_members registered (delete ∷ rest) r =
    reaction_members registered rest (record r { can_delete = true })
reaction_members registered (state m ∷ rest) r = elim (contains_model registered m) [
  | true ↦ reaction_members registered rest (record r { targets = m ∷ r.targets })
  | false ↦ refused (unregistered_state m)
]
reaction_members registered (_ ∷ rest) r = refused unsupported_outcome

-- `targets or can_delete or can_retry or can_leave_unchanged`
abbrev pub has_outcome : ReturnDefinition → Bool
has_outcome r = not (is_empty r.targets) || r.can_delete || r.can_retry || r.can_leave_unchanged

-- `_reaction_return`
unfoldable pub reaction_return : List ℕ → Annotation → Checked ReturnDefinition
reaction_return registered annotation =
    and_then
      (reaction_members registered (flatten_union annotation) (record {
        targets = [];
        can_delete = false;
        can_retry = false;
        can_leave_unchanged = false;
      }))
      (λ r. if has_outcome r then accepted r else refused no_outcomes)

-- `isinstance(argument, type) and issubclass(argument, BaseModel)`: the models of states and commands too.
abbrev pub is_base_model : Member → Bool
is_base_model (state m) = true
is_base_model (command m) = true
is_base_model (base_model m) = true
is_base_model _ = false

-- The loop of `_command_return` over the members of the result type.
unfoldable pub command_members : List ℕ → List Member → ReturnDefinition → Checked ReturnDefinition
command_members registered [] r = accepted r
command_members registered (applied (state m) ∷ rest) r = elim (contains_model registered m) [
  | true ↦ command_members registered rest (record r { targets = m ∷ r.targets })
  | false ↦ refused (unregistered_state m)
]
command_members registered (applied _ ∷ rest) r = refused invalid_applied
command_members registered (rejected e ∷ rest) r = elim (is_base_model e) [
  | true ↦ command_members registered rest r
  | false ↦ refused invalid_rejected
]
command_members registered (ignored ∷ rest) r = command_members registered rest r
command_members registered (delete ∷ rest) r =
    command_members registered rest (record r { can_delete = true })
command_members registered (_ ∷ rest) r = refused unsupported_outcome

-- Each of the first members is one of the second.
unfoldable pub all_in : List Member → List Member → Bool
all_in [] ys = true
all_in (x ∷ xs) ys = has x ys && all_in xs ys

-- `_command_return`
unfoldable pub command_return : List ℕ → Annotation → Annotation → Checked ReturnDefinition
command_return registered result_type annotation =
    let expected = flatten_union result_type in
    let actual = flatten_union annotation in
    let completed = filter (λ y. not (eq_member retry y)) actual in
    if all_in completed expected && all_in expected completed
    then command_members registered expected (record {
      targets = [];
      can_delete = false;
      can_retry = has retry actual;
      can_leave_unchanged = false;
    })
    else refused different_result
