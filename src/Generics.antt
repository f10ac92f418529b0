-- ===== src/Generics.antt =====
-- etcd_fsm/_typing.py: the argument that a generic base has in a pydantic model. A class and a type variable are
-- compared by identity, which a number stands for. The loop of `_substitute_typevars` may run forever, so
-- it has fuel, and `running` is the outcome when that is used up.
pub mod Ends
mod Forever
use etcd_fsm.Common.{
  ℕ, zero, suc, Bool, true, false, Option, none, some, List, [], ◌∷◌, ◌++◌, ◌==◌, if◌then◌else◌,
}
use etcd_fsm.Facts.{lookup}

pub data TypeArgument : Type 0 where
  type_var type : ℕ → TypeArgument

-- A model: its class, or the generic class that it is a specialization of; the type arguments, where it is one;
-- the type parameters of that class, and its bases that are models.
mutual
  pub data ModelClass : Type 0 where
    model_class : ℕ → Option (List TypeArgument) → List ℕ → ModelClasses → ModelClass

  pub data ModelClasses : Type 0 where
    end : ModelClasses
    and : ModelClass → ModelClasses → ModelClasses

-- What a search comes to; `type_error` is the TypeError, and the ValueError of the strict `zip`.
pub data Outcome {ℓ} (A : Type ℓ) : Type ℓ where
  running type_error missing : Outcome A
  found : A → Outcome A

-- What follows once a value is found.
abbrev pub and_then {ℓ κ} : {A : Type ℓ} {B : Type κ} → Outcome A → (A → Outcome B) → Outcome B
and_then running f = running
and_then type_error f = type_error
and_then missing f = missing
and_then (found a) f = f a

abbrev pub Bindings : Type 0
Bindings = List (ℕ × TypeArgument)

-- `replacement is annotation`
abbrev pub is_variable : TypeArgument → ℕ → Bool
is_variable (type_var w) v = w == v
is_variable (type t) v = false

-- `_substitute_typevars`, with at most so many turns of its loop.
unfoldable pub substitute_typevars : ℕ → Bindings → TypeArgument → Outcome TypeArgument
substitute_typevars zero bindings annotation = running
substitute_typevars (suc turns) bindings (type t) = found (type t)
substitute_typevars (suc turns) bindings (type_var v) = elim (lookup v bindings) [
  | none ↦ found (type_var v)
  | some replacement ↦
      let next = substitute_typevars turns bindings replacement in
      if is_variable replacement v then found (type_var v) else next
]

-- `current_bindings.update(...)`: the newest binding of a variable is the first.
unfoldable pub bind_parameters :
    ℕ → Bindings → List ℕ → List TypeArgument → Bindings → Outcome Bindings
bind_parameters turns bindings [] [] current = found current
bind_parameters turns bindings (parameter ∷ parameters) (argument ∷ arguments) current =
    and_then (substitute_typevars turns bindings argument)
      (λ value. bind_parameters turns bindings parameters arguments ((parameter, value) ∷ current))
bind_parameters turns bindings _ _ current = type_error

abbrev pub current_bindings : ℕ → Bindings → List ℕ → Option (List TypeArgument) → Outcome Bindings
current_bindings turns bindings parameters none = found bindings
current_bindings turns bindings parameters (some arguments) =
    bind_parameters turns bindings parameters arguments bindings

-- The one parameter of the target, under the bindings.
unfoldable pub target_argument : ℕ → Bindings → List ℕ → Outcome TypeArgument
target_argument turns bindings (parameter ∷ []) =
    substitute_typevars turns bindings (type_var parameter)
target_argument turns bindings _ = type_error

-- What the loop over the bases gives: the first result that is not missing.
abbrev pub or_else : Outcome TypeArgument → Outcome TypeArgument → Outcome TypeArgument
or_else missing later = later
or_else result later = result

-- `_find_pydantic_generic_argument`
unfoldable mutual
  pub find_argument : ℕ → ℕ → Bindings → ModelClass → Outcome TypeArgument
  find_argument turns target bindings (model_class concrete arguments parameters bases) =
      and_then (current_bindings turns bindings parameters arguments) (λ current.
        let later = find_in_bases turns target current bases in
        if concrete == target then target_argument turns current parameters else later)

  pub find_in_bases : ℕ → ℕ → Bindings → ModelClasses → Outcome TypeArgument
  find_in_bases turns target bindings end = missing
  find_in_bases turns target bindings (and base rest) =
      or_else (find_argument turns target bindings base) (find_in_bases turns target bindings rest)

-- `pydantic_generic_argument`: `missing` is the LookupError.
unfoldable pub pydantic_generic_argument : ℕ → ModelClass → ℕ → Outcome TypeArgument
unfolding find_argument
pydantic_generic_argument turns model target = find_argument turns target [] model

-- `pydantic_generic_origin`: the class that the model is a specialization of, or its own.
abbrev pub pydantic_generic_origin : ModelClass → ℕ
pydantic_generic_origin (model_class concrete arguments parameters bases) = concrete
