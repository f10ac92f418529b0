-- ===== src/Generics/Forever.antt =====
-- The loop of `_substitute_typevars` in etcd_fsm/_typing.py on variables that are bound to each other.
use etcd_fsm.Common.{ℕ, zero, suc, ◌≡◌, refl, none, some, [], ◌∷◌}
use etcd_fsm.Facts.{lookup}
use etcd_fsm.Generics.{
  type_var, ModelClass, model_class, end, and, running, Bindings, substitute_typevars,
  bind_parameters, find_argument, pydantic_generic_argument,
}

abbrev swapped : Bindings
swapped = (1, type_var 0) ∷ (0, type_var 1) ∷ []

mutual
  unfolding substitute_typevars lookup

  from_first : (turns : ℕ) → substitute_typevars turns swapped (type_var 0) ≡ running
  from_first zero = refl
  from_first (suc turns) = from_second turns

  from_second : (turns : ℕ) → substitute_typevars turns swapped (type_var 1) ≡ running
  from_second zero = refl
  from_second (suc turns) = from_first turns

-- `class Base(State[S], Generic[S, T])` and `class Swapped(Base[T, S], Generic[S, T])`, with S and T as 0 and 1, and
-- State as class 7 with the parameter 5.
abbrev base_class : ModelClass
base_class =
    model_class 8 (some (type_var 1 ∷ type_var 0 ∷ [])) (0 ∷ 1 ∷ [])
      (and (model_class 7 (some (type_var 0 ∷ [])) (5 ∷ []) end) end)

abbrev swapped_class : ModelClass
swapped_class = model_class 9 none (0 ∷ 1 ∷ []) (and base_class end)

-- No number of turns is enough for this class.
swapped-running : (turns : ℕ) → pydantic_generic_argument turns swapped_class 7 ≡ running
unfolding pydantic_generic_argument find_argument bind_parameters substitute_typevars lookup
swapped-running zero = refl
swapped-running (suc turns) = rw (from_first (suc turns)) refl
