-- ===== src/Generics/Ends.antt =====
-- The search of etcd_fsm/_typing.py ends.
use mathlib.Core.Option.{some-injective}
use etcd_fsm.Common.{
  member-insert, ℕ, ◌≡◌, refl, sym, ap, ◌∙◌, Bool, true, false, Option, none, some, List, [], ◌∷◌,
  ◌++◌, ◌==◌, member, All, arith, Bool-cases, Option-cases, inl, inr, is_some, ◌⊎◌,
}
use etcd_fsm.Facts.{lookup}
use etcd_fsm.Generics.{
  TypeArgument, type_var, type, ModelClass, model_class, ModelClasses, end, and, Outcome, running,
  type_error, missing, found, Bindings, substitute_typevars, bind_parameters, current_bindings,
  target_argument, or_else, find_argument, find_in_bases, pydantic_generic_argument,
}

-- The outcome is not that the loop runs on.
abbrev pub has_ended {ℓ} : {A : Type ℓ} → Outcome A → Bool
has_ended running = false
has_ended _ = true

-- Every variable of the scope is bound, and to a type.
unfoldable pub AllBound : List ℕ → Bindings → Type 0
AllBound scope bindings =
    ((v : ℕ) → member v scope ≡ true → is_some (lookup v bindings) ≡ true)
    × ((v : ℕ) (r : TypeArgument) → lookup v bindings ≡ some r → (t : ℕ) × (r ≡ type t))

-- The argument is a type, or a variable of the scope.
abbrev pub is_in_scope : List ℕ → TypeArgument → Bool
is_in_scope scope (type t) = true
is_in_scope scope (type_var v) = member v scope

abbrev pub AllInScope : List ℕ → Option (List TypeArgument) → Type 0
AllInScope scope none = Unit
AllInScope scope (some arguments) = All (λ argument. is_in_scope scope argument ≡ true) arguments

-- The variables that are bound below a specialization.
abbrev pub scope_below : List ℕ → Option (List TypeArgument) → List ℕ → List ℕ
scope_below scope none parameters = scope
scope_below scope (some arguments) parameters = parameters ++ scope

-- Every type argument of the model and of its bases is a type, or a variable that is bound there.
unfoldable mutual
  pub IsScoped : List ℕ → ModelClass → Type 0
  IsScoped scope (model_class concrete arguments parameters bases) =
      AllInScope scope arguments × AreScoped (scope_below scope arguments parameters) bases

  pub AreScoped : List ℕ → ModelClasses → Type 0
  AreScoped scope end = Unit
  AreScoped scope (and base rest) = IsScoped scope base × AreScoped scope rest

substitute-type :
    (scope : List ℕ) (bindings : Bindings) (argument : TypeArgument)
    → AllBound scope bindings
    → is_in_scope scope argument ≡ true
    → (t : ℕ) × (substitute_typevars 2 bindings argument ≡ found (type t))
unfolding substitute_typevars AllBound
substitute-type scope bindings (type t) h k = (t, refl)
substitute-type scope bindings (type_var v) h k = elim (Option-cases (lookup v bindings)) [
  | inl free ↦ let absent = ap is_some free in let present = h.0 v k in cc
  | inr bound ↦
      let (t, is_type) = h.1 v bound.0 bound.1 in
      (t, rw (bound.1 ∙ ap some is_type, substitute_typevars) refl)
]

-- In bindings to types every substitution ends, after two turns at most.
substitute-ends :
    (scope : List ℕ) (bindings : Bindings) (v : ℕ)
    → AllBound scope bindings
    → has_ended (substitute_typevars 2 bindings (type_var v)) ≡ true
unfolding substitute_typevars AllBound
substitute-ends scope bindings v h = elim (Option-cases (lookup v bindings)) [
  | inl free ↦ rw (free, substitute_typevars) refl
  | inr bound ↦
      let (t, is_type) = h.1 v bound.0 bound.1 in
      rw (bound.1 ∙ ap some is_type, substitute_typevars) refl
]

AllBound-weaken :
    (wide narrow : List ℕ) (bindings : Bindings)
    → ((v : ℕ) → member v narrow ≡ true → member v wide ≡ true)
    → AllBound wide bindings
    → AllBound narrow bindings
unfolding AllBound
AllBound-weaken wide narrow bindings f h = ((λ v k. h.0 v (f v k)), h.1)

AllBound-cons :
    (scope : List ℕ) (bindings : Bindings) (parameter t : ℕ)
    → AllBound scope bindings
    → AllBound (parameter ∷ scope) ((parameter, type t) ∷ bindings)
unfolding AllBound member lookup
AllBound-cons scope bindings parameter t h = (
  (λ v k. elim (Bool-cases (parameter == v)) [
    | inl same ↦ rw same refl
    | inr apart ↦ rw apart (h.0 v (ground arith))
  ]),
  (λ v r k. elim (Bool-cases (parameter == v)) [
    | inl same ↦ (t, sym (some-injective _ _ (rw same at k)))
    | inr apart ↦ h.1 v r (rw apart at k)
  ]),
)

member-swap :
    (v parameter : ℕ) (parameters scope : List ℕ)
    → member v (parameter ∷ parameters ++ scope) ≡ true
    → member v (parameters ++ parameter ∷ scope) ≡ true
unfolding member
member-swap v parameter parameters scope h = member-insert parameters parameter scope v ∙ h

-- The outcome of binding parameters: an error, or bindings of which something holds.
unfoldable Settles : (Bindings → Type 0) → Outcome Bindings → Type 0
Settles P outcome = (outcome ≡ type_error) ⊎ ((b : Bindings) × (outcome ≡ found b) × P b)

bind_parameters-Settles :
    (scope : List ℕ) (bindings : Bindings) (parameters : List ℕ) (arguments : List TypeArgument)
    (below : List ℕ) (current : Bindings)
    → AllBound scope bindings
    → All (λ argument. is_in_scope scope argument ≡ true) arguments
    → AllBound below current
    → Settles
        (AllBound (parameters ++ below))
        (bind_parameters 2 bindings parameters arguments current)
unfolding bind_parameters Settles
bind_parameters-Settles scope bindings [] [] below current h k c = inr (current, refl, c)
bind_parameters-Settles scope bindings (parameter ∷ parameters) (argument ∷ arguments) below current
      h k c =
    let (t, e) = substitute-type scope bindings argument h k.0 in
    let later =
      bind_parameters-Settles scope bindings parameters arguments (parameter ∷ below)
        ((parameter, type t) ∷ current) h k.1 (AllBound-cons below current parameter t c) in
    elim later [
      | inl refusal ↦ inl (rw e refusal)
      | inr bound ↦ inr (
        bound.0,
        rw e bound.1,
        AllBound-weaken (parameters ++ parameter ∷ below) (parameter ∷ parameters ++ below) bound.0
            (λ v m. member-swap v parameter parameters below m) bound.2,
      )
    ]
bind_parameters-Settles scope bindings _ _ below current h k c = inl refl

current_bindings-Settles :
    (scope : List ℕ) (bindings : Bindings) (parameters : List ℕ)
    (arguments : Option (List TypeArgument))
    → AllBound scope bindings
    → AllInScope scope arguments
    → Settles
        (AllBound (scope_below scope arguments parameters))
        (current_bindings 2 bindings parameters arguments)
unfolding Settles
current_bindings-Settles scope bindings parameters none h k = inr (bindings, refl, h)
current_bindings-Settles scope bindings parameters (some arguments) h k =
    bind_parameters-Settles scope bindings parameters arguments scope bindings h k h

target_argument-ends :
    (scope : List ℕ) (bindings : Bindings) (parameters : List ℕ)
    → AllBound scope bindings
    → has_ended (target_argument 2 bindings parameters) ≡ true
unfolding target_argument
target_argument-ends scope bindings (parameter ∷ []) h = substitute-ends scope bindings parameter h
target_argument-ends scope bindings _ h = refl

or_else-ends :
    (o later : Outcome TypeArgument)
    → has_ended o ≡ true
    → has_ended later ≡ true
    → has_ended (or_else o later) ≡ true
or_else-ends running later h k = cc
or_else-ends type_error later h k = refl
or_else-ends missing later h k = k
or_else-ends (found a) later h k = refl

mutual
  unfolding find_argument IsScoped Settles

  find_argument-ends :
      (target : ℕ) (scope : List ℕ) (bindings : Bindings) (m : ModelClass)
      → AllBound scope bindings
      → IsScoped scope m
      → has_ended (find_argument 2 target bindings m) ≡ true
  find_argument-ends target scope bindings (model_class concrete arguments parameters bases) h k =
      elim (current_bindings-Settles scope bindings parameters arguments h k.0) [
        | inl refusal ↦ rw (refusal, find_argument) refl
        | inr (current, e, bound) ↦
            let later =
              find_in_bases-ends target (scope_below scope arguments parameters) current bases bound
                k.1 in
            elim (Bool-cases (concrete == target)) [
              | inl at_target ↦
                  rw (e, find_argument)
                    (rw at_target (
                      target_argument-ends (scope_below scope arguments parameters) current
                        parameters bound))
              | inr elsewhere ↦ rw (e, find_argument) (rw elsewhere later)
            ]
      ]

  find_in_bases-ends :
      (target : ℕ) (scope : List ℕ) (bindings : Bindings) (bases : ModelClasses)
      → AllBound scope bindings
      → AreScoped scope bases
      → has_ended (find_in_bases 2 target bindings bases) ≡ true
  find_in_bases-ends target scope bindings end h k = refl
  find_in_bases-ends target scope bindings (and base rest) h k =
      or_else-ends (find_argument 2 target bindings base) (find_in_bases 2 target bindings rest)
        (find_argument-ends target scope bindings base h k.0)
        (find_in_bases-ends target scope bindings rest h k.1)

-- The search for the type argument of a base ends, with two turns of the substitution's loop, where every type
-- argument of the model and of its bases is a type or a variable that a specialization below it binds.
pub pydantic_generic_argument-ends :
    (m : ModelClass) (target : ℕ)
    → IsScoped [] m
    → has_ended (pydantic_generic_argument 2 m target) ≡ true
unfolding pydantic_generic_argument AllBound member lookup
pydantic_generic_argument-ends m target h =
    find_argument-ends target [] [] m ((λ v k. cc), λ v r k. cc) h
