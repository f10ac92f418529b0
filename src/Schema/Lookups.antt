-- ===== src/Schema/Lookups.antt =====
-- `state_model` and `command_definition` of etcd_fsm/schema.py, on a schema that was accepted.
use mathlib.Core.Option.{some-injective}
use etcd_fsm.Annotations.{Annotation}
use etcd_fsm.Common.{
  ℕ, ◌≡◌, refl, sym, ap, ◌∙◌, subst, true, Option, none, some, List, [], ◌∷◌, map, ◌==◌, arith,
  Bool-cases, Option-cases, inl, inr, ◌⊎◌, All, member, is_some,
}
use etcd_fsm.Naming.{Text}
use etcd_fsm.Checked.{accepted, and_then-accepted, accepted_inj}
use etcd_fsm.Facts.{
  ModelFacts, EnumType, FsmSchema, CommandDefinition, GenericArgument, not_found, any_type,
  argument, lookup,
}
use etcd_fsm.Schema.{
  check_model, check_command, make_schema, state_model, contains_state_model, find_command,
  command_definition, contains_command_model,
}
use etcd_fsm.Schema.Models.{Matches, CommandsMatch, make_schema-Matches}
use etcd_fsm.Schema.Registered.{IsRegistered}

lookup-member :
    (d model : ℕ) (mapping : List (ℕ × ℕ))
    → lookup d mapping ≡ some model
    → member model (map (λ entry. entry.1) mapping) ≡ true
unfolding lookup member
lookup-member d model [] h = cc
lookup-member d model (entry ∷ rest) h = ground (arith, lookup-member d model rest)

-- A definition that stands in the mapping is found by its model, or one of the same model is.
lookup-find_command :
    (d : ℕ) (definition : CommandDefinition) (mapping : List (ℕ × CommandDefinition))
    → lookup d mapping ≡ some definition
    → (found : CommandDefinition) × (find_command mapping definition.model ≡ some found)
      × (found.model ≡ definition.model)
unfolding lookup find_command
lookup-find_command d definition [] h = cc
lookup-find_command d definition (entry ∷ rest) h =
    elim (Bool-cases (entry.1.model == definition.model)) [
      | inl same ↦ (entry.1, rw (same, find_command), ground arith)
      | inr apart ↦ elim (Bool-cases (entry.0 == d)) [
        | inl here ↦
            let same = ap (λ x. x.model) (some-injective _ _ (rw (here, lookup) at h)) in
            ground arith
        | inr there ↦
            let (found, e, k) = lookup-find_command d definition rest (rw (there, lookup) at h) in
            (found, rw (apart, find_command) e, k)
      ]
    ]

find_command-member :
    (mapping : List (ℕ × CommandDefinition)) (model : ℕ)
    → is_some (find_command mapping model) ≡ member model (map (λ entry. entry.1.model) mapping)
unfolding find_command member
find_command-member [] model = refl
find_command-member (entry ∷ rest) model = ground (arith, find_command-member rest model)

GenericArgument-cases :
    (g : GenericArgument)
    → ((g ≡ not_found) ⊎ (g ≡ any_type)) ⊎ ((a : Annotation) × (g ≡ argument a))
GenericArgument-cases not_found = inl (inl refl)
GenericArgument-cases any_type = inl (inr refl)
GenericArgument-cases (argument a) = inr (a, refl)

find_command-model :
    (mapping : List (ℕ × CommandDefinition)) (model : ℕ) {found : CommandDefinition}
    → find_command mapping model ≡ some found
    → found.model ≡ model
unfolding find_command
find_command-model [] model h = cc
find_command-model (entry ∷ rest) model {found} h = elim (Bool-cases (entry.1.model == model)) [
  | inl same ↦
      ap (λ x. x.model) (sym (some-injective _ _ (rw (same, find_command) at h))) ∙ ground arith
  | inr apart ↦ find_command-model rest model (rw (apart, find_command) at h)
]

-- A definition that is found is of the class, which the schema contains.
pub command_definition-contains :
    (s : FsmSchema) (model : ℕ) (definition : CommandDefinition)
    → command_definition s model ≡ accepted definition
    → contains_command_model s definition.model ≡ true
unfolding command_definition contains_command_model
command_definition-contains s model definition h =
    elim (Option-cases (find_command s.commands model)) [
      | inl missing ↦ let refusal = rw (missing, command_definition) at h in cc
      | inr found ↦
          let same = ap (λ x. x.model) (accepted_inj (rw (found.1, command_definition) at h)) in
          ap (λ m. member m (map (λ entry. entry.1.model) s.commands))
            (sym same ∙ find_command-model s.commands model found.1)
          ∙ sym (find_command-member s.commands model)
          ∙ ap is_some found.1
    ]

check_command-model :
    (enum_type : EnumType) (m : ModelFacts) (entry : ℕ × CommandDefinition)
    → check_command enum_type m ≡ accepted entry
    → entry.1.model ≡ m.identity
unfolding check_command
check_command-model enum_type m entry h =
    let (discriminator, _, h1) = and_then-accepted (check_model enum_type m) _ h in
    elim (GenericArgument-cases m.result_type) [
      | inl (inl e) ↦ let refusal = rw e at h1 in cc
      | inl (inr e) ↦ let refusal = rw e at h1 in cc
      | inr (a, e) ↦ ap (λ x. x.1.model) (sym (accepted_inj (rw e at h1)))
    ]

-- The model is found under its class.
unfoldable pub IsFound : FsmSchema → ModelFacts → Type 0
IsFound s m =
    (definition : CommandDefinition) × (command_definition s m.identity ≡ accepted definition)
    × (definition.model ≡ m.identity)
    × (contains_command_model s m.identity ≡ true)

module _ (s : FsmSchema) where
  registered-IsFound :
      (enum_type : EnumType) (m : ModelFacts)
      → IsRegistered (check_command enum_type) s.commands m
      → IsFound s m
  unfolding IsFound command_definition contains_command_model
  registered-IsFound enum_type m (entry, checked, looked_up) =
      let same = check_command-model enum_type m entry checked in
      let (found, e, k) = lookup-find_command entry.0 entry.1 s.commands looked_up in
      let under_class : find_command s.commands m.identity ≡ some found =
        ap (find_command s.commands) (sym same) ∙ e in
      (
        found,
        rw (under_class, command_definition),
        k ∙ same,
        sym (find_command-member s.commands m.identity) ∙ ap is_some under_class,
      )

  registered-All :
      (enum_type : EnumType) (models : List ModelFacts)
      → All (IsRegistered (check_command enum_type) s.commands) models
      → All (IsFound s) models
  registered-All enum_type [] h = tt
  registered-All enum_type (m ∷ rest) h =
      (registered-IsFound enum_type m h.0, registered-All enum_type rest h.1)

  commands-All :
      (command_enum : Option EnumType) (models : List ModelFacts)
      → CommandsMatch command_enum models s.commands
      → All (IsFound s) models
  unfolding CommandsMatch Matches
  commands-All none models h = subst (All (IsFound s)) (sym h.0) tt
  commands-All (some enum_type) models h = registered-All enum_type models h.0

  states-found :
      (enum_type : EnumType) (discriminator : ℕ)
      → is_some (lookup discriminator s.states) ≡ true
      → (model : ℕ) × (state_model s discriminator ≡ accepted model)
        × (contains_state_model s model ≡ true)
  unfolding state_model contains_state_model
  states-found enum_type discriminator h = elim (Option-cases (lookup discriminator s.states)) [
    | inl missing ↦ let absent = ap is_some missing in cc
    | inr found ↦
        (found.0, rw (found.1, state_model), lookup-member discriminator found.0 s.states found.1)
  ]

-- In a schema that was accepted, each member of the state enum has a model, which is a model of the
-- schema, and each command class that was given has a definition of that class.
pub make_schema-total :
    (identity : ℕ) (name namespace : Text) (state_enum : EnumType) (states : List ModelFacts)
    (command_enum : Option EnumType) (commands : List ModelFacts) (s : FsmSchema)
    → make_schema identity name namespace state_enum states command_enum commands ≡ accepted s
    → ((discriminator : ℕ)
        → member discriminator state_enum.members ≡ true
        → (model : ℕ) × (state_model s discriminator ≡ accepted model)
          × (contains_state_model s model ≡ true))
      × All (IsFound s) commands
unfolding Matches
make_schema-total identity name namespace state_enum states command_enum commands s h =
    let (_, of_states, of_commands) =
      make_schema-Matches identity name namespace state_enum states command_enum commands s h in
    (
      (λ discriminator k. states-found s state_enum discriminator (of_states.3 discriminator k)),
      commands-All s command_enum commands of_commands,
    )
