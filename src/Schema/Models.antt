-- ===== src/Schema/Models.antt =====
-- A schema that is accepted: its models and the members of its enums match one to one.
use etcd_fsm.Common.{
  ℕ, ◌≡◌, refl, sym, ap, subst, Bool, true, false, not, Option, none, some, List, [], ◌∷◌, map,
  ◌==◌, filter, is_empty, arith, Bool-cases, inl, inr, All, member, has_duplicate, is_some,
}
use etcd_fsm.Naming.{Text}
use etcd_fsm.Checked.{Checked, accepted, and_then-accepted, raise_if-accepted, accepted_inj}
use etcd_fsm.Facts.{ModelFacts, EnumType, FsmSchema, CommandDefinition, lookup}
use etcd_fsm.Schema.{
  register, missing, check_state, check_command, compile_states, compile_commands, make_schema,
  validate_name, checked_namespace, reject_enum_aliases, reject_command_aliases,
}
use etcd_fsm.Schema.Registered.{
  IsRegistered, IsDeclaredBy, register-All, register-IsDeclaredBy, register-distinct,
}

-- The models and the entries of a mapping match one to one, and each member of the enum has an entry.
unfoldable pub Matches {ℓ} :
    {V : Type ℓ}
    → (ModelFacts → Checked (ℕ × V))
    → EnumType
    → List ModelFacts
    → List (ℕ × V)
    → Type ℓ
Matches {V = V} check enum_type models mapping =
    All (IsRegistered check mapping) models
    × ((d : ℕ) (v : V) → lookup d mapping ≡ some v → IsDeclaredBy check models d v)
    × (has_duplicate (map (λ m. m.identity) models) ≡ false)
    × ((d : ℕ) → member d enum_type.members ≡ true → is_some (lookup d mapping) ≡ true)

filter_none :
    (p : ℕ → Bool) (members : List ℕ) (d : ℕ)
    → is_empty (filter p members) ≡ true
    → member d members ≡ true
    → p d ≡ false
unfolding filter member
filter_none p [] d h k = cc
filter_none p (x ∷ xs) d h k = elim (Bool-cases (p x)) [
  | inl kept ↦ let some_left = rw (kept, filter) at h in cc
  | inr dropped ↦ elim (Bool-cases (d == x)) [
    | inl same ↦
        let same_number : d ≡ x = ground arith in subst (λ y. p y ≡ false) (sym same_number) dropped
    | inr apart ↦ filter_none p xs d (rw (dropped, filter) at h) (ground arith)
  ]
]

module _ {ℓ} {V : Type ℓ} where
  keys-lookup :
      (d : ℕ) (mapping : List (ℕ × V))
      → member d (map (λ entry. entry.0) mapping) ≡ is_some (lookup d mapping)
  unfolding lookup member
  keys-lookup d [] = refl
  keys-lookup d (entry ∷ rest) = ground (arith, keys-lookup d rest)

  module _ (check : ModelFacts → Checked (ℕ × V)) (enum_type : EnumType) (models : List ModelFacts)
      (mapping : List (ℕ × V)) where
    register-Matches :
        register check models [] [] ≡ accepted mapping
        → is_empty (missing enum_type mapping) ≡ true
        → Matches check enum_type models mapping
    unfolding Matches lookup
    register-Matches h none_missing = (
      register-All check models [] [] mapping h,
      (λ d v found. elim (register-IsDeclaredBy check models [] [] mapping d v h found) [
        | inl before ↦ cc
        | inr declared ↦ declared
      ]),
      register-distinct check models [] [] mapping h,
      (λ d k.
          let present =
            filter_none (λ key. not (member key (map (λ entry. entry.0) mapping))) enum_type.members
              d none_missing k in
          let same = keys-lookup d mapping in ground arith),
    )

pub compile_states-Matches :
    (enum_type : EnumType) (models : List ModelFacts) (mapping : List (ℕ × ℕ))
    → compile_states enum_type models ≡ accepted mapping
    → Matches (check_state enum_type) enum_type models mapping
unfolding compile_states
compile_states-Matches enum_type models mapping h =
    let (found, registered, h1) =
      and_then-accepted (register (check_state enum_type) models [] []) _ h in
    let (covered, h2) = raise_if-accepted (not (is_empty (missing enum_type found))) _ _ h1 in
    let (_, h3) = raise_if-accepted (is_empty found) _ _ h2 in
    let same = accepted_inj h3 in
    subst (Matches (check_state enum_type) enum_type models) same
      (register-Matches (check_state enum_type) enum_type models found registered (ground arith))

-- Without an enum there are no commands.
unfoldable pub CommandsMatch :
    Option EnumType → List ModelFacts → List (ℕ × CommandDefinition) → Type 0
CommandsMatch none models mapping = (models ≡ []) × (mapping ≡ [])
CommandsMatch (some enum_type) models mapping =
    Matches (check_command enum_type) enum_type models mapping

pub compile_commands-Match :
    (command_enum : Option EnumType) (models : List ModelFacts)
    (mapping : List (ℕ × CommandDefinition))
    → compile_commands command_enum models ≡ accepted mapping
    → CommandsMatch command_enum models mapping
unfolding compile_commands CommandsMatch
compile_commands-Match none [] mapping h = (refl, sym (accepted_inj h))
compile_commands-Match none (m ∷ rest) mapping h = cc
compile_commands-Match (some enum_type) models mapping h =
    let (found, registered, h1) =
      and_then-accepted (register (check_command enum_type) models [] []) _ h in
    let (covered, h2) = raise_if-accepted (not (is_empty (missing enum_type found))) _ _ h1 in
    let same = accepted_inj h2 in
    subst (Matches (check_command enum_type) enum_type models) same
      (register-Matches (check_command enum_type) enum_type models found registered (ground arith))

module _ (identity : ℕ) (name namespace : Text) (state_enum : EnumType) (states : List ModelFacts)
    (command_enum : Option EnumType) (commands : List ModelFacts) (s : FsmSchema) where
  -- A schema that is accepted has its states and commands match the given models one to one.
  pub make_schema-Matches :
      make_schema identity name namespace state_enum states command_enum commands ≡ accepted s
      → (s.state_enum ≡ state_enum)
        × Matches (check_state state_enum) state_enum states s.states
        × CommandsMatch command_enum commands s.commands
  unfolding make_schema
  make_schema-Matches h =
      let (_, _, h1) = and_then-accepted (validate_name name) _ h in
      let (_, _, h2) = and_then-accepted (checked_namespace namespace) _ h1 in
      let (_, _, h3) = and_then-accepted (reject_enum_aliases state_enum) _ h2 in
      let (_, _, h4) = and_then-accepted (reject_command_aliases command_enum) _ h3 in
      let (found, states_h, h5) = and_then-accepted (compile_states state_enum states) _ h4 in
      let (made, commands_h, h6) =
        and_then-accepted (compile_commands command_enum commands) _ h5 in
      let same = accepted_inj h6 in
      (
        ap (λ t. t.state_enum) (sym same),
        subst (Matches (check_state state_enum) state_enum states) (ap (λ t. t.states) same)
            (compile_states-Matches state_enum states found states_h),
        subst (CommandsMatch command_enum commands) (ap (λ t. t.commands) same)
            (compile_commands-Match command_enum commands made commands_h),
      )
