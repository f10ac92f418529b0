-- ===== src/Schema/Values.antt =====
-- `validate_state_value` and `validate_command_value` of etcd_fsm/schema.py. What pydantic and the models
-- themselves do is an interface.
use etcd_fsm.Common.{
  ℕ, ◌≡◌, ◌↔◌, sym, ap, ◌∙◌, Bool, true, false, not, Option, none, some, ◌==◌, arith, Option-cases,
  inl, inr, is_some,
}
use etcd_fsm.Naming.{Text, validate_fsm_key}
use etcd_fsm.Checked.{
  Checked, accepted, refused, ◌>>◌, raise_if, raise_if-accepted, raise_if-passed,
  value_of_other_enum, value_of_other_model, no_command_field, invalid_value, invalid_key,
}
use etcd_fsm.Facts.{Value, EnumType, FsmSchema, CommandDefinition, lookup}

-- What is asked of the values of models: the class of a value, its `state` or `command` field, which a
-- command model may lack, `model.model_validate(value.model_dump())`, which may raise, and `fsm_key()`.
pub record Values (V : Type 0) : Type 0 where
  pub class_of : V → ℕ
  pub state_of : V → Value
  pub command_of : V → Option Value
  pub model_validate : ℕ → V → Option V
  pub fsm_key : V → Text

module _ {V : Type 0} (models : Values V) where
  -- The last three lines of both functions.
  unfoldable pub revalidate : ℕ → V → Checked V
  revalidate model value = elim (models.model_validate model value) [
    | none ↦ refused invalid_value
    | some validated ↦ elim (validate_fsm_key (models.fsm_key validated)) [
      | none ↦ refused invalid_key
      | some key ↦ accepted validated
    ]
  ]

  -- `validate_state_value`
  unfoldable pub validate_state_value : FsmSchema → V → Checked V
  unfolding revalidate
  validate_state_value s value = do
    raise_if (not ((models.state_of value).type == s.state_enum.identity)) value_of_other_enum
    elim (lookup (models.state_of value).value s.states) [
      | none ↦ refused value_of_other_model
      | some model ↦ do
        raise_if (not (models.class_of value == model)) value_of_other_model
        revalidate model value
    ]

  -- `self.command_enum is None or type(discriminator) is not self.command_enum`
  abbrev pub is_other_enum : Option EnumType → Value → Bool
  is_other_enum none discriminator = true
  is_other_enum (some command_enum) discriminator =
      not (discriminator.type == command_enum.identity)

  -- `validate_command_value`
  unfoldable pub validate_command_value : FsmSchema → V → Checked V
  unfolding revalidate
  validate_command_value s value = elim (models.command_of value) [
    | none ↦ refused no_command_field
    | some discriminator ↦ do
      raise_if (is_other_enum s.command_enum discriminator) value_of_other_enum
      elim (lookup discriminator.value s.commands) [
        | none ↦ refused value_of_other_model
        | some definition ↦ do
          raise_if (not (models.class_of value == definition.model)) value_of_other_model
          revalidate definition.model value
      ]
  ]

  revalidate_iff :
      (model : ℕ) (value validated : V)
      → (revalidate model value ≡ accepted validated) ↔ (
          (models.model_validate model value ≡ some validated)
          × (is_some (validate_fsm_key (models.fsm_key validated)) ≡ true))
  unfolding revalidate
  revalidate_iff model value validated = (λ h. ground arith, λ h. ground arith)

  pub validate_state_value_iff :
      (s : FsmSchema) (value validated : V)
      → (validate_state_value s value ≡ accepted validated) ↔ (
          ((models.state_of value).type ≡ s.state_enum.identity)
          × (lookup (models.state_of value).value s.states ≡ some (models.class_of value))
          × (models.model_validate (models.class_of value) value ≡ some validated)
          × (is_some (validate_fsm_key (models.fsm_key validated)) ≡ true))
  unfolding validate_state_value
  validate_state_value_iff s value validated = (
    (λ h.
        let (same_enum, h1) =
          raise_if-accepted (not ((models.state_of value).type == s.state_enum.identity)) _ _ h in
        elim (Option-cases (lookup (models.state_of value).value s.states)) [
          | inl missing ↦ let refusal = rw missing at h1 in cc
          | inr found ↦
              let (same_model, h3) =
                raise_if-accepted (not (models.class_of value == found.0)) _ _ (rw found.1 at h1) in
              let same : models.class_of value ≡ found.0 = ground arith in
              let (validated_h, key_h) = (revalidate_iff found.0 value validated).0 h3 in
              (
                ground arith,
                found.1 ∙ ap some (sym same),
                ap (λ m. models.model_validate m value) same ∙ validated_h,
                key_h,
              )
        ]),
    (λ (same_enum, registered, validated_h, key_h).
        raise_if-passed (not ((models.state_of value).type == s.state_enum.identity)) _ _
          (ground arith)
        ∙ rw registered (
            raise_if-passed (not (models.class_of value == models.class_of value)) _ _
              (ground arith)
            ∙ (revalidate_iff (models.class_of value) value validated).1 (validated_h, key_h))),
  )

  pub validate_command_value_iff :
      (s : FsmSchema) (value validated : V)
      → (validate_command_value s value ≡ accepted validated) ↔ (
          (discriminator : Value) × (models.command_of value ≡ some discriminator)
          × (is_other_enum s.command_enum discriminator ≡ false)
          × (definition : CommandDefinition) × (lookup discriminator.value s.commands
              ≡ some definition)
          × (definition.model ≡ models.class_of value)
          × (models.model_validate (models.class_of value) value ≡ some validated)
          × (is_some (validate_fsm_key (models.fsm_key validated)) ≡ true))
  unfolding validate_command_value
  validate_command_value_iff s value validated = (
    (λ h. elim (Option-cases (models.command_of value)) [
      | inl missing ↦ let refusal = rw (missing, validate_command_value) at h in cc
      | inr declared ↦
          let (same_enum, h1) =
            raise_if-accepted (is_other_enum s.command_enum declared.0) _ _
              (rw (declared.1, validate_command_value) at h) in
          elim (Option-cases (lookup declared.0.value s.commands)) [
            | inl missing ↦ let refusal = rw missing at h1 in cc
            | inr found ↦
                let (same_model, h3) =
                  raise_if-accepted (not (models.class_of value == found.0.model)) _ _
                    (rw found.1 at h1) in
                let same : models.class_of value ≡ found.0.model = ground arith in
                let (validated_h, key_h) = (revalidate_iff found.0.model value validated).0 h3 in
                (
                  declared.0,
                  declared.1,
                  same_enum,
                  found.0,
                  found.1,
                  sym same,
                  ap (λ m. models.model_validate m value) same ∙ validated_h,
                  key_h,
                )
          ]
    ]),
    (λ (discriminator, declared, same_enum, definition, registered, same_model, validated_h, key_h).
        rw (declared, validate_command_value)
          (raise_if-passed (is_other_enum s.command_enum discriminator) _ _ same_enum
            ∙ rw (registered, same_model)
                (raise_if-passed (not (models.class_of value == models.class_of value)) _ _
                    (ground arith)
                  ∙ (revalidate_iff (models.class_of value) value validated).1
                      (validated_h, key_h)))),
  )
