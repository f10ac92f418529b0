-- ===== src/Checked.antt =====
-- etcd_fsm/errors.py: what `SchemaDefinitionError` and then `ProcessorDefinitionError` are raised for,
-- and the checks that raise them.
use etcd_fsm.Common.{subst, ap, ◌∙◌, ℕ, Bool, true, false, List, ◌≡◌, refl}
use etcd_fsm.Naming.{Text}

pub data DefinitionError : Type 0 where
  invalid_schema_name invalid_namespace enum_aliases command_enum_required : DefinitionError
  registered_twice wrong_base abstract_model not_frozen : ℕ → DefinitionError
  fsm_key_not_synchronous fsm_key_parameters fsm_key_unresolved fsm_key_not_str :
      ℕ → DefinitionError
  no_local_discriminator unresolved_discriminator not_a_literal not_one_literal :
      ℕ → DefinitionError
  other_enum no_default other_default : ℕ → DefinitionError
  no_result_type unresolved_result_type : ℕ → DefinitionError
  discriminator_declared_twice : ℕ → ℕ → DefinitionError
  missing_models : List ℕ → DefinitionError
  no_state_models : DefinitionError
  unregistered_discriminator unregistered_command : ℕ → DefinitionError
  value_of_other_enum value_of_other_model no_command_field invalid_value invalid_key :
      DefinitionError
  no_processors different_schemas repeated_processor_name : DefinitionError
  no_outcomes unsupported_outcome different_result invalid_applied invalid_rejected :
      DefinitionError
  not_async unresolved_hints variadic_parameter unannotated_parameter any_parameter :
      DefinitionError
  no_return_annotation any_return : DefinitionError
  unresolved_binding open_binding binding_of_other_enum : DefinitionError
  no_state_declared not_a_state_model wrong_parameter_count not_one_command_and_state :
      DefinitionError
  not_a_command_model initializer_without_target initializer_deletes : DefinitionError
  invalid_processor_name invalid_function_name repeated_function_name already_finalized
        not_finalized :
      DefinitionError
  command_with_two_functions : DefinitionError
  no_transition_end unsupported_format : DefinitionError
  unknown_state not_in_graph : ℕ → DefinitionError
  unregistered_state matches_no_state : ℕ → DefinitionError
  two_transitioning_reactions : Text → Text → ℕ → DefinitionError
  command_implemented_twice : ℕ → Text → Text → DefinitionError

-- The state of a check, or what it raises.
pub data Checked {ℓ} (A : Type ℓ) : Type ℓ where
  accepted : A → Checked A
  refused : DefinitionError → Checked A

-- What follows a check, which a raise leaves out.
abbrev pub and_then {ℓ κ} : {A : Type ℓ} {B : Type κ} → Checked A → (A → Checked B) → Checked B
and_then (accepted a) f = f a
and_then (refused e) f = refused e

-- `if test: raise error`
abbrev pub raise_if : Bool → DefinitionError → Checked (Unit {0})
raise_if true e = refused e
raise_if false e = accepted tt

-- For the `do` blocks.
infixl 5 ◌>>=◌ ◌>>◌
abbrev pub ◌>>=◌ {ℓ κ} : {A : Type ℓ} {B : Type κ} → Checked A → (A → Checked B) → Checked B
m >>= f = and_then m f

abbrev pub ◌>>◌ {ℓ} : {B : Type ℓ} → Checked (Unit {0}) → Checked B → Checked B
m >> k = and_then m (λ _. k)

abbrev pub is_accepted {ℓ} : {A : Type ℓ} → Checked A → Bool
is_accepted (accepted a) = true
is_accepted (refused e) = false

-- What a `do` block that is accepted went through.
pub and_then-accepted {ℓ κ} :
    {A : Type ℓ} {B : Type κ} (c : Checked A) (f : A → Checked B) {b : B}
    → and_then c f ≡ accepted b
    → (a : A) × (c ≡ accepted a) × (f a ≡ accepted b)
and_then-accepted (accepted a) f h = (a, refl, h)
and_then-accepted (refused e) f h = cc

pub raise_if-accepted {κ} :
    {B : Type κ} (test : Bool) (e : DefinitionError) (rest : Checked B) {b : B}
    → (raise_if test e >> rest) ≡ accepted b
    → (test ≡ false) × (rest ≡ accepted b)
raise_if-accepted true e rest h = cc
raise_if-accepted false e rest h = (refl, h)

pub accepted_inj {ℓ} : {A : Type ℓ} {a b : A} → accepted a ≡ accepted b → a ≡ b
accepted_inj h = cc

pub raise_if-passed {κ} :
    {B : Type κ} (test : Bool) (e : DefinitionError) (rest : Checked B)
    → test ≡ false
    → (raise_if test e >> rest) ≡ rest
raise_if-passed true e rest h = cc
raise_if-passed false e rest h = refl

-- What holds of the value that a check accepts, and the rules for it.
unfoldable pub Gives {ℓ κ} : {A : Type ℓ} → (A → Type κ) → Checked A → Type (ℓ ⊔ κ)
Gives {A = A} P c = (a : A) → c ≡ accepted a → P a

module _ {ℓ κ} {B : Type ℓ} (P : B → Type κ) where
  pub Gives-accepted : (b : B) → P b → Gives P (accepted b)
  unfolding Gives
  Gives-accepted b h a e = subst P (accepted_inj e) h

  pub Gives-refused : (e : DefinitionError) → Gives P (refused e)
  unfolding Gives
  Gives-refused e a h = cc

  pub Gives-and_then {ι} :
      {A : Type ι} (c : Checked A) (f : A → Checked B)
      → ((a : A) → c ≡ accepted a → Gives P (f a))
      → Gives P (and_then c f)
  unfolding Gives
  Gives-and_then (accepted a) f h b e = h a refl b e
  Gives-and_then (refused _) f h b e = cc

  pub Gives-raise_if :
      (test : Bool) (e : DefinitionError) (rest : Checked B)
      → (test ≡ false → Gives P rest)
      → Gives P (raise_if test e >> rest)
  unfolding Gives
  Gives-raise_if true e rest h b k = cc
  Gives-raise_if false e rest h b k = h refl b k

-- A check that accepts a value of which something holds.
unfoldable pub Returns {ℓ κ} : {A : Type ℓ} → (A → Type κ) → Checked A → Type (ℓ ⊔ κ)
Returns {A = A} P c = (a : A) × (c ≡ accepted a) × P a

pub Returns-and_then {ℓ κ ι λ'} :
    {A : Type ℓ} {B : Type κ} (P : A → Type ι) (Q : B → Type λ') (c : Checked A) (f : A → Checked B)
    → Returns P c
    → ((a : A) → P a → Returns Q (f a))
    → Returns Q (and_then c f)
unfolding Returns
Returns-and_then P Q c f (a, e, p) h = let (b, k, q) = h a p in (b, ap (λ x. and_then x f) e ∙ k, q)
