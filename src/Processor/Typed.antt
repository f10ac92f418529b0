-- ===== src/Processor/Typed.antt =====
-- etcd_fsm/processor.py: what a function that is compiled, and a processor that is finalized, refers to.
use etcd_fsm.Common.{
  ℕ, ◌≡◌, refl, sym, ap, ◌∙◌, true, false, not, Option, none, some, List, [], ◌∷◌, length, ◌==◌,
  is_empty, member, has_duplicate, arith, All,
}
use etcd_fsm.Naming.{Text}
use etcd_fsm.Checked.{
  accepted, and_then-accepted, raise_if-accepted, accepted_inj, Gives, Gives-accepted,
  Gives-and_then, Gives-raise_if,
}
use etcd_fsm.Annotations.{Annotation}
use etcd_fsm.Facts.{FsmSchema, CommandDefinition}
use etcd_fsm.Schema.{state_models, contains_state_model, contains_command_model, command_definition}
use etcd_fsm.Schema.Lookups.{command_definition-contains}
use etcd_fsm.Processor.{
  MatchMode, FsmProcessor, ReactionDefinition, CommandHandlerDefinition, InitializerDefinition,
  implemented,
}
use etcd_fsm.Processor.Returns.{ReturnDefinition, contains_model, reaction_return, command_return}
use etcd_fsm.Processor.Returns.Declared.{reaction_return_lem}
use etcd_fsm.Processor.Returns.Applied.{command_return_lem}
use etcd_fsm.Processor.Functions.{
  Function, Classes, resolved_signature, one_parameter, command_parameters, one_of_each,
  registered_command, command_model, strip_annotated, expand_state_annotation, compile_reaction,
  compile_command, compile_initializer,
}
use etcd_fsm.Processor.Sources.{expand_state_annotation_lem}

contains_model-member : (xs : List ℕ) (m : ℕ) → contains_model xs m ≡ member m xs
unfolding contains_model member
contains_model-member [] m = refl
contains_model-member (x ∷ xs) m = ground (arith, contains_model-member xs m)

module _ (s : FsmSchema) where
  -- Each model of the list is a state model of the schema.
  unfoldable pub AllStates : List ℕ → Type 0
  AllStates models = (m : ℕ) → member m models ≡ true → contains_state_model s m ≡ true

  unfoldable pub ReactionIsTyped : ReactionDefinition → Type 0
  ReactionIsTyped r = AllStates r.sources × AllStates r.targets

  -- The key of the entry is the model of the definition, a command model of the schema.
  unfoldable pub CommandIsTyped : ℕ × CommandHandlerDefinition → Type 0
  CommandIsTyped entry =
      AllStates entry.1.sources
      × AllStates entry.1.targets
      × (entry.0 ≡ entry.1.command.model)
      × (contains_command_model s entry.0 ≡ true)

  unfoldable pub InitializerIsTyped : ℕ × InitializerDefinition → Type 0
  InitializerIsTyped entry =
      AllStates entry.1.targets
      × (is_empty entry.1.targets ≡ false)
      × (entry.0 ≡ entry.1.command.model)
      × (contains_command_model s entry.0 ≡ true)

  -- Every state and command that the definitions name is registered, and no command has two functions.
  unfoldable pub IsTyped : FsmProcessor → Type 0
  IsTyped p =
      All ReactionIsTyped p.reactions
      × All CommandIsTyped p.commands
      × All InitializerIsTyped p.initializers
      × (has_duplicate (implemented p) ≡ false)

  reaction_return-AllStates :
      (annotation : Annotation) (r : ReturnDefinition)
      → reaction_return (state_models s) annotation ≡ accepted r
      → AllStates r.targets
  unfolding AllStates contains_state_model
  reaction_return-AllStates annotation r h m k =
      let found = reaction_return_lem (state_models s) annotation r h in
      sym (contains_model-member (state_models s) m)
      ∙ found.1 m (sym (found.0 m) ∙ contains_model-member r.targets m ∙ k)

  command_return-AllStates :
      (result_type annotation : Annotation) (r : ReturnDefinition)
      → command_return (state_models s) result_type annotation ≡ accepted r
      → AllStates r.targets
  unfolding AllStates contains_state_model
  command_return-AllStates result_type annotation r h m k =
      let found = command_return_lem (state_models s) result_type annotation r h in
      sym (contains_model-member (state_models s) m)
      ∙ found.2 m (sym (found.1 m) ∙ contains_model-member r.targets m ∙ k)

  one_of_each-contains :
      (models : List ℕ) (annotations : List Annotation) (found : CommandDefinition × Annotation)
      → one_of_each s models annotations ≡ accepted found
      → contains_command_model s found.0.model ≡ true
  unfolding one_of_each
  one_of_each-contains (model ∷ []) (annotation ∷ []) found h =
      let (definition, looked_up, h1) = and_then-accepted (command_definition s model) _ h in
      ap (λ x. contains_command_model s x.0.model) (sym (accepted_inj h1))
      ∙ command_definition-contains s model definition looked_up
  one_of_each-contains _ _ found h = cc

  command_parameters-contains :
      (parameters : List Annotation) (found : CommandDefinition × Annotation)
      → command_parameters s parameters ≡ accepted found
      → contains_command_model s found.0.model ≡ true
  unfolding command_parameters
  command_parameters-contains parameters found h =
      let (_, h1) = raise_if-accepted (not (length parameters == 2)) _ _ h in
      one_of_each-contains _ _ found h1

  registered_command-contains :
      (model : Option ℕ) (found : CommandDefinition)
      → registered_command s model ≡ accepted found
      → contains_command_model s found.model ≡ true
  registered_command-contains none found h = cc
  registered_command-contains (some model) found h = command_definition-contains s model found h

  module _ (classes : Classes) (function : Function) where
    pub compile_reaction-IsTyped :
        (match : MatchMode) (name : Text)
        → Gives ReactionIsTyped (compile_reaction classes s function match name)
    unfolding compile_reaction ReactionIsTyped AllStates
    compile_reaction-IsTyped match name =
        Gives-and_then ReactionIsTyped (resolved_signature function) _ (λ signature _.
          Gives-and_then ReactionIsTyped (one_parameter signature.0) _ (λ parameter _.
            Gives-and_then ReactionIsTyped (expand_state_annotation classes s parameter match) _
              (λ sources expanded.
                Gives-and_then ReactionIsTyped (reaction_return (state_models s) signature.1) _
                  (λ returns declared. Gives-accepted ReactionIsTyped _ (
                    (expand_state_annotation_lem classes s parameter match sources expanded).1,
                    reaction_return-AllStates signature.1 returns declared,
                  )))))

    pub compile_command-IsTyped :
        (match : MatchMode) (name : Text)
        → Gives
            (λ definition. CommandIsTyped (definition.command.model, definition))
            (compile_command classes s function match name)
    unfolding compile_command CommandIsTyped AllStates
    compile_command-IsTyped match name =
        Gives-and_then (λ d. CommandIsTyped (d.command.model, d)) (resolved_signature function) _
          (λ signature _.
            Gives-and_then (λ d. CommandIsTyped (d.command.model, d))
              (command_parameters s signature.0) _
              (λ found bound.
                Gives-and_then (λ d. CommandIsTyped (d.command.model, d))
                  (expand_state_annotation classes s found.1 match) _
                  (λ sources expanded.
                    Gives-and_then (λ d. CommandIsTyped (d.command.model, d))
                      (command_return (state_models s) found.0.result_type signature.1) _
                      (λ returns declared.
                        Gives-accepted (λ d. CommandIsTyped (d.command.model, d)) _
                          (
                            (expand_state_annotation_lem classes s found.1 match sources
                                expanded).1,
                            command_return-AllStates found.0.result_type signature.1 returns
                                declared,
                            refl,
                            command_parameters-contains signature.0 found bound,
                          )))))

    pub compile_initializer-IsTyped :
        (name : Text)
        → Gives
            (λ definition. InitializerIsTyped (definition.command.model, definition))
            (compile_initializer classes s function name)
    unfolding compile_initializer InitializerIsTyped AllStates
    compile_initializer-IsTyped name =
        Gives-and_then (λ d. InitializerIsTyped (d.command.model, d)) (resolved_signature function)
          _
          (λ signature _.
            Gives-and_then (λ d. InitializerIsTyped (d.command.model, d))
              (one_parameter signature.0) _
              (λ parameter _.
                Gives-and_then (λ d. InitializerIsTyped (d.command.model, d))
                  (registered_command s (command_model (strip_annotated parameter))) _
                  (λ found looked_up.
                    Gives-and_then (λ d. InitializerIsTyped (d.command.model, d))
                      (command_return (state_models s) found.result_type signature.1) _
                      (λ returns declared.
                        Gives-raise_if (λ d. InitializerIsTyped (d.command.model, d))
                          (is_empty returns.targets) _ _
                          (λ some_target.
                            Gives-raise_if (λ d. InitializerIsTyped (d.command.model, d))
                              returns.can_delete _ _
                              (λ _.
                                Gives-accepted (λ d. InitializerIsTyped (d.command.model, d)) _
                                  (
                                    command_return-AllStates found.result_type signature.1 returns
                                        declared,
                                    some_target,
                                    refl,
                                    registered_command-contains
                                        (command_model (strip_annotated parameter)) found looked_up,
                                  )))))))
