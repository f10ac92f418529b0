-- ===== src/Processor/Finalized.antt =====
-- `finalize` of etcd_fsm/processor.py: what a processor that is finalized refers to.
use etcd_fsm.Common.{
  member-insert, ℕ, ◌≡◌, refl, sym, ap, ◌∙◌, subst, false, ◌||◌, none, some, List, [], ◌∷◌, ◌++◌,
  map, member, has_duplicate, arith, append_assoc, append-nil,
}
use etcd_fsm.Naming.{Text}
use etcd_fsm.Checked.{accepted, Gives, Gives-accepted, Gives-and_then, Gives-raise_if, ◌>>=◌}
use etcd_fsm.Facts.{FsmSchema}
use etcd_fsm.Processor.{
  MatchMode, reaction, command, initializer, ProducerKind, FsmProcessor, implemented,
  validate_transitioning_reactions,
}
use etcd_fsm.Processor.Functions.{
  Function, Classes, compile_reaction, compile_command, compile_initializer,
}
use etcd_fsm.Processor.Finalize.{
  PendingFunction, OpenProcessor, function_name, compile_pending, compile_all, no_definitions,
  finalize,
}
use etcd_fsm.Processor.Edges.{All-append}
use etcd_fsm.Processor.Typed.{
  IsTyped, ReactionIsTyped, CommandIsTyped, InitializerIsTyped, compile_reaction-IsTyped,
  compile_command-IsTyped, compile_initializer-IsTyped,
}

has_duplicate-insert :
    (xs : List ℕ) (y : ℕ) (ys : List ℕ)
    → has_duplicate (xs ++ y ∷ ys) ≡ (member y (xs ++ ys) || has_duplicate (xs ++ ys))
unfolding member has_duplicate
has_duplicate-insert [] y ys = refl
has_duplicate-insert (x ∷ xs) y ys =
    ground (arith, member-insert xs y ys x, has_duplicate-insert xs y ys)

map-snoc :
    {A : Type 0} {B : Type 0} (f : A → B) (xs : List A) (x : A) (ys : List B)
    → map f (xs ++ x ∷ []) ++ ys ≡ map f xs ++ f x ∷ ys
map-snoc f [] x ys = refl
map-snoc f (z ∷ xs) x ys = ap (λ rest. f z ∷ rest) (map-snoc f xs x ys)

-- One more implemented command, wherever it is put.
one_more :
    (keys others xs : List ℕ) (y : ℕ) (ys : List ℕ)
    → keys ≡ xs ++ y ∷ ys
    → others ≡ xs ++ ys
    → member y others ≡ false
    → has_duplicate others ≡ false
    → has_duplicate keys ≡ false
one_more keys others xs y ys e others_e absent h =
    let absent_there = ap (member y) (sym others_e) ∙ absent in
    let distinct = ap has_duplicate (sym others_e) ∙ h in
    ap has_duplicate e ∙ has_duplicate-insert xs y ys ∙ ground arith

last_key :
    {D : Type 0} (xs : List ℕ) (entries : List (ℕ × D)) (entry : ℕ × D)
    → xs ++ map (λ entry. entry.0) (entries ++ entry ∷ [])
      ≡ (xs ++ map (λ entry. entry.0) entries) ++ entry.0 ∷ []
last_key xs entries entry =
    ap (λ rest. xs ++ rest) (sym (append-nil _) ∙ map-snoc (λ entry. entry.0) entries entry [])
    ∙ sym (append_assoc xs _ _)

module _ (classes : Classes) where
  -- `IsTyped` for the processor's own schema, which stays the same.
  unfoldable IsTypedIn : FsmSchema → FsmProcessor → Type 0
  IsTypedIn s p = (p.schema ≡ s) × IsTyped s p

  compile_pending-IsTyped :
      (kind : ProducerKind) (function : Function) (match : MatchMode) (name : Text)
      (p : FsmProcessor)
      → IsTyped p.schema p
      → Gives (IsTypedIn p.schema) (compile_pending classes kind function match name p)
  unfolding compile_pending IsTypedIn IsTyped Gives
  compile_pending-IsTyped reaction function match name p h =
      Gives-and_then (IsTypedIn p.schema) (compile_reaction classes p.schema function match name) _
        (λ d e. Gives-accepted (IsTypedIn p.schema) _ (
          refl,
          (
            All-append (ReactionIsTyped p.schema) p.reactions (d ∷ []) h.0
                (compile_reaction-IsTyped p.schema classes function match name d e, tt),
            h.1,
            h.2,
            h.3,
          ),
        ))
  compile_pending-IsTyped command function match name p h =
      Gives-and_then (IsTypedIn p.schema) (compile_command classes p.schema function match name) _
        (λ d e.
          Gives-raise_if (IsTypedIn p.schema) (member d.command.model (implemented p)) _ _
            (λ absent. Gives-accepted (IsTypedIn p.schema) _ (
              refl,
              (
                h.0,
                All-append (CommandIsTyped p.schema) p.commands ((d.command.model, d) ∷ []) h.1
                    (compile_command-IsTyped p.schema classes function match name d e, tt),
                h.2,
                one_more _ _ (map (λ entry. entry.0) p.commands) d.command.model
                    (map (λ entry. entry.0) p.initializers)
                    (map-snoc (λ entry. entry.0) p.commands (d.command.model, d)
                      (map (λ entry. entry.0) p.initializers))
                    refl absent h.3,
              ),
            )))
  compile_pending-IsTyped initializer function match name p h =
      Gives-and_then (IsTypedIn p.schema) (compile_initializer classes p.schema function name) _
        (λ d e.
          Gives-raise_if (IsTypedIn p.schema) (member d.command.model (implemented p)) _ _
            (λ absent. Gives-accepted (IsTypedIn p.schema) _ (
              refl,
              (
                h.0,
                h.1,
                All-append (InitializerIsTyped p.schema) p.initializers ((d.command.model, d) ∷ [])
                    h.2 (compile_initializer-IsTyped p.schema classes function name d e, tt),
                one_more _ _ (implemented p) d.command.model []
                    (last_key (map (λ entry. entry.0) p.commands) p.initializers
                      (d.command.model, d))
                    (sym (append-nil (implemented p))) absent h.3,
              ),
            )))

  compile_all-IsTyped :
      (pending : List PendingFunction) (names : List Text) (s : FsmSchema) (p : FsmProcessor)
      → IsTypedIn s p
      → Gives (IsTypedIn s) (compile_all classes pending names p)
  unfolding compile_all IsTypedIn Gives
  compile_all-IsTyped [] names s p h = Gives-accepted (IsTypedIn s) p h
  compile_all-IsTyped (f ∷ rest) names s p h =
      Gives-and_then (IsTypedIn s) (function_name names f) _ (λ name _.
        Gives-and_then (IsTypedIn s) (compile_pending classes f.kind f.function f.match name p) _
          (λ next e. compile_all-IsTyped rest (name ∷ names) s next (
            subst (λ t. IsTypedIn t next) h.0
              (compile_pending-IsTyped f.kind f.function f.match name p
                (subst (λ t. IsTyped t p) (sym h.0) h.1) next e))))

  -- What `finalize` leaves behind: definitions of the processor's schema in which every state and command is
  -- registered, and which a second `finalize` keeps.
  unfoldable pub IsFinalized : OpenProcessor → OpenProcessor → Type 0
  IsFinalized p q =
      (definitions : FsmProcessor) × (q.finalized ≡ some definitions)
      × (definitions.schema ≡ p.schema)
      × IsTyped p.schema definitions
      × (finalize classes q ≡ accepted q)

  pub finalize-IsFinalized :
      (p q : OpenProcessor) → p.finalized ≡ none → finalize classes p ≡ accepted q → IsFinalized p q
  unfolding finalize IsFinalized IsTypedIn IsTyped has_duplicate Gives
  finalize-IsFinalized p q h =
      let gives : Gives (IsFinalized p) (do
        definitions ← compile_all classes p.pending [] (no_definitions p)
        _ ← validate_transitioning_reactions definitions.reactions []
        accepted (record p { finalized = some definitions })) =
        Gives-and_then (IsFinalized p) (compile_all classes p.pending [] (no_definitions p)) _
          (λ definitions e.
            Gives-and_then (IsFinalized p)
              (validate_transitioning_reactions definitions.reactions []) _
              (λ _ _. Gives-accepted (IsFinalized p) _ (
                let typed =
                  compile_all-IsTyped p.pending [] p.schema (no_definitions p)
                    (refl, (tt, tt, tt, refl)) definitions e in
                (definitions, refl, typed.0, typed.1, refl)))) in
      λ e. gives q (rw (h, finalize) at e)
