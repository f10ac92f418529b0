-- ===== src/Processor/Ends.antt =====
-- The ends of the edges of a composed graph (`_processor_edges` and `compose_processors` of
-- etcd_fsm/processor.py).
use etcd_fsm.Common.{
  ℕ, ◌≡◌, refl, sym, ap, ◌∙◌, subst, Bool, true, false, not, none, some, List, [], ◌∷◌, ◌++◌, map,
  member, if◌then◌else◌, arith, is_some, All, ◌⊎◌, inl, inr,
}
use etcd_fsm.Naming.{Text}
use etcd_fsm.Checked.{
  Gives, Gives-accepted, Gives-and_then, and_then-accepted, accepted, accepted_inj,
}
use etcd_fsm.Facts.{FsmSchema}
use etcd_fsm.Schema.{contains_state_model}
use etcd_fsm.Processor.{
  ProducerKind, reaction, command, GraphEdge, FsmProcessor, ComposedGraph, source_edges,
  reaction_edges, command_edges, initializer_edges, processor_edges, concat_map, compose_processors,
}
use etcd_fsm.Processor.Edges.{All-append}
use etcd_fsm.Processor.Composed.{composed-edges, compose_processors-composed}
use etcd_fsm.Processor.Functions.{Classes}
use etcd_fsm.Processor.Finalize.{
  OpenProcessor, finalize, finalize_all, require_finalized, compose_open,
}
use etcd_fsm.Processor.Finalized.{finalize-IsFinalized, IsFinalized}
use etcd_fsm.Processor.Typed.{
  AllStates, IsTyped, ReactionIsTyped, CommandIsTyped, InitializerIsTyped,
}

-- A processor that is not finalized yet, or that `finalize` gave.
abbrev pub IsReady : Classes → OpenProcessor → Type 0
IsReady classes p =
    (p.finalized ≡ none)
    ⊎ ((before : OpenProcessor) × (before.schema ≡ p.schema)
        × (before.finalized ≡ none)
        × (finalize classes before ≡ accepted p))

All-concat_map_in :
    {A : Type 0} (Q : A → Type 0) (P : GraphEdge → Type 0) (f : A → List GraphEdge)
    → ((a : A) → Q a → All P (f a))
    → (xs : List A) → All Q xs
    → All P (concat_map f xs)
unfolding concat_map
All-concat_map_in Q P f h [] k = tt
All-concat_map_in Q P f h (x ∷ xs) k =
    All-append P (f x) (concat_map f xs) (h x k.0) (All-concat_map_in Q P f h xs k.1)

required_some :
    (p : OpenProcessor) (definitions : FsmProcessor)
    → require_finalized p ≡ accepted definitions
    → p.finalized ≡ some definitions
unfolding require_finalized
required_some p definitions h = ground arith

module _ (s : FsmSchema) where
  -- The states at the ends of the edge are registered, and there is a target unless the edge deletes.
  unfoldable pub EndsIn : GraphEdge → Type 0
  EndsIn e =
      ((m : ℕ) → e.source ≡ some m → contains_state_model s m ≡ true)
      × ((m : ℕ) → e.target ≡ some m → contains_state_model s m ≡ true)
      × (is_some e.target ≡ not e.deletes)

  Registered : ℕ → Type 0
  Registered m = contains_state_model s m ≡ true

  AllStates-All : (xs : List ℕ) → AllStates s xs → All Registered xs
  unfolding AllStates member Registered
  AllStates-All [] h = tt
  AllStates-All (x ∷ xs) h = (h x (ground arith), AllStates-All xs (λ m k. h m (ground arith)))

  of_some :
      (source m : ℕ) → Registered source → some source ≡ some m → contains_state_model s m ≡ true
  unfolding Registered
  of_some source m h e = let same : source ≡ m = cc in ap (contains_state_model s) (sym same) ∙ h

  to_states :
      (edge : ℕ → GraphEdge)
      → ((target : ℕ) → Registered target → EndsIn (edge target))
      → (targets : List ℕ) → All Registered targets
      → All EndsIn (map edge targets)
  to_states edge f [] h = tt
  to_states edge f (t ∷ rest) h = (f t h.0, to_states edge f rest h.1)

  source_edges-EndsIn :
      (kind : ProducerKind) (processor function : Text) (targets : List ℕ) (can_delete : Bool)
      (source : ℕ)
      → All Registered targets
      → Registered source
      → All EndsIn (source_edges kind processor function targets can_delete source)
  unfolding source_edges EndsIn
  source_edges-EndsIn kind processor function targets can_delete source h k =
      All-append EndsIn _ _
        (to_states _ (λ target t. ((λ m. of_some source m k), (λ m. of_some target m t), refl))
          targets h)
        (deleting can_delete)
    where
      deleting :
          (b : Bool)
          → All EndsIn (
              if b
              then record {
                producer_kind = kind;
                processor = processor;
                function = function;
                source = some source;
                target = none;
                deletes = true;
              }
                ∷ []
              else [])
      deleting true = (((λ m. of_some source m k), (λ m e. cc), refl), tt)
      deleting false = tt

  processor_edges-EndsIn : (p : FsmProcessor) → IsTyped s p → All EndsIn (processor_edges p)
  unfolding processor_edges IsTyped ReactionIsTyped CommandIsTyped InitializerIsTyped EndsIn
  processor_edges-EndsIn p h =
      All-append EndsIn
        (concat_map (reaction_edges p.name) p.reactions
          ++ concat_map (command_edges p.name) p.commands)
        _
        (All-append EndsIn (concat_map (reaction_edges p.name) p.reactions) _
          (All-concat_map_in (ReactionIsTyped s) EndsIn (reaction_edges p.name)
            (λ r t.
              All-concat_map_in Registered EndsIn _
                (λ source k.
                  source_edges-EndsIn reaction p.name r.name r.targets r.can_delete source
                    (AllStates-All r.targets t.1) k)
                r.sources (AllStates-All r.sources t.0))
            p.reactions h.0)
          (All-concat_map_in (CommandIsTyped s) EndsIn (command_edges p.name)
            (λ entry t.
              All-concat_map_in Registered EndsIn _
                (λ source k.
                  source_edges-EndsIn command p.name entry.1.name entry.1.targets entry.1.can_delete
                    source (AllStates-All entry.1.targets t.1) k)
                entry.1.sources (AllStates-All entry.1.sources t.0))
            p.commands h.1))
        (All-concat_map_in (InitializerIsTyped s) EndsIn (initializer_edges p.name)
          (λ entry t.
            to_states _ (λ target k. ((λ m e. cc), (λ m. of_some target m k), refl)) entry.1.targets
              (AllStates-All entry.1.targets t.0))
          p.initializers h.2)

  -- A processor that `finalize` gives, of this schema.
  unfoldable pub IsMadeBy : Classes → FsmProcessor → Type 0
  IsMadeBy classes p =
      (before after : OpenProcessor) × (before.schema ≡ s)
      × (before.finalized ≡ none)
      × (finalize classes before ≡ accepted after)
      × (after.finalized ≡ some p)

  IsMadeBy-schema : (classes : Classes) (p : FsmProcessor) → IsMadeBy classes p → p.schema ≡ s
  unfolding IsMadeBy IsFinalized
  IsMadeBy-schema classes p (before, after, same, fresh, made, result) =
      let (definitions, found, kept, _, _) = finalize-IsFinalized classes before after fresh made in
      let one : definitions ≡ p = cc in ap (λ d. d.schema) (sym one) ∙ kept ∙ same

  IsMadeBy-IsTyped : (classes : Classes) (p : FsmProcessor) → IsMadeBy classes p → IsTyped s p
  unfolding IsMadeBy IsFinalized
  IsMadeBy-IsTyped classes p (before, after, same, fresh, made, result) =
      let (definitions, found, _, typed, _) =
        finalize-IsFinalized classes before after fresh made in
      let one : definitions ≡ p = cc in
      subst (λ t. IsTyped t p) same (subst (IsTyped before.schema) one typed)

  composed-schema :
      (classes : Classes) (ps : List FsmProcessor) (g : ComposedGraph)
      → All (IsMadeBy classes) ps
      → compose_processors ps ≡ accepted g
      → g.schema ≡ s
  unfolding compose_processors
  composed-schema classes [] g h k = cc
  composed-schema classes (p ∷ rest) g h k =
      ap (λ g. g.schema) (sym (compose_processors-composed p rest g k))
      ∙ IsMadeBy-schema classes p h.0

  composed-EndsIn :
      (classes : Classes) (ps : List FsmProcessor) (g : ComposedGraph)
      → All (IsMadeBy classes) ps
      → compose_processors ps ≡ accepted g
      → All EndsIn g.edges
  composed-EndsIn classes ps g h k = subst (All EndsIn) (sym (composed-edges ps g k)) (
      All-concat_map_in (IsMadeBy classes) EndsIn processor_edges
        (λ p made. processor_edges-EndsIn p (IsMadeBy-IsTyped classes p made)) ps h)

  -- A processor of this schema that is not finalized yet, or that `finalize` gave.
  abbrev pub IsReadyFor : Classes → OpenProcessor → Type 0
  IsReadyFor classes p = (p.schema ≡ s) × IsReady classes p

  -- Whether it is finalized now or was before, its definitions are those that `finalize` gives.
  ready-IsMadeBy :
      (classes : Classes) (p after : OpenProcessor) (definitions : FsmProcessor)
      → IsReadyFor classes p
      → finalize classes p ≡ accepted after
      → after.finalized ≡ some definitions
      → IsMadeBy classes definitions
  unfolding IsMadeBy IsFinalized
  ready-IsMadeBy classes p after definitions (same, inl fresh) made found =
      (p, after, same, fresh, made, found)
  ready-IsMadeBy classes p after definitions (same, inr (before, kept, fresh, given)) made found =
      let (_, _, _, _, again) = finalize-IsFinalized classes before p fresh given in
      (
        before,
        after,
        kept ∙ same,
        fresh,
        given ∙ ap accepted (accepted_inj (sym again ∙ made)),
        found,
      )

  finalize_all-IsMadeBy :
      (classes : Classes) (ps : List OpenProcessor)
      → All (IsReadyFor classes) ps
      → Gives (All (IsMadeBy classes)) (finalize_all classes ps)
  unfolding finalize_all require_finalized IsMadeBy Gives
  finalize_all-IsMadeBy classes [] h = Gives-accepted (All (IsMadeBy classes)) [] tt
  finalize_all-IsMadeBy classes (p ∷ rest) h =
      Gives-and_then (All (IsMadeBy classes)) (finalize classes p) _ (λ after made.
        Gives-and_then (All (IsMadeBy classes)) (require_finalized after) _ (λ definitions required.
          Gives-and_then (All (IsMadeBy classes)) (finalize_all classes rest) _ (λ later e.
            Gives-accepted (All (IsMadeBy classes)) (definitions ∷ later) (
              ready-IsMadeBy classes p after definitions h.0 made
                  (required_some after definitions required),
              finalize_all-IsMadeBy classes rest h.1 later e,
            ))))

  -- The graph that processors of one schema compose to, each of them open or finalized by `finalize` before,
  -- is of that schema; every edge joins registered states of it, and has a target unless it deletes.
  pub compose_open-EndsIn :
      (classes : Classes) (ps : List OpenProcessor) (g : ComposedGraph)
      → All (IsReadyFor classes) ps
      → compose_open classes ps ≡ accepted g
      → (g.schema ≡ s) × All EndsIn g.edges
  unfolding compose_open Gives
  compose_open-EndsIn classes ps g h k =
      let (definitions, finalized, composes) = and_then-accepted (finalize_all classes ps) _ k in
      let made = finalize_all-IsMadeBy classes ps h definitions finalized in
      (
        composed-schema classes definitions g made composes,
        composed-EndsIn classes definitions g made composes,
      )
