-- ===== src/Processor/Composed.antt =====
-- The edges of a composed graph: each transition that a reaction makes has one function to make it.
use etcd_fsm.Common.{
  ℕ, ◌≡◌, refl, sym, ap, ◌∙◌, subst, Bool, true, false, ◌||◌, Option, none, some, List, [], ◌∷◌,
  ◌++◌, map, if◌then◌else◌, arith, append_assoc, Bool-cases, inl, inr, All,
}
use etcd_fsm.Naming.{Text}
use etcd_fsm.Checked.{
  is_accepted, Checked, accepted, refused, DefinitionError, and_then, different_schemas,
  repeated_processor_name,
}
use etcd_fsm.Processor.{
  command, initializer, ReactionDefinition, CommandHandlerDefinition, InitializerDefinition,
  transitioning, FsmProcessor, ComposedGraph, source_edges, reaction_edges, command_edges,
  initializer_edges, processor_edges, concat_map, compose_processors, has_other_schema,
  has_repeated, validate_transitioning_reactions, claim_commands, composed,
}
use etcd_fsm.Common.{member, has_duplicate}
use etcd_fsm.Processor.Owners.{claimed, is_composable, compose_processors_iff}
use etcd_fsm.Processor.Edges.{
  find_reaction, find_owner, IsOwned, OwnedIn, All-append, All-weaken, All-concat_map,
  member-append, has_duplicate-right, has_duplicate-left, disjoint, claimed-turns, claimed-idle,
  OwnedIn-widen, sources-OwnedIn, idle_edges,
}

module _ (processor : Text) (other : ℕ → Option (Text × Text)) where
  abbrev reacts : List ReactionDefinition → ℕ → Option (Text × Text)
  reacts rs state = find_reaction processor rs state (other state)

  reacts-first :
      (r : ReactionDefinition) (rest : List ReactionDefinition) (s : ℕ)
      → transitioning r ≡ true
      → member s r.sources ≡ true
      → reacts (r ∷ rest) s ≡ some (processor, r.name)
  unfolding find_reaction
  reacts-first r rest s turns m = rw (turns, m)

  reacts-later :
      (r : ReactionDefinition) (rest : List ReactionDefinition) (s : ℕ)
      → member s r.sources ≡ false
      → reacts (r ∷ rest) s ≡ reacts rest s
  unfolding find_reaction
  reacts-later r rest s m = ground (arith, m)

  reacts-idle :
      (r : ReactionDefinition) (rest : List ReactionDefinition) (s : ℕ)
      → transitioning r ≡ false
      → reacts (r ∷ rest) s ≡ reacts rest s
  unfolding find_reaction
  reacts-idle r rest s idle = rw (idle)

  -- A state that no transitioning reaction of the list claims is left to the others.
  reacts-other :
      (rs : List ReactionDefinition) (s : ℕ) → member s (claimed rs) ≡ false → reacts rs s ≡ other s
  unfolding claimed find_reaction
  reacts-other [] s m = refl
  reacts-other (r ∷ rest) s m = elim (Bool-cases (transitioning r)) [
    | inl turns ↦
        let apart = member-append s r.sources (claimed rest) in
        let unclaimed : member s (r.sources ++ claimed rest) ≡ false =
          sym (ap (member s) (claimed-turns r rest turns)) ∙ m in
        reacts-later r rest s (ground arith) ∙ reacts-other rest s (ground arith)
    | inr idle ↦
        reacts-idle r rest s idle
        ∙ reacts-other rest s (sym (ap (member s) (claimed-idle r rest idle)) ∙ m)
  ]

  reactions-OwnedIn :
      (rs : List ReactionDefinition)
      → has_duplicate (claimed rs) ≡ false
      → All (OwnedIn (reacts rs) (claimed rs)) (concat_map (reaction_edges processor) rs)
  unfolding concat_map claimed
  reactions-OwnedIn [] h = tt
  reactions-OwnedIn (r ∷ rest) h = elim (Bool-cases (transitioning r)) [
    | inl turns ↦
        let parts = claimed-turns r rest turns in
        let whole : has_duplicate (r.sources ++ claimed rest) ≡ false =
          sym (ap has_duplicate parts) ∙ h in
        subst
          (λ c.
            All (OwnedIn (reacts (r ∷ rest)) c) (concat_map (reaction_edges processor) (r ∷ rest)))
          (sym parts)
          (All-append _ _ _
            (sources-OwnedIn (reacts (r ∷ rest)) processor r (r.sources ++ claimed rest) r.sources
              (λ s m.
                member-append s r.sources (claimed rest) ∙ ap (λ b. b || member s (claimed rest)) m)
              (λ s m. reacts-first r rest s turns m))
            (OwnedIn-widen (reacts rest) _ (claimed rest) _
              (λ s m.
                let apart = member-append s r.sources (claimed rest) in
                (ground arith, reacts-later r rest s (disjoint s r.sources (claimed rest) whole m)))
              (concat_map (reaction_edges processor) rest)
              (reactions-OwnedIn rest (has_duplicate-right r.sources (claimed rest) whole))))
    | inr idle ↦
        let same = claimed-idle r rest idle in
        subst
          (λ c.
            All (OwnedIn (reacts (r ∷ rest)) c) (concat_map (reaction_edges processor) (r ∷ rest)))
          (sym same)
          (subst
            (λ es.
              All (OwnedIn (reacts (r ∷ rest)) (claimed rest))
                (es ++ concat_map (reaction_edges processor) rest))
            (sym (idle_edges processor r idle r.sources))
            (OwnedIn-widen (reacts rest) _ (claimed rest) _ (λ s m. (m, reacts-idle r rest s idle))
              (concat_map (reaction_edges processor) rest)
              (reactions-OwnedIn rest (sym (ap has_duplicate same) ∙ h))))
  ]

claimed-append : (xs ys : List ReactionDefinition) → claimed (xs ++ ys) ≡ claimed xs ++ claimed ys
unfolding claimed
claimed-append [] ys = refl
claimed-append (r ∷ rest) ys = elim (Bool-cases (transitioning r)) [
  | inl turns ↦ rw (turns) (
      ap (λ c. r.sources ++ c) (claimed-append rest ys)
      ∙ sym (append_assoc r.sources (claimed rest) (claimed ys)))
  | inr idle ↦ rw (idle) (claimed-append rest ys)
]

module _ (owner : ℕ → Option (Text × Text)) (states : List ℕ) (processor : Text) where
  source_edges-command :
      (function : Text) (targets : List ℕ) (can_delete : Bool) (state : ℕ)
      → All
          (OwnedIn owner states)
          (source_edges command processor function targets can_delete state)
  unfolding source_edges OwnedIn
  source_edges-command function [] false state = tt
  source_edges-command function [] true state = (λ k. cc, tt)
  source_edges-command function (t ∷ targets) can_delete state =
      (λ k. cc, source_edges-command function targets can_delete state)

  command_edges-OwnedIn :
      (entry : ℕ × CommandHandlerDefinition)
      → All (OwnedIn owner states) (command_edges processor entry)
  command_edges-OwnedIn (_, d) =
      All-concat_map _ _ (source_edges-command d.name d.targets d.can_delete) d.sources

  initializer_edges-OwnedIn :
      (entry : ℕ × InitializerDefinition)
      → All (OwnedIn owner states) (initializer_edges processor entry)
  unfolding OwnedIn
  initializer_edges-OwnedIn (_, d) = go d.targets
    where
      go :
          (targets : List ℕ)
          → All (OwnedIn owner states) (
              map
                (λ target. record {
                  producer_kind = initializer;
                  processor = processor;
                  function = d.name;
                  source = none;
                  target = some target;
                  deletes = false;
                })
                targets)
      go [] = tt
      go (t ∷ targets) = (λ k. cc, go targets)

edges-OwnedIn :
    (ps : List FsmProcessor)
    → has_duplicate (claimed (concat_map (λ p. p.reactions) ps)) ≡ false
    → All
        (OwnedIn (find_owner ps) (claimed (concat_map (λ p. p.reactions) ps)))
        (concat_map processor_edges ps)
unfolding concat_map processor_edges find_owner
edges-OwnedIn [] h = tt
edges-OwnedIn (p ∷ rest) h =
    let later = concat_map (λ p. p.reactions) rest in
    let whole : has_duplicate (claimed p.reactions ++ claimed later) ≡ false =
      sym (ap has_duplicate (claimed-append p.reactions later)) ∙ h in
    subst
      (λ c.
        All (OwnedIn (find_owner (p ∷ rest)) c)
          (processor_edges p ++ concat_map processor_edges rest))
      (sym (claimed-append p.reactions later))
      (All-append _ _ _
        (All-append _ _ _
          (All-append _ _ _
            (OwnedIn-widen (find_owner (p ∷ rest)) _ (claimed p.reactions) _
              (λ s m. (
                member-append s (claimed p.reactions) (claimed later)
                    ∙ ap (λ b. b || member s (claimed later)) m,
                refl,
              ))
              _
              (reactions-OwnedIn p.name (find_owner rest) p.reactions
                (has_duplicate-left (claimed p.reactions) (claimed later) whole)))
            (All-concat_map _ _ (command_edges-OwnedIn _ _ p.name) p.commands))
          (All-concat_map _ _ (initializer_edges-OwnedIn _ _ p.name) p.initializers))
        (OwnedIn-widen (find_owner rest) _ (claimed later) _
          (λ s m.
            let apart = member-append s (claimed p.reactions) (claimed later) in
            (
              ground arith,
              reacts-other p.name (find_owner rest) p.reactions s
                  (disjoint s (claimed p.reactions) (claimed later) whole m),
            ))
          (concat_map processor_edges rest)
          (edges-OwnedIn rest (has_duplicate-right (claimed p.reactions) (claimed later) whole))))

composable-claimed :
    (ps : List FsmProcessor)
    → is_composable ps ≡ true
    → has_duplicate (claimed (concat_map (λ p. p.reactions) ps)) ≡ false
unfolding is_composable
composable-claimed [] h = cc
composable-claimed (p ∷ rest) h = ground arith

guarded-result :
    {A : Type 0} (a b : Bool) (d e : DefinitionError) (x y : Checked A) (c g : ComposedGraph)
    → (if a
        then refused d
        else if b
        then refused e
        else and_then x (λ _. and_then y (λ _. accepted c)))
      ≡ accepted g
    → c ≡ g
guarded-result true b d e x y c g h = cc
guarded-result false true d e x y c g h = cc
guarded-result false false d e (refused _) y c g h = cc
guarded-result false false d e (accepted _) (refused _) c g h = cc
guarded-result false false d e (accepted _) (accepted _) c g h = cc

pub compose_processors-composed :
    (p : FsmProcessor) (rest : List FsmProcessor) (g : ComposedGraph)
    → compose_processors (p ∷ rest) ≡ accepted g
    → composed p rest ≡ g
unfolding compose_processors
compose_processors-composed p rest g h =
    guarded-result (has_other_schema p rest) (has_repeated (map (λ q. q.name) (p ∷ rest)))
      different_schemas repeated_processor_name
      (validate_transitioning_reactions (concat_map (λ q. q.reactions) (p ∷ rest)) [])
      (claim_commands (p ∷ rest) []) (composed p rest) g h

pub composed-edges :
    (ps : List FsmProcessor) (g : ComposedGraph)
    → compose_processors ps ≡ accepted g
    → g.edges ≡ concat_map processor_edges ps
unfolding compose_processors
composed-edges [] g h = cc
composed-edges (p ∷ rest) g h = ap (λ g. g.edges) (sym (compose_processors-composed p rest g h))

-- In a graph that `compose_processors` returns, every edge that a reaction makes leaves a state, and is
-- made by the one processor and function that `find_owner` gives for that state: no two reactions
-- compete for a transition from a state.
pub compose_processors-IsOwned :
    (ps : List FsmProcessor) (g : ComposedGraph)
    → compose_processors ps ≡ accepted g
    → All (IsOwned (find_owner ps)) g.edges
unfolding IsOwned OwnedIn
compose_processors-IsOwned ps g h =
    let composable : is_composable ps ≡ true = sym (compose_processors_iff ps) ∙ ap is_accepted h in
    subst (All (IsOwned (find_owner ps))) (sym (composed-edges ps g h)) (
      All-weaken _ _ (λ e o k. let (s, a, _, b) = o k in (s, a, b)) (concat_map processor_edges ps)
        (edges-OwnedIn ps (composable-claimed ps composable)))
