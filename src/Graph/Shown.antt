-- ===== src/Graph/Shown.antt =====
-- Rendering of etcd_fsm/_graph.py, on composed graphs: what it raises.
use etcd_fsm.Common.{
  ℕ, ◌+◌, ◌≡◌, refl, sym, subst, true, List, [], ◌∷◌, ◌==◌, filter, Bool-cases, inl, inr, All,
}
use etcd_fsm.Naming.{Text}
use etcd_fsm.Checked.{
  Checked, accepted, accepted_inj, Returns, Returns-and_then, Gives, Gives-accepted, Gives-and_then,
}
use etcd_fsm.Facts.{FsmSchema}
use etcd_fsm.Processor.{ComposedGraph}
use etcd_fsm.Processor.Functions.{Classes}
use etcd_fsm.Processor.Finalize.{OpenProcessor}
use etcd_fsm.Processor.Ends.{EndsIn, IsReady, IsReadyFor, compose_open-EndsIn}
use etcd_fsm.Graph.{Labels, state_nodes}
use etcd_fsm.Graph.Order.{sorted_edges}
use etcd_fsm.Graph.Render.{
  edge_lines, mermaid_graph, dot_graph, mermaid_edge, dot_edge, compose_graph, prefix_of,
  each_graph, ImportedDefinitions, compose_schemas, compose_graphs, processors_of, mermaid, dot,
  render_mermaid, render_dot, render_graph,
}
use etcd_fsm.Graph.Drawn.{Anything, sorted_edges-Returns, edge_lines-Returns}

-- The edges of the graph join registered states of its schema.
unfoldable pub IsDrawable : ComposedGraph → Type 0
IsDrawable g = All (EndsIn g.schema) g.edges

module _ (labels : Labels) (index : ℕ) (g : ComposedGraph) where
  pub mermaid_graph-Returns : IsDrawable g → Returns Anything (mermaid_graph labels index g)
  unfolding mermaid_graph IsDrawable Returns
  mermaid_graph-Returns h =
      Returns-and_then _ Anything (sorted_edges g.edges g.schema) _
        (sorted_edges-Returns g.schema g.edges h)
        (λ edges typed.
          Returns-and_then Anything Anything
            (edge_lines mermaid_edge (state_nodes labels g.schema (prefix_of index))
              (prefix_of index) edges)
            _ (edge_lines-Returns g.schema mermaid_edge labels (prefix_of index) edges typed)
            (λ lines _. (_, refl, tt)))

  pub dot_graph-Returns : IsDrawable g → Returns Anything (dot_graph labels index g)
  unfolding dot_graph IsDrawable Returns
  dot_graph-Returns h =
      Returns-and_then _ Anything (sorted_edges g.edges g.schema) _
        (sorted_edges-Returns g.schema g.edges h)
        (λ edges typed.
          Returns-and_then Anything Anything
            (edge_lines dot_edge (state_nodes labels g.schema (prefix_of index)) (prefix_of index)
              edges)
            _ (edge_lines-Returns g.schema dot_edge labels (prefix_of index) edges typed)
            (λ lines _. (_, refl, tt)))

each_graph-Returns :
    (render : ℕ → ComposedGraph → Checked (List Text))
    → ((index : ℕ) (g : ComposedGraph) → IsDrawable g → Returns Anything (render index g))
    → (index : ℕ) (graphs : List ComposedGraph) → All IsDrawable graphs
    → Returns Anything (each_graph render index graphs)
unfolding each_graph Returns
each_graph-Returns render f index [] h = ([], refl, tt)
each_graph-Returns render f index (g ∷ rest) h =
    Returns-and_then Anything Anything (render index g) _ (f index g h.0) (λ lines _.
      Returns-and_then Anything Anything (each_graph render (index + 1) rest) _
        (each_graph-Returns render f (index + 1) rest h.1) (λ later _. (_, refl, tt)))

render_mermaid-Returns :
    (labels : Labels) (graphs : List ComposedGraph)
    → All IsDrawable graphs
    → Returns Anything (render_mermaid labels graphs)
unfolding render_mermaid Returns
render_mermaid-Returns labels graphs h =
    Returns-and_then Anything Anything (each_graph (mermaid_graph labels) 0 graphs) _
      (each_graph-Returns (mermaid_graph labels) (mermaid_graph-Returns labels) 0 graphs h)
      (λ lines _. (_, refl, tt))

render_dot-Returns :
    (labels : Labels) (graphs : List ComposedGraph)
    → All IsDrawable graphs
    → Returns Anything (render_dot labels graphs)
unfolding render_dot Returns
render_dot-Returns labels graphs h =
    Returns-and_then Anything Anything (each_graph (dot_graph labels) 0 graphs) _
      (each_graph-Returns (dot_graph labels) (dot_graph-Returns labels) 0 graphs h)
      (λ lines _. (_, refl, tt))

-- A processor is open or was finalized by `finalize`, and one whose schema is a given one by identity has that schema.
unfoldable pub IsCoherent : Classes → List FsmSchema → OpenProcessor → Type 0
IsCoherent classes schemas p =
    IsReady classes p × All (λ s. (p.schema.identity == s.identity) ≡ true → p.schema ≡ s) schemas

processors_of-All :
    (classes : Classes) (s : FsmSchema) (rest : List FsmSchema) (ps : List OpenProcessor)
    → All (IsCoherent classes (s ∷ rest)) ps
    → All (IsReadyFor s classes) (filter (λ p. p.schema.identity == s.identity) ps)
unfolding filter IsCoherent
processors_of-All classes s rest [] h = tt
processors_of-All classes s rest (p ∷ ps) h = elim (Bool-cases (p.schema.identity == s.identity)) [
  | inl same ↦ rw (same, filter) ((h.0.1.0 same, h.0.0), processors_of-All classes s rest ps h.1)
  | inr apart ↦ rw (apart, filter) (processors_of-All classes s rest ps h.1)
]

IsCoherent-rest :
    (classes : Classes) (s : FsmSchema) (rest : List FsmSchema) (ps : List OpenProcessor)
    → All (IsCoherent classes (s ∷ rest)) ps
    → All (IsCoherent classes rest) ps
unfolding IsCoherent
IsCoherent-rest classes s rest [] h = tt
IsCoherent-rest classes s rest (p ∷ ps) h =
    ((h.0.0, h.0.1.1), IsCoherent-rest classes s rest ps h.1)

compose_graph-IsDrawable :
    (classes : Classes) (s : FsmSchema) (ps : List OpenProcessor) (g : ComposedGraph)
    → All (IsReadyFor s classes) ps
    → compose_graph classes s ps ≡ accepted g
    → IsDrawable g
unfolding compose_graph IsDrawable
compose_graph-IsDrawable classes s [] g h k = subst IsDrawable (accepted_inj k) tt
compose_graph-IsDrawable classes s (p ∷ rest) g h k =
    let (same, typed) = compose_open-EndsIn s classes (p ∷ rest) g h k in
    subst (λ t. All (EndsIn t) g.edges) (sym same) typed

compose_schemas-IsDrawable :
    (classes : Classes) (definitions : ImportedDefinitions) (schemas : List FsmSchema)
    → All (IsCoherent classes schemas) definitions.processors
    → Gives (All IsDrawable) (compose_schemas classes definitions schemas)
unfolding compose_schemas Gives
compose_schemas-IsDrawable classes definitions [] h = Gives-accepted (All IsDrawable) [] tt
compose_schemas-IsDrawable classes definitions (s ∷ rest) h =
    Gives-and_then (All IsDrawable) (compose_graph classes s (processors_of definitions s)) _
      (λ g made.
        Gives-and_then (All IsDrawable) (compose_schemas classes definitions rest) _ (λ later e.
          Gives-accepted (All IsDrawable) (g ∷ later) (
            compose_graph-IsDrawable classes s (processors_of definitions s) g
                (processors_of-All classes s rest definitions.processors h) made,
            compose_schemas-IsDrawable classes definitions rest
                (IsCoherent-rest classes s rest definitions.processors h) later e,
          )))

-- Once the graphs of the imported definitions are composed, rendering them as Mermaid or as DOT returns a
-- text, where each processor is open or was finalized by `finalize` and a schema is known by its identity.
pub render_graph_total :
    (classes : Classes) (labels : Labels) (definitions : ImportedDefinitions)
    (graphs : List ComposedGraph)
    → All (IsCoherent classes definitions.schemas) definitions.processors
    → compose_graphs classes definitions ≡ accepted graphs
    → ((text : Text) × (render_graph classes labels definitions mermaid ≡ accepted text))
      × ((text : Text) × (render_graph classes labels definitions dot ≡ accepted text))
unfolding render_graph Gives Returns
render_graph_total classes labels definitions graphs h k =
    let drawable = compose_schemas-IsDrawable classes definitions definitions.schemas h graphs k in
    let (text, e, _) = render_mermaid-Returns labels graphs drawable in
    let (dot_text, dot_e, _) = render_dot-Returns labels graphs drawable in
    ((text, rw (k, render_graph) e), (dot_text, rw (k, render_graph) dot_e))
