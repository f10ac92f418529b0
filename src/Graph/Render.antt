-- ===== src/Graph/Render.antt =====
-- `_compose_graphs`, `_render_mermaid`, `_render_dot` and `render_graph` of etcd_fsm/_graph.py.
use etcd_fsm.Common.{
  ℕ, ◌+◌, Bool, true, false, not, ◌&&◌, Option, none, some, List, [], ◌∷◌, ◌++◌, map, ◌==◌, filter,
  any, is_some, codes, if◌then◌else◌,
}
use etcd_fsm.Naming.{Text}
use etcd_fsm.Checked.{Checked, accepted, refused, ◌>>=◌, unsupported_format}
use etcd_fsm.Facts.{FsmSchema}
use etcd_fsm.Processor.{GraphEdge, ComposedGraph}
use etcd_fsm.Processor.Functions.{Classes}
use etcd_fsm.Processor.Finalize.{OpenProcessor, compose_open}
use etcd_fsm.Graph.{Labels, StateNode, state_nodes, node_id, kind_value}
use etcd_fsm.Graph.Order.{sorted_edges}
use etcd_fsm.Graph.Texts.{newline, mermaid_text, dot_text, decimal}

pub record ImportedDefinitions : Type 0 where
  pub schemas : List FsmSchema
  pub processors : List OpenProcessor

pub data GraphFormat : Type 0 where
  mermaid dot unsupported : GraphFormat

-- The processors of a schema: `processor.schema is schema`.
abbrev pub processors_of : ImportedDefinitions → FsmSchema → List OpenProcessor
processors_of definitions s = filter (λ p. p.schema.identity == s.identity) definitions.processors

-- A turn of the loop of `_compose_graphs`.
unfoldable pub compose_graph : Classes → FsmSchema → List OpenProcessor → Checked ComposedGraph
compose_graph classes s [] = accepted (record { schema = s; processors = []; edges = [] })
compose_graph classes s (p ∷ rest) = compose_open classes (p ∷ rest)

unfoldable pub compose_schemas :
    Classes → ImportedDefinitions → List FsmSchema → Checked (List ComposedGraph)
compose_schemas classes definitions [] = accepted []
compose_schemas classes definitions (s ∷ rest) = do
  graph ← compose_graph classes s (processors_of definitions s)
  later ← compose_schemas classes definitions rest
  accepted (graph ∷ later)

-- `_compose_graphs`
abbrev pub compose_graphs : Classes → ImportedDefinitions → Checked (List ComposedGraph)
compose_graphs classes definitions = compose_schemas classes definitions definitions.schemas

-- `_edge_label`
abbrev pub edge_label : GraphEdge → Text
edge_label edge =
    edge.processor
    ++ codes ": "
    ++ edge.function
    ++ codes " ["
    ++ kind_value edge.producer_kind
    ++ codes "]"

-- `f"schema_{schema_index}"`
abbrev pub prefix_of : ℕ → Text
prefix_of index = codes "schema_" ++ decimal index

abbrev pub has_initial : List GraphEdge → Bool
has_initial edges = any (λ edge. not (is_some edge.source) && not edge.deletes) edges

abbrev pub has_deleted : List GraphEdge → Bool
has_deleted edges = any (λ edge. edge.deletes) edges

-- The names of the nodes at the ends of an edge.
abbrev pub source_name : List StateNode → Text → Option ℕ → Checked Text
source_name nodes prefix none = accepted (prefix ++ codes "_initial")
source_name nodes prefix (some model) = node_id nodes (some model)

abbrev pub target_name : List StateNode → Text → Bool → Option ℕ → Checked Text
target_name nodes prefix true target = accepted (prefix ++ codes "_deleted")
target_name nodes prefix false target = node_id nodes target

-- A line for each edge, from the names of its ends.
unfoldable pub edge_lines :
    (Text → Text → GraphEdge → Text) → List StateNode → Text → List GraphEdge → Checked (List Text)
edge_lines line nodes prefix [] = accepted []
edge_lines line nodes prefix (edge ∷ rest) = do
  source ← source_name nodes prefix edge.source
  target ← target_name nodes prefix edge.deletes edge.target
  later ← edge_lines line nodes prefix rest
  accepted (line source target edge ∷ later)

abbrev pub when : Bool → Text → List Text
when test line = if test then line ∷ [] else []

abbrev pub mermaid_node : StateNode → Text
mermaid_node node =
    codes "    "
    ++ node.node_id
    ++ codes "[\""
    ++ mermaid_text (codes "<br/>") node.label
    ++ codes "\"]"

abbrev pub mermaid_edge : Text → Text → GraphEdge → Text
mermaid_edge source target edge =
    codes "    "
    ++ source
    ++ codes " -->|\""
    ++ mermaid_text (codes " ") (edge_label edge)
    ++ codes "\"| "
    ++ target

-- A turn of the loop of `_render_mermaid`.
unfoldable pub mermaid_graph : Labels → ℕ → ComposedGraph → Checked (List Text)
mermaid_graph labels index graph =
    let prefix = prefix_of index in
    let nodes = state_nodes labels graph.schema prefix in
    do
      edges ← sorted_edges graph.edges graph.schema
      lines ← edge_lines mermaid_edge nodes prefix edges
      accepted (
          (codes "  subgraph "
            ++ prefix
            ++ codes "[\""
            ++ mermaid_text (codes " ") graph.schema.name
            ++ codes "\"]")
          ∷ (when (has_initial edges) (codes "    " ++ prefix ++ codes "_initial((\"create\"))")
              ++ when (has_deleted edges)
                  (codes "    " ++ prefix ++ codes "_deleted((\"deleted\"))")
              ++ map mermaid_node nodes
              ++ lines
              ++ codes "  end" ∷ []))

abbrev pub dot_node : StateNode → Text
dot_node node =
    codes "    \""
    ++ node.node_id
    ++ codes "\" [label=\""
    ++ dot_text node.label
    ++ codes "\", shape=box];"

abbrev pub dot_edge : Text → Text → GraphEdge → Text
dot_edge source target edge =
    codes "    \""
    ++ source
    ++ codes "\" -> \""
    ++ target
    ++ codes "\" [label=\""
    ++ dot_text (edge_label edge)
    ++ codes "\"];"

-- A turn of the loop of `_render_dot`.
unfoldable pub dot_graph : Labels → ℕ → ComposedGraph → Checked (List Text)
dot_graph labels index graph =
    let prefix = prefix_of index in
    let nodes = state_nodes labels graph.schema prefix in
    do
      edges ← sorted_edges graph.edges graph.schema
      lines ← edge_lines dot_edge nodes prefix edges
      accepted (
          (codes "  subgraph \"cluster_" ++ prefix ++ codes "\" {")
          ∷ (codes "    label=\"" ++ dot_text graph.schema.name ++ codes "\";")
          ∷ (when (has_initial edges)
                (codes "    \"" ++ prefix ++ codes "_initial\" [label=\"create\", shape=circle];")
              ++ when (has_deleted edges) (
                  codes "    \""
                  ++ prefix
                  ++ codes "_deleted\" [label=\"deleted\", shape=doublecircle];")
              ++ map dot_node nodes
              ++ lines
              ++ codes "  }" ∷ []))

-- The loops over the graphs, with their numbers.
unfoldable pub each_graph :
    (ℕ → ComposedGraph → Checked (List Text)) → ℕ → List ComposedGraph → Checked (List Text)
each_graph render index [] = accepted []
each_graph render index (graph ∷ rest) = do
  lines ← render index graph
  later ← each_graph render (index + 1) rest
  accepted (lines ++ later)

-- `"\n".join(lines) + "\n"`
unfoldable pub join_lines : List Text → Text
join_lines [] = newline ∷ []
join_lines (line ∷ []) = line ++ newline ∷ []
join_lines (line ∷ next ∷ rest) = line ++ newline ∷ join_lines (next ∷ rest)

-- `_render_mermaid`
unfoldable pub render_mermaid : Labels → List ComposedGraph → Checked Text
render_mermaid labels graphs = do
  lines ← each_graph (mermaid_graph labels) 0 graphs
  accepted (join_lines (codes "flowchart LR" ∷ lines))

-- `_render_dot`
unfoldable pub render_dot : Labels → List ComposedGraph → Checked Text
render_dot labels graphs = do
  lines ← each_graph (dot_graph labels) 0 graphs
  accepted (
      join_lines (codes "digraph \"etcd-fsm\" {" ∷ codes "  rankdir=LR;" ∷ lines ++ codes "}" ∷ []))

abbrev pub render_format : Labels → GraphFormat → List ComposedGraph → Checked Text
render_format labels mermaid graphs = render_mermaid labels graphs
render_format labels dot graphs = render_dot labels graphs
render_format labels unsupported graphs = refused unsupported_format

-- `render_graph`
unfoldable pub render_graph : Classes → Labels → ImportedDefinitions → GraphFormat → Checked Text
render_graph classes labels definitions format = do
  graphs ← compose_graphs classes definitions
  render_format labels format graphs
