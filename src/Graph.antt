-- ===== src/Graph.antt =====
-- etcd_fsm/_graph.py: composed graphs as Mermaid and DOT text.
pub mod Texts
pub mod Order
pub mod Imports
pub mod Collects
pub mod Visits
pub mod Reached
pub mod Render
pub mod Ids
pub mod Dot
pub mod Drawn
pub mod Shown
use etcd_fsm.Common.{
  ℕ, ◌+◌, Bool, true, false, not, ◌||◌, ◌&&◌, Option, none, some, List, [], ◌∷◌, ◌++◌, map, ◌==◌,
  ltb, filter, any, is_some, codes, if◌then◌else◌,
}
use etcd_fsm.Naming.{Text, eq_text}
use etcd_fsm.Bytes.{lt_bytes}
use etcd_fsm.Checked.{
  Checked, accepted, refused, and_then, ◌>>=◌, ◌>>◌, no_transition_end, unsupported_format,
  unknown_state, not_in_graph,
}
use etcd_fsm.Facts.{FsmSchema}
use etcd_fsm.Schema.{state_models}
use etcd_fsm.Processor.{ProducerKind, reaction, command, initializer, GraphEdge, ComposedGraph}
use etcd_fsm.Processor.Functions.{Classes}
use etcd_fsm.Processor.Finalize.{OpenProcessor, compose_open}
use etcd_fsm.Graph.Texts.{newline, mermaid_text, dot_text, decimal}

-- What the code reads off an enum member (`name`, `str(value)`) and a class (`__qualname__`).
pub record Labels : Type 0 where
  pub member_name : ℕ → Text
  pub member_value : ℕ → Text
  pub qualname : ℕ → Text

-- An entry of what `_state_nodes` gives.
pub record StateNode : Type 0 where
  pub model : ℕ
  pub node_id : Text
  pub label : Text

-- `_enum_label`
unfoldable pub enum_label : Labels → ℕ → Text
enum_label labels d =
    if eq_text (labels.member_value d) (labels.member_name d)
    then labels.member_name d
    else labels.member_name d ++ codes " (" ++ labels.member_value d ++ codes ")"

-- `f"{prefix}_state_{index}"`
abbrev pub state_id : Text → ℕ → Text
state_id prefix index = prefix ++ codes "_state_" ++ decimal index

unfoldable pub nodes_from : Labels → Text → ℕ → List (ℕ × ℕ) → List StateNode
nodes_from labels prefix index [] = []
nodes_from labels prefix index (entry ∷ rest) =
    record {
      model = entry.1;
      node_id = state_id prefix index;
      label = enum_label labels entry.0 ++ newline ∷ labels.qualname entry.1;
    }
    ∷ nodes_from labels prefix (index + 1) rest

-- `_state_nodes`
abbrev pub state_nodes : Labels → FsmSchema → Text → List StateNode
state_nodes labels s prefix = nodes_from labels prefix 0 s.states

-- The loop of `_node_id`.
unfoldable pub find_node : List StateNode → ℕ → Checked Text
find_node [] model = refused (not_in_graph model)
find_node (node ∷ rest) model =
    let later = find_node rest model in if node.model == model then accepted node.node_id else later

-- `_node_id`
abbrev pub node_id : List StateNode → Option ℕ → Checked Text
node_id nodes none = refused no_transition_end
node_id nodes (some model) = find_node nodes model

-- `edge.producer_kind.value`
abbrev pub kind_value : ProducerKind → Text
kind_value reaction = codes "reaction"
kind_value command = codes "command"
kind_value initializer = codes "initializer"

-- The key that edges are sorted by; `none` stands for -1.
pub record EdgeKey : Type 0 where
  pub source : Option ℕ
  pub target : ℕ
  pub deletes : Bool
  pub processor : Text
  pub function : Text
  pub kind : Text

-- `state_order[model]`, which may raise KeyError; the models of a schema are all different.
unfoldable pub state_order : ℕ → List ℕ → ℕ → Checked ℕ
state_order index [] model = refused (unknown_state model)
state_order index (m ∷ rest) model =
    let later = state_order (index + 1) rest model in if m == model then accepted index else later

abbrev pub source_order : FsmSchema → Option ℕ → Checked (Option ℕ)
source_order s none = accepted none
source_order s (some model) = do index ← state_order 0 (state_models s) model; accepted (some index)

abbrev pub target_order : FsmSchema → ℕ → Option ℕ → Checked ℕ
target_order s terminal none = accepted terminal
target_order s terminal (some model) = state_order 0 (state_models s) model
