-- ===== src/Graph/Drawn.antt =====
-- The nodes and edges that etcd_fsm/_graph.py draws of a graph whose edges join registered states: `_sorted_edges`
-- and `_node_id` do not raise.
use etcd_fsm.Common.{
  ℕ, ◌+◌, ◌≡◌, refl, Bool, true, false, not, Option, none, some, List, [], ◌∷◌, map, ◌==◌, length,
  member, is_some, arith, Bool-cases, inl, inr, All,
}
use etcd_fsm.Naming.{Text}
use etcd_fsm.Checked.{Returns, Returns-and_then}
use etcd_fsm.Facts.{FsmSchema}
use etcd_fsm.Schema.{state_models, contains_state_model}
use etcd_fsm.Processor.{GraphEdge}
use etcd_fsm.Processor.Ends.{EndsIn}
use etcd_fsm.Graph.{
  Labels, EdgeKey, nodes_from, state_nodes, find_node, state_id, state_order, source_order,
  target_order,
}
use etcd_fsm.Graph.Order.{edge_key, with_keys, insert, sort_entries, sorted_edges, lt_key}
use etcd_fsm.Graph.Render.{source_name, target_name, edge_lines}

-- Nothing is asked of the value.
abbrev pub Anything {ℓ} : {A : Type ℓ} → A → Type 0
Anything _ = Unit {0}

state_order-Returns :
    (index : ℕ) (models : List ℕ) (model : ℕ)
    → member model models ≡ true
    → Returns Anything (state_order index models model)
unfolding state_order member Returns
state_order-Returns index [] model h = cc
state_order-Returns index (m ∷ rest) model h = elim (Bool-cases (m == model)) [
  | inl same ↦ (index, rw (same, state_order), tt)
  | inr apart ↦
      let (i, e, _) = state_order-Returns (index + 1) rest model (ground arith) in
      (i, rw (apart, state_order) e, tt)
]

find_node-Returns :
    (labels : Labels) (prefix : Text) (index : ℕ) (entries : List (ℕ × ℕ)) (model : ℕ)
    → member model (map (λ entry. entry.1) entries) ≡ true
    → Returns Anything (find_node (nodes_from labels prefix index entries) model)
unfolding find_node nodes_from member Returns
find_node-Returns labels prefix index [] model h = cc
find_node-Returns labels prefix index (entry ∷ rest) model h =
    elim (Bool-cases (entry.1 == model)) [
      | inl same ↦ (state_id prefix index, rw (same, find_node), tt)
      | inr apart ↦
          let (i, e, _) = find_node-Returns labels prefix (index + 1) rest model (ground arith) in
          (i, rw (apart, find_node) e, tt)
    ]

-- Sorting keeps what holds of every edge.
insert-All :
    (P : GraphEdge → Type 0) (x : EdgeKey × GraphEdge) (entries : List (EdgeKey × GraphEdge))
    → P x.1
    → All P (map (λ entry. entry.1) entries)
    → All P (map (λ entry. entry.1) (insert x entries))
unfolding insert
insert-All P x [] h k = (h, tt)
insert-All P x (y ∷ rest) h k = elim (Bool-cases (lt_key y.0 x.0)) [
  | inl before ↦ rw (before, insert) (k.0, insert-All P x rest h k.1)
  | inr behind ↦ rw (behind, insert) (h, k)
]

sort_entries-All :
    (P : GraphEdge → Type 0) (entries : List (EdgeKey × GraphEdge))
    → All P (map (λ entry. entry.1) entries)
    → All P (map (λ entry. entry.1) (sort_entries entries))
unfolding sort_entries
sort_entries-All P [] h = tt
sort_entries-All P (x ∷ rest) h =
    insert-All P x (sort_entries rest) h.0 (sort_entries-All P rest h.1)

module _ (s : FsmSchema) where
  source_order-Returns :
      (source : Option ℕ)
      → ((m : ℕ) → source ≡ some m → contains_state_model s m ≡ true)
      → Returns Anything (source_order s source)
  unfolding Returns contains_state_model
  source_order-Returns none h = (none, refl, tt)
  source_order-Returns (some m) h =
      Returns-and_then Anything Anything (state_order 0 (state_models s) m) _
        (state_order-Returns 0 (state_models s) m (h m refl)) (λ index _. (some index, refl, tt))

  target_order-Returns :
      (terminal : ℕ) (target : Option ℕ)
      → ((m : ℕ) → target ≡ some m → contains_state_model s m ≡ true)
      → Returns Anything (target_order s terminal target)
  unfolding Returns contains_state_model
  target_order-Returns terminal none h = (terminal, refl, tt)
  target_order-Returns terminal (some m) h = state_order-Returns 0 (state_models s) m (h m refl)

  with_keys-Returns :
      (edges : List GraphEdge)
      → All (EndsIn s) edges
      → Returns (λ entries. All (EndsIn s) (map (λ entry. entry.1) entries)) (with_keys s edges)
  unfolding with_keys edge_key Returns EndsIn
  with_keys-Returns [] h = ([], refl, tt)
  with_keys-Returns (edge ∷ rest) h =
      Returns-and_then Anything _ (edge_key s edge) _
        (Returns-and_then Anything Anything (source_order s edge.source) _
          (source_order-Returns edge.source h.0.0)
          (λ source _.
            Returns-and_then Anything Anything (target_order s (length s.states) edge.target) _
              (target_order-Returns (length s.states) edge.target h.0.1)
              (λ target _. (_, refl, tt))))
        (λ key _.
          Returns-and_then _ _ (with_keys s rest) _ (with_keys-Returns rest h.1)
            (λ later typed. ((key, edge) ∷ later, refl, (h.0, typed))))

  pub sorted_edges-Returns :
      (edges : List GraphEdge)
      → All (EndsIn s) edges
      → Returns (All (EndsIn s)) (sorted_edges edges s)
  unfolding sorted_edges Returns
  sorted_edges-Returns edges h =
      Returns-and_then _ _ (with_keys s edges) _ (with_keys-Returns edges h)
        (λ entries typed. (_, refl, sort_entries-All (EndsIn s) entries typed))

  source_name-Returns :
      (labels : Labels) (prefix : Text) (source : Option ℕ)
      → ((m : ℕ) → source ≡ some m → contains_state_model s m ≡ true)
      → Returns Anything (source_name (state_nodes labels s prefix) prefix source)
  unfolding Returns contains_state_model
  source_name-Returns labels prefix none h = (_, refl, tt)
  source_name-Returns labels prefix (some m) h =
      find_node-Returns labels prefix 0 s.states m (h m refl)

  target_name-Returns :
      (labels : Labels) (prefix : Text) (deletes : Bool) (target : Option ℕ)
      → ((m : ℕ) → target ≡ some m → contains_state_model s m ≡ true)
      → is_some target ≡ not deletes
      → Returns Anything (target_name (state_nodes labels s prefix) prefix deletes target)
  unfolding Returns contains_state_model
  target_name-Returns labels prefix true target h k = (_, refl, tt)
  target_name-Returns labels prefix false none h k = cc
  target_name-Returns labels prefix false (some m) h k =
      find_node-Returns labels prefix 0 s.states m (h m refl)

  pub edge_lines-Returns :
      (line : Text → Text → GraphEdge → Text) (labels : Labels) (prefix : Text)
      (edges : List GraphEdge)
      → All (EndsIn s) edges
      → Returns Anything (edge_lines line (state_nodes labels s prefix) prefix edges)
  unfolding edge_lines Returns EndsIn
  edge_lines-Returns line labels prefix [] h = ([], refl, tt)
  edge_lines-Returns line labels prefix (edge ∷ rest) h =
      Returns-and_then Anything Anything
        (source_name (state_nodes labels s prefix) prefix edge.source) _
        (source_name-Returns labels prefix edge.source h.0.0)
        (λ source _.
          Returns-and_then Anything Anything
            (target_name (state_nodes labels s prefix) prefix edge.deletes edge.target) _
            (target_name-Returns labels prefix edge.deletes edge.target h.0.1 h.0.2)
            (λ target _.
              Returns-and_then Anything Anything
                (edge_lines line (state_nodes labels s prefix) prefix rest) _
                (edge_lines-Returns line labels prefix rest h.1) (λ later _. (_, refl, tt))))
