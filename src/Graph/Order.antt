-- ===== src/Graph/Order.antt =====
-- `_sorted_edges` of etcd_fsm/_graph.py.
use etcd_fsm.Common.{
  ℕ, Bool, true, false, not, ◌||◌, ◌&&◌, Option, none, some, List, [], ◌∷◌, map, ◌==◌, ltb, length,
  if◌then◌else◌,
}
use etcd_fsm.Naming.{eq_text}
use etcd_fsm.Bytes.{lt_bytes}
use etcd_fsm.Checked.{Checked, accepted, ◌>>=◌}
use etcd_fsm.Facts.{FsmSchema}
use etcd_fsm.Processor.{GraphEdge}
use etcd_fsm.Graph.{EdgeKey, source_order, target_order, kind_value}

-- The key of an edge.
unfoldable pub edge_key : FsmSchema → GraphEdge → Checked EdgeKey
edge_key s edge = do
  source ← source_order s edge.source
  target ← target_order s (length s.states) edge.target
  accepted (record {
    source = source;
    target = target;
    deletes = edge.deletes;
    processor = edge.processor;
    function = edge.function;
    kind = kind_value edge.producer_kind;
  })

abbrev pub lt_source : Option ℕ → Option ℕ → Bool
lt_source none none = false
lt_source none (some b) = true
lt_source (some a) none = false
lt_source (some a) (some b) = ltb a b

abbrev pub eq_source : Option ℕ → Option ℕ → Bool
eq_source none none = true
eq_source (some a) (some b) = a == b
eq_source _ _ = false

-- How Python compares the tuples: by the first component that differs.
unfoldable pub lt_key : EdgeKey → EdgeKey → Bool
lt_key a b =
    lt_source a.source b.source
    || (eq_source a.source b.source
        && (ltb a.target b.target
            || ((a.target == b.target)
                && ((not a.deletes && b.deletes)
                    || (not (not a.deletes && b.deletes)
                        && not (not b.deletes && a.deletes)
                        && (lt_bytes a.processor b.processor
                            || (eq_text a.processor b.processor
                                && (lt_bytes a.function b.function
                                    || (eq_text a.function b.function
                                        && lt_bytes a.kind b.kind)))))))))

-- `sorted`, which keeps the order of equal keys.
unfoldable pub insert :
    EdgeKey × GraphEdge → List (EdgeKey × GraphEdge) → List (EdgeKey × GraphEdge)
insert x [] = x ∷ []
insert x (y ∷ rest) =
    let later = insert x rest in if lt_key y.0 x.0 then y ∷ later else x ∷ y ∷ rest

unfoldable pub sort_entries : List (EdgeKey × GraphEdge) → List (EdgeKey × GraphEdge)
unfolding insert
sort_entries [] = []
sort_entries (x ∷ rest) = insert x (sort_entries rest)

unfoldable pub with_keys : FsmSchema → List GraphEdge → Checked (List (EdgeKey × GraphEdge))
with_keys s [] = accepted []
with_keys s (edge ∷ rest) = do
  key ← edge_key s edge
  later ← with_keys s rest
  accepted ((key, edge) ∷ later)

-- `_sorted_edges`
unfoldable pub sorted_edges : List GraphEdge → FsmSchema → Checked (List GraphEdge)
unfolding sort_entries with_keys
sorted_edges edges s = do
  entries ← with_keys s edges
  accepted (map (λ entry. entry.1) (sort_entries entries))
