-- ===== src/Graph/Ids.antt =====
-- The names of the nodes that etcd_fsm/_graph.py draws: `_state_nodes` and the two nodes of a graph that
-- stand for creation and deletion.
use etcd_fsm.Common.{
  ℕ, zero, suc, ◌+◌, ◌*◌, ◌-◌, ◌/◌, ◌≤◌, ◌<◌, ◌≡◌, refl, sym, ap, ◌∙◌, true, false, List, [], ◌∷◌,
  ◌++◌, map, ltb, arith, any, Bool-cases, inl, inr, codes, append_assoc,
}
use Prim.Native.Nat.{◌%◌}
use etcd_fsm.Naming.{Text, eq_text}
use etcd_fsm.Processor.{has_repeated}
use etcd_fsm.Graph.{Labels, state_id, nodes_from, state_nodes}
use etcd_fsm.Graph.Texts.{digits, decimal}
use etcd_fsm.Facts.{FsmSchema}

-- The number that decimal digits stand for, after those read so far.
unfoldable pub number_from : ℕ → Text → ℕ
number_from read [] = read
number_from read (c ∷ rest) = number_from (read * 10 + (c - 48)) rest

number_from-last :
    (read : ℕ) (text : Text) (c : ℕ)
    → number_from read (text ++ c ∷ []) ≡ number_from read text * 10 + (c - 48)
unfolding number_from
number_from-last read [] c = refl
number_from-last read (x ∷ text) c = number_from-last (read * 10 + (x - 48)) text c

number_from-digits : (fuel n : ℕ) → n < fuel → number_from 0 (digits fuel n) ≡ n
unfolding digits number_from
number_from-digits zero n h = omega arith
number_from-digits (suc fuel) n h = elim (Bool-cases (ltb n 10)) [
  | inl one_digit ↦ rw (one_digit, digits) (omega arith)
  | inr more ↦
      let at_least : 10 ≤ n = ground arith in
      let higher = number_from-digits fuel (n / 10) (omega arith) in
      rw (more, digits) (number_from-last 0 (digits fuel (n / 10)) (48 + n % 10) ∙ omega arith)
]

-- The digits that are printed for a number read as that number.
pub number_from-decimal : (n : ℕ) → number_from 0 (decimal n) ≡ n
number_from-decimal n = number_from-digits (suc n) n (omega arith)

eq_text-eq : (a b : Text) → eq_text a b ≡ true → a ≡ b
unfolding eq_text
eq_text-eq [] [] h = refl
eq_text-eq [] (y ∷ b) h = cc
eq_text-eq (x ∷ a) [] h = cc
eq_text-eq (x ∷ a) (y ∷ b) h =
    let later = eq_text-eq a b (ground arith) in let here : x ≡ y = ground arith in cc

eq_text-append : (a b c : Text) → eq_text (a ++ b) (a ++ c) ≡ eq_text b c
unfolding eq_text
eq_text-append [] b c = refl
eq_text-append (x ∷ a) b c = ground (arith, eq_text-append a b c)

lt_irrefl_at : (i j : ℕ) → i < j → i ≡ j → ⊥
lt_irrefl_at i j h e = omega arith

eq_text-state_id :
    (prefix : Text) (i j : ℕ) → i < j → eq_text (state_id prefix i) (state_id prefix j) ≡ false
eq_text-state_id prefix i j h =
    elim (Bool-cases (eq_text (state_id prefix i) (state_id prefix j))) [
      | inr apart ↦ apart
      | inl same ↦
          let texts =
            eq_text-eq (decimal i) (decimal j)
              (sym (eq_text-append (prefix ++ codes "_state_") (decimal i) (decimal j)) ∙ same) in
          let numbers : i ≡ j =
            sym (number_from-decimal i) ∙ ap (number_from 0) texts ∙ number_from-decimal j in
          elim (lt_irrefl_at i j h numbers) [ ]
    ]

-- The nodes from an index on have other names than one with a lower index.
lower_apart :
    (labels : Labels) (prefix : Text) (i j : ℕ) (entries : List (ℕ × ℕ))
    → i < j
    → any
        (eq_text (state_id prefix i))
        (map (λ node. node.node_id) (nodes_from labels prefix j entries))
      ≡ false
unfolding nodes_from any
lower_apart labels prefix i j [] h = refl
lower_apart labels prefix i j (entry ∷ rest) h =
    ground
      (arith, eq_text-state_id prefix i j h, lower_apart labels prefix i (j + 1) rest (omega arith))

distinct_from :
    (labels : Labels) (prefix : Text) (index : ℕ) (entries : List (ℕ × ℕ))
    → has_repeated (map (λ node. node.node_id) (nodes_from labels prefix index entries)) ≡ false
unfolding nodes_from has_repeated
distinct_from labels prefix index [] = refl
distinct_from labels prefix index (entry ∷ rest) = ground (
  arith,
  lower_apart labels prefix index (index + 1) rest (omega arith),
  distinct_from labels prefix (index + 1) rest,
)

apart_from :
    (labels : Labels) (prefix name : Text) (index : ℕ) (entries : List (ℕ × ℕ))
    → ((i : ℕ) → eq_text name (state_id prefix i) ≡ false)
    → any (eq_text name) (map (λ node. node.node_id) (nodes_from labels prefix index entries))
      ≡ false
unfolding nodes_from any
apart_from labels prefix name index [] h = refl
apart_from labels prefix name index (entry ∷ rest) h =
    ground (arith, h index, apart_from labels prefix name (index + 1) rest h)

-- A name that goes on with other characters than `_state_`.
apart_from_state :
    (prefix name : Text) (i : ℕ)
    → eq_text name (codes "_state_" ++ decimal i) ≡ false
    → eq_text (prefix ++ name) (state_id prefix i) ≡ false
apart_from_state prefix name i h =
    ap (eq_text (prefix ++ name)) (append_assoc prefix (codes "_state_") (decimal i))
    ∙ eq_text-append prefix name (codes "_state_" ++ decimal i)
    ∙ h

-- The nodes of a graph, those for creation and deletion with them, all have different names.
pub node_ids_distinct :
    (labels : Labels) (s : FsmSchema) (prefix : Text)
    → has_repeated (
        (prefix ++ codes "_initial")
        ∷ (prefix ++ codes "_deleted")
        ∷ map (λ node. node.node_id) (state_nodes labels s prefix))
      ≡ false
unfolding has_repeated any eq_text
node_ids_distinct labels s prefix = ground (
  arith,
  eq_text-append prefix (codes "_initial") (codes "_deleted"),
  apart_from labels prefix (prefix ++ codes "_initial") 0 s.states
      (λ i. apart_from_state prefix (codes "_initial") i refl),
  apart_from labels prefix (prefix ++ codes "_deleted") 0 s.states
      (λ i. apart_from_state prefix (codes "_deleted") i refl),
  distinct_from labels prefix 0 s.states,
)
