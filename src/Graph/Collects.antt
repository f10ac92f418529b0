-- ===== src/Graph/Collects.antt =====
-- `add_new` of Imports, and the collections that a visit of `collect` in etcd_fsm/_graph.py has left.
use etcd_fsm.Common.{
  ℕ, suc, ◌<◌, ◌≤◌, ◌≡◌, refl, ap, ◌∙◌, true, false, List, [], ◌∷◌, ◌++◌, ◌==◌, ◌||◌, ◌⊎◌, inl, inr,
  member, member-insert, has_duplicate, append-nil, arith, Bool-cases, if◌then◌else◌,
}
use etcd_fsm.Graph.Imports.{add_new}

has_duplicate_snoc :
    (xs : List ℕ) (y : ℕ) → has_duplicate (xs ++ y ∷ []) ≡ (member y xs || has_duplicate xs)
unfolding has_duplicate member
has_duplicate_snoc [] y = refl
has_duplicate_snoc (x ∷ xs) y =
    let later = has_duplicate_snoc xs y in
    let inside = member-insert xs y [] x ∙ ap (λ zs. (y == x) || member x zs) (append-nil xs) in
    ground arith

pub add_new_unique :
    (value : ℕ) (values : List ℕ)
    → has_duplicate values ≡ false
    → has_duplicate (add_new value values) ≡ false
unfolding add_new
add_new_unique value values h = elim (Bool-cases (member value values)) [
  | inl old ↦ rw old h
  | inr fresh ↦ rw fresh (has_duplicate_snoc values value ∙ (rw (fresh, h) refl))
]

pub add_new_keeps :
    (value : ℕ) (values : List ℕ) (u : ℕ)
    → member u values ≡ true
    → member u (add_new value values) ≡ true
unfolding add_new
add_new_keeps value values u h = elim (Bool-cases (member value values)) [
  | inl old ↦ rw old h
  | inr fresh ↦
      let inside =
        member-insert values value [] u
        ∙ ap (λ zs. (value == u) || member u zs) (append-nil values) in
      rw fresh (ground arith)
]

pub add_new_only :
    (value : ℕ) (values : List ℕ) (u : ℕ)
    → member u (add_new value values) ≡ true
    → (member u values ≡ true) ⊎ (value ≡ u)
unfolding add_new
add_new_only value values u h = elim (Bool-cases (member value values)) [
  | inl old ↦ inl (rw old at h)
  | inr fresh ↦
      let inside =
        member-insert values value [] u
        ∙ ap (λ zs. (value == u) || member u zs) (append-nil values) in
      let k : member u (values ++ value ∷ []) ≡ true = rw fresh at h in
      elim (Bool-cases (member u values)) [
        | inl there ↦ inl there
        | inr absent ↦ inr (ground arith)
      ]
]

pub add_new_adds : (value : ℕ) (values : List ℕ) → member value (add_new value values) ≡ true
unfolding add_new
add_new_adds value values = elim (Bool-cases (member value values)) [
  | inl old ↦ rw old old
  | inr fresh ↦ let inside = member-insert values value [] value in rw fresh (ground arith)
]

-- How many of the collections have not been seen.
unfoldable pub unseen : List ℕ → List ℕ → ℕ
unseen seen [] = 0
unseen seen (u ∷ us) = let rest = unseen seen us in if member u seen then rest else suc rest

pub unseen_grow :
    (before after us : List ℕ)
    → ((u : ℕ) → member u before ≡ true → member u after ≡ true)
    → unseen after us ≤ unseen before us
unfolding unseen
unseen_grow before after [] h = omega arith
unseen_grow before after (u ∷ us) h =
    let later = unseen_grow before after us h in
    elim (Bool-cases (member u before)) [
      | inl old ↦ rw (old, h u old) later
      | inr fresh ↦ ground arith
    ]

pub unseen-enter :
    (value : ℕ) (seen us : List ℕ)
    → member value seen ≡ false
    → member value us ≡ true
    → unseen (value ∷ seen) us < unseen seen us
unfolding unseen member
unseen-enter value seen [] h k = cc
unseen-enter value seen (u ∷ us) h k =
    let later = unseen-enter value seen us h in
    let others = unseen_grow seen (value ∷ seen) us (λ v m. ground arith) in
    elim (Bool-cases (u == value)) [
      | inl same ↦
          let e : u ≡ value = ground arith in
          let unmet = ap (λ v. member v seen) e ∙ h in ground arith
      | inr apart ↦ let below = later (ground arith) in ground arith
    ]
