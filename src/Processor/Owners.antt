-- ===== src/Processor/Owners.antt =====
-- Claims of states and of commands: a check passes exactly if no key is claimed twice.
use etcd_fsm.Common.{
  member, has_duplicate, ℕ, ◌≡◌, refl, sym, ap, ◌∙◌, Bool, true, false, not, ◌||◌, ◌&&◌, List, [],
  ◌∷◌, ◌++◌, map, if◌then◌else◌, arith, Bool-cases, Option-cases, is_some, inl, inr,
}
use etcd_fsm.Naming.{Text}
use etcd_fsm.Checked.{
  is_accepted, Checked, accepted, refused, DefinitionError, two_transitioning_reactions,
  command_implemented_twice, and_then, different_schemas, repeated_processor_name,
}
use etcd_fsm.Processor.{
  ReactionDefinition, transitioning, has_repeated, has_other_schema, composed, compose_processors,
  FsmProcessor, implemented, owner_of, claim_all, validate_transitioning_reactions, claim_commands,
  concat_map,
}

-- The states that the transitioning reactions claim.
unfoldable pub claimed : List ReactionDefinition → List ℕ
claimed [] = []
claimed (r ∷ rest) =
    let later = claimed rest in if transitioning r then r.sources ++ later else later

abbrev keys_of : List (ℕ × Text) → List ℕ
keys_of owners = map (λ entry. entry.0) owners

-- A key of the list that is in `seen` or occurs twice.
unfoldable clashes : List ℕ → List ℕ → Bool
clashes seen [] = false
clashes seen (key ∷ rest) = member key seen || clashes (key ∷ seen) rest

unfoldable collect : List ℕ → List ℕ → List ℕ
collect seen [] = seen
collect seen (key ∷ rest) = collect (key ∷ seen) rest

clashes-append :
    (seen xs ys : List ℕ)
    → clashes seen (xs ++ ys) ≡ (clashes seen xs || clashes (collect seen xs) ys)
unfolding clashes collect
clashes-append seen [] ys = refl
clashes-append seen (x ∷ xs) ys = ground (arith, clashes-append (x ∷ seen) xs ys)

-- Some key of the list is in `seen`.
unfoldable meets : List ℕ → List ℕ → Bool
meets seen [] = false
meets seen (key ∷ rest) = member key seen || meets seen rest

meets-cons : (key : ℕ) (seen xs : List ℕ) → meets (key ∷ seen) xs ≡ (member key xs || meets seen xs)
unfolding meets member
meets-cons key seen [] = refl
meets-cons key seen (x ∷ xs) = ground (arith, meets-cons key seen xs)

clashes-duplicate : (seen xs : List ℕ) → clashes seen xs ≡ (meets seen xs || has_duplicate xs)
unfolding clashes meets has_duplicate
clashes-duplicate seen [] = refl
clashes-duplicate seen (x ∷ xs) =
    ground (arith, clashes-duplicate (x ∷ seen) xs, meets-cons x seen xs)

meets-nil : (xs : List ℕ) → meets [] xs ≡ false
unfolding meets member
meets-nil [] = refl
meets-nil (x ∷ xs) = meets-nil xs

owner_of-member :
    (owners : List (ℕ × Text)) (key : ℕ)
    → is_some (owner_of owners key) ≡ member key (keys_of owners)
unfolding owner_of member
owner_of-member [] key = refl
owner_of-member (entry ∷ rest) key = ground (arith, owner_of-member rest key)

refused-and_then :
    {A : Type 0} (c : Checked (List (ℕ × Text))) (rest : List (ℕ × Text) → Checked A)
    → is_accepted c ≡ false
    → is_accepted (and_then c rest) ≡ false
refused-and_then (accepted found) rest h = cc
refused-and_then (refused e) rest h = refl

-- What claiming the keys comes to: the owners found, with a claim of each key, or a refusal.
module _ (error : Text → ℕ → DefinitionError) (name : Text) where
  module _ (key : ℕ) (rest : List ℕ) (owners : List (ℕ × Text)) where
    claim_all-free :
        member key (keys_of owners) ≡ false
        → claim_all error name (key ∷ rest) owners
          ≡ claim_all error name rest ((key, name) ∷ owners)
    unfolding claim_all
    claim_all-free h = elim (Option-cases (owner_of owners key)) [
      | inl free ↦ rw (free, claim_all)
      | inr taken ↦
          let some_owner : is_some (owner_of owners key) ≡ true = ap is_some taken.1 in
          let same = owner_of-member owners key in cc
    ]

    claim_all-taken :
        member key (keys_of owners) ≡ true
        → is_accepted (claim_all error name (key ∷ rest) owners) ≡ false
    unfolding claim_all
    claim_all-taken h = elim (Option-cases (owner_of owners key)) [
      | inl free ↦
          let no_owner : is_some (owner_of owners key) ≡ false = ap is_some free in
          let same = owner_of-member owners key in cc
      | inr taken ↦ rw (taken.1, claim_all, is_accepted)
    ]

  claim_all-accepted :
      (keys : List ℕ) (owners : List (ℕ × Text))
      → clashes (keys_of owners) keys ≡ false
      → (found : List (ℕ × Text)) × (claim_all error name keys owners ≡ accepted found)
        × (keys_of found ≡ collect (keys_of owners) keys)
  unfolding claim_all clashes collect
  claim_all-accepted [] owners h = (owners, refl, refl)
  claim_all-accepted (key ∷ rest) owners h =
      let (found, e, k) = claim_all-accepted rest ((key, name) ∷ owners) (ground arith) in
      (found, claim_all-free key rest owners (ground arith) ∙ e, k)

  claim_all-refused :
      (keys : List ℕ) (owners : List (ℕ × Text))
      → clashes (keys_of owners) keys ≡ true
      → is_accepted (claim_all error name keys owners) ≡ false
  unfolding clashes
  claim_all-refused [] owners h = cc
  claim_all-refused (key ∷ rest) owners h = elim (Bool-cases (member key (keys_of owners))) [
    | inl taken ↦ claim_all-taken key rest owners taken
    | inr free ↦
        ap is_accepted (claim_all-free key rest owners free)
        ∙ claim_all-refused rest ((key, name) ∷ owners) (ground arith)
  ]

  -- A check goes on behind the claims as long as it claims nothing twice.
  claim_all-and_then :
      {A : Type 0} (keys later : List ℕ) (owners : List (ℕ × Text))
      (rest : List (ℕ × Text) → Checked A)
      → ((found : List (ℕ × Text)) → is_accepted (rest found) ≡ not (clashes (keys_of found) later))
      → is_accepted (and_then (claim_all error name keys owners) rest)
        ≡ not (clashes (keys_of owners) (keys ++ later))
  claim_all-and_then keys later owners rest h =
      let parts = clashes-append (keys_of owners) keys later in
      elim (Bool-cases (clashes (keys_of owners) keys)) [
        | inl clash ↦
            let whole : clashes (keys_of owners) (keys ++ later) ≡ true = ground arith in
            refused-and_then (claim_all error name keys owners) rest
              (claim_all-refused keys owners clash)
            ∙ sym (ap not whole)
        | inr free ↦
            let (found, e, k) = claim_all-accepted keys owners free in
            let whole : clashes (keys_of owners) (keys ++ later)
                ≡ clashes (collect (keys_of owners) keys) later =
              ground arith in
            ap (λ c. is_accepted (and_then c rest)) e
            ∙ h found
            ∙ ap not (ap (λ seen. clashes seen later) k ∙ sym whole)
      ]

validate-clashes :
    (rs : List ReactionDefinition) (owners : List (ℕ × Text))
    → is_accepted (validate_transitioning_reactions rs owners)
      ≡ not (clashes (keys_of owners) (claimed rs))
unfolding validate_transitioning_reactions claimed clashes
validate-clashes [] owners = refl
validate-clashes (r ∷ rest) owners = elim (Bool-cases (transitioning r)) [
  | inl turns ↦
      rw (turns, validate_transitioning_reactions)
        (claim_all-and_then (λ owner. two_transitioning_reactions owner r.name) r.name r.sources
          (claimed rest) owners (validate_transitioning_reactions rest) (validate-clashes rest))
  | inr stays ↦ rw (stays, validate_transitioning_reactions) (validate-clashes rest owners)
]

claim_commands-clashes :
    (ps : List FsmProcessor) (owners : List (ℕ × Text))
    → is_accepted (claim_commands ps owners)
      ≡ not (clashes (keys_of owners) (concat_map implemented ps))
unfolding claim_commands concat_map clashes
claim_commands-clashes [] owners = refl
claim_commands-clashes (p ∷ rest) owners =
    claim_all-and_then (λ owner key. command_implemented_twice key owner p.name) p.name
      (implemented p) (concat_map implemented rest) owners (claim_commands rest)
      (claim_commands-clashes rest)

unclaimed : (xs : List ℕ) → not (clashes [] xs) ≡ not (has_duplicate xs)
unclaimed xs = ap not (clashes-duplicate [] xs ∙ rw (meets-nil xs))

-- The check of the transitioning reactions passes exactly if no state is a source of two of them, or
-- twice a source of one.
pub validate_transitioning_reactions_iff :
    (rs : List ReactionDefinition)
    → is_accepted (validate_transitioning_reactions rs []) ≡ not (has_duplicate (claimed rs))
validate_transitioning_reactions_iff rs = validate-clashes rs [] ∙ unclaimed (claimed rs)

-- The processors that compose: some, of one schema, under different names, of which no two
-- transitioning reactions claim one state and no two functions implement one command.
unfoldable pub is_composable : List FsmProcessor → Bool
is_composable [] = false
is_composable (p ∷ rest) =
    not (has_other_schema p rest)
    && not (has_repeated (map (λ q. q.name) (p ∷ rest)))
    && not (has_duplicate (claimed (concat_map (λ q. q.reactions) (p ∷ rest))))
    && not (has_duplicate (concat_map implemented (p ∷ rest)))

guarded :
    {A B : Type 0} (a b : Bool) (d e : DefinitionError) (x y : Checked A) (c : B) {p q : Bool}
    → is_accepted x ≡ p
    → is_accepted y ≡ q
    → is_accepted (
        if a
        then refused d
        else if b
        then refused e
        else and_then x (λ _. and_then y (λ _. accepted c)))
      ≡ (not a && not b && p && q)
guarded true b d e x y c h k = refl
guarded false true d e x y c h k = refl
guarded false false d e (refused _) y c h k = ground arith
guarded false false d e (accepted _) (refused _) c h k = ground arith
guarded false false d e (accepted _) (accepted _) c h k = ground arith

-- `compose_processors` returns a graph exactly for processors that `is_composable`: one or more, all
-- of the first one's schema, with names that differ, with no state claimed twice by transitioning
-- reactions and no command implemented twice, across all of them.
pub compose_processors_iff :
    (ps : List FsmProcessor) → is_accepted (compose_processors ps) ≡ is_composable ps
unfolding compose_processors is_composable
compose_processors_iff [] = refl
compose_processors_iff (p ∷ rest) =
    let states = validate_transitioning_reactions_iff (concat_map (λ q. q.reactions) (p ∷ rest)) in
    let commands =
      claim_commands-clashes (p ∷ rest) [] ∙ unclaimed (concat_map implemented (p ∷ rest)) in
    guarded (has_other_schema p rest) (has_repeated (map (λ q. q.name) (p ∷ rest)))
      different_schemas repeated_processor_name
      (validate_transitioning_reactions (concat_map (λ q. q.reactions) (p ∷ rest)) [])
      (claim_commands (p ∷ rest) []) (composed p rest) states commands
