-- ===== src/Processor/Edges.antt =====
-- The edges that the reactions of a processor make, and the reaction that owns a state.
use etcd_fsm.Common.{
  ℕ, ◌≡◌, refl, ap, ◌∙◌, Bool, true, false, not, ◌||◌, ◌&&◌, Option, none, some, List, [], ◌∷◌,
  ◌++◌, ◌==◌, if◌then◌else◌, arith, All, is_empty,
}
use etcd_fsm.Naming.{Text}
use etcd_fsm.Processor.{
  reaction, ReactionDefinition, transitioning, FsmProcessor, GraphEdge, source_edges, concat_map,
}
use etcd_fsm.Common.{member, has_duplicate}
use etcd_fsm.Processor.Owners.{claimed}

-- The processor and the function that react to a state, the first that does.
unfoldable pub find_reaction :
    Text → List ReactionDefinition → ℕ → Option (Text × Text) → Option (Text × Text)
find_reaction processor [] state other = other
find_reaction processor (r ∷ rest) state other =
    let later = find_reaction processor rest state other in
    if transitioning r && member state r.sources then some (processor, r.name) else later

unfoldable pub find_owner : List FsmProcessor → ℕ → Option (Text × Text)
find_owner [] state = none
find_owner (p ∷ rest) state = find_reaction p.name p.reactions state (find_owner rest state)

-- What is said of an edge: if a reaction makes it, it is from a state, and it names the function found.
unfoldable pub IsOwned : (ℕ → Option (Text × Text)) → GraphEdge → Type 0
IsOwned owner e =
    e.producer_kind ≡ reaction
    → (state : ℕ) × (e.source ≡ some state) × (owner state ≡ some (e.processor, e.function))

-- `IsOwned`, the state being one of those listed.
unfoldable pub OwnedIn : (ℕ → Option (Text × Text)) → List ℕ → GraphEdge → Type 0
OwnedIn owner states e =
    e.producer_kind ≡ reaction
    → (state : ℕ) × (e.source ≡ some state)
      × (member state states ≡ true)
      × (owner state ≡ some (e.processor, e.function))

pub All-append :
    {A : Type 0} (P : A → Type 0) (xs ys : List A) → All P xs → All P ys → All P (xs ++ ys)
All-append P [] ys h k = k
All-append P (x ∷ xs) ys h k = (h.0, All-append P xs ys h.1 k)

pub All-weaken :
    (P Q : GraphEdge → Type 0)
    → ((e : GraphEdge) → P e → Q e)
    → (xs : List GraphEdge) → All P xs
    → All Q xs
All-weaken P Q f [] h = tt
All-weaken P Q f (x ∷ xs) h = (f x h.0, All-weaken P Q f xs h.1)

pub All-concat_map :
    {A : Type 0} (P : GraphEdge → Type 0) (f : A → List GraphEdge)
    → ((a : A) → All P (f a))
    → (as' : List A) → All P (concat_map f as')
unfolding concat_map
All-concat_map P f h [] = tt
All-concat_map P f h (a ∷ rest) =
    All-append P (f a) (concat_map f rest) (h a) (All-concat_map P f h rest)

pub member-append : (s : ℕ) (xs ys : List ℕ) → member s (xs ++ ys) ≡ (member s xs || member s ys)
unfolding member
member-append s [] ys = refl
member-append s (x ∷ xs) ys = ground (arith, member-append s xs ys)

pub has_duplicate-right :
    (xs ys : List ℕ) → has_duplicate (xs ++ ys) ≡ false → has_duplicate ys ≡ false
unfolding has_duplicate
has_duplicate-right [] ys h = h
has_duplicate-right (x ∷ xs) ys h = has_duplicate-right xs ys (ground arith)

pub has_duplicate-left :
    (xs ys : List ℕ) → has_duplicate (xs ++ ys) ≡ false → has_duplicate xs ≡ false
unfolding has_duplicate
has_duplicate-left [] ys h = refl
has_duplicate-left (x ∷ xs) ys h = ground (arith, has_duplicate-left xs ys, member-append x xs ys)

pub member-equal : (x s : ℕ) (ys : List ℕ) → (x == s) ≡ true → member x ys ≡ member s ys
member-equal x s ys h = let e : x ≡ s = ground arith in ap (λ k. member k ys) e

pub disjoint :
    (s : ℕ) (xs ys : List ℕ)
    → has_duplicate (xs ++ ys) ≡ false
    → member s ys ≡ true
    → member s xs ≡ false
unfolding has_duplicate member
disjoint s [] ys h k = refl
disjoint s (x ∷ xs) ys h k =
    ground (arith, disjoint s xs ys, member-append x xs ys, member-equal x s ys)

pub claimed-turns :
    (r : ReactionDefinition) (rest : List ReactionDefinition)
    → transitioning r ≡ true
    → claimed (r ∷ rest) ≡ r.sources ++ claimed rest
unfolding claimed
claimed-turns r rest h = rw (h)

pub claimed-idle :
    (r : ReactionDefinition) (rest : List ReactionDefinition)
    → transitioning r ≡ false
    → claimed (r ∷ rest) ≡ claimed rest
unfolding claimed
claimed-idle r rest h = rw (h)

pub OwnedIn-widen :
    (owner owner' : ℕ → Option (Text × Text)) (states states' : List ℕ)
    → ((s : ℕ) → member s states ≡ true → (member s states' ≡ true) × (owner' s ≡ owner s))
    → (es : List GraphEdge) → All (OwnedIn owner states) es
    → All (OwnedIn owner' states') es
unfolding OwnedIn
OwnedIn-widen owner owner' states states' f es h =
    All-weaken _ _ (λ e o k. let (s, a, m, b) = o k in let g = f s m in (s, a, g.0, g.1 ∙ b)) es h

-- The edges of one reaction, of which the function is the owner of the sources.
module _ (owner : ℕ → Option (Text × Text)) (processor : Text) (r : ReactionDefinition)
    (states : List ℕ) where
  pub source_edges-OwnedIn :
      (state : ℕ)
      → member state states ≡ true
      → owner state ≡ some (processor, r.name)
      → (targets : List ℕ) (can_delete : Bool)
      → All (OwnedIn owner states) (source_edges reaction processor r.name targets can_delete state)
  unfolding source_edges OwnedIn
  source_edges-OwnedIn state m o [] false = tt
  source_edges-OwnedIn state m o [] true = (λ _. (state, refl, m, o), tt)
  source_edges-OwnedIn state m o (t ∷ targets) can_delete =
      (λ _. (state, refl, m, o), source_edges-OwnedIn state m o targets can_delete)

  pub sources-OwnedIn :
      (sources : List ℕ)
      → ((s : ℕ) → member s sources ≡ true → member s states ≡ true)
      → ((s : ℕ) → member s sources ≡ true → owner s ≡ some (processor, r.name))
      → All
          (OwnedIn owner states)
          (concat_map (source_edges reaction processor r.name r.targets r.can_delete) sources)
  unfolding concat_map member
  sources-OwnedIn [] m o = tt
  sources-OwnedIn (s ∷ sources) m o =
      All-append _ _ _
        (source_edges-OwnedIn s (m s (ground arith)) (o s (ground arith)) r.targets r.can_delete)
        (sources-OwnedIn sources (λ s' h. m s' (ground arith)) (λ s' h. o s' (ground arith)))

-- A reaction that does not transition makes no edge.
pub idle_source :
    (processor function : Text) (state : ℕ) (targets : List ℕ) (can_delete : Bool)
    → (not (is_empty targets) || can_delete) ≡ false
    → source_edges reaction processor function targets can_delete state ≡ []
unfolding source_edges
idle_source processor function state [] false h = refl
idle_source processor function state [] true h = cc
idle_source processor function state (t ∷ targets) can_delete h = cc

pub idle_edges :
    (processor : Text) (r : ReactionDefinition)
    → transitioning r ≡ false
    → (sources : List ℕ)
    → concat_map (source_edges reaction processor r.name r.targets r.can_delete) sources ≡ []
unfolding concat_map
idle_edges processor r h [] = refl
idle_edges processor r h (s ∷ sources) =
    ap
      (λ es.
        es ++ concat_map (source_edges reaction processor r.name r.targets r.can_delete) sources)
      (idle_source processor r.name s r.targets r.can_delete h)
    ∙ idle_edges processor r h sources
