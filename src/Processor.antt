-- ===== src/Processor.antt =====
-- etcd_fsm/processor.py: the compiled functions of a processor, the checks that keep them apart and
-- the graph that finalized processors compose to. A class, a schema and a function are compared by
-- identity, which a number stands for here; a frozenset is a list whose order and repetitions do not
-- matter, and a dict a list of its entries.
pub mod Owners
pub mod Edges
pub mod Returns
pub mod Functions
pub mod Finalize
pub mod Sources
pub mod Typed
pub mod Finalized
pub mod Ends
pub mod Composed
use etcd_fsm.Common.{
  ℕ, Bool, true, false, not, ◌||◌, Option, none, some, List, [], ◌∷◌, ◌++◌, map, ◌==◌,
  if◌then◌else◌, any, is_empty,
}
use etcd_fsm.Naming.{Text, eq_text}
use etcd_fsm.Checked.{
  Checked, accepted, refused, and_then, DefinitionError, no_processors, different_schemas,
  repeated_processor_name, two_transitioning_reactions, command_implemented_twice,
}
use etcd_fsm.Facts.{CommandDefinition, FsmSchema}

pub data MatchMode : Type 0 where
  exact subclasses : MatchMode

pub data ProducerKind : Type 0 where
  reaction command initializer : ProducerKind

pub record ReactionDefinition : Type 0 where
  pub name : Text
  pub function : ℕ
  pub match : MatchMode
  pub sources : List ℕ
  pub targets : List ℕ
  pub can_delete : Bool
  pub can_retry : Bool
  pub can_leave_unchanged : Bool

-- `bool(self.targets) or self.can_delete`
abbrev pub transitioning : ReactionDefinition → Bool
transitioning r = not (is_empty r.targets) || r.can_delete

pub record CommandHandlerDefinition : Type 0 where
  pub name : Text
  pub function : ℕ
  pub match : MatchMode
  pub command : CommandDefinition
  pub sources : List ℕ
  pub targets : List ℕ
  pub can_delete : Bool
  pub can_retry : Bool

pub record InitializerDefinition : Type 0 where
  pub name : Text
  pub function : ℕ
  pub command : CommandDefinition
  pub targets : List ℕ
  pub can_retry : Bool

pub record GraphEdge : Type 0 where
  pub producer_kind : ProducerKind
  pub processor : Text
  pub function : Text
  pub source : Option ℕ
  pub target : Option ℕ
  pub deletes : Bool

-- A finalized processor.
pub record FsmProcessor : Type 0 where
  pub schema : FsmSchema
  pub name : Text
  pub reactions : List ReactionDefinition
  pub commands : List (ℕ × CommandHandlerDefinition)
  pub initializers : List (ℕ × InitializerDefinition)

pub record ComposedGraph : Type 0 where
  pub schema : FsmSchema
  pub processors : List FsmProcessor
  pub edges : List GraphEdge

-- `owners.get(key)`
unfoldable pub owner_of : List (ℕ × Text) → ℕ → Option Text
owner_of [] key = none
owner_of (entry ∷ rest) key =
    let later = owner_of rest key in if entry.0 == key then some entry.1 else later

-- `for source in reaction.sources:` of `_validate_transitioning_reactions`, and the loop over the
-- commands of `compose_processors`: each key takes its one owner, which `error` reports when it has one.
unfoldable pub claim_all :
    (Text → ℕ → DefinitionError) → Text → List ℕ → List (ℕ × Text) → Checked (List (ℕ × Text))
claim_all error name [] owners = accepted owners
claim_all error name (key ∷ rest) owners = elim (owner_of owners key) [
  | some owner ↦ refused (error owner key)
  | none ↦ claim_all error name rest ((key, name) ∷ owners)
]

-- `_validate_transitioning_reactions`, from the owners found so far.
unfoldable pub validate_transitioning_reactions :
    List ReactionDefinition → List (ℕ × Text) → Checked (List (ℕ × Text))
validate_transitioning_reactions [] owners = accepted owners
validate_transitioning_reactions (r ∷ rest) owners = elim (transitioning r) [
  | false ↦ validate_transitioning_reactions rest owners
  | true ↦
      and_then
        (claim_all (λ owner. two_transitioning_reactions owner r.name) r.name r.sources owners)
        (λ found. validate_transitioning_reactions rest found)
]

-- The commands that a processor implements: `(*processor.commands, *processor.initializers)`.
abbrev pub implemented : FsmProcessor → List ℕ
implemented p = map (λ entry. entry.0) p.commands ++ map (λ entry. entry.0) p.initializers

-- The loop of `compose_processors` over `command_owners`.
unfoldable pub claim_commands : List FsmProcessor → List (ℕ × Text) → Checked (List (ℕ × Text))
claim_commands [] owners = accepted owners
claim_commands (p ∷ rest) owners =
    and_then
      (claim_all (λ owner key. command_implemented_twice key owner p.name) p.name (implemented p)
        owners)
      (λ found. claim_commands rest found)

-- The edges of one source: one for each target, and one when the function can delete.
unfoldable pub source_edges : ProducerKind → Text → Text → List ℕ → Bool → ℕ → List GraphEdge
source_edges kind processor function targets can_delete source =
    map
      (λ target. record {
        producer_kind = kind;
        processor = processor;
        function = function;
        source = some source;
        target = some target;
        deletes = false;
      })
      targets
    ++ (if can_delete
        then record {
          producer_kind = kind;
          processor = processor;
          function = function;
          source = some source;
          target = none;
          deletes = true;
        }
          ∷ []
        else [])

-- `[y for x in xs for y in f(x)]`
unfoldable pub concat_map {ℓ κ} : {A : Type ℓ} {B : Type κ} → (A → List B) → List A → List B
concat_map f [] = []
concat_map f (x ∷ xs) = f x ++ concat_map f xs

abbrev pub reaction_edges : Text → ReactionDefinition → List GraphEdge
reaction_edges processor r =
    concat_map (source_edges reaction processor r.name r.targets r.can_delete) r.sources

abbrev pub command_edges : Text → ℕ × CommandHandlerDefinition → List GraphEdge
command_edges processor entry =
    let d = entry.1 in
    concat_map (source_edges command processor d.name d.targets d.can_delete) d.sources

abbrev pub initializer_edges : Text → ℕ × InitializerDefinition → List GraphEdge
initializer_edges processor entry =
    map
      (λ target. record {
        producer_kind = initializer;
        processor = processor;
        function = entry.1.name;
        source = none;
        target = some target;
        deletes = false;
      })
      entry.1.targets

-- `_processor_edges`
unfoldable pub processor_edges : FsmProcessor → List GraphEdge
processor_edges p =
    concat_map (reaction_edges p.name) p.reactions
    ++ concat_map (command_edges p.name) p.commands
    ++ concat_map (initializer_edges p.name) p.initializers

-- `len(names) != len(set(names))`
unfoldable pub has_repeated : List Text → Bool
has_repeated [] = false
has_repeated (name ∷ rest) = any (eq_text name) rest || has_repeated rest

-- The graph that processors compose to once the checks have passed.
abbrev pub composed : FsmProcessor → List FsmProcessor → ComposedGraph
composed p rest = record {
  schema = p.schema;
  processors = p ∷ rest;
  edges = concat_map processor_edges (p ∷ rest);
}

-- Some processor is of another schema than the first one: `processor.schema is not schema`.
abbrev pub has_other_schema : FsmProcessor → List FsmProcessor → Bool
has_other_schema p rest = any (λ q. not (q.schema.identity == p.schema.identity)) rest

-- `compose_processors`
unfoldable pub compose_processors : List FsmProcessor → Checked ComposedGraph
compose_processors [] = refused no_processors
compose_processors (p ∷ rest) =
    if has_other_schema p rest
    then refused different_schemas
    else if has_repeated (map (λ q. q.name) (p ∷ rest))
    then refused repeated_processor_name
    else and_then (validate_transitioning_reactions (concat_map (λ q. q.reactions) (p ∷ rest)) [])
        (λ _. and_then (claim_commands (p ∷ rest) []) (λ _. accepted (composed p rest)))
