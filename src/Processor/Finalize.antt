-- ===== src/Processor/Finalize.antt =====
-- etcd_fsm/processor.py: the registration of functions with a processor, and `finalize`.
use etcd_fsm.Common.{
  not, ◌||◌, Option, none, some, List, [], ◌∷◌, ◌++◌, any, is_empty, is_some, member,
}
use etcd_fsm.Naming.{Text, contains, eq_text}
use etcd_fsm.Checked.{
  Checked, accepted, refused, not_finalized, and_then, raise_if, ◌>>=◌, ◌>>◌,
  invalid_processor_name, invalid_function_name, repeated_function_name, already_finalized,
  command_with_two_functions,
}
use etcd_fsm.Facts.{FsmSchema}
use etcd_fsm.Schema.{is_space}
use etcd_fsm.Processor.{
  MatchMode, exact, ProducerKind, reaction, command, initializer, FsmProcessor, implemented,
  validate_transitioning_reactions, ComposedGraph, compose_processors,
}
use etcd_fsm.Processor.Functions.{
  Function, Classes, compile_reaction, compile_command, compile_initializer,
}

pub record PendingFunction : Type 0 where
  pub kind : ProducerKind
  pub function : Function
  pub name : Option Text
  pub match : MatchMode

-- A processor while functions are registered; `finalized` has the definitions once `finalize` returned.
pub record OpenProcessor : Type 0 where
  pub schema : FsmSchema
  pub name : Text
  pub pending : List PendingFunction
  pub finalized : Option FsmProcessor

-- `FSMProcessor.__init__`
unfoldable pub make_processor : FsmSchema → Text → Checked OpenProcessor
make_processor s name = do
  raise_if (not (any (λ c. not (is_space c)) name)) invalid_processor_name
  raise_if (contains b'/' name) invalid_processor_name
  accepted (record { schema = s; name = name; pending = []; finalized = none })

-- `register` of `_decorator`, which a decorator with arguments calls later than `_decorator` itself.
unfoldable pub register_function : OpenProcessor → PendingFunction → OpenProcessor
register_function p candidate = record p { pending = p.pending ++ candidate ∷ [] }

-- `_decorator` with a function
unfoldable pub decorator : OpenProcessor → PendingFunction → Checked OpenProcessor
unfolding register_function
decorator p candidate = do
  raise_if (is_some p.finalized) already_finalized
  accepted (register_function p candidate)

-- `reaction`, `command` and `initializer`, with a function
unfoldable pub reaction_function :
    OpenProcessor → Function → MatchMode → Option Text → Checked OpenProcessor
unfolding decorator
reaction_function p function match name =
    decorator p (record { kind = reaction; function = function; name = name; match = match })

unfoldable pub command_function :
    OpenProcessor → Function → MatchMode → Option Text → Checked OpenProcessor
unfolding decorator
command_function p function match name =
    decorator p (record { kind = command; function = function; name = name; match = match })

unfoldable pub initializer_function : OpenProcessor → Function → Option Text → Checked OpenProcessor
unfolding decorator
initializer_function p function name =
    decorator p (record { kind = initializer; function = function; name = name; match = exact })

-- `pending.name or _default_function_name(pending.function)`
abbrev pub given_name : Function → Option Text → Text
given_name function none = function.qualified_name
given_name function (some []) = function.qualified_name
given_name function (some (c ∷ name)) = c ∷ name

-- The name of a function, which must be new.
unfoldable pub function_name : List Text → PendingFunction → Checked Text
function_name names pending =
    let name = given_name pending.function pending.name in
    do
      raise_if (is_empty name || contains b'/' name) invalid_function_name
      raise_if (any (eq_text name) names) repeated_function_name
      accepted name

-- A turn of the loop of `finalize`, once the name is known.
unfoldable pub compile_pending :
    Classes → ProducerKind → Function → MatchMode → Text → FsmProcessor → Checked FsmProcessor
compile_pending classes reaction function match name p = do
  definition ← compile_reaction classes p.schema function match name
  accepted (record p { reactions = p.reactions ++ definition ∷ [] })
compile_pending classes command function match name p = do
  definition ← compile_command classes p.schema function match name
  raise_if (member definition.command.model (implemented p)) command_with_two_functions
  accepted (record p { commands = p.commands ++ (definition.command.model, definition) ∷ [] })
compile_pending classes initializer function match name p = do
  definition ← compile_initializer classes p.schema function name
  raise_if (member definition.command.model (implemented p)) command_with_two_functions
  accepted
      (record p { initializers = p.initializers ++ (definition.command.model, definition) ∷ [] })

-- The loop of `finalize`.
unfoldable pub compile_all :
    Classes → List PendingFunction → List Text → FsmProcessor → Checked FsmProcessor
unfolding function_name compile_pending
compile_all classes [] names p = accepted p
compile_all classes (pending ∷ rest) names p = and_then (function_name names pending) (λ name.
    and_then (compile_pending classes pending.kind pending.function pending.match name p)
      (λ next. compile_all classes rest (name ∷ names) next))

-- No definitions yet.
abbrev pub no_definitions : OpenProcessor → FsmProcessor
no_definitions p = record {
  schema = p.schema;
  name = p.name;
  reactions = [];
  commands = [];
  initializers = [];
}

-- `finalize`
unfoldable pub finalize : Classes → OpenProcessor → Checked OpenProcessor
finalize classes p = elim p.finalized [
  | some _ ↦ accepted p
  | none ↦ do
    definitions ← compile_all classes p.pending [] (no_definitions p)
    _ ← validate_transitioning_reactions definitions.reactions []
    accepted (record p { finalized = some definitions })
]

-- `_require_finalized`, and what the properties `reactions`, `commands` and `initializers` then give.
unfoldable pub require_finalized : OpenProcessor → Checked FsmProcessor
require_finalized p = elim p.finalized [
  | none ↦ refused not_finalized
  | some definitions ↦ accepted definitions
]

-- `for processor in processors: processor.finalize()`, with the definitions that are read afterwards.
unfoldable pub finalize_all : Classes → List OpenProcessor → Checked (List FsmProcessor)
finalize_all classes [] = accepted []
finalize_all classes (p ∷ rest) = do
  finalized ← finalize classes p
  definitions ← require_finalized finalized
  later ← finalize_all classes rest
  accepted (definitions ∷ later)

-- `compose_processors`, from processors that need not be finalized.
unfoldable pub compose_open : Classes → List OpenProcessor → Checked ComposedGraph
compose_open classes processors = do
  finalized ← finalize_all classes processors
  compose_processors finalized
