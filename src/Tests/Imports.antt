-- ===== src/Tests/Imports.antt =====
-- The theorem on the import of definitions, at a list that holds itself, a processor and its schema.
use etcd_fsm.Common.{ℕ, zero, suc, ◌≡◌, refl, true, some, Option, List, [], ◌∷◌, member}
use etcd_fsm.Graph.Imports.{
  Object, processor, schema, collection, other, import_definitions, imported, import_each, collect,
  collect_each, add_new,
}
use etcd_fsm.Graph.Reached
use etcd_fsm.Graph.Reached.{IsOutcome}

-- Object 0 is the list, 1 the processor, 2 the schema.
abbrev objects : ℕ → Object
objects zero = collection (1 ∷ 0 ∷ [])
objects (suc zero) = processor 2
objects (suc (suc zero)) = schema
objects _ = other

-- Every reference names the list.
abbrev resolve : ℕ → Option (List ℕ)
resolve reference = some (0 ∷ [])

one_collection :
    (value : ℕ) (members : List ℕ)
    → objects value ≡ collection members
    → member value (0 ∷ []) ≡ true
unfolding member
one_collection zero members e = refl
one_collection (suc zero) members e = cc
one_collection (suc (suc zero)) members e = cc
one_collection _ members e = cc

cyclic_import : import_definitions 2 objects resolve (7 ∷ []) ≡ imported (2 ∷ []) (1 ∷ [])
unfolding import_definitions import_each collect collect_each add_new member
cyclic_import = refl

import_definitions-IsOutcome_example :
    IsOutcome resolve objects (7 ∷ []) (import_definitions 2 objects resolve (7 ∷ []))
import_definitions-IsOutcome_example =
    Reached.import_definitions-IsOutcome resolve objects (0 ∷ []) (7 ∷ []) one_collection
