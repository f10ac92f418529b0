-- ===== src/Graph/Imports.antt =====
-- `import_definitions` of etcd_fsm/_graph.py: the definitions among the values that references name. An
-- object is told apart by its identity, which a number stands for.
use etcd_fsm.Common.{
  ℕ, zero, suc, true, false, Option, none, some, List, [], ◌∷◌, ◌++◌, ◌&&◌, member, is_empty,
  if◌then◌else◌,
}

-- What `collect` looks at in a value: a processor with its schema, a schema, a tuple, list, set or
-- frozenset with its members, or another object.
pub data Object : Type 0 where
  processor : ℕ → Object
  schema : Object
  collection : List ℕ → Object
  other : Object

-- The lists and the set that `collect` adds to; `seen_schemas` and `seen_processors` have the
-- identities that the two lists have.
pub record Collected : Type 0 where
  pub schemas : List ℕ
  pub processors : List ℕ
  pub seen_collections : List ℕ

-- `if identity not in seen: seen.add(identity); values.append(value)`
unfoldable pub add_new : ℕ → List ℕ → List ℕ
add_new value values = if member value values then values else values ++ value ∷ []

abbrev pub collect_schema : ℕ → Collected → Collected
collect_schema value state = record {
  schemas = add_new value state.schemas;
  processors = state.processors;
  seen_collections = state.seen_collections;
}

abbrev pub collect_processor : ℕ → ℕ → Collected → Collected
collect_processor value its_schema state = collect_schema its_schema (record {
  schemas = state.schemas;
  processors = add_new value state.processors;
  seen_collections = state.seen_collections;
})

-- `for member in collection: collect(member)`; `none` is a run out of fuel.
unfoldable pub collect_each :
    (ℕ → Collected → Option Collected) → List ℕ → Collected → Option Collected
collect_each visit [] state = some state
collect_each visit (value ∷ rest) state = elim (visit value state) [
  | none ↦ none
  | some next ↦ collect_each visit rest next
]

-- The state with which the members of a collection are visited.
abbrev pub enter : ℕ → Collected → Collected
enter value state = record {
  schemas = state.schemas;
  processors = state.processors;
  seen_collections = value ∷ state.seen_collections;
}

-- `collect`, with fuel for the depth of the recursion.
unfoldable pub collect : ℕ → (ℕ → Object) → ℕ → Collected → Option Collected
collect zero objects value state = none
collect (suc fuel) objects value state = elim (objects value) [
  | processor its_schema ↦ some (collect_processor value its_schema state)
  | schema ↦ some (collect_schema value state)
  | collection members ↦ elim (member value state.seen_collections) [
    | true ↦ some state
    | false ↦ collect_each (collect fuel objects) members (enter value state)
  ]
  | other ↦ some state
]

-- What an import comes to; `running` is a run out of fuel.
pub data Imported : Type 0 where
  running import_error : Imported
  imported : List ℕ → List ℕ → Imported

-- `if not schemas and not processors: raise`
abbrev pub to_imported : Option Collected → Imported
to_imported none = running
to_imported (some state) =
    if is_empty state.schemas && is_empty state.processors
    then import_error
    else imported state.schemas state.processors

module _ {ℓ} {Reference : Type ℓ} where
  -- The loop over the references. A reference that does not resolve raises; a module gives the values
  -- of its variables, an object itself.
  unfoldable pub import_each :
      ℕ → (ℕ → Object) → (Reference → Option (List ℕ)) → List Reference → Collected → Imported
  import_each fuel objects resolve [] state = to_imported (some state)
  import_each fuel objects resolve (reference ∷ rest) state = elim (resolve reference) [
    | none ↦ import_error
    | some values ↦ elim (collect_each (collect fuel objects) values state) [
      | none ↦ running
      | some next ↦ import_each fuel objects resolve rest next
    ]
  ]

  -- `import_definitions`
  unfoldable pub import_definitions :
      ℕ → (ℕ → Object) → (Reference → Option (List ℕ)) → List Reference → Imported
  import_definitions fuel objects resolve [] = import_error
  import_definitions fuel objects resolve (reference ∷ rest) =
      import_each fuel objects resolve (reference ∷ rest)
        (record { schemas = []; processors = []; seen_collections = [] })
