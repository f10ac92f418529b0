-- ===== src/Lib.antt =====
-- etcd_fsm keeps finite state machines in etcd. A schema says which pydantic models are the states and the
-- commands of a machine, processors hold the functions that react to states and carry out commands, and
-- composed graphs join the processors of a schema, which the package draws. Below them is one boundary
-- to etcd, with an in-memory backend and an adapter to a client of a real etcd. This library models the
-- definitions, from the schema to the drawing, and both backends.
--
-- The parts, and the code that each is about:
--   Common, Bytes: shared names, Boolean tests, signed integers, literal texts, byte strings and their order.
--   Backend: etcd_fsm/_backend.py, the values of the internal boundary and its errors; Backend/Prefix has
--     prefix_range_end and prefix_range.
--   Fake: etcd_fsm/_fake_backend.py, the state of FakeEtcdBackend with the lookup of values and the
--     publication to watchers. Below it: Keys (_key_in_range, _ranges_overlap), Reads (_range_unlocked and
--     the compares), Writes (_put_unlocked, _delete_unlocked), Transaction (transaction and its guards),
--     Leases (grant_lease, keep_alive, revoke_lease, advance_time), Compaction (compact) and Watching
--     (watch, close). Fake/History says when a history is well formed; Fake/Transaction/Spec says what a
--     transaction promises, on a map from keys to values.
--   Aetcd: etcd_fsm/_aetcd_backend.py, the messages, their translation and that of exceptions. Below it:
--     Calls (the methods) and Watching (_watch). Aetcd/Agrees compares a range with the in-memory backend's.
--   Naming: validate_fsm_key of etcd_fsm/base.py and _validate_namespace of etcd_fsm/schema.py.
--   Annotations: flatten_union of etcd_fsm/_typing.py, on trees of annotations.
--   Generics: pydantic_generic_argument of etcd_fsm/_typing.py, on trees of classes; Generics/Forever has a class
--     on which it runs forever.
--   Checked: the reasons for the errors that definitions raise, and the rules for checks in sequence.
--   Facts: what etcd_fsm/schema.py finds out about classes, and the compiled schema as a record.
--   Schema: etcd_fsm/schema.py, the compilation of models and the lookups; Schema/Values has
--     validate_state_value and validate_command_value.
--   Processor: etcd_fsm/processor.py, compiled functions, _validate_transitioning_reactions,
--     _processor_edges and compose_processors. Below it: Returns (_reaction_return, _command_return),
--     Functions (_resolved_signature, _expand_state_annotation, _command_parameters and the three
--     _compile methods) and Finalize (registration, finalize, and compose_processors from processors that
--     are still open).
--   Graph: etcd_fsm/_graph.py, the nodes of a graph. Below it: Texts (_mermaid_text, _dot_text), Order
--     (_sorted_edges), Imports (import_definitions) and Render (_compose_graphs, _render_mermaid, _render_dot,
--     render_graph).
--   Tests: states, schemas, processors and clients on which the theorems are applied.
--
-- How the backends correspond: a FakeEtcdBackend is a record with the fields of the class; a method takes
-- the record and gives its result, or the error it raises, with the next record. The methods hold one
-- lock from start to end, so each is one step. A dict is a list of entries in the order of insertion, a
-- queue of a watcher is a list found under the watcher's number. Bytes are lists of numbers, of which a
-- theorem says where it needs them below 256. Revisions and lease ids, which callers are given, are
-- natural numbers; limits, TTLs and operands of compares, of which the code checks the sign, are
-- integers. A time is a number of milliseconds, where the code has a float of seconds. The adapter's
-- client is a record of functions over a state of its own, one for each call, which answers or raises; a
-- method gives its result, or the translated exception, with the client's next state. A message has the
-- fields that the code sets or reads; setting an int64 field to a number out of range raises ValueError, as
-- protobuf documents. A watch of the adapter runs until its consumer has taken a given
-- number of batches, or the client raises or ends it; that number is the only bound that is chosen, and
-- the theorems are for every number.
--
-- How the definitions correspond: classes, functions, enum types, enum members and schemas are compared by
-- identity, and a number stands for each; a frozenset is a list, without repetitions where the code counts on
-- it. What the code finds out with inspect, typing and pydantic is a record of facts about a class or a
-- function (ModelFacts, Function), or an interface (Classes, Values, Labels). An annotation is a tree of
-- unions, aliases and Annotated over members; what the code finds out about a class by issubclass and
-- get_origin is the constructor of the member. FsmProcessor has what finalize compiles, OpenProcessor what is
-- registered before. A check that raises gives the reason in place of its message. Every other loop is a
-- structural recursion, on the list that it runs over or on the number of indices left; the digits of a
-- number are printed with as much fuel as the number and one, which is enough, and the loop of
-- _substitute_typevars has its turns as fuel, of which two are enough where it ends by the theorem, and
-- the recursion of collect has its depth, for which one more than the collections is enough.
--
-- Not modelled: the client and the servers behind the adapter; the import of modules and files in
-- etcd_fsm/_graph.py, so that what a reference resolves to is a parameter; the reading of a class's metadata, so that schemas
-- and processors have the result of pydantic_generic_argument as a fact; the decorators' overloads without a function;
-- the outcome classes of etcd_fsm/outcomes.py; the command line (etcd_fsm/cli.py); and the cancellation of a
-- watch of the in-memory backend while it waits on its queue.
pub mod Common
pub mod Bytes
pub mod Backend
pub mod Fake
pub mod Checked
pub mod Annotations
pub mod Generics
pub mod Naming
pub mod Facts
pub mod Schema
pub mod Processor
pub mod Graph
pub mod Aetcd
mod Tests
