-- ===== src/Graph/Reached.antt =====
-- What `import_definitions` of etcd_fsm/_graph.py returns.
use mathlib.Core.Option.{some-injective}
use etcd_fsm.Common.{
  ℕ, suc, ◌<◌, ◌≤◌, ◌≡◌, refl, sym, ◌∙◌, subst, Bool, true, false, Option, some, List, [], ◌∷◌, ◌⊎◌,
  inl, inr, member, has_duplicate, length, All, arith, Option-cases, any, not, is_some,
}
use etcd_fsm.Graph.Imports.{
  Object, processor, schema, collection, Collected, collect, Imported, import_error, imported,
  to_imported, import_each, import_definitions,
}
use etcd_fsm.Graph.Collects.{unseen, unseen_grow}
use etcd_fsm.Graph.Visits.{
  Grows, Grows-trans, IsCollected, is_collected, is_collected-Grows, Closes, Closes-trans, Visits,
  collect_each-Visits, collect-Visits,
}

-- From a value, through the collections that hold each other.
pub data Reaches (objects : ℕ → Object) : ℕ → ℕ → Type 0 where
  itself : {v : ℕ} → Reaches objects v v
  inside :
      {v w x : ℕ} {members : List ℕ}
      → objects v ≡ collection members
      → member w members ≡ true
      → Reaches objects w x
      → Reaches objects v x

abbrev nothing : Collected
nothing = record { schemas = []; processors = []; seen_collections = [] }

Reaches-collected :
    (objects : ℕ → Object) (state : Collected) (v w : ℕ)
    → Closes objects nothing state
    → is_collected objects state v (objects v) ≡ true
    → Reaches objects v w
    → is_collected objects state w (objects w) ≡ true
unfolding Closes member
Reaches-collected objects state v w h k itself = k
Reaches-collected objects state v x h k (inside {w = w} {members = members} e i r) =
    elim (h v members (rw e at k) e) [
      | inl before ↦ cc
      | inr closed ↦ Reaches-collected objects state w x h (closed w i) r
    ]

unseen_bound : (seen us : List ℕ) → unseen seen us ≤ length us
unfolding unseen
unseen_bound seen [] = omega arith
unseen_bound seen (u ∷ us) = let later = unseen_bound seen us in ground arith

All-map {ℓ κ μ} :
    {A : Type ℓ} {P : A → Type κ} {Q : A → Type μ} (xs : List A)
    → ((x : A) → P x → Q x)
    → All P xs
    → All Q xs
All-map [] f h = tt
All-map (x ∷ xs) f h = (f x h.0, All-map xs f h.1)

nothing-IsCollected : (objects : ℕ → Object) → IsCollected objects nothing
unfolding IsCollected has_duplicate member
nothing-IsCollected objects = (refl, refl, λ p m. cc)

module _ {ℓ} {Reference : Type ℓ} (resolve : Reference → Option (List ℕ))
    (objects : ℕ → Object) where
  -- What a reference names is collected.
  abbrev Covers : Collected → Reference → Type 0
  Covers state reference =
      (values : List ℕ)
      → resolve reference ≡ some values
      → (v : ℕ) → member v values ≡ true
      → is_collected objects state v (objects v) ≡ true

  abbrev pub has_unresolved : List Reference → Bool
  has_unresolved references = any (λ reference. not (is_some (resolve reference))) references

  -- An import from a state raises for a reference, or ends with what is collected after it.
  unfoldable Imports : List Reference → Collected → Imported → Type 0
  Imports references before result =
      ((result ≡ import_error) × (has_unresolved references ≡ true))
      ⊎ ((after : Collected) × (result ≡ to_imported (some after))
          × IsCollected objects after
          × Grows before after
          × Closes objects before after
          × All (Covers after) references)

  module _ (us : List ℕ)
      (all_there : (value : ℕ) (members : List ℕ)
        → objects value ≡ collection members
        → member value us ≡ true)
      (fuel : ℕ) where
    import_each-Imports :
        (references : List Reference) (state : Collected)
        → unseen state.seen_collections us < fuel
        → IsCollected objects state
        → Imports references state (import_each fuel objects resolve references state)
    unfolding import_each Imports Visits Grows Closes any
    import_each-Imports [] state below h =
        inr (state, refl, h, ((λ u m. m), (λ u m. m), λ u m. m), (λ c members m e. inl m), tt)
    import_each-Imports (reference ∷ rest) state below h = elim (Option-cases (resolve reference)) [
      | inl unresolved ↦ inl (rw (unresolved, import_each) refl, rw unresolved refl)
      | inr (values, resolved) ↦
          let (next, e, h1, g1, c1, d1) =
            collect_each-Visits objects us fuel (collect fuel objects)
              (collect-Visits objects us all_there fuel) values state below h in
          let fewer = unseen_grow state.seen_collections next.seen_collections us g1.2 in
          elim (import_each-Imports rest next (omega arith) h1) [
            | inl (raised, missing) ↦
                inl (rw (resolved, e, import_each) raised, rw resolved missing)
            | inr (last, e2, h2, g2, c2, d2) ↦ inr (
              last,
              rw (resolved, e, import_each) e2,
              h2,
              Grows-trans state next last g1 g2,
              Closes-trans objects state next last c1 c2 g2,
              (
                (λ named f v m. is_collected-Grows objects next last v (objects v) g2 (
                    d1 v (
                      subst (λ vs. member v vs ≡ true) (some-injective _ _ (sym f ∙ resolved)) m))),
                d2,
              ),
            )
          ]
    ]

  -- The definitions are there once each, each processor's schema with it, and a schema or a processor
  -- that is reached from a value of a reference.
  unfoldable pub IsImported : List Reference → List ℕ → List ℕ → Type 0
  IsImported references schemas processors =
      (has_duplicate schemas ≡ false)
      × (has_duplicate processors ≡ false)
      × ((p : ℕ)
          → member p processors ≡ true
          → (k : ℕ) × (objects p ≡ processor k) × (member k schemas ≡ true))
      × All
          (λ reference.
            (values : List ℕ) (v w : ℕ)
            → resolve reference ≡ some values
            → member v values ≡ true
            → Reaches objects v w
            → ((objects w ≡ schema → member w schemas ≡ true)
                × ((k : ℕ) → objects w ≡ processor k → member w processors ≡ true)))
          references

  -- What an import comes to: an error, where a reference does not resolve or nothing is reached, or
  -- definitions.
  unfoldable pub IsOutcome : List Reference → Imported → Type 0
  IsOutcome references result =
      ((result ≡ import_error) × ((has_unresolved references ≡ true) ⊎ IsImported references [] []))
      ⊎ ((schemas processors : List ℕ) × (result ≡ imported schemas processors)
          × IsImported references schemas processors)

  IsCollected-IsImported :
      (references : List Reference) (state : Collected)
      → IsCollected objects state
      → Closes objects nothing state
      → All (Covers state) references
      → IsImported references state.schemas state.processors
  unfolding IsImported IsCollected
  IsCollected-IsImported references state h c d = (
    h.0,
    h.1,
    h.2,
    All-map references
        (λ r covers values v w resolved m reached.
          let there = Reaches-collected objects state v w c (covers values resolved v m) reached in
          ((λ e. rw e at there), λ k e. rw e at there))
        d,
  )

  to_imported-IsImported :
      (references : List Reference) (schemas processors collections : List ℕ)
      → IsImported references schemas processors
      → (let result = to_imported (
            some (record {
              schemas = schemas;
              processors = processors;
              seen_collections = collections;
            })) in
          ((result ≡ import_error) × IsImported references [] [])
          ⊎ ((s p : List ℕ) × (result ≡ imported s p) × IsImported references s p))
  to_imported-IsImported references [] [] collections h = inl (refl, h)
  to_imported-IsImported references [] (p ∷ ps) collections h = inr ([], p ∷ ps, refl, h)
  to_imported-IsImported references (s ∷ ss) ps collections h = inr (s ∷ ss, ps, refl, h)

  -- With fuel for one more than the collections that there are, the import ends. Either it raises, and a
  -- reference does not resolve or no schema or processor is reached from the references' values through
  -- collections; or it returns definitions that are there once each, with the schema of each processor
  -- and with every schema and processor that is reached.
  pub import_definitions-IsOutcome :
      (us : List ℕ) (references : List Reference)
      → ((value : ℕ) (members : List ℕ)
          → objects value ≡ collection members
          → member value us ≡ true)
      → IsOutcome references (import_definitions (suc (length us)) objects resolve references)
  unfolding import_definitions Imports IsImported IsOutcome has_duplicate member
  import_definitions-IsOutcome us [] all_there = inl (refl, inr (refl, refl, (λ p m. cc), tt))
  import_definitions-IsOutcome us (reference ∷ rest) all_there =
      let bound = unseen_bound [] us in
      elim (import_each-Imports us all_there (suc (length us)) (reference ∷ rest) nothing
        (omega arith) (nothing-IsCollected objects)) [
          | inl (raised, missing) ↦ inl (raised, inl missing)
          | inr (state, returned, h, g, c, d) ↦
              elim (to_imported-IsImported (reference ∷ rest) state.schemas state.processors
                state.seen_collections (IsCollected-IsImported (reference ∷ rest) state h c d)) [
                  | inl (raised, none_reached) ↦ inl (returned ∙ raised, inr none_reached)
                  | inr (s, p, e, there) ↦ inr (s, p, returned ∙ e, there)
                ]
        ]
