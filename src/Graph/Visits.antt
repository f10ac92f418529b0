-- ===== src/Graph/Visits.antt =====
-- What a visit of `collect` in etcd_fsm/_graph.py does to the definitions collected so far.
use etcd_fsm.Common.{
  ℕ, zero, suc, ◌<◌, ◌≡◌, refl, sym, ap, ◌∙◌, subst, Bool, true, false, Option, some, List, [], ◌∷◌,
  ◌==◌, ◌⊎◌, inl, inr, member, has_duplicate, arith, Bool-cases,
}
use etcd_fsm.Graph.Imports.{
  Object, processor, schema, collection, other, Collected, collect_schema, collect_processor,
  collect_each, enter, collect,
}
use etcd_fsm.Graph.Collects.{
  add_new_unique, add_new_keeps, add_new_only, add_new_adds, unseen, unseen_grow, unseen-enter,
}

-- Nothing that was collected is dropped.
unfoldable pub Grows : Collected → Collected → Type 0
Grows before after =
    ((u : ℕ) → member u before.schemas ≡ true → member u after.schemas ≡ true)
    × ((u : ℕ) → member u before.processors ≡ true → member u after.processors ≡ true)
    × ((u : ℕ) → member u before.seen_collections ≡ true → member u after.seen_collections ≡ true)

pub Grows-trans : (a b c : Collected) → Grows a b → Grows b c → Grows a c
unfolding Grows
Grows-trans a b c h k = ((λ u m. k.0 u (h.0 u m)), (λ u m. k.1 u (h.1 u m)), λ u m. k.2 u (h.2 u m))

module _ (objects : ℕ → Object) where
  -- Each definition is there once, and each processor's schema with it.
  unfoldable pub IsCollected : Collected → Type 0
  IsCollected state =
      (has_duplicate state.schemas ≡ false)
      × (has_duplicate state.processors ≡ false)
      × ((p : ℕ)
          → member p state.processors ≡ true
          → (k : ℕ) × (objects p ≡ processor k) × (member k state.schemas ≡ true))

  -- What an object is collected as.
  abbrev pub is_collected : Collected → ℕ → Object → Bool
  is_collected state value (processor k) = member value state.processors
  is_collected state value schema = member value state.schemas
  is_collected state value (collection members) = member value state.seen_collections
  is_collected state value other = true

  -- A collection that was not seen before has all of its members collected.
  unfoldable pub Closes : Collected → Collected → Type 0
  Closes before after =
      (c : ℕ) (members : List ℕ)
      → member c after.seen_collections ≡ true
      → objects c ≡ collection members
      → (member c before.seen_collections ≡ true)
        ⊎ ((v : ℕ) → member v members ≡ true → is_collected after v (objects v) ≡ true)

  pub is_collected-Grows :
      (before after : Collected) (value : ℕ) (o : Object)
      → Grows before after
      → is_collected before value o ≡ true
      → is_collected after value o ≡ true
  unfolding Grows
  is_collected-Grows before after value (processor k) h m = h.1 value m
  is_collected-Grows before after value schema h m = h.0 value m
  is_collected-Grows before after value (collection members) h m = h.2 value m
  is_collected-Grows before after value other h m = refl

  pub Closes-trans : (a b c : Collected) → Closes a b → Closes b c → Grows b c → Closes a c
  unfolding Closes
  Closes-trans a b c h k g at members m e = elim (k at members m e) [
    | inr closed ↦ inr closed
    | inl earlier ↦ elim (h at members earlier e) [
      | inl first ↦ inl first
      | inr closed ↦ inr (λ v i. is_collected-Grows b c v (objects v) g (closed v i))
    ]
  ]

  -- A visit returns, with all of the values collected.
  unfoldable pub Visits : List ℕ → Collected → Option Collected → Type 0
  Visits values before result =
      (after : Collected) × (result ≡ some after)
      × IsCollected after
      × Grows before after
      × Closes before after
      × ((v : ℕ) → member v values ≡ true → is_collected after v (objects v) ≡ true)

  module _ (us : List ℕ) (n : ℕ) (visit : ℕ → Collected → Option Collected) where
    pub collect_each-Visits :
        ((value : ℕ) (state : Collected)
          → unseen state.seen_collections us < n
          → IsCollected state
          → Visits (value ∷ []) state (visit value state))
        → (values : List ℕ) (state : Collected) → unseen state.seen_collections us < n
        → IsCollected state
        → Visits values state (collect_each visit values state)
    unfolding Visits collect_each member Grows Closes
    collect_each-Visits f [] state below h =
        (state, refl, h, ((λ u m. m), (λ u m. m), λ u m. m), (λ c members m e. inl m), λ v m. cc)
    collect_each-Visits f (value ∷ rest) state below h =
        let (next, e, h1, g1, c1, d1) = f value state below h in
        let fewer = unseen_grow state.seen_collections next.seen_collections us g1.2 in
        let (last, e2, h2, g2, c2, d2) = collect_each-Visits f rest next (omega arith) h1 in
        (
          last,
          rw (e, collect_each) e2,
          h2,
          Grows-trans state next last g1 g2,
          Closes-trans state next last c1 c2 g2,
          λ v m. elim (Bool-cases (value == v)) [
            | inl same ↦ is_collected-Grows next last v (objects v) g2 (d1 v (ground arith))
            | inr apart ↦ d2 v (ground arith)
          ],
        )

  one_collected :
      (after : Collected) (value : ℕ) (o : Object)
      → objects value ≡ o
      → is_collected after value o ≡ true
      → (v : ℕ) → member v (value ∷ []) ≡ true
      → is_collected after v (objects v) ≡ true
  unfolding member
  one_collected after value o e h v m =
      let same : value ≡ v = ground arith in
      subst (λ w. is_collected after w (objects w) ≡ true) same (rw e h)

  collect_schema-Visits :
      (value : ℕ) (state : Collected)
      → objects value ≡ schema
      → IsCollected state
      → Visits (value ∷ []) state (some (collect_schema value state))
  unfolding Visits IsCollected Grows Closes
  collect_schema-Visits value state e h = (
    collect_schema value state,
    refl,
    (
      add_new_unique value state.schemas h.0,
      h.1,
      λ p m.
          let (k, is_processor, there) = h.2 p m in
          (k, is_processor, add_new_keeps value state.schemas k there),
    ),
    ((λ u m. add_new_keeps value state.schemas u m), (λ u m. m), λ u m. m),
    (λ c members m f. inl m),
    one_collected (collect_schema value state) value schema e (add_new_adds value state.schemas),
  )

  collect_processor-Visits :
      (value k : ℕ) (state : Collected)
      → objects value ≡ processor k
      → IsCollected state
      → Visits (value ∷ []) state (some (collect_processor value k state))
  unfolding Visits IsCollected Grows Closes
  collect_processor-Visits value k state e h = (
    collect_processor value k state,
    refl,
    (
      add_new_unique k state.schemas h.0,
      add_new_unique value state.processors h.1,
      λ p m. elim (add_new_only value state.processors p m) [
        | inl old ↦
            let (j, is_processor, there) = h.2 p old in
            (j, is_processor, add_new_keeps k state.schemas j there)
        | inr new ↦ (k, ap objects (sym new) ∙ e, add_new_adds k state.schemas)
      ],
    ),
    (
      (λ u m. add_new_keeps k state.schemas u m),
      (λ u m. add_new_keeps value state.processors u m),
      λ u m. m,
    ),
    (λ c members m f. inl m),
    one_collected (collect_processor value k state) value (processor k) e
        (add_new_adds value state.processors),
  )

  -- A visit that changes nothing.
  stay_Visits :
      (value : ℕ) (state : Collected) (o : Object)
      → objects value ≡ o
      → is_collected state value o ≡ true
      → IsCollected state
      → Visits (value ∷ []) state (some state)
  unfolding Visits Grows Closes
  stay_Visits value state o e c h = (
    state,
    refl,
    h,
    ((λ u m. m), (λ u m. m), λ u m. m),
    (λ c members m f. inl m),
    one_collected state value o e c,
  )

  collection_injective : (a b : List ℕ) → collection a ≡ collection b → a ≡ b
  collection_injective a b e = ap (λ o. elim o [ collection ms ↦ ms | _ ↦ [] ]) e

  enter-Visits :
      (value : ℕ) (members : List ℕ) (state : Collected) (result : Option Collected)
      → objects value ≡ collection members
      → Visits members (enter value state) result
      → Visits (value ∷ []) state result
  unfolding Visits Grows Closes member
  enter-Visits value members state result e (after, returned, h, g, c, d) = (
    after,
    returned,
    h,
    (g.0, g.1, λ u m. g.2 u (ground arith)),
    (λ at inner m f. elim (c at inner m f) [
      | inr closed ↦ inr closed
      | inl entered ↦ elim (Bool-cases (value == at)) [
        | inr apart ↦ inl (ground arith)
        | inl same ↦
            let is_value : value ≡ at = ground arith in
            let is_members = collection_injective members inner (sym e ∙ ap objects is_value ∙ f) in
            inr (λ v i. d v (subst (λ ms. member v ms ≡ true) (sym is_members) i))
      ]
    ]),
    one_collected after value (collection members) e (g.2 value (ground arith)),
  )

  entered : (value : ℕ) (state : Collected) → IsCollected state → IsCollected (enter value state)
  unfolding IsCollected
  entered value state h = h

  module _ (us : List ℕ)
      (all_there : (value : ℕ) (members : List ℕ)
        → objects value ≡ collection members
        → member value us ≡ true) where
    visit-Visits :
        (fuel value : ℕ) (state : Collected) (o : Object)
        → ((v : ℕ) (s : Collected)
            → unseen s.seen_collections us < fuel
            → IsCollected s
            → Visits (v ∷ []) s (collect fuel objects v s))
        → objects value ≡ o
        → unseen state.seen_collections us < suc fuel
        → IsCollected state
        → Visits (value ∷ []) state (collect (suc fuel) objects value state)
    unfolding collect
    visit-Visits fuel value state (processor k) f e below h =
        rw (collect, e) (collect_processor-Visits value k state e h)
    visit-Visits fuel value state schema f e below h =
        rw (collect, e) (collect_schema-Visits value state e h)
    visit-Visits fuel value state other f e below h =
        rw (collect, e) (stay_Visits value state other e refl h)
    visit-Visits fuel value state (collection members) f e below h =
        elim (Bool-cases (member value state.seen_collections)) [
          | inl seen ↦ rw (collect, e, seen) (stay_Visits value state (collection members) e seen h)
          | inr fresh ↦
              let fewer =
                unseen-enter value state.seen_collections us fresh (all_there value members e) in
              rw (collect, e, fresh)
                (enter-Visits value members state _ e (
                  collect_each-Visits us fuel (collect fuel objects) f members (enter value state)
                    (omega arith) (entered value state h)))
        ]

    pub collect-Visits :
        (fuel value : ℕ) (state : Collected)
        → unseen state.seen_collections us < fuel
        → IsCollected state
        → Visits (value ∷ []) state (collect fuel objects value state)
    collect-Visits zero value state below h = let impossible : zero ≡ 1 = omega arith in cc
    collect-Visits (suc fuel) value state below h =
        visit-Visits fuel value state (objects value) (collect-Visits fuel) refl below h
