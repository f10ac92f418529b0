-- ===== src/Processor/Sources.antt =====
-- `_expand_state_annotation` of etcd_fsm/processor.py: the states that an annotation stands for.
use etcd_fsm.Common.{
  ℕ, ◌≡◌, ◌↔◌, refl, sym, ap, ◌∙◌, Bool, true, false, not, ◌||◌, ◌&&◌, List, [], ◌∷◌, ◌==◌, filter,
  is_empty, member, has_duplicate, arith, Bool-cases, inl, inr,
}
use etcd_fsm.Checked.{accepted, and_then-accepted, raise_if-accepted, accepted_inj}
use etcd_fsm.Annotations.{
  Annotation, Member, state, eq_member, eq_of_eq_member, eq_member_refl, has, flatten_union,
  mentions, flatten_union_lem,
}
use etcd_fsm.Facts.{FsmSchema}
use etcd_fsm.Schema.{state_models, contains_state_model}
use etcd_fsm.Processor.{MatchMode, exact, subclasses}
use etcd_fsm.Processor.Functions.{
  Classes, set_update, matched_by, validate_state_binding, expand_member, expand_members,
  expand_state_annotation,
}

pub member-filter :
    (p : ℕ → Bool) (xs : List ℕ) (c : ℕ) → member c (filter p xs) ≡ (member c xs && p c)
unfolding member filter
member-filter p [] c = refl
member-filter p (x ∷ xs) c = elim (Bool-cases (c == x)) [
  | inl same ↦ let both : p c ≡ p x = ap p (ground arith) in ground (arith, member-filter p xs c)
  | inr apart ↦ ground (arith, member-filter p xs c)
]

pub member-set_update :
    (xs sources : List ℕ) (c : ℕ)
    → member c (set_update xs sources) ≡ (member c xs || member c sources)
unfolding set_update member
member-set_update [] sources c = refl
member-set_update (x ∷ xs) sources c = elim (Bool-cases (member x sources)) [
  | inl old ↦
      let absorbed : (member c xs || member c sources)
          ≡ (((x == c) || member c xs) || member c sources) =
        elim (Bool-cases (x == c)) [
          | inl same ↦
              let both : member c sources ≡ member x sources =
                ap (λ y. member y sources) (ground arith) in
              ground arith
          | inr apart ↦ ground arith
        ] in
      rw (old, set_update) (member-set_update xs sources c ∙ absorbed)
  | inr new ↦ rw (new, set_update) (member-set_update xs (x ∷ sources) c ∙ ground arith)
]

pub has_duplicate-set_update :
    (xs sources : List ℕ)
    → has_duplicate sources ≡ false
    → has_duplicate (set_update xs sources) ≡ false
unfolding set_update has_duplicate
has_duplicate-set_update [] sources h = h
has_duplicate-set_update (x ∷ xs) sources h = elim (Bool-cases (member x sources)) [
  | inl old ↦ rw (old, set_update) (has_duplicate-set_update xs sources h)
  | inr new ↦ rw (new, set_update) (has_duplicate-set_update xs (x ∷ sources) (ground arith))
]

state_inj : {a b : ℕ} → Path Member (state a) (state b) → a ≡ b
state_inj h = cc

module _ (classes : Classes) (s : FsmSchema) where
  -- The model in an annotation stands for the state: it is the state's model, or the state's model is a
  -- registered subclass of its origin.
  unfoldable pub stands_for : MatchMode → ℕ → ℕ → Bool
  stands_for exact model concrete = concrete == model
  stands_for subclasses model concrete =
      contains_state_model s concrete && classes.is_subclass concrete (classes.origin_of model)

  expand_member_lem :
      (match : MatchMode) (model : ℕ) (found : List ℕ)
      → expand_member classes s match model ≡ accepted found
      → (concrete : ℕ)
      → (member concrete found ≡ stands_for match model concrete)
        × (stands_for match model concrete ≡ true → contains_state_model s concrete ≡ true)
  unfolding expand_member stands_for member contains_state_model
  expand_member_lem exact model found h concrete =
      let (registered, h1) = raise_if-accepted (not (contains_state_model s model)) _ _ h in
      (
        ap (member concrete) (sym (accepted_inj h1)) ∙ ground arith,
        λ same.
            let one : concrete ≡ model = ground arith in
            let there : contains_state_model s model ≡ true = ground arith in
            ap (contains_state_model s) one ∙ there,
      )
  expand_member_lem subclasses model found h concrete =
      let (_, bound, h1) = and_then-accepted (validate_state_binding classes s model) _ h in
      let (some_match, h2) = raise_if-accepted (is_empty (matched_by classes s model)) _ _ h1 in
      (
        ap (member concrete) (sym (accepted_inj h2)) ∙ member-filter _ (state_models s) concrete,
        λ both. ground arith,
      )

  -- The states of the annotation are those that some mentioned model stands for.
  pub record Expands (match : MatchMode) (members : List Member) (before sources : List ℕ)
      : Type 0 where
    pub sound :
        (concrete : ℕ)
        → member concrete sources ≡ true
        → member concrete before ≡ false
        → (model : ℕ) × (has (state model) members ≡ true)
          × (stands_for match model concrete ≡ true)
    pub complete :
        (model concrete : ℕ)
        → has (state model) members ≡ true
        → stands_for match model concrete ≡ true
        → member concrete sources ≡ true
    pub kept : (concrete : ℕ) → member concrete before ≡ true → member concrete sources ≡ true
    pub registered :
        ((concrete : ℕ) → member concrete before ≡ true → contains_state_model s concrete ≡ true)
        → (concrete : ℕ) → member concrete sources ≡ true
        → contains_state_model s concrete ≡ true
    pub distinct : has_duplicate before ≡ false → has_duplicate sources ≡ false

  expand_members-Expands :
      (match : MatchMode) (members : List Member) (before sources : List ℕ)
      → expand_members classes s match members before ≡ accepted sources
      → Expands match members before sources
  unfolding expand_members has
  expand_members-Expands match [] before sources h =
      let same = accepted_inj h in
      record {
        sound = λ concrete k absent. let both = ap (member concrete) same in cc;
        complete = λ model concrete k. cc;
        kept = λ concrete k. ap (member concrete) (sym same) ∙ k;
        registered = λ f concrete k. f concrete (ap (member concrete) same ∙ k);
        distinct = λ k. ap has_duplicate (sym same) ∙ k;
      }
  expand_members-Expands match (state m ∷ rest) before sources h =
      let (found, h0, h1) = and_then-accepted (expand_member classes s match m) _ h in
      let later = expand_members-Expands match rest (set_update found before) sources h1 in
      let here = expand_member_lem match m found h0 in
      let joined = member-set_update found before in
      record {
        sound = λ concrete k absent. elim (Bool-cases (member concrete found)) [
          | inl new ↦ (m, ground (arith, eq_member_refl (state m)), sym (here concrete).0 ∙ new)
          | inr old ↦
              let (model, among, stands) =
                later.sound concrete k (ground (arith, joined concrete)) in
              (model, ground arith, stands)
        ];
        complete = λ model concrete k stands.
            elim (Bool-cases (eq_member (state m) (state model))) [
              | inl same ↦
                  let one : m ≡ model = state_inj (eq_of_eq_member (state m) (state model) same) in
                  let new =
                    (here concrete).0 ∙ ap (λ x. stands_for match x concrete) one ∙ stands in
                  later.kept concrete (ground (arith, joined concrete))
              | inr apart ↦ later.complete model concrete (ground arith) stands
            ];
        kept = λ concrete k. later.kept concrete (ground (arith, joined concrete));
        registered = λ f concrete k.
            later.registered
              (λ c l. elim (Bool-cases (member c found)) [
                | inl new ↦ (here c).1 (sym (here c).0 ∙ new)
                | inr old ↦ f c (ground (arith, joined c))
              ])
              concrete k;
        distinct = λ k. later.distinct (has_duplicate-set_update found before k);
      }
  expand_members-Expands match (_ ∷ rest) before sources h = cc

  -- The states that an annotation expands to are exactly those that one of the models it mentions stands
  -- for, all registered and each once.
  pub expand_state_annotation_lem :
      (annotation : Annotation) (match : MatchMode) (sources : List ℕ)
      → expand_state_annotation classes s annotation match ≡ accepted sources
      → ((concrete : ℕ)
          → (member concrete sources ≡ true) ↔ (
              (model : ℕ) × (mentions (state model) annotation ≡ true)
              × (stands_for match model concrete ≡ true)))
        × ((concrete : ℕ) → member concrete sources ≡ true → contains_state_model s concrete ≡ true)
        × (has_duplicate sources ≡ false)
  unfolding expand_state_annotation member has_duplicate
  expand_state_annotation_lem annotation match sources h =
      let (_, h1) = raise_if-accepted (is_empty (flatten_union annotation)) _ _ h in
      let e = expand_members-Expands match (flatten_union annotation) [] sources h1 in
      let same = (flatten_union_lem annotation).0 in
      (
        (λ concrete. (
          (λ k.
              let (model, among, stands) = e.sound concrete k refl in
              (model, sym (same (state model)) ∙ among, stands)),
          (λ (model, mentioned, stands).
              e.complete model concrete (same (state model) ∙ mentioned) stands),
        )),
        (λ concrete k. e.registered (λ c l. cc) concrete k),
        e.distinct refl,
      )
