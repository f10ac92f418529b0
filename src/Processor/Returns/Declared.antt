-- ===== src/Processor/Returns/Declared.antt =====
-- What an accepted return annotation of a reaction declares.
use etcd_fsm.Common.{
  ℕ, ◌≡◌, refl, ◌∙◌, subst, true, false, ◌||◌, List, [], ◌∷◌, ◌==◌, if◌then◌else◌, arith,
  Bool-cases, inl, inr,
}
use etcd_fsm.Checked.{Checked, accepted, refused, and_then, no_outcomes, unregistered_state}
use etcd_fsm.Annotations.{
  Member, none_type, retry, delete, ignored, state, command, base_model, other, applied, rejected,
  Annotation, eq_member, eq_member_refl, eq_of_eq_member, member_discrete, has, flatten_union,
  mentions, flatten_union_lem,
}
use etcd_fsm.Processor.Returns.{
  ReturnDefinition, contains_model, reaction_members, has_outcome, reaction_return,
}

eq_member-state : (k m : ℕ) → eq_member (state k) (state m) ≡ (k == m)
eq_member-state k m = elim (Bool-cases (k == m)) [
  | inl same ↦
      let e : k ≡ m = ground arith in
      rw same (subst (λ j. eq_member (state k) (state j) ≡ true) e (eq_member_refl (state k)))
  | inr apart ↦ elim (Bool-cases (eq_member (state k) (state m))) [
    | inl hit ↦
        let e : state k ≡ state m = eq_of_eq_member (state k) (state m) hit in
        let f : k ≡ m = cc in ground arith
    | inr miss ↦ rw (miss, apart)
  ]
]

-- What the loop finds: the members in the list, and what was found before.
record Finds (registered : List ℕ) (xs : List Member) (r r' : ReturnDefinition) : Type 0 where
  targets : (m : ℕ) → contains_model r'.targets m ≡ (has (state m) xs || contains_model r.targets m)
  can_delete : r'.can_delete ≡ (has delete xs || r.can_delete)
  can_retry : r'.can_retry ≡ (has retry xs || r.can_retry)
  can_leave_unchanged : r'.can_leave_unchanged ≡ (has none_type xs || r.can_leave_unchanged)
  known : (m : ℕ) → has (state m) xs ≡ true → contains_model registered m ≡ true

reaction_members-Finds :
    (registered : List ℕ) (xs : List Member) (r r' : ReturnDefinition)
    → reaction_members registered xs r ≡ accepted r'
    → Finds registered xs r r'
unfolding reaction_members has eq_member member_discrete contains_model
reaction_members-Finds registered [] r r' h =
    let e : r ≡ r' = cc in
    subst (Finds registered [] r) e (record {
      targets = λ m. refl;
      can_delete = refl;
      can_retry = refl;
      can_leave_unchanged = refl;
      known = λ m k. cc;
    })
reaction_members-Finds registered (none_type ∷ xs) r r' h =
    let f = reaction_members-Finds registered xs _ r' h in
    record {
      targets = f.targets;
      can_delete = f.can_delete;
      can_retry = f.can_retry;
      can_leave_unchanged = ground (arith, f.can_leave_unchanged);
      known = f.known;
    }
reaction_members-Finds registered (retry ∷ xs) r r' h =
    let f = reaction_members-Finds registered xs _ r' h in
    record {
      targets = f.targets;
      can_delete = f.can_delete;
      can_retry = ground (arith, f.can_retry);
      can_leave_unchanged = f.can_leave_unchanged;
      known = f.known;
    }
reaction_members-Finds registered (delete ∷ xs) r r' h =
    let f = reaction_members-Finds registered xs _ r' h in
    record {
      targets = f.targets;
      can_delete = ground (arith, f.can_delete);
      can_retry = f.can_retry;
      can_leave_unchanged = f.can_leave_unchanged;
      known = f.known;
    }
reaction_members-Finds registered (ignored ∷ xs) r r' h = cc
reaction_members-Finds registered (state k ∷ xs) r r' h =
    elim (Bool-cases (contains_model registered k)) [
      | inl there ↦
          let f = reaction_members-Finds registered xs _ r' (rw (there, reaction_members) at h) in
          record {
            targets = λ m. ground (arith, f.targets m, eq_member-state k m);
            can_delete = f.can_delete;
            can_retry = f.can_retry;
            can_leave_unchanged = f.can_leave_unchanged;
            known = λ m here. elim (Bool-cases (k == m)) [
              | inl same ↦ let e : k ≡ m = ground arith in rw e at there
              | inr apart ↦
                  let miss : eq_member (state k) (state m) ≡ false = eq_member-state k m ∙ apart in
                  f.known m (ground arith)
            ];
          }
      | inr absent ↦
          let no_result : refused (unregistered_state k) ≡ accepted r' =
            rw (absent, reaction_members) at h in
          cc
    ]
reaction_members-Finds registered (command k ∷ xs) r r' h = cc
reaction_members-Finds registered (base_model k ∷ xs) r r' h = cc
reaction_members-Finds registered (other k ∷ xs) r r' h = cc
reaction_members-Finds registered (applied a ∷ xs) r r' h = cc
reaction_members-Finds registered (rejected a ∷ xs) r r' h = cc

outcome_checked :
    (c : Checked ReturnDefinition) (r : ReturnDefinition)
    → and_then c (λ r. if has_outcome r then accepted r else refused no_outcomes) ≡ accepted r
    → c ≡ accepted r
outcome_checked (refused e) r h = cc
outcome_checked (accepted found) r h = elim (Bool-cases (has_outcome found)) [
  | inl some_outcome ↦ rw some_outcome at h
  | inr no_outcome ↦ let no_result : refused no_outcomes ≡ accepted r = rw no_outcome at h in cc
]

-- A return annotation that `_reaction_return` accepts declares what it mentions: the targets are its
-- state models, all of them registered, and the three flags say whether it mentions Delete, Retry and
-- None.
pub reaction_return_lem :
    (registered : List ℕ) (annotation : Annotation) (r : ReturnDefinition)
    → reaction_return registered annotation ≡ accepted r
    → ((m : ℕ) → contains_model r.targets m ≡ mentions (state m) annotation)
      × ((m : ℕ) → mentions (state m) annotation ≡ true → contains_model registered m ≡ true)
      × (r.can_delete ≡ mentions delete annotation)
      × (r.can_retry ≡ mentions retry annotation)
      × (r.can_leave_unchanged ≡ mentions none_type annotation)
unfolding reaction_return contains_model
reaction_return_lem registered annotation r h =
    let f =
      reaction_members-Finds registered (flatten_union annotation) _ r (outcome_checked _ r h) in
    let same = (flatten_union_lem annotation).0 in
    (
      λ m. ground (arith, f.targets m, same (state m)),
      λ m k. f.known m (same (state m) ∙ k),
      ground (arith, f.can_delete, same delete),
      ground (arith, f.can_retry, same retry),
      ground (arith, f.can_leave_unchanged, same none_type),
    )
