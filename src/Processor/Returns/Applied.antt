-- ===== src/Processor/Returns/Applied.antt =====
-- What an accepted return annotation of a command function declares.
use etcd_fsm.Common.{
  ℕ, ◌≡◌, refl, sym, ap, ◌∙◌, subst, true, false, not, ◌||◌, ◌&&◌, List, [], ◌∷◌, ◌==◌, filter,
  arith, Bool-cases, inl, inr,
}
use etcd_fsm.Checked.{accepted, refused, different_result, invalid_rejected, unregistered_state}
use etcd_fsm.Annotations.{
  Member, none_type, retry, delete, ignored, state, command, base_model, other, applied, rejected,
  Annotation, eq_member, eq_member_refl, eq_of_eq_member, member_discrete, has, has-filter,
  flatten_union, mentions, flatten_union_lem,
}
use etcd_fsm.Processor.Returns.{
  ReturnDefinition, contains_model, is_base_model, command_members, all_in, command_return,
}

-- What the loop over the members of a result type finds.
record Applies (registered : List ℕ) (xs : List Member) (r r' : ReturnDefinition) : Type 0 where
  targets :
      (m : ℕ)
      → contains_model r'.targets m ≡ (has (applied (state m)) xs || contains_model r.targets m)
  can_delete : r'.can_delete ≡ (has delete xs || r.can_delete)
  flags : (r'.can_retry ≡ r.can_retry) × (r'.can_leave_unchanged ≡ r.can_leave_unchanged)
  known : (m : ℕ) → has (applied (state m)) xs ≡ true → contains_model registered m ≡ true

eq_member-applied : (k m : ℕ) → eq_member (applied (state k)) (applied (state m)) ≡ (k == m)
eq_member-applied k m = elim (Bool-cases (k == m)) [
  | inl same ↦
      let e : k ≡ m = ground arith in
      rw same (
        subst (λ j. eq_member (applied (state k)) (applied (state j)) ≡ true) e
          (eq_member_refl (applied (state k))))
  | inr apart ↦ elim (Bool-cases (eq_member (applied (state k)) (applied (state m)))) [
    | inl hit ↦
        let e : applied (state k) ≡ applied (state m) =
          eq_of_eq_member (applied (state k)) (applied (state m)) hit in
        let f : k ≡ m = cc in ground arith
    | inr miss ↦ rw (miss, apart)
  ]
]

command_members-Applies :
    (registered : List ℕ) (xs : List Member) (r r' : ReturnDefinition)
    → command_members registered xs r ≡ accepted r'
    → Applies registered xs r r'
unfolding command_members has eq_member member_discrete contains_model
command_members-Applies registered [] r r' h =
    let e : r ≡ r' = cc in
    subst (Applies registered [] r) e
      (record { targets = λ m. refl; can_delete = refl; flags = (refl, refl); known = λ m k. cc })
command_members-Applies registered (none_type ∷ xs) r r' h = cc
command_members-Applies registered (retry ∷ xs) r r' h = cc
command_members-Applies registered (delete ∷ xs) r r' h =
    let f = command_members-Applies registered xs _ r' h in
    record {
      targets = f.targets;
      can_delete = ground (arith, f.can_delete);
      flags = f.flags;
      known = f.known;
    }
command_members-Applies registered (ignored ∷ xs) r r' h =
    let f = command_members-Applies registered xs _ r' h in
    record { targets = f.targets; can_delete = f.can_delete; flags = f.flags; known = f.known }
command_members-Applies registered (state k ∷ xs) r r' h = cc
command_members-Applies registered (command k ∷ xs) r r' h = cc
command_members-Applies registered (base_model k ∷ xs) r r' h = cc
command_members-Applies registered (other k ∷ xs) r r' h = cc
command_members-Applies registered (applied (state k) ∷ xs) r r' h =
    elim (Bool-cases (contains_model registered k)) [
      | inl there ↦
          let f = command_members-Applies registered xs _ r' (rw (there, command_members) at h) in
          record {
            targets = λ m. ground (arith, f.targets m, eq_member-applied k m);
            can_delete = f.can_delete;
            flags = f.flags;
            known = λ m here. elim (Bool-cases (k == m)) [
              | inl same ↦ let e : k ≡ m = ground arith in rw e at there
              | inr apart ↦
                  let miss : eq_member (applied (state k)) (applied (state m)) ≡ false =
                    eq_member-applied k m ∙ apart in
                  f.known m (ground arith)
            ];
          }
      | inr absent ↦
          let no_result : refused (unregistered_state k) ≡ accepted r' =
            rw (absent, command_members) at h in
          cc
    ]
command_members-Applies registered (applied none_type ∷ xs) r r' h = cc
command_members-Applies registered (applied retry ∷ xs) r r' h = cc
command_members-Applies registered (applied delete ∷ xs) r r' h = cc
command_members-Applies registered (applied ignored ∷ xs) r r' h = cc
command_members-Applies registered (applied (command k) ∷ xs) r r' h = cc
command_members-Applies registered (applied (base_model k) ∷ xs) r r' h = cc
command_members-Applies registered (applied (other k) ∷ xs) r r' h = cc
command_members-Applies registered (applied (applied a) ∷ xs) r r' h = cc
command_members-Applies registered (applied (rejected a) ∷ xs) r r' h = cc
command_members-Applies registered (rejected a ∷ xs) r r' h = elim (Bool-cases (is_base_model a)) [
  | inl model ↦
      let f = command_members-Applies registered xs _ r' (rw (model, command_members) at h) in
      record { targets = f.targets; can_delete = f.can_delete; flags = f.flags; known = f.known }
  | inr invalid ↦
      let no_result : refused invalid_rejected ≡ accepted r' = rw (invalid, command_members) at h in
      cc
]

has-equal : (x m : Member) (ys : List Member) → eq_member x m ≡ true → has x ys ≡ has m ys
has-equal x m ys h = ap (λ z. has z ys) (eq_of_eq_member x m h)

all_in-has :
    (m : Member) (xs ys : List Member) → all_in xs ys ≡ true → has m xs ≡ true → has m ys ≡ true
unfolding all_in has
all_in-has m [] ys h k = cc
all_in-has m (x ∷ xs) ys h k = ground (arith, has-equal x m ys, all_in-has m xs ys)

same_members :
    (m : Member) (xs ys : List Member) → (all_in xs ys && all_in ys xs) ≡ true → has m xs ≡ has m ys
same_members m xs ys h = ground (arith, all_in-has m xs ys, all_in-has m ys xs)

-- What a completed result is: what the annotation mentions, but for Retry.
completed-has :
    (m : Member) (annotation : Annotation)
    → eq_member retry m ≡ false
    → has m (filter (λ y. not (eq_member retry y)) (flatten_union annotation))
      ≡ mentions m annotation
completed-has m annotation h =
    has-filter retry m (flatten_union annotation)
    ∙ ground (arith, h, (flatten_union_lem annotation).0 m)

-- A command function's return annotation that `_command_return` accepts mentions, but for Retry, the
-- members of the command's result type; its targets are the state models that it mentions under Applied,
-- all of them registered, the flags say whether it mentions Delete and Retry, and it never leaves the
-- state unchanged.
pub command_return_lem :
    (registered : List ℕ) (result_type annotation : Annotation) (r : ReturnDefinition)
    → command_return registered result_type annotation ≡ accepted r
    → ((m : Member) → eq_member retry m ≡ false → mentions m annotation ≡ mentions m result_type)
      × ((m : ℕ) → contains_model r.targets m ≡ mentions (applied (state m)) annotation)
      × ((m : ℕ)
          → mentions (applied (state m)) annotation ≡ true
          → contains_model registered m ≡ true)
      × (r.can_delete ≡ mentions delete annotation)
      × (r.can_retry ≡ mentions retry annotation)
      × (r.can_leave_unchanged ≡ false)
unfolding command_return contains_model eq_member member_discrete
command_return_lem registered result_type annotation r h =
    let completed = filter (λ y. not (eq_member retry y)) (flatten_union annotation) in
    let expected = flatten_union result_type in
    elim (Bool-cases (all_in completed expected && all_in expected completed)) [
      | inl same ↦
          let f = command_members-Applies registered expected _ r (rw same at h) in
          let agree : (m : Member)
              → eq_member retry m ≡ false
              → has m expected ≡ mentions m annotation =
            λ m apart.
              sym (same_members m completed expected same) ∙ completed-has m annotation apart in
          (
            λ m apart. sym (agree m apart) ∙ (flatten_union_lem result_type).0 m,
            λ m. ground (arith, f.targets m, agree (applied (state m)) refl),
            λ m k. f.known m (agree (applied (state m)) refl ∙ k),
            ground (arith, f.can_delete, agree delete refl),
            f.flags.0 ∙ (flatten_union_lem annotation).0 retry,
            f.flags.1,
          )
      | inr different ↦
          let no_result : refused different_result ≡ accepted r = rw different at h in cc
    ]
