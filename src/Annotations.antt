-- ===== src/Annotations.antt =====
-- etcd_fsm/_typing.py: the members of an annotation. What the code finds by looking at a class is the
-- constructor of the member: a state model, a command model, another pydantic model, an outcome, or
-- something else. The number is the class's identity.
use etcd_fsm.Common.{
  ℕ, ◌≡◌, refl, ap, ◌∙◌, Bool, true, false, not, ◌||◌, ◌&&◌, List, [], ◌∷◌, ◌++◌, filter, arith,
  Bool-cases, inl, inr,
}
use native.Mathlib.Decide.{ℕ_discrete}

pub data Member : Type 0 where
  none_type retry delete ignored : Member
  state command base_model other : ℕ → Member
  applied rejected : Member → Member

unfoldable pub member_discrete : Discrete Member
member_discrete = hlevel ℕ_discrete

-- `a == b`
unfoldable pub eq_member : Member → Member → Bool
eq_member a b = elim (member_discrete a b) [ yes _ ↦ true | no _ ↦ false ]

mutual
  pub data Annotation : Type 0 where
    member : Member → Annotation
    annotated : Annotation → Annotation
    alias : Annotation → Annotation
    union : Annotations → Annotation

  pub data Annotations : Type 0 where
    end : Annotations
    and : Annotation → Annotations → Annotations

-- `m in members`
unfoldable pub has : Member → List Member → Bool
has m [] = false
has m (x ∷ xs) = eq_member x m || has m xs

-- `dict.fromkeys(members)`: the first of each.
unfoldable pub from_keys : List Member → List Member
from_keys [] = []
from_keys (x ∷ xs) = x ∷ filter (λ y. not (eq_member x y)) (from_keys xs)

-- `flatten_union`, which takes `Annotated` off first.
unfoldable mutual
  pub flatten_union : Annotation → List Member
  flatten_union (member m) = m ∷ []
  flatten_union (annotated a) = flatten_union a
  flatten_union (alias a) = flatten_union a
  flatten_union (union members) = from_keys (flatten_members members)

  pub flatten_members : Annotations → List Member
  flatten_members end = []
  flatten_members (and a rest) = flatten_union a ++ flatten_members rest

-- The member stands somewhere in the annotation.
unfoldable mutual
  pub mentions : Member → Annotation → Bool
  mentions m (member x) = eq_member x m
  mentions m (annotated a) = mentions m a
  mentions m (alias a) = mentions m a
  mentions m (union members) = mentions_any m members

  pub mentions_any : Member → Annotations → Bool
  mentions_any m end = false
  mentions_any m (and a rest) = mentions m a || mentions_any m rest

-- A member that occurs twice.
unfoldable pub repeats : List Member → Bool
repeats [] = false
repeats (x ∷ xs) = has x xs || repeats xs

pub eq_member_refl : (a : Member) → eq_member a a ≡ true
unfolding eq_member
eq_member_refl a =
    elim (member_discrete a a) as (λ d. (elim d [ yes _ ↦ true | no _ ↦ false ]) ≡ true) [
      | yes _ ↦ refl
      | no n ↦ elim (n refl) [ ]
    ]

pub eq_of_eq_member : (a b : Member) → eq_member a b ≡ true → a ≡ b
unfolding eq_member
eq_of_eq_member a b h =
    elim (member_discrete a b) as (λ d. (elim d [ yes _ ↦ true | no _ ↦ false ]) ≡ true → a ≡ b) [
      | yes e ↦ λ _. e
      | no _ ↦ λ k. cc
    ]
      h

-- Comparing with either of two equal members comes to the same.
eq_member-left : (x y m : Member) → eq_member x y ≡ true → eq_member x m ≡ eq_member y m
eq_member-left x y m h = ap (λ z. eq_member z m) (eq_of_eq_member x y h)

eq_member-right : (x y m : Member) → eq_member y m ≡ true → eq_member x y ≡ eq_member x m
eq_member-right x y m h = ap (eq_member x) (eq_of_eq_member y m h)

has-append : (m : Member) (xs ys : List Member) → has m (xs ++ ys) ≡ (has m xs || has m ys)
unfolding has
has-append m [] ys = refl
has-append m (x ∷ xs) ys = ground (arith, has-append m xs ys)

-- Taking the members equal to one out leaves the others.
pub has-filter :
    (x m : Member) (ys : List Member)
    → has m (filter (λ y. not (eq_member x y)) ys) ≡ (not (eq_member x m) && has m ys)
unfolding has filter
has-filter x m [] = ground arith
has-filter x m (y ∷ ys) = elim (Bool-cases (eq_member x y)) [
  | inl same ↦ rw same (ground (arith, eq_member-left x y m same, has-filter x m ys))
  | inr apart ↦ rw apart (elim (Bool-cases (eq_member y m)) [
    | inl hit ↦ ground (arith, eq_member-right x y m hit, has-filter x m ys)
    | inr miss ↦ ground (arith, has-filter x m ys)
  ])
]

has-from_keys : (m : Member) (xs : List Member) → has m (from_keys xs) ≡ has m xs
unfolding has from_keys
has-from_keys m [] = refl
has-from_keys m (x ∷ xs) = ground (arith, has-filter x m (from_keys xs), has-from_keys m xs)

repeats-filter :
    (x : Member) (ys : List Member)
    → repeats ys ≡ false
    → repeats (filter (λ y. not (eq_member x y)) ys) ≡ false
unfolding repeats filter has
repeats-filter x [] h = refl
repeats-filter x (y ∷ ys) h = elim (Bool-cases (eq_member x y)) [
  | inl same ↦ rw same (repeats-filter x ys (ground arith))
  | inr apart ↦ rw apart (ground (arith, has-filter x y ys, repeats-filter x ys))
]

repeats-from_keys : (xs : List Member) → repeats (from_keys xs) ≡ false
unfolding repeats from_keys
repeats-from_keys [] = refl
repeats-from_keys (x ∷ xs) = ground (
  arith,
  has-filter x x (from_keys xs),
  eq_member_refl x,
  repeats-filter x (from_keys xs) (repeats-from_keys xs),
)

mutual
  unfolding flatten_union flatten_members mentions mentions_any has

  has-union : (m : Member) (a : Annotation) → has m (flatten_union a) ≡ mentions m a
  has-union m (member x) = ground arith
  has-union m (annotated a) = has-union m a
  has-union m (alias a) = has-union m a
  has-union m (union members) = has-from_keys m (flatten_members members) ∙ has-members m members

  has-members :
      (m : Member) (members : Annotations)
      → has m (flatten_members members) ≡ mentions_any m members
  has-members m end = refl
  has-members m (and a rest) = ground (
    arith,
    has-append m (flatten_union a) (flatten_members rest),
    has-union m a,
    has-members m rest,
  )

repeats-union : (a : Annotation) → repeats (flatten_union a) ≡ false
unfolding flatten_union repeats has
repeats-union (member x) = refl
repeats-union (annotated a) = repeats-union a
repeats-union (alias a) = repeats-union a
repeats-union (union members) = repeats-from_keys (flatten_members members)

-- `flatten_union` gives each member that the annotation mentions, under whatever nesting of `Annotated`,
-- aliases and unions, and no others, and it gives none of them twice.
pub flatten_union_lem :
    (a : Annotation)
    → ((m : Member) → has m (flatten_union a) ≡ mentions m a) × (repeats (flatten_union a) ≡ false)
flatten_union_lem a = (λ m. has-union m a, repeats-union a)
