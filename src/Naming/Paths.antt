-- ===== src/Naming/Paths.antt =====
-- The keys and the namespaces that the checks accept, against paths put together from segments.
use etcd_fsm.Common.{
  ℕ, ◌≡◌, ◌↔◌, refl, sym, ap, ◌∙◌, subst, Bool, false, some, List, [], ◌∷◌, ◌++◌, ◌==◌, any,
  is_empty, arith, Bool-cases, inl, inr, All,
}
use etcd_fsm.Naming.{
  Text, contains, extend, split, is_reserved, validate_fsm_key, is_abnormal, ends_with_slash,
  validate_namespace,
}

-- `"/".join(segments)`
unfoldable pub join : List Text → Text
join [] = []
join (segment ∷ []) = segment
join (segment ∷ next ∷ rest) = segment ++ b'/' ∷ join (next ∷ rest)

-- A segment of a normalized path: some characters, with no slash and no NUL among them.
unfoldable pub IsSegment : Text → Type 0
IsSegment segment =
    (is_empty segment ≡ false) × (contains b'/' segment ≡ false) × (contains 0 segment ≡ false)

-- A path of segments of which `excluded` holds of none.
unfoldable pub IsPathOf : (Text → Bool) → Text → Type 0
IsPathOf excluded path =
    (segment : Text) × (rest : List Text) × All (λ s. IsSegment s × (excluded s ≡ false))
      (segment ∷ rest)
    × (path ≡ join (segment ∷ rest))

split-cons : (text : Text) → (segment : Text) × (rest : List Text) × split text ≡ segment ∷ rest
unfolding split
split-cons [] = ([], [], refl)
split-cons (c ∷ cs) =
    let (s, rest, h) = split-cons cs in
    elim (Bool-cases (c == b'/')) [
      | inl t ↦ ([], split cs, rw (t))
      | inr f ↦ (c ∷ s, rest, rw (f, h))
    ]

join-extend :
    (c : ℕ) (s : Text) (rest : List Text) → join (extend c (s ∷ rest)) ≡ c ∷ join (s ∷ rest)
unfolding join
join-extend c s [] = refl
join-extend c s (next ∷ rest) = refl

join-split : (text : Text) → join (split text) ≡ text
unfolding split join
join-split [] = refl
join-split (c ∷ cs) =
    let (s, rest, h) = split-cons cs in
    let joined : join (s ∷ rest) ≡ cs = sym (ap join h) ∙ join-split cs in
    elim (Bool-cases (c == b'/')) [
      | inl t ↦
          let slash : b'/' ≡ c = ground arith in
          rw (t, h) (ap (λ r. b'/' ∷ r) joined ∙ ap (λ r. r ∷ cs) slash)
      | inr f ↦ rw (f, h) (join-extend c s rest ∙ ap (λ r. c ∷ r) joined)
    ]

split-segment : (s : Text) → contains b'/' s ≡ false → split s ≡ s ∷ []
unfolding split contains
split-segment [] h = refl
split-segment (c ∷ cs) h = ground (arith, split-segment cs)

split-append : (s t : Text) → contains b'/' s ≡ false → split (s ++ b'/' ∷ t) ≡ s ∷ split t
unfolding split contains
split-append [] t h = refl
split-append (c ∷ cs) t h = ground (arith, split-append cs t)

split-join :
    (s : Text) (rest : List Text)
    → All (λ x. contains b'/' x ≡ false) (s ∷ rest)
    → split (join (s ∷ rest)) ≡ s ∷ rest
unfolding join
split-join s [] h = split-segment s h.0
split-join s (next ∷ rest) h =
    split-append s (join (next ∷ rest)) h.0 ∙ ap (λ r. s ∷ r) (split-join next rest h.1)

-- Neither character appears in a segment of a text that has no NUL.
split-clean :
    (text : Text)
    → contains 0 text ≡ false
    → All (λ s. (contains b'/' s ≡ false) × (contains 0 s ≡ false)) (split text)
unfolding split contains
split-clean [] h = ((refl, refl), tt)
split-clean (c ∷ cs) h =
    let (s, rest, e) = split-cons cs in
    let later : All (λ s. (contains b'/' s ≡ false) × (contains 0 s ≡ false)) (s ∷ rest) =
      subst (All _) e (split-clean cs (ground arith)) in
    elim (Bool-cases (c == b'/')) [
      | inl t ↦ rw (t, e) ((refl, refl), later)
      | inr f ↦ rw (f, e) ((ground (arith, later.0.0), ground (arith, later.0.1)), later.1)
    ]

All-any : (p : Text → Bool) (xs : List Text) → any p xs ≡ false → All (λ x. p x ≡ false) xs
unfolding any
All-any p [] h = tt
All-any p (x ∷ xs) h = (ground arith, All-any p xs (ground arith))

any-All : (p : Text → Bool) (xs : List Text) → All (λ x. p x ≡ false) xs → any p xs ≡ false
unfolding any
any-All p [] h = refl
any-All p (x ∷ xs) h = rw (h.0) (any-All p xs h.1)

All-both : (P Q : Text → Type 0) (xs : List Text) → All P xs → All Q xs → All (λ x. P x × Q x) xs
All-both P Q [] a b = tt
All-both P Q (x ∷ xs) a b = ((a.0, b.0), All-both P Q xs a.1 b.1)

All-map : (P Q : Text → Type 0) → ((x : Text) → P x → Q x) → (xs : List Text) → All P xs → All Q xs
All-map P Q f [] a = tt
All-map P Q f (x ∷ xs) a = (f x a.0, All-map P Q f xs a.1)

contains-append :
    (c : ℕ) (s t : Text) → contains c s ≡ false → contains c t ≡ false → contains c (s ++ t) ≡ false
unfolding contains
contains-append c [] t h k = k
contains-append c (x ∷ s) t h k = ground (arith, contains-append c s t)

join-clean :
    (s : Text) (rest : List Text)
    → All (λ x. contains 0 x ≡ false) (s ∷ rest)
    → contains 0 (join (s ∷ rest)) ≡ false
unfolding join contains
join-clean s [] h = h.0
join-clean s (next ∷ rest) h =
    contains-append 0 s (b'/' ∷ join (next ∷ rest)) h.0 (join-clean next rest h.1)

join-filled :
    (s : Text) (rest : List Text) → is_empty s ≡ false → is_empty (join (s ∷ rest)) ≡ false
unfolding join
join-filled [] rest h = cc
join-filled (c ∷ s) [] h = refl
join-filled (c ∷ s) (next ∷ rest) h = refl

module _ (excluded : Text → Bool) (text : Text) where
  split-IsPathOf :
      contains 0 text ≡ false
      → any is_empty (split text) ≡ false
      → any excluded (split text) ≡ false
      → IsPathOf excluded text
  unfolding IsPathOf IsSegment
  split-IsPathOf clean filled allowed =
      let (s, rest, e) = split-cons text in
      (
        s,
        rest,
        subst (All _) e (
            All-map _ _ (λ x h. ((h.0, h.1.1.0, h.1.1.1), h.1.0)) (split text)
              (All-both _ _ (split text) (All-any is_empty (split text) filled) (
                All-both _ _ (split text) (All-any excluded (split text) allowed)
                  (split-clean text clean)))),
        sym (join-split text) ∙ ap join e,
      )

  IsPathOf-split :
      IsPathOf excluded text
      → (is_empty text ≡ false)
        × (contains 0 text ≡ false)
        × (any is_empty (split text) ≡ false)
        × (any excluded (split text) ≡ false)
  unfolding IsPathOf IsSegment
  IsPathOf-split (s, rest, parts, e) =
      let parted : split text ≡ s ∷ rest =
        ap split e ∙ split-join s rest (All-map _ _ (λ x h. h.0.1) (s ∷ rest) parts) in
      (
        rw e (join-filled s rest parts.0.0.0),
        rw e (join-clean s rest (All-map _ _ (λ x h. h.0.2) (s ∷ rest) parts)),
        rw parted (any-All is_empty (s ∷ rest) (All-map _ _ (λ x h. h.0.0) (s ∷ rest) parts)),
        rw parted (any-All excluded (s ∷ rest) (All-map _ _ (λ x h. h.1) (s ∷ rest) parts)),
      )

-- `validate_fsm_key` accepts a key exactly if it is one or more segments put together with slashes,
-- each of them some characters without a slash or a NUL, and none of them `.`, `..` or `rpc`.
pub validate_fsm_key_iff :
    (key : Text) → (validate_fsm_key key ≡ some key) ↔ IsPathOf is_reserved key
unfolding validate_fsm_key
validate_fsm_key_iff key = (
  λ h. split-IsPathOf is_reserved key (ground arith) (ground arith) (ground arith),
  λ h. let (a, b, c, d) = IsPathOf-split is_reserved key h in rw (a, b, c, d),
)

abbrev drop_first : List Text → List Text
drop_first [] = []
drop_first (s ∷ rest) = rest

-- A text that ends with a slash has an empty segment behind its first one.
ends-split :
    (text : Text) → any is_empty (drop_first (split text)) ≡ false → ends_with_slash text ≡ false
unfolding split any
ends-split [] h = refl
ends-split (c ∷ []) h = elim (Bool-cases (c == b'/')) [
  | inl slash ↦
      let last : drop_first (split (c ∷ [])) ≡ [] ∷ [] = rw (slash) in
      cc (subst (λ r. any is_empty r ≡ false) last h)
  | inr plain ↦ plain
]
ends-split (c ∷ x ∷ text) h =
    let (t, later, k) = split-cons (x ∷ text) in
    let rest : any is_empty (drop_first (split (x ∷ text))) ≡ false =
      elim (Bool-cases (c == b'/')) [
        | inl slash ↦
            let next : drop_first (split (c ∷ x ∷ text)) ≡ t ∷ later = rw (slash, k) in
            let filled : any is_empty (t ∷ later) ≡ false =
              subst (λ r. any is_empty r ≡ false) next h in
            rw (k) (ground arith)
        | inr plain ↦
            let next : drop_first (split (c ∷ x ∷ text)) ≡ later = rw (plain, k) in
            rw (k) (subst (λ r. any is_empty r ≡ false) next h)
      ] in
    ends-split (x ∷ text) rest

abnormal-empty : (xs : List Text) → any is_abnormal xs ≡ false → any is_empty xs ≡ false
unfolding any is_abnormal
abnormal-empty [] h = refl
abnormal-empty (x ∷ xs) h = ground (arith, abnormal-empty xs)

validate_namespace-slash :
    (path : Text)
    → (validate_namespace (b'/' ∷ path) ≡ some (b'/' ∷ path)) ↔ IsPathOf is_abnormal path
unfolding validate_namespace contains split
validate_namespace-slash path = (
  λ h.
      let allowed : any is_abnormal (split path) ≡ false = ground arith in
      split-IsPathOf is_abnormal path (ground arith) (abnormal-empty (split path) allowed) allowed,
  λ h.
      let (a, b, c, d) = IsPathOf-split is_abnormal path h in
      let e = ends-split (b'/' ∷ path) c in rw (a, b, d, e),
)

-- `_validate_namespace` accepts a namespace exactly if it is a slash in front of one or more segments
-- put together with slashes, each of them some characters without a slash or a NUL, and none of them
-- `.` or `..`.
pub validate_namespace_iff :
    (namespace : Text)
    → (validate_namespace namespace ≡ some namespace)
      ↔ ((path : Text) × (namespace ≡ b'/' ∷ path) × IsPathOf is_abnormal path)
unfolding validate_namespace
validate_namespace_iff [] = (λ h. cc, λ h. cc h.1)
validate_namespace_iff (c ∷ path) = (
  λ h. elim (Bool-cases (c == b'/')) [
    | inl slash ↦
        let e : c ≡ b'/' = ground arith in
        (
          path,
          ap (λ r. r ∷ path) e,
          (validate_namespace-slash path).0
              (subst (λ r. validate_namespace (r ∷ path) ≡ some (r ∷ path)) e h),
        )
    | inr plain ↦ cc
  ],
  λ h. subst (λ r. validate_namespace r ≡ some r) (sym h.1) ((validate_namespace-slash h.0).1 h.2),
)
