-- ===== src/Schema/Registered.antt =====
-- The loop over the models of `_compile_states` and `_compile_commands`: what it registers.
use mathlib.Core.List.{Mem, mem-cons_of_mem, mem-cons_self}
use mathlib.Core.Option.{some-injective}
use etcd_fsm.Common.{
  ℕ, ◌≡◌, refl, sym, subst, ap, ◌∙◌, true, false, Option, none, some, List, [], ◌∷◌, ◌++◌, map,
  ◌==◌, arith, Bool-cases, Option-cases, inl, inr, ◌⊎◌, All, member, has_duplicate,
}
use etcd_fsm.Checked.{Checked, accepted, and_then-accepted, accepted_inj}
use etcd_fsm.Facts.{ModelFacts, lookup}
use etcd_fsm.Schema.{register}

module _ {ℓ} {V : Type ℓ} (d : ℕ) where
  module _ (x : ℕ × V) (xs : List (ℕ × V)) where
    lookup-here : (x.0 == d) ≡ true → lookup d (x ∷ xs) ≡ some x.1
    unfolding lookup
    lookup-here h = rw (h, lookup)

    lookup-there : (x.0 == d) ≡ false → lookup d (x ∷ xs) ≡ lookup d xs
    unfolding lookup
    lookup-there h = rw (h, lookup)

  abbrev or_else : Option V → Option V → Option V
  or_else (some v) o = some v
  or_else none o = o

  pub lookup-append :
      (xs ys : List (ℕ × V)) → lookup d (xs ++ ys) ≡ or_else (lookup d xs) (lookup d ys)
  unfolding lookup
  lookup-append [] ys = refl
  lookup-append (x ∷ xs) ys = elim (Bool-cases (x.0 == d)) [
    | inl same ↦ rw (lookup-here x xs same) (lookup-here x (xs ++ ys) same)
    | inr apart ↦
        rw (lookup-there x xs apart) (lookup-there x (xs ++ ys) apart ∙ lookup-append xs ys)
  ]

  pub lookup-append_some :
      (xs ys : List (ℕ × V)) {v : V} → lookup d xs ≡ some v → lookup d (xs ++ ys) ≡ some v
  lookup-append_some xs ys h = lookup-append xs ys ∙ ap (λ o. or_else o (lookup d ys)) h

  -- A key of the longer list is one of the shorter list, or it is the last entry's.
  pub lookup-append_last :
      (entry : ℕ × V) (xs : List (ℕ × V)) {v : V}
      → lookup d (xs ++ entry ∷ []) ≡ some v
      → (lookup d xs ≡ some v) ⊎ ((entry.0 ≡ d) × (entry.1 ≡ v))
  unfolding lookup
  lookup-append_last entry xs {v} h = elim (Option-cases (lookup d xs)) [
    | inr found ↦ inl (
        found.1
        ∙ sym (ap (λ o. or_else o (lookup d (entry ∷ []))) found.1)
        ∙ sym (lookup-append xs (entry ∷ []))
        ∙ h)
    | inl none_there ↦
        let last =
          sym (ap (λ o. or_else o (lookup d (entry ∷ []))) none_there)
          ∙ sym (lookup-append xs (entry ∷ []))
          ∙ h in
        elim (Bool-cases (entry.0 == d)) [
          | inl same ↦
              inr (ground arith, some-injective _ _ (sym (lookup-here entry [] same) ∙ last))
          | inr apart ↦ inl (none_there ∙ sym (lookup-there entry [] apart) ∙ last)
        ]
  ]

pub lookup-last {ℓ} :
    {V : Type ℓ} (entry : ℕ × V) (xs : List (ℕ × V))
    → lookup entry.0 xs ≡ none
    → lookup entry.0 (xs ++ entry ∷ []) ≡ some entry.1
lookup-last entry xs h =
    lookup-append entry.0 xs (entry ∷ [])
    ∙ ap (λ o. or_else entry.0 o (lookup entry.0 (entry ∷ []))) h
    ∙ lookup-here entry.0 entry [] (ground arith)

module _ {ℓ} {V : Type ℓ} (check : ModelFacts → Checked (ℕ × V)) where
  -- The mapping has what the check of the model gave.
  abbrev pub IsRegistered : List (ℕ × V) → ModelFacts → Type ℓ
  IsRegistered mapping m =
      (entry : ℕ × V) × (check m ≡ accepted entry) × (lookup entry.0 mapping ≡ some entry.1)

  -- What one turn of the loop that is accepted went through.
  register-turn :
      (m : ModelFacts) (rest : List ModelFacts) (seen : List ℕ) (acc : List (ℕ × V))
      {mapping : List (ℕ × V)}
      → register check (m ∷ rest) seen acc ≡ accepted mapping
      → (entry : ℕ × V) × (member m.identity seen ≡ false)
        × (check m ≡ accepted entry)
        × (lookup entry.0 acc ≡ none)
        × (register check rest (m.identity ∷ seen) (acc ++ entry ∷ []) ≡ accepted mapping)
  unfolding register
  register-turn m rest seen acc {mapping} h = elim (Bool-cases (member m.identity seen)) [
    | inl repeated ↦ let refusal = rw (repeated, register) at h in cc
    | inr fresh ↦
        let (entry, passed, rest_h) = and_then-accepted (check m) _ (rw (fresh, register) at h) in
        elim (Option-cases (lookup entry.0 acc)) [
          | inl free ↦ (entry, fresh, passed, free, rw free at rest_h)
          | inr taken ↦ let refusal = rw taken.1 at rest_h in cc
        ]
  ]

  -- What the mapping had before the loop it has after.
  pub register-keeps :
      (models : List ModelFacts) (seen : List ℕ) (acc mapping : List (ℕ × V)) (d : ℕ) (v : V)
      → register check models seen acc ≡ accepted mapping
      → lookup d acc ≡ some v
      → lookup d mapping ≡ some v
  unfolding register
  register-keeps [] seen acc mapping d v h k =
      subst (λ found. lookup d found ≡ some v) (accepted_inj h) k
  register-keeps (m ∷ rest) seen acc mapping d v h k =
      let (entry, _, passed, free, turn) = register-turn m rest seen acc h in
      register-keeps rest (m.identity ∷ seen) (acc ++ entry ∷ []) mapping d v turn
        (lookup-append_some d acc (entry ∷ []) k)

  pub register-All :
      (models : List ModelFacts) (seen : List ℕ) (acc mapping : List (ℕ × V))
      → register check models seen acc ≡ accepted mapping
      → All (IsRegistered mapping) models
  register-All [] seen acc mapping h = tt
  register-All (m ∷ rest) seen acc mapping h =
      let (entry, _, passed, free, turn) = register-turn m rest seen acc h in
      (
        (
          entry,
          passed,
          register-keeps rest (m.identity ∷ seen) (acc ++ entry ∷ []) mapping entry.0 entry.1 turn
              (lookup-last entry acc free),
        ),
        register-All rest (m.identity ∷ seen) (acc ++ entry ∷ []) mapping turn,
      )

  -- The model that the mapping has an entry for.
  abbrev pub IsDeclaredBy : List ModelFacts → ℕ → V → Type ℓ
  IsDeclaredBy models d v = (m : ModelFacts) × Mem m models × (check m ≡ accepted (d, v))

  pub register-IsDeclaredBy :
      (models : List ModelFacts) (seen : List ℕ) (acc mapping : List (ℕ × V)) (d : ℕ) (v : V)
      → register check models seen acc ≡ accepted mapping
      → lookup d mapping ≡ some v
      → (lookup d acc ≡ some v) ⊎ IsDeclaredBy models d v
  unfolding register
  register-IsDeclaredBy [] seen acc mapping d v h k =
      inl (subst (λ found. lookup d found ≡ some v) (sym (accepted_inj h)) k)
  register-IsDeclaredBy (m ∷ rest) seen acc mapping d v h k =
      let (entry, _, passed, free, turn) = register-turn m rest seen acc h in
      elim (register-IsDeclaredBy rest (m.identity ∷ seen) (acc ++ entry ∷ []) mapping d v turn k) [
        | inr declared ↦ inr (declared.0, mem-cons_of_mem m declared.1, declared.2)
        | inl at_last ↦ elim (lookup-append_last d entry acc at_last) [
          | inl before ↦ inl before
          | inr now ↦ inr (m, mem-cons_self, cc)
        ]
      ]

  register-fresh :
      (models : List ModelFacts) (seen : List ℕ) (acc mapping : List (ℕ × V)) (key : ℕ)
      → register check models seen acc ≡ accepted mapping
      → member key seen ≡ true
      → member key (map (λ m. m.identity) models) ≡ false
  unfolding member
  register-fresh [] seen acc mapping key h k = refl
  register-fresh (m ∷ rest) seen acc mapping key h k =
      let (entry, fresh, passed, free, turn) = register-turn m rest seen acc h in
      let later = register-fresh rest (m.identity ∷ seen) (acc ++ entry ∷ []) mapping key turn in
      ground arith

  -- No model is registered twice.
  pub register-distinct :
      (models : List ModelFacts) (seen : List ℕ) (acc mapping : List (ℕ × V))
      → register check models seen acc ≡ accepted mapping
      → has_duplicate (map (λ m. m.identity) models) ≡ false
  unfolding has_duplicate member
  register-distinct [] seen acc mapping h = refl
  register-distinct (m ∷ rest) seen acc mapping h =
      let (entry, _, _, _, turn) = register-turn m rest seen acc h in
      let later = register-distinct rest (m.identity ∷ seen) (acc ++ entry ∷ []) mapping turn in
      let absent =
        register-fresh rest (m.identity ∷ seen) (acc ++ entry ∷ []) mapping m.identity turn
          (ground arith) in
      ground arith
