-- ===== src/Common/Lists.antt =====
-- Lists measured by native numbers and filtered by a Boolean test (Python's comprehensions).
use Prim.Native.Nat.{ℕ, zero, suc}
use mathlib.Core.Bool.{Bool, true, false, ◌||◌}
use mathlib.Core.List.{List, [], ◌∷◌, ◌++◌}
use mathlib.Core.Option.{Option, none, some}
use mathlib.Core.Path.{◌≡◌, refl}
use native.Mathlib.Omega.{arith}
use etcd_fsm.Common.Tests.{◌==◌, if◌then◌else◌}

module _ {ℓ} {A : Type ℓ} where
  abbrev pub length : List A → ℕ
  length [] = 0
  length (x ∷ xs) = suc (length xs)

  abbrev pub take : ℕ → List A → List A
  take zero xs = []
  take (suc n) [] = []
  take (suc n) (x ∷ xs) = x ∷ take n xs

  -- `[x for x in xs if p(x)]`
  unfoldable pub filter : (A → Bool) → List A → List A
  filter p [] = []
  filter p (x ∷ xs) = let rest = filter p xs in if p x then x ∷ rest else rest

  -- `any(p(x) for x in xs)`
  unfoldable pub any : (A → Bool) → List A → Bool
  any p [] = false
  any p (x ∷ xs) = p x || any p xs

  abbrev pub is_empty : List A → Bool
  is_empty [] = true
  is_empty (x ∷ xs) = false

  -- `xs[-1]`
  abbrev pub get_last? : List A → Option A
  get_last? [] = none
  get_last? (x ∷ []) = some x
  get_last? (x ∷ y ∷ ys) = get_last? (y ∷ ys)

-- A predicate on each member.
abbrev pub All {ℓ κ} : {A : Type ℓ} → (A → Type κ) → List A → Type κ
All P [] = Unit
All P (x ∷ xs) = P x × All P xs

-- `[b for a in xs if (b := f(a)) is not None]`
unfoldable pub filter_map {ℓ κ} : {A : Type ℓ} {B : Type κ} → (A → Option B) → List A → List B
filter_map f [] = []
filter_map f (x ∷ xs) = let rest = filter_map f xs in elim (f x) [ none ↦ rest | some y ↦ y ∷ rest ]

module _ {ℓ κ} {A : Type ℓ} {B : Type κ} (f : A → Option B) (x : A) (xs : List A) where
  pub filter_map-none : f x ≡ none → filter_map f (x ∷ xs) ≡ filter_map f xs
  unfolding filter_map
  filter_map-none h = rw (h, filter_map)

  pub filter_map-some : {y : B} → f x ≡ some y → filter_map f (x ∷ xs) ≡ y ∷ filter_map f xs
  unfolding filter_map
  filter_map-some h = rw (h, filter_map)

-- `key in keys`
unfoldable pub member : ℕ → List ℕ → Bool
member key [] = false
member key (x ∷ xs) = (x == key) || member key xs

-- A key that occurs twice.
unfoldable pub has_duplicate : List ℕ → Bool
has_duplicate [] = false
has_duplicate (key ∷ rest) = member key rest || has_duplicate rest

pub member-insert :
    (xs : List ℕ) (y : ℕ) (ys : List ℕ) (x : ℕ)
    → member x (xs ++ y ∷ ys) ≡ ((y == x) || member x (xs ++ ys))
unfolding member
member-insert [] y ys x = refl
member-insert (z ∷ xs) y ys x = ground (arith, member-insert xs y ys x)
