-- ===== src/Bytes.antt =====
-- Python's `bytes` as lists of numbers below 256, with their equality and lexicographic order.
pub mod Order
use etcd_fsm.Common.{
  ℕ, ◌<◌, Bool, true, false, not, ◌&&◌, List, [], ◌∷◌, ltb, ◌==◌, if◌then◌else◌, All,
}

abbrev pub Bytes : Type 0
Bytes = List ℕ

-- What every Python `bytes` value satisfies.
abbrev pub IsBytes : Bytes → Type 0
IsBytes = All (λ c. c < 256)

-- `x == y`
unfoldable pub eq_bytes : Bytes → Bytes → Bool
eq_bytes [] [] = true
eq_bytes [] (b ∷ y) = false
eq_bytes (a ∷ x) [] = false
eq_bytes (a ∷ x) (b ∷ y) = a == b && eq_bytes x y

-- `x < y`
unfoldable pub lt_bytes : Bytes → Bytes → Bool
lt_bytes [] [] = false
lt_bytes [] (b ∷ y) = true
lt_bytes (a ∷ x) [] = false
lt_bytes (a ∷ x) (b ∷ y) = if ltb a b then true else if ltb b a then false else lt_bytes x y

-- `x <= y`, which for bytes is `not y < x`.
unfoldable pub le_bytes : Bytes → Bytes → Bool
le_bytes x y = not (lt_bytes y x)

-- `key.startswith(prefix)`
unfoldable pub starts_with : Bytes → Bytes → Bool
starts_with key [] = true
starts_with [] (p ∷ prefix) = false
starts_with (c ∷ key) (p ∷ prefix) = c == p && starts_with key prefix
