-- ===== src/Backend/Prefix/Carry.antt =====
-- The loop of `prefix_range_end` computes the carry of adding one to the last byte.
use etcd_fsm.Common.{
  ℕ, zero, suc, ◌+◌, ◌≤◌, ◌<◌, ◌≡◌, refl, Option, none, some, [], ◌∷◌, ◌++◌, arith, length, take,
  ltb, if◌then◌else◌, ap,
}
use etcd_fsm.Bytes.{Bytes}
use etcd_fsm.Backend.Prefix.{byte_at, bump_last}

-- The bytes up to the last one below 255, that one raised; nothing where all bytes are 255.
unfoldable pub carry : Bytes → Option Bytes
carry [] = none
carry (c ∷ x) = elim (carry x) [
  | none ↦ if ltb c 255 then some ((c + 1) ∷ []) else none
  | some e ↦ some (c ∷ e)
]

unfoldable pub carry_or : Option Bytes → Bytes
carry_or none = 0 ∷ []
carry_or (some e) = e

carry-snoc :
    (x : Bytes) (c : ℕ)
    → carry (x ++ c ∷ []) ≡ (if ltb c 255 then some (x ++ (c + 1) ∷ []) else carry x)
unfolding carry
carry-snoc [] c = ground arith
carry-snoc (a ∷ x) c = ground (arith, carry-snoc x c)

take-suc : (x : Bytes) (i : ℕ) → i < length x → take (suc i) x ≡ take i x ++ byte_at x i ∷ []
take-suc [] i h = absurd (omega arith)
take-suc (c ∷ x) zero h = refl
take-suc (c ∷ x) (suc i) h = ap (◌∷◌ c) (take-suc x i (omega arith))

pub take-length : (x : Bytes) → take (length x) x ≡ x
take-length [] = refl
take-length (c ∷ x) = ap (◌∷◌ c) (take-length x)

pub bump_last-carry :
    (x : Bytes) (n : ℕ) → n ≤ length x → bump_last x n ≡ carry_or (carry (take n x))
unfolding bump_last carry carry_or
bump_last-carry x zero h = refl
bump_last-carry x (suc i) h =
    rw (take-suc x i h) (ground (arith, carry-snoc (take i x) (byte_at x i), bump_last-carry x i))
