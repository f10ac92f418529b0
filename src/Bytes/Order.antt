-- ===== src/Bytes/Order.antt =====
-- The laws of the equality and of the order of byte strings.
use etcd_fsm.Common.{◌≡◌, refl, ◌↔◌, true, false, [], ◌∷◌, ◌++◌, arith, Bool-cases, inl, inr}
use etcd_fsm.Bytes.{Bytes, eq_bytes, lt_bytes, le_bytes}

pub eq_bytes_refl : (x : Bytes) → eq_bytes x x ≡ true
unfolding eq_bytes
eq_bytes_refl [] = refl
eq_bytes_refl (a ∷ x) = ground (arith, eq_bytes_refl x)

pub eq_of_eq_bytes : (x y : Bytes) → eq_bytes x y ≡ true → x ≡ y
unfolding eq_bytes
eq_of_eq_bytes [] [] h = refl
eq_of_eq_bytes [] (b ∷ y) h = ground arith
eq_of_eq_bytes (a ∷ x) [] h = ground arith
eq_of_eq_bytes (a ∷ x) (b ∷ y) h = ground (arith, eq_of_eq_bytes x y)

pub eq_bytes_iff : (x y : Bytes) → (eq_bytes x y ≡ true) ↔ (x ≡ y)
eq_bytes_iff x y = (eq_of_eq_bytes x y, λ e. rw e (eq_bytes_refl y))

pub lt_bytes_irrefl : (x : Bytes) → lt_bytes x x ≡ false
unfolding lt_bytes
lt_bytes_irrefl [] = refl
lt_bytes_irrefl (a ∷ x) = ground (arith, lt_bytes_irrefl x)

pub lt_bytes_trans :
    (x y z : Bytes) → lt_bytes x y ≡ true → lt_bytes y z ≡ true → lt_bytes x z ≡ true
unfolding lt_bytes
lt_bytes_trans x [] z h k =
    elim x as (λ x. lt_bytes x [] ≡ true → lt_bytes x z ≡ true) [ [] ↦ λ p. cc | a ∷ x ↦ λ p. cc ] h
lt_bytes_trans x (b ∷ y) [] h k = cc
lt_bytes_trans [] (b ∷ y) (c ∷ z) h k = refl
lt_bytes_trans (a ∷ x) (b ∷ y) (c ∷ z) h k = ground (arith, lt_bytes_trans x y z)

pub lt_bytes-total : (x y : Bytes) → lt_bytes x y ≡ false → lt_bytes y x ≡ false → x ≡ y
unfolding lt_bytes
lt_bytes-total [] [] h k = refl
lt_bytes-total [] (b ∷ y) h k = cc
lt_bytes-total (a ∷ x) [] h k = cc
lt_bytes-total (a ∷ x) (b ∷ y) h k = ground (arith, lt_bytes-total x y)

-- Between `x` and its successor `x + b"\0"` there is nothing: a page that starts at the successor
-- of the last key goes on right behind it.
pub lt_bytes-successor : (x y : Bytes) → lt_bytes y (x ++ 0 ∷ []) ≡ le_bytes y x
unfolding lt_bytes le_bytes
lt_bytes-successor [] [] = refl
lt_bytes-successor [] (b ∷ []) = ground arith
lt_bytes-successor [] (b ∷ c ∷ y) = ground arith
lt_bytes-successor (a ∷ x) [] = refl
lt_bytes-successor (a ∷ x) (b ∷ y) = ground (arith, lt_bytes-successor x y)

pub lt_of_le_of_lt :
    (x y z : Bytes) → lt_bytes y x ≡ false → lt_bytes y z ≡ true → lt_bytes x z ≡ true
unfolding lt_bytes
lt_of_le_of_lt x y z h k = elim (Bool-cases (lt_bytes x y)) [
  | inl below ↦ lt_bytes_trans x y z below k
  | inr not_below ↦ rw (lt_bytes-total x y not_below h) k
]

pub lt_of_lt_of_le :
    (x y z : Bytes) → lt_bytes x y ≡ true → lt_bytes z y ≡ false → lt_bytes x z ≡ true
unfolding lt_bytes
lt_of_lt_of_le x y z h k = elim (Bool-cases (lt_bytes y z)) [
  | inl below ↦ lt_bytes_trans x y z h below
  | inr not_below ↦ rw (← lt_bytes-total y z not_below k) h
]

pub lt_bytes-asymm : (x y : Bytes) → lt_bytes x y ≡ true → lt_bytes y x ≡ false
lt_bytes-asymm x y h = elim (Bool-cases (lt_bytes y x)) [
  | inl back ↦ cc (lt_bytes_trans x y x h back, lt_bytes_irrefl x)
  | inr e ↦ e
]

pub lt_bytes-nil : (x : Bytes) → lt_bytes x [] ≡ false
unfolding lt_bytes
lt_bytes-nil [] = refl
lt_bytes-nil (a ∷ x) = refl
