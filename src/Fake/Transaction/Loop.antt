-- ===== src/Fake/Transaction/Loop.antt =====
-- The loop over the operations of a transaction that changes data: what holds of the state between
-- two rounds. A key outside the ranges written so far has its old versions.
use etcd_fsm.Common.{◌+◌, ◌≡◌, refl, Bool, true, false, ◌||◌, some, List, [], ◌∷◌, ◌++◌, arith, any}
use etcd_fsm.Bytes.{Bytes, le_bytes}
use etcd_fsm.Bytes.Order.{lt_bytes_irrefl, lt_bytes-successor}
use etcd_fsm.Fake.Keys.{key_in_range, ranges_overlap}
use etcd_fsm.Fake.Keys.Overlap.{ranges_overlap_of_common}
use etcd_fsm.Fake.{FakeEtcdBackend, versions}
use etcd_fsm.Fake.History.{IsHistory}
use etcd_fsm.Fake.Transaction.{WriteRange}

-- Some range written so far holds the key.
abbrev pub is_written : Bytes → List WriteRange → Bool
is_written key = any (λ w. key_in_range key w.0 w.1)

-- The state `s` between two rounds of a loop that began in `s0`.
pub record IsRunning (s0 : FakeEtcdBackend) (written : List WriteRange) (s : FakeEtcdBackend)
    : Type 0 where
  pub frame : s ≡ record s0 { history = s.history }
  pub history : IsHistory (s0.revision + 1) s.history
  pub untouched :
      (key : Bytes)
      → is_written key written ≡ false
      → versions s.history key ≡ versions s0.history key

pub any-snoc {ℓ} :
    {A : Type ℓ} (p : A → Bool) (xs : List A) (x : A) → any p (xs ++ x ∷ []) ≡ (any p xs || p x)
unfolding any
any-snoc p [] x = ground arith
any-snoc p (y ∷ xs) x = ground (arith, any-snoc p xs x)

-- A key of a range that overlaps none written so far is not written yet.
pub not_written :
    (w : WriteRange) (written : List WriteRange) (key : Bytes)
    → any (ranges_overlap w) written ≡ false
    → key_in_range key w.0 w.1 ≡ true
    → is_written key written ≡ false
unfolding any
not_written w [] key h k = refl
not_written w (x ∷ written) key h k =
    ground (arith, not_written w written key, ranges_overlap_of_common w x key)

-- The range of a put holds its key.
pub put-in_range : (key : Bytes) → key_in_range key key (some (key ++ 0 ∷ [])) ≡ true
unfolding key_in_range le_bytes
put-in_range key = ground (arith, lt_bytes_irrefl key, lt_bytes-successor key key)

pub not_written-snoc :
    (written : List WriteRange) (w : WriteRange) (key : Bytes)
    → is_written key (written ++ w ∷ []) ≡ false
    → (is_written key written ≡ false) × (key_in_range key w.0 w.1 ≡ false)
not_written-snoc written w key h =
    ground (arith, any-snoc (λ (x : WriteRange). key_in_range key x.0 x.1) written w)
