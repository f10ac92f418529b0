-- ===== src/Backend/Chains.antt =====
-- Chains of results (etcd_fsm/_backend.py has the errors).
use etcd_fsm.Common.{◌≡◌, refl}
use etcd_fsm.Backend.{Result, ok, err, ◌>>=◌}

pub ok_inj : {A : Type 0} {a b : A} → ok a ≡ ok b → a ≡ b
ok_inj h = cc

-- What a chain of two results that is ok went through.
pub then-ok :
    {A B : Type 0} (r : Result A) (f : A → Result B) (b : B)
    → (r >>= f) ≡ ok b
    → (a : A) × (r ≡ ok a) × (f a ≡ ok b)
then-ok (ok a) f b h = (a, refl, h)
then-ok (err e) f b h = cc
