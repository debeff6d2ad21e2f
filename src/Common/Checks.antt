-- ===== src/Common/Checks.antt =====
-- Go's sequences of checks, each with an early return.
use mathlib.Core.Path.{◌≡◌, refl}
use mathlib.Core.Bool.{Bool, true, false, ◌||◌}
use umodel_sre_rca.Common.Outcome.{Error, Result, ok, err, refuse_if, ◌>>◌, ◌>>=◌}

-- A check and what follows it succeed together.
pub passes :
    {A : Type 0} {a : A} (bad : Bool) (e : Error) (r : Result A)
    → (refuse_if bad e >> r) ≡ ok a
    → (bad ≡ false) × (r ≡ ok a)
passes true e r h = absurd (cc)
passes false e r h = (refl, h)

pub passed :
    (bad : Bool) (e : Error) (r : Result (Unit {0}))
    → bad ≡ false
    → r ≡ ok tt
    → (refuse_if bad e >> r) ≡ ok tt
passed bad e r f h = rw (f, h) refl

pub both_pass :
    {A : Type 0} {a : A} (c : Result (Unit {0})) (r : Result A)
    → (c >> r) ≡ ok a
    → (c ≡ ok tt) × (r ≡ ok a)
both_pass (err e) r h = absurd (cc)
both_pass (ok tt) r h = (refl, h)

pub either_false : (a b : Bool) → (a || b) ≡ false → (a ≡ false) × (b ≡ false)
either_false true b h = absurd (cc)
either_false false b h = (refl, h)

-- A sequence that succeeds did so step by step.
pub bound :
    {A B : Type 0} {b : B} (m : Result A) (g : A → Result B)
    → (m >>= g) ≡ ok b
    → (a : A) × (m ≡ ok a) × (g a ≡ ok b)
bound (ok a) g h = (a, refl, h)
bound (err e) g h = absurd (cc)

pub from_ok : {A : Type 0} {a b : A} → ok a ≡ ok b → a ≡ b
from_ok h = cc

pub unrefused : (bad : Bool) (e : Error) → refuse_if bad e ≡ ok tt → bad ≡ false
unrefused true e h = absurd (cc)
unrefused false e h = refl
