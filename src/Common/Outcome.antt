-- ===== src/Common/Outcome.antt =====
-- Go's `error` results. An error is known by what `errors.Is` sees of it: the sentinel that it
-- wraps, or the text of an error that wraps none. The context that `fmt.Errorf` adds is left out.
use Prim.Native.String.{String}
use mathlib.Core.Path.{◌≡◌, refl}
use mathlib.Core.Logic.{◌⊎◌, inl, inr}
use mathlib.Core.Bool.{Bool, true, false}

pub data Error : Type 0 where
  incident_inactive job_lease_lost no_rows constraint : Error
  failure : String → Error

pub data Result {ℓ} (A : Type ℓ) : Type ℓ where
  ok : A → Result A
  err : Error → Result A

-- A step that may fail, before what is done with its value.
infixl 5 ◌>>=◌ ◌>>◌
abbrev pub ◌>>=◌ : {A B : Type 0} → Result A → (A → Result B) → Result B
◌>>=◌ r next = elim r [ err e ↦ err e | ok a ↦ next a ]

abbrev pub ◌>>◌ : {B : Type 0} → Result (Unit {0}) → Result B → Result B
check >> rest = check >>= λ _. rest

-- `if bad { return …, error }`
abbrev pub refuse_if : Bool → Error → Result (Unit {0})
refuse_if bad e = elim bad [ true ↦ err e | false ↦ ok tt ]

pub Result-cases {ℓ} :
    {A : Type ℓ} (r : Result A) → ((e : Error) × (r ≡ err e)) ⊎ ((a : A) × (r ≡ ok a))
Result-cases (err e) = inl (e, refl)
Result-cases (ok a) = inr (a, refl)
