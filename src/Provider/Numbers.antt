-- ===== src/Provider/Numbers.antt =====
-- The numbers of the provider: the greatest and the least of some values.
use umodel_sre_rca.Common.{
  ◌≡◌, refl, arith, List, [], ◌∷◌, true, false, Bool-cases, inl, inr, All, Within, if◌then◌else◌,
  sym, subst, Bool,
}
use umodel_sre_rca.Provider.Summary.{Float, lt_float, maximum, minimum}

abbrev pub IsNumber : Float → Type 0
IsNumber Float.nan = ⊥
IsNumber _ = Unit

-- a <= b, among numbers
abbrev pub NoLess : Float → Float → Type 0
NoLess b a = lt_float b a ≡ false

NoLess-trans : (a b c : Float) → IsNumber b → NoLess a b → NoLess b c → NoLess a c
NoLess-trans (Float.finite l) (Float.finite m) (Float.finite n) k h j = ground arith
NoLess-trans a b c k h j = ground arith

less_no_more : (a b : Float) → lt_float a b ≡ true → NoLess b a
less_no_more (Float.finite m) (Float.finite n) h = ground arith
less_no_more a b h = ground arith

NoLess-refl : (a : Float) → NoLess a a
NoLess-refl (Float.finite m) = ground arith
NoLess-refl a = ground arith

-- A loop that replaces its result by each value that `after` puts after it.
extreme : (Float → Float → Bool) → Float → List Float → Float
extreme after result [] = result
extreme after result (v ∷ vs) = extreme after (if after result v then v else result) vs

-- r is one of the values, and none comes after it.
abbrev pub IsExtreme : (Float → Float → Bool) → Float → List Float → Type 0
IsExtreme after r xs = Within r xs × All (λ x. after r x ≡ false) xs

module _ (after : Float → Float → Bool)
    (after_trans : (a b c : Float)
      → IsNumber b
      → after a b ≡ false
      → after b c ≡ false
      → after a c ≡ false)
    (after_asym : (a b : Float) → after a b ≡ true → after b a ≡ false)
    (after_refl : (a : Float) → after a a ≡ false) where
  skipped :
      {r v u : Float} (us : List Float)
      → IsNumber v
      → after v u ≡ false
      → IsExtreme after r (v ∷ us)
      → IsExtreme after r (v ∷ u ∷ us)
  skipped {r} {v} {u} us number n (inl e, (top, rest)) =
      (inl e, (top, (after_trans r v u number top n, rest)))
  skipped {r} {v} {u} us number n (inr w, (top, rest)) =
      (inr (inr w), (top, (after_trans r v u number top n, rest)))

  taken :
      {r v u : Float} (us : List Float)
      → IsNumber u
      → after v u ≡ true
      → IsExtreme after r (u ∷ us)
      → IsExtreme after r (v ∷ u ∷ us)
  taken {r} {v} {u} us number t (found, (top, rest)) =
      (inr found, (after_trans r u v number top (after_asym v u t), (top, rest)))

  extreme-IsExtreme :
      (v : Float) (vs : List Float)
      → All IsNumber (v ∷ vs)
      → IsExtreme after (extreme after v vs) (v ∷ vs)
  unfolding extreme
  extreme-IsExtreme v [] numbers = (inl refl, (after_refl v, tt))
  extreme-IsExtreme v (u ∷ us) (nv, (nu, ns)) = elim (Bool-cases (after v u)) [
    | inl t ↦
        subst (λ b. IsExtreme after (extreme after (if b then u else v) us) (v ∷ u ∷ us)) (sym t)
          (taken us nu t (extreme-IsExtreme u us (nu, ns)))
    | inr n ↦
        subst (λ b. IsExtreme after (extreme after (if b then u else v) us) (v ∷ u ∷ us)) (sym n)
          (skipped us nv n (extreme-IsExtreme v us (nv, ns)))
  ]

abbrev pub more : Float → Float → Bool
more a b = lt_float b a

maximum-extreme : (v : Float) (vs : List Float) → maximum v vs ≡ extreme lt_float v vs
unfolding maximum extreme
maximum-extreme v [] = refl
maximum-extreme v (u ∷ us) = maximum-extreme (if lt_float v u then u else v) us

minimum-extreme : (v : Float) (vs : List Float) → minimum v vs ≡ extreme more v vs
unfolding minimum extreme
minimum-extreme v [] = refl
minimum-extreme v (u ∷ us) = minimum-extreme (if lt_float u v then u else v) us

-- On values of which none is NaN, `maximum` returns one of them, and no value is greater; `minimum`
-- returns one of them, and no value is less.
pub maximum-minimum-IsExtreme :
    (v : Float) (vs : List Float)
    → All IsNumber (v ∷ vs)
    → IsExtreme lt_float (maximum v vs) (v ∷ vs) × IsExtreme more (minimum v vs) (v ∷ vs)
maximum-minimum-IsExtreme v vs numbers = (
  subst (λ r. IsExtreme lt_float r (v ∷ vs)) (sym (maximum-extreme v vs))
      (extreme-IsExtreme lt_float NoLess-trans less_no_more NoLess-refl v vs numbers),
  subst (λ r. IsExtreme more r (v ∷ vs)) (sym (minimum-extreme v vs))
      (extreme-IsExtreme more (λ a b c k h j. NoLess-trans c b a k j h) (λ a b. less_no_more b a)
        NoLess-refl v vs numbers),
)
