-- ===== src/Common/Updates.antt =====
-- Laws of the statements on tables: what an UPDATE and an INSERT do to counts and lookups, and the
-- evolution of a table row by row.
use Prim.Native.Nat.{◌+◌, ◌≤◌, ◌<◌}
use mathlib.Core.Path.{◌≡◌, refl, ◌∙◌, subst}
use mathlib.Core.Logic.{inl, inr}
use mathlib.Core.Bool.{Bool, true, false, ◌||◌}
use mathlib.Core.List.{List, [], ◌∷◌, ◌++◌}
use mathlib.Core.Option
use mathlib.Core.Option.{Option, none, some}
use native.Mathlib.Omega.{arith}
use umodel_sre_rca.Common.Tests.{if◌then◌else◌, Bool-cases}
use umodel_sre_rca.Common.Rows.{All, find_where, exists_where, count_where, update_where}

module _ {ℓ} {A : Type ℓ} (q : A → Bool) where
  pub count_where-append :
      (xs ys : List A) → count_where q (xs ++ ys) ≡ count_where q xs + count_where q ys
  unfolding count_where
  count_where-append [] ys = omega arith
  count_where-append (x ∷ xs) ys = omega (arith, count_where-append xs ys)

  pub count_where-eq-zero : (xs : List A) → exists_where q xs ≡ false → count_where q xs ≡ 0
  unfolding count_where exists_where
  count_where-eq-zero [] h = refl
  count_where-eq-zero (x ∷ xs) h = ground (arith, count_where-eq-zero xs)

  pub count_where-pos : (xs : List A) → exists_where q xs ≡ true → 0 < count_where q xs
  unfolding count_where exists_where
  count_where-pos [] h = absurd (cc)
  count_where-pos (x ∷ xs) h = ground (arith, count_where-pos xs)

  pub find_where-eq-none : (xs : List A) → exists_where q xs ≡ false → find_where q xs ≡ none
  unfolding find_where exists_where
  find_where-eq-none [] h = refl
  find_where-eq-none (x ∷ xs) h = ground (arith, find_where-eq-none xs)

  pub find_where-append :
      (xs ys : List A) → exists_where q xs ≡ false → find_where q (xs ++ ys) ≡ find_where q ys
  unfolding find_where exists_where
  find_where-append [] ys h = refl
  find_where-append (x ∷ xs) ys h = ground (arith, find_where-append xs ys)

  pub exists_where-append :
      (xs ys : List A) → exists_where q (xs ++ ys) ≡ (exists_where q xs || exists_where q ys)
  unfolding exists_where
  exists_where-append [] ys = refl
  exists_where-append (x ∷ xs) ys = ground (arith, exists_where-append xs ys)

  pub exists_where-find :
      (xs : List A) → exists_where q xs ≡ true → (x : A) × (find_where q xs ≡ some x)
  unfolding find_where exists_where
  exists_where-find [] h = absurd (cc)
  exists_where-find (x ∷ xs) h = elim (Bool-cases (q x)) [
    | inl e ↦ (x, rw e)
    | inr e ↦ let rest = exists_where-find xs (rw e at h) in (rest.0, rw e rest.1)
  ]

  pub find_where-holds : (xs : List A) {x : A} → find_where q xs ≡ some x → q x ≡ true
  unfolding find_where
  find_where-holds [] h = cc
  find_where-holds (y ∷ xs) {x} h = elim (Bool-cases (q y)) [
    | inl e ↦ ground arith
    | inr e ↦ find_where-holds xs (rw e at h)
  ]

  -- An UPDATE that gives q to no row that lacked it.
  pub count_where-update-le :
      (p : A → Bool) (f : A → A)
      → ((x : A) → p x ≡ true → q (f x) ≡ true → q x ≡ true)
      → (xs : List A) → count_where q (update_where p f xs) ≤ count_where q xs
  unfolding count_where update_where
  count_where-update-le p f keep [] = omega arith
  count_where-update-le p f keep (x ∷ xs) =
      ground (arith, keep x, count_where-update-le p f keep xs)

  -- An UPDATE after which no row that p or q fits has q.
  pub count_where-update-zero :
      (p : A → Bool) (f : A → A)
      → ((x : A) → p x ≡ true → q (f x) ≡ false)
      → ((x : A) → p x ≡ false → q x ≡ false)
      → (xs : List A) → count_where q (update_where p f xs) ≡ 0
  unfolding count_where update_where
  count_where-update-zero p f gone other [] = refl
  count_where-update-zero p f gone other (x ∷ xs) =
      ground (arith, gone x, other x, count_where-update-zero p f gone other xs)

  -- Rows keep what q looks at, so a SELECT by q finds the updated row.
  pub find_where-update :
      (p : A → Bool) (f : A → A)
      → ((x : A) → q (f x) ≡ q x)
      → (xs : List A)
      → find_where q (update_where p f xs)
        ≡ Option.map (λ x. if p x then f x else x) (find_where q xs)
  unfolding find_where update_where
  find_where-update p f same [] = refl
  find_where-update p f same (x ∷ xs) = ground (arith, same x, find_where-update p f same xs)

module _ {ℓ κ} {A : Type ℓ} (P : A → Type κ) where
  pub All-append : (xs : List A) (ys : List A) → All P xs → All P ys → All P (xs ++ ys)
  All-append [] ys h k = k
  All-append (x ∷ xs) ys h k = (h.0, All-append xs ys h.1 k)

pub All-map {ℓ κ κ'} :
    {A : Type ℓ} {P : A → Type κ} {Q : A → Type κ'} (xs : List A)
    → ((x : A) → P x → Q x)
    → All P xs
    → All Q xs
All-map [] f a = tt
All-map (x ∷ xs) f (p, a) = (f x p, All-map xs f a)

-- The rows of the first table stand in the second in the same places, each changed as R allows, and
-- new rows stand behind them.
abbrev pub Evolves {ℓ} : {A : Type ℓ} → (A → A → Type 0) → List A → List A → Type 0
Evolves R [] ys = Unit
Evolves R (x ∷ xs) [] = ⊥
Evolves R (x ∷ xs) (y ∷ ys) = R x y × Evolves R xs ys

module _ {ℓ} {A : Type ℓ} (R : A → A → Type 0) where
  pub Evolves-refl : ((x : A) → R x x) → (xs : List A) → Evolves R xs xs
  Evolves-refl same [] = tt
  Evolves-refl same (x ∷ xs) = (same x, Evolves-refl same xs)

  pub Evolves-trans :
      ((x y z : A) → R x y → R y z → R x z)
      → (xs ys zs : List A) → Evolves R xs ys
      → Evolves R ys zs
      → Evolves R xs zs
  Evolves-trans step [] ys zs h k = tt
  Evolves-trans step (x ∷ xs) [] zs h k = absurd h
  Evolves-trans step (x ∷ xs) (y ∷ ys) [] h k = k
  Evolves-trans step (x ∷ xs) (y ∷ ys) (z ∷ zs) h k =
      (step x y z h.0 k.0, Evolves-trans step xs ys zs h.1 k.1)

  pub Evolves-append : ((x : A) → R x x) → (xs ys : List A) → Evolves R xs (xs ++ ys)
  Evolves-append same [] ys = tt
  Evolves-append same (x ∷ xs) ys = (same x, Evolves-append same xs ys)

  pub Evolves-update :
      ((x : A) → R x x)
      → (p : A → Bool) (f : A → A) → ((x : A) → p x ≡ true → R x (f x))
      → (xs : List A) → Evolves R xs (update_where p f xs)
  unfolding update_where
  Evolves-update same p f step [] = tt
  Evolves-update same p f step (x ∷ xs) = elim (Bool-cases (p x)) [
    | inl e ↦ (rw e (step x e), Evolves-update same p f step xs)
    | inr e ↦ (rw e (same x), Evolves-update same p f step xs)
  ]

  -- A row that is found by what R leaves alone is found again, as R has changed it.
  pub Evolves-find :
      (q : A → Bool)
      → ((x y : A) → R x y → q y ≡ q x)
      → (xs ys : List A) {x : A} → Evolves R xs ys
      → find_where q xs ≡ some x
      → (y : A) × (find_where q ys ≡ some y) × R x y
  unfolding find_where
  Evolves-find q keep [] ys h e = cc
  Evolves-find q keep (x ∷ xs) [] h e = absurd h
  Evolves-find q keep (x ∷ xs) (y ∷ ys) {x = z} h e = elim (Bool-cases (q x)) [
    | inl t ↦
        let same : x ≡ z = ground arith in (y, rw (keep x y h.0 ∙ t), subst (λ w. R w y) same h.0)
    | inr f ↦ rw (keep x y h.0 ∙ f) (Evolves-find q keep xs ys h.1 (rw f at e))
  ]

pub All-update {ℓ κ} :
    {A : Type ℓ} (P : A → Type κ) (p : A → Bool) (f : A → A)
    → ((x : A) → p x ≡ true → P x → P (f x))
    → (xs : List A) → All P xs
    → All P (update_where p f xs)
unfolding update_where
All-update P p f keep [] h = tt
All-update P p f keep (x ∷ xs) h = elim (Bool-cases (p x)) [
  | inl e ↦ (rw e (keep x e h.0), All-update P p f keep xs h.1)
  | inr e ↦ (rw e h.0, All-update P p f keep xs h.1)
]
