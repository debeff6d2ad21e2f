-- ===== src/Common/Choice.antt =====
-- Which row a SELECT finds: rows in a table, the row of a unique key, the first row of an order.
use Prim.Native.Nat.{◌≤◌, ◌<◌}
use mathlib.Core.Path.{◌≡◌, refl, sym, subst}
use mathlib.Core.Logic.{◌⊎◌, inl, inr}
use mathlib.Core.Bool.{Bool, true, false}
use mathlib.Core.List.{List, [], ◌∷◌}
use mathlib.Core.Option.{none, some}
use native.Mathlib.Omega.{arith}
use umodel_sre_rca.Common.Tests.{Bool-cases, Option-cases}
use umodel_sre_rca.Common.Rows.{
  All, update_where, find_where, exists_where, count_where, better, first_by,
}

-- x is a row of the table.
abbrev pub Within : {A : Type 0} → A → List A → Type 0
Within x [] = ⊥
Within x (y ∷ ys) = (x ≡ y) ⊎ Within x ys

pub All-Within : {A : Type 0} (P : A → Type 0) (x : A) (xs : List A) → All P xs → Within x xs → P x
All-Within P x [] h w = absurd w
All-Within P x (y ∷ ys) h (inl e) = subst P (sym e) h.0
All-Within P x (y ∷ ys) h (inr w) = All-Within P x ys h.1 w

module _ {A : Type 0} (q : A → Bool) where
  pub count_where-Within : (x : A) (xs : List A) → Within x xs → q x ≡ true → 0 < count_where q xs
  unfolding count_where
  count_where-Within x [] w h = absurd w
  count_where-Within x (y ∷ ys) (inl e) h = rw (← e, h) (omega arith)
  count_where-Within x (y ∷ ys) (inr w) h = omega (arith, count_where-Within x ys w h)

  pub exists_where-Within :
      (x : A) (xs : List A) → Within x xs → q x ≡ true → exists_where q xs ≡ true
  unfolding exists_where
  exists_where-Within x [] w h = absurd w
  exists_where-Within x (y ∷ ys) (inl e) h = rw (← e, h)
  exists_where-Within x (y ∷ ys) (inr w) h = ground (arith, exists_where-Within x ys w h)

  pub exists_where-without :
      (x : A) (xs : List A) → Within x xs → exists_where q xs ≡ false → q x ≡ false
  unfolding exists_where
  exists_where-without x [] w h = absurd w
  exists_where-without x (y ∷ ys) (inl e) h = rw e (ground arith)
  exists_where-without x (y ∷ ys) (inr w) h = exists_where-without x ys w (ground arith)

  pub find_where-Within : (xs : List A) {x : A} → find_where q xs ≡ some x → Within x xs
  unfolding find_where
  find_where-Within [] h = cc
  find_where-Within (y ∷ ys) {x} h = elim (Bool-cases (q y)) [
    | inl e ↦ inl (ground arith)
    | inr e ↦ inr (find_where-Within ys (rw e at h))
  ]

  -- The row of a unique key.
  pub find_where_unique :
      (x : A) (xs : List A)
      → count_where q xs ≤ 1
      → Within x xs
      → q x ≡ true
      → find_where q xs ≡ some x
  unfolding find_where count_where
  find_where_unique x [] c w h = absurd w
  find_where_unique x (y ∷ ys) c (inl e) h = rw (← e, h)
  find_where_unique x (y ∷ ys) c (inr w) h = elim (Bool-cases (q y)) [
    | inl e ↦ let more : 0 < count_where q ys = count_where-Within x ys w h in absurd (ground arith)
    | inr e ↦ rw e (find_where_unique x ys (ground arith) w h)
  ]

  pub count_where-le :
      (p : A → Bool)
      → ((x : A) → p x ≡ true → q x ≡ true)
      → (xs : List A) → count_where p xs ≤ count_where q xs
  unfolding count_where
  count_where-le p h [] = omega arith
  count_where-le p h (x ∷ xs) = ground (arith, h x, count_where-le p h xs)

  pub count_where-none :
      (xs : List A) → ((x : A) → Within x xs → q x ≡ false) → count_where q xs ≡ 0
  unfolding count_where
  count_where-none [] h = refl
  count_where-none (x ∷ xs) h =
      ground (arith, h x (inl refl), count_where-none xs (λ y w. h y (inr w)))

  pub exists_where-none :
      (xs : List A) → ((x : A) → Within x xs → q x ≡ false) → exists_where q xs ≡ false
  unfolding exists_where
  exists_where-none [] h = refl
  exists_where-none (x ∷ xs) h =
      ground (arith, h x (inl refl), exists_where-none xs (λ y w. h y (inr w)))

module _ {A : Type 0} (before : A → A → Bool) (p : A → Bool) where
  pub first_by-none :
      (xs : List A) → first_by before p xs ≡ none → (x : A) → Within x xs → p x ≡ false
  unfolding first_by better
  first_by-none [] h x w = absurd w
  first_by-none (y ∷ ys) h x (inl e) = rw e (ground arith)
  first_by-none (y ∷ ys) h x (inr w) = first_by-none ys (ground arith) x w

  pub first_by-some :
      (xs : List A) {x : A} → first_by before p xs ≡ some x → Within x xs × (p x ≡ true)
  unfolding first_by better
  first_by-some [] h = absurd (cc)
  first_by-some (y ∷ ys) {x} h = elim (Bool-cases (p y)) [
    | inr f ↦ let (w, t) = first_by-some ys {x = x} (rw f at h) in (inr w, t)
    | inl t ↦ elim (Option-cases (first_by before p ys)) [
      | inl n ↦ let e : y ≡ x = ground arith in (inl (sym e), subst (λ z. p z ≡ true) e t)
      | inr (z, s) ↦ elim (Bool-cases (before z y)) [
        | inl b ↦
            let e : z ≡ x = ground arith in
            let (w, u) = first_by-some ys {x = z} s in
            (inr (subst (λ v. Within v ys) e w), subst (λ v. p v ≡ true) e u)
        | inr b ↦ let e : y ≡ x = ground arith in (inl (sym e), subst (λ z. p z ≡ true) e t)
      ]
    ]
  ]

  -- The first row stands before every other row that p fits, in an order that `before` refines.
  module _ (le : A → A → Type 0) (le_refl : (x : A) → le x x)
      (le_trans : (x y z : A) → le x y → le y z → le x z)
      (yes_le : (x y : A) → before x y ≡ true → le x y)
      (no_le : (x y : A) → before x y ≡ false → le y x) where
    pub first_by-least :
        (xs : List A) {x : A}
        → first_by before p xs ≡ some x
        → (y : A) → Within y xs
        → p y ≡ true
        → le x y
    unfolding first_by better
    first_by-least [] h y w t = absurd w
    first_by-least (k ∷ ks) {x} h y (inl e) t =
        let here : p k ≡ true = subst (λ z. p z ≡ true) e t in
        elim (Option-cases (first_by before p ks)) [
          | inl n ↦
              let same : k ≡ x = ground arith in
              subst (λ z. le z y) same (subst (λ z. le k z) (sym e) (le_refl k))
          | inr (z, s) ↦ elim (Bool-cases (before z k)) [
            | inl b ↦
                let same : z ≡ x = ground arith in
                subst (λ v. le v y) same (subst (λ v. le z v) (sym e) (yes_le z k b))
            | inr b ↦
                let same : k ≡ x = ground arith in
                subst (λ v. le v y) same (subst (λ v. le k v) (sym e) (le_refl k))
          ]
        ]
    first_by-least (k ∷ ks) {x} h y (inr w) t = elim (Option-cases (first_by before p ks)) [
      | inl n ↦ absurd (no_row (first_by-none ks n y w) t)
      | inr (z, s) ↦
          let low : le z y = first_by-least ks {x = z} s y w t in
          elim (Bool-cases (p k)) [
            | inr f ↦ let same : z ≡ x = ground arith in subst (λ v. le v y) same low
            | inl u ↦ elim (Bool-cases (before z k)) [
              | inl b ↦ let same : z ≡ x = ground arith in subst (λ v. le v y) same low
              | inr b ↦
                  let same : k ≡ x = ground arith in
                  subst (λ v. le v y) same (le_trans k z y (no_le z k b) low)
            ]
          ]
    ]
      where
        no_row : {b : Bool} → b ≡ false → b ≡ true → ⊥
        no_row f u = ground arith

pub update_where-none :
    {A : Type 0} (p : A → Bool) (f : A → A) (xs : List A)
    → ((x : A) → Within x xs → p x ≡ false)
    → update_where p f xs ≡ xs
unfolding update_where
update_where-none p f [] h = refl
update_where-none p f (x ∷ xs) h =
    rw (h x (inl refl), update_where-none p f xs (λ y w. h y (inr w)))
