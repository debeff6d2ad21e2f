-- ===== src/Evidence/Unordered.antt =====
-- BindingsFor on bindings of different identifiers does not see their order.
use mathlib.Core.List.{Permᴰ}
use umodel_sre_rca.Common.{
  refl, inr, inl, ◌==◌, All, List, [], arith, false, subst, ◌∙◌, ◌∷◌, ◌≡◌, Bool-cases, String,
}
use umodel_sre_rca.Evidence.{Binding, insert_by_id, bindings_for, text_lt}
use umodel_sre_rca.Evidence.TextOrder.{same_test, text_lt-before, text_lt-total}

abbrev pub IsNew : Binding → Binding → Type 0
IsNew b k = (b.id == k.id) ≡ false

-- No two bindings have one identifier.
abbrev pub Distinct : List Binding → Type 0
Distinct [] = Unit
Distinct (b ∷ bs) = All (IsNew b) bs × Distinct bs

IsNew-sym : (b k : Binding) → IsNew b k → IsNew k b
IsNew-sym b k h = same_test k.id b.id ∙ h

pub All-perm : (P : Binding → Type 0) {xs ys : List Binding} → Permᴰ xs ys → All P xs → All P ys
All-perm P Permᴰ.nil a = a
All-perm P (Permᴰ.cons e d) (p, a) = (subst P e p, All-perm P d a)
All-perm P (Permᴰ.swap e f) (p, (q, a)) = (subst P f q, (subst P e p, a))
All-perm P (Permᴰ.trans d e) a = All-perm P e (All-perm P d a)

pub Distinct-perm : {xs ys : List Binding} → Permᴰ xs ys → Distinct xs → Distinct ys
Distinct-perm Permᴰ.nil h = h
Distinct-perm (Permᴰ.cons {l₂ = l} e d) (a, h) =
    (subst (λ b. All (IsNew b) l) e (All-perm _ d a), Distinct-perm d h)
Distinct-perm (Permᴰ.swap {a} {b} {b' = b'} {l = l} e f) ((n, p), (q, h)) =
    subst (λ z. Distinct (z ∷ b' ∷ l)) f
      (subst (λ z. Distinct (b ∷ z ∷ l)) e ((IsNew-sym a b n, q), (p, h)))
Distinct-perm (Permᴰ.trans d e) h = Distinct-perm e (Distinct-perm d h)

-- Insertions of different bindings may change places.
insert_by_id_comm :
    (b k : Binding) (bs : List Binding)
    → IsNew b k
    → insert_by_id b (insert_by_id k bs) ≡ insert_by_id k (insert_by_id b bs)
unfolding insert_by_id
insert_by_id_comm b k [] n = ground (arith, text_lt-total b.id k.id n)
insert_by_id_comm b k (x ∷ bs) n = elim (Bool-cases (text_lt x.id b.id)) [
  | inl t ↦ elim (Bool-cases (text_lt x.id k.id)) [
    | inl u ↦ ground (arith, t, u, insert_by_id_comm b k bs n)
    | inr u ↦ ground (arith, t, u, text_lt-before x.id k.id b.id u t)
  ]
  | inr t ↦ elim (Bool-cases (text_lt x.id k.id)) [
    | inl u ↦ ground (arith, t, u, text_lt-before x.id b.id k.id t u)
    | inr u ↦ ground (arith, t, u, text_lt-total b.id k.id n)
  ]
]

bindings_for-swap :
    (class : String) (b k : Binding) (bs : List Binding)
    → IsNew b k
    → bindings_for class (b ∷ k ∷ bs) ≡ bindings_for class (k ∷ b ∷ bs)
unfolding bindings_for
bindings_for-swap class b k bs n = elim (Bool-cases (b.evidence_class == class)) [
  | inl t ↦ elim (Bool-cases (k.evidence_class == class)) [
    | inl u ↦ rw (t, u) (insert_by_id_comm b k (bindings_for class bs) n)
    | inr u ↦ rw (t, u) refl
  ]
  | inr t ↦ rw t refl
]

pub bindings_for-perm :
    (class : String) {xs ys : List Binding}
    → Permᴰ xs ys
    → Distinct xs
    → bindings_for class xs ≡ bindings_for class ys
unfolding bindings_for
bindings_for-perm class Permᴰ.nil h = refl
bindings_for-perm class (Permᴰ.cons {a} {l₁ = xs} {l₂ = ys} e d) (_, h) =
    subst (λ z. bindings_for class (a ∷ xs) ≡ bindings_for class (z ∷ ys)) e
      (rw (bindings_for-perm class d h) refl)
bindings_for-perm class (Permᴰ.swap {a} {b} {b' = b'} {l = l} e f) ((n, _), _) =
    subst (λ z. bindings_for class (a ∷ b ∷ l) ≡ bindings_for class (z ∷ b' ∷ l)) f
      (subst (λ z. bindings_for class (a ∷ b ∷ l) ≡ bindings_for class (b ∷ z ∷ l)) e
        (bindings_for-swap class a b l n))
bindings_for-perm class (Permᴰ.trans d e) h =
    bindings_for-perm class d h ∙ bindings_for-perm class e (Distinct-perm d h)
