-- ===== src/Evidence/TextOrder.antt =====
-- The order of texts by which BindingsFor sorts.
use Prim.Native.Char.{code}
use Prim.Native.Nat.{Ordering, compare as compare_ℕ}
use Prim.Native.String.{String, compare, then}
use mathlib.Core.HLevel.{hedberg}
use native.Mathlib.Omega.{compare-lt, compare-eq, compare-gt}
use Prim.Native.String.compare
use text.Mathlib.Text.{is_eq, is_lt}
use umodel_sre_rca.Common.{
  Bool-cases, eq_iff, subst, ℕ, ◌≡◌, ◌∙◌, ◌⊎◌, inl, inr, sym, ◌<◌, ◌==◌, not, true, false, arith,
  refl,
}
use umodel_sre_rca.Store.Intake.{text_lt}

flip : Ordering → Ordering
flip Ordering.lt = Ordering.gt
flip Ordering.eq = Ordering.eq
flip Ordering.gt = Ordering.lt

flip-then : (o p : Ordering) → flip (then o p) ≡ then (flip o) (flip p)
unfolding flip
flip-then Ordering.lt p = refl
flip-then Ordering.eq p = refl
flip-then Ordering.gt p = refl

flips : (m n : ℕ) (o p : Ordering) → compare_ℕ m n ≡ o → compare_ℕ n m ≡ p → p ≡ flip o
unfolding flip
flips m n Ordering.lt Ordering.lt e f = absurd (omega (arith, compare-lt m n e, compare-lt n m f))
flips m n Ordering.lt Ordering.eq e f = absurd (omega (arith, compare-lt m n e, compare-eq n m f))
flips m n Ordering.lt Ordering.gt e f = refl
flips m n Ordering.eq Ordering.lt e f = absurd (omega (arith, compare-eq m n e, compare-lt n m f))
flips m n Ordering.eq Ordering.eq e f = refl
flips m n Ordering.eq Ordering.gt e f = absurd (omega (arith, compare-eq m n e, compare-gt n m f))
flips m n Ordering.gt Ordering.lt e f = refl
flips m n Ordering.gt Ordering.eq e f = absurd (omega (arith, compare-gt m n e, compare-eq n m f))
flips m n Ordering.gt Ordering.gt e f = absurd (omega (arith, compare-gt m n e, compare-gt n m f))

compare-flip : (s t : String) → compare t s ≡ flip (compare s t)
unfolding flip
compare-flip String.[] String.[] = rw compare.nil-nil refl
compare-flip String.[] (String.◌∷◌ d t) = rw (compare.nil-cons d t, compare.cons-nil d t) refl
compare-flip (String.◌∷◌ c s) String.[] = rw (compare.nil-cons c s, compare.cons-nil c s) refl
compare-flip (String.◌∷◌ c s) (String.◌∷◌ d t) =
    rw
      (
        compare.cons-cons c d s t,
        compare.cons-cons d c t s,
        flips (code c) (code d) _ _ refl refl,
        compare-flip s t,
      )
      (sym (flip-then (compare_ℕ (code c) (code d)) (compare s t)))

flip-is_lt : (o : Ordering) → is_eq o ≡ false → is_lt (flip o) ≡ not (is_lt o)
unfolding flip
flip-is_lt Ordering.lt h = refl
flip-is_lt Ordering.eq h = absurd (cc)
flip-is_lt Ordering.gt h = refl

-- Of two different texts exactly one is less than the other.
pub text_lt-total : (s t : String) → (s == t) ≡ false → text_lt t s ≡ not (text_lt s t)
text_lt-total s t n = rw (compare-flip s t) (flip-is_lt (compare s t) n)

then_lt :
    (o p : Ordering)
    → then o p ≡ Ordering.lt
    → (o ≡ Ordering.lt) ⊎ ((o ≡ Ordering.eq) × (p ≡ Ordering.lt))
then_lt Ordering.lt p h = inl refl
then_lt Ordering.eq p h = inr (refl, h)
then_lt Ordering.gt p h = absurd (cc)

less : (m n : ℕ) (o : Ordering) → compare_ℕ m n ≡ o → m < n → o ≡ Ordering.lt
less m n Ordering.lt e h = refl
less m n Ordering.eq e h = absurd (omega (arith, compare-eq m n e))
less m n Ordering.gt e h = absurd (omega (arith, compare-gt m n e))

first_less : (m n : ℕ) (p : Ordering) → m < n → then (compare_ℕ m n) p ≡ Ordering.lt
first_less m n p h = rw (less m n _ refl h) refl

same_first :
    (m n k : ℕ) (p : Ordering)
    → compare_ℕ m n ≡ Ordering.eq
    → compare_ℕ n k ≡ Ordering.eq
    → then (compare_ℕ m k) p ≡ p
same_first m n k p e f = rw (compare-eq m n e, f) refl

compare_trans :
    (s t u : String)
    → compare s t ≡ Ordering.lt
    → compare t u ≡ Ordering.lt
    → compare s u ≡ Ordering.lt
compare_trans String.[] String.[] u h k = absurd (cc (h, compare.nil-nil))
compare_trans String.[] (String.◌∷◌ d t) String.[] h k = absurd (cc (k, compare.cons-nil d t))
compare_trans String.[] (String.◌∷◌ d t) (String.◌∷◌ e u) h k = rw (compare.nil-cons e u) refl
compare_trans (String.◌∷◌ c s) String.[] u h k = absurd (cc (h, compare.cons-nil c s))
compare_trans (String.◌∷◌ c s) (String.◌∷◌ d t) String.[] h k =
    absurd (cc (k, compare.cons-nil d t))
compare_trans (String.◌∷◌ c s) (String.◌∷◌ d t) (String.◌∷◌ e u) h k =
    rw (compare.cons-cons c e s u)
      (elim (then_lt (compare_ℕ (code c) (code d)) (compare s t)
        (rw (compare.cons-cons c d s t) at h)) [
          | inl a ↦
              elim (then_lt (compare_ℕ (code d) (code e)) (compare t u)
                (rw (compare.cons-cons d e t u) at k)) [
                  | inl b ↦ first_less (code c) (code e) _ (
                      omega (arith, compare-lt (code c) (code d) a, compare-lt (code d) (code e) b))
                  | inr (b, _) ↦ first_less (code c) (code e) _ (
                      omega (arith, compare-lt (code c) (code d) a, compare-eq (code d) (code e) b))
                ]
          | inr (a, p) ↦
              elim (then_lt (compare_ℕ (code d) (code e)) (compare t u)
                (rw (compare.cons-cons d e t u) at k)) [
                  | inl b ↦ first_less (code c) (code e) _ (
                      omega (arith, compare-eq (code c) (code d) a, compare-lt (code d) (code e) b))
                  | inr (b, q) ↦
                      same_first (code c) (code d) (code e) (compare s u) a b
                      ∙ compare_trans s t u p q
                ]
        ])

from_is_lt : (o : Ordering) → is_lt o ≡ true → o ≡ Ordering.lt
from_is_lt Ordering.lt h = refl
from_is_lt Ordering.eq h = absurd (cc)
from_is_lt Ordering.gt h = absurd (cc)

pub text_lt_trans : (s t u : String) → text_lt s t ≡ true → text_lt t u ≡ true → text_lt s u ≡ true
text_lt_trans s t u h k =
    rw (compare_trans s t u (from_is_lt (compare s t) h) (from_is_lt (compare t u) k)) refl

pub same_test : (a b : String) → (a == b) ≡ (b == a)
same_test a b = elim (Bool-cases (a == b)) [
  | inl t ↦ subst (λ c. (a == c) ≡ (c == a)) ((eq_iff a b).0 t) refl
  | inr n ↦ elim (Bool-cases (b == a)) [
    | inl t ↦ subst (λ c. (c == b) ≡ (b == c)) ((eq_iff b a).0 t) refl
    | inr m ↦ n ∙ sym m
  ]
]

pub text_lt-before :
    (x k b : String) → text_lt x k ≡ false → text_lt x b ≡ true → text_lt k b ≡ true
text_lt-before x k b h t = elim (Bool-cases (x == k)) [
  | inl e ↦ subst (λ z. text_lt z b ≡ true) ((eq_iff x k).0 e) t
  | inr n ↦ text_lt_trans k x b (text_lt-total x k n ∙ rw h refl) t
]

text-discrete : Discrete String
text-discrete s t = elim (Bool-cases (s == t)) [
  | inl e ↦ yes ((eq_iff s t).0 e)
  | inr n ↦ no (λ p. absurd (cc (n, (eq_iff s t).1 p)))
]

pub text-set : IsSet String
text-set = hedberg text-discrete
