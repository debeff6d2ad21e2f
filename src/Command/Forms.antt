-- ===== src/Command/Forms.antt =====
-- The two copies of the test of identifiers, and the command lines that pass.
use Prim.Native.Char.{code}
use Prim.Native.String.{String}
use umodel_sre_rca.Common.{
  ◌∷◌, ◌≡◌, refl, true, false, arith, ℕ, List, Bool-cases, inl, inr, if◌then◌else◌, ◌==◌, subst,
  sym, eq_iff,
}
use umodel_sre_rca.Analysis.{is_safe_char, is_space, codes, all_of, is_safe_incident_id, is_blank}
use umodel_sre_rca.Command.{is_safe_reference}

not_space : (c : ℕ) → is_safe_char c ≡ true → is_space c ≡ false
unfolding is_safe_char is_space
not_space c h = ground (arith, h)

-- A text with a safe first character is not blank, and one that is blank has no such.
either_way :
    (c : ℕ) (cs : List ℕ)
    → all_of is_safe_char (c ∷ cs)
      ≡ (if all_of is_space (c ∷ cs) then false else all_of is_safe_char (c ∷ cs))
either_way c cs = elim (Bool-cases (is_safe_char c)) [
  | inl t ↦ rw (not_space c t) refl
  | inr f ↦ elim (Bool-cases (all_of is_space (c ∷ cs))) [
    | inl b ↦ rw (f, b) refl
    | inr n ↦ rw (f, n) refl
  ]
]

-- The test of identifiers in the sre-evidence command and that in the runner, which differ in how
-- they refuse an empty text, accept the same texts.
pub is_safe_reference-is_safe_incident_id :
    (value : String) → is_safe_reference value ≡ is_safe_incident_id value
unfolding is_safe_reference is_safe_incident_id is_blank
is_safe_reference-is_safe_incident_id value = elim (Bool-cases (value == "")) [
  | inl t ↦
      subst (λ v. is_safe_reference v ≡ is_safe_incident_id v) (sym ((eq_iff value "").0 t)) refl
  | inr f ↦ rw f (given value f)
]
  where
    given :
        (v : String)
        → (v == "") ≡ false
        → all_of is_safe_char (codes v)
          ≡ (if all_of is_space (codes v) then false else all_of is_safe_char (codes v))
    given String.[] h = absurd (cc)
    given (String.◌∷◌ c s) h = either_way (code c) (codes s)
