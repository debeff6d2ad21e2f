-- ===== src/Provider/Queries.antt =====
-- What a selector can do to the text of a query.
use Prim.Native.Char.{code}
use Prim.Native.String.{String, ◌++◌}
use mathlib.Core.List.{◌++◌ as ◌++ᴸ◌, append_assoc}
use Prim.Native.String.append
use umodel_sre_rca.Common.{
  ◌≡◌, refl, true, false, List, ℕ, [], ◌∷◌, if◌then◌else◌, arith, ap, sym, inl, inr, Bool-cases,
  eqb, ◌∙◌,
}
use umodel_sre_rca.Analysis.{codes, all_of, is_safe_char}
use umodel_sre_rca.Provider.Requests.{
  context_query, logs_query, instance_dimensions, probe_dimensions, is_safe_selector,
}

abbrev push : ℕ → List (List ℕ) → List (List ℕ)
push c [] = (c ∷ []) ∷ []
push c (p ∷ ps) = (c ∷ p) ∷ ps

-- A text cut at every quote: its even pieces stand outside the quotes, its odd ones are the literals.
unfoldable pub pieces : ℕ → List ℕ → List (List ℕ)
pieces q [] = [] ∷ []
pieces q (c ∷ cs) = let rest = pieces q cs in if eqb c q then [] ∷ rest else push c rest

abbrev pub literals : ℕ → String → List (List ℕ)
literals q s = pieces q (codes s)

codes-append : (a b : String) → codes (a ++ b) ≡ codes a ++ᴸ codes b
codes-append String.[] b = rw append.nil refl
codes-append (String.◌∷◌ c s) b = rw append.cons (ap (λ cs. code c ∷ cs) (codes-append s b))

push-append :
    (c x : ℕ) (ps ys : List (List ℕ)) → push c (push x ps ++ᴸ ys) ≡ push c (push x ps) ++ᴸ ys
push-append c x [] ys = refl
push-append c x (p ∷ ps) ys = refl

push-pieces :
    (c q : ℕ) (xs : List ℕ) (ys : List (List ℕ))
    → push c (pieces q xs ++ᴸ ys) ≡ push c (pieces q xs) ++ᴸ ys
unfolding pieces
push-pieces c q [] ys = refl
push-pieces c q (x ∷ xs) ys = elim (Bool-cases (eqb x q)) [
  | inl t ↦ rw t refl
  | inr f ↦ rw f (push-append c x (pieces q xs) ys)
]

pieces-append : (q : ℕ) (xs ys : List ℕ) → pieces q (xs ++ᴸ q ∷ ys) ≡ pieces q xs ++ᴸ pieces q ys
unfolding pieces
pieces-append q [] ys = ground arith
pieces-append q (x ∷ xs) ys = elim (Bool-cases (eqb x q)) [
  | inl t ↦ rw (t, pieces-append q xs ys) refl
  | inr f ↦ rw (f, pieces-append q xs ys) (push-pieces x q xs (pieces q ys))
]

-- A text without the quote is one piece.
pieces-safe :
    (q : ℕ) (xs : List ℕ)
    → is_safe_char q ≡ false
    → all_of is_safe_char xs ≡ true
    → pieces q xs ≡ xs ∷ []
unfolding pieces
pieces-safe q [] h s = refl
pieces-safe q (x ∷ xs) h s = elim (Bool-cases (eqb x q)) [
  | inl t ↦
      let same : x ≡ q = ground (arith, t) in absurd (ground (arith, ap is_safe_char same, h, s))
  | inr f ↦ rw (f, pieces-safe q xs h (ground (arith, s))) refl
]

-- A safe text between two quotes.
pieces-quoted :
    (q : ℕ) (xs ys zs : List ℕ)
    → is_safe_char q ≡ false
    → all_of is_safe_char ys ≡ true
    → pieces q (xs ++ᴸ q ∷ (ys ++ᴸ q ∷ zs)) ≡ pieces q xs ++ᴸ ys ∷ pieces q zs
pieces-quoted q xs ys zs h s =
    rw (pieces-append q xs (ys ++ᴸ q ∷ zs), pieces-append q ys zs, pieces-safe q ys h s) refl

pub selector_chars :
    (id : String) → is_safe_selector id ≡ true → all_of is_safe_char (codes id) ≡ true
unfolding is_safe_selector
selector_chars id h = ground (arith, h)

-- A safe text between two texts that end and begin with a quote.
spliced :
    (q : ℕ) (before id after : String) (xs zs : List ℕ)
    → is_safe_char q ≡ false
    → is_safe_selector id ≡ true
    → codes before ≡ xs ++ᴸ q ∷ []
    → codes after ≡ q ∷ zs
    → literals q (before ++ id ++ after) ≡ pieces q xs ++ᴸ codes id ∷ pieces q zs
spliced q before id after xs zs h s e f =
    rw (codes-append before (id ++ after), codes-append id after, e, f, append_assoc)
      (pieces-quoted q xs (codes id) zs h (selector_chars id s))

pub logs_literals :
    (id kind instance_id : String)
    → is_safe_selector id ≡ true
    → is_safe_selector kind ≡ true
    → is_safe_selector instance_id ≡ true
    → literals b'"' (logs_query id kind instance_id)
      ≡ codes "endpoint_id:"
        ∷ codes id
        ∷ codes " AND log_kind:"
        ∷ codes kind
        ∷ codes " AND instance_id:"
        ∷ codes instance_id
        ∷ []
        ∷ []
unfolding logs_query pieces is_safe_char
logs_literals id kind instance_id h k g =
    let last =
      spliced b'"' " AND instance_id:\"" instance_id "\"" (codes " AND instance_id:") [] refl g refl
        refl in
    let middle =
      spliced b'"' " AND log_kind:\"" kind ("\" AND instance_id:\"" ++ instance_id ++ "\"")
        (codes " AND log_kind:") (codes (" AND instance_id:\"" ++ instance_id ++ "\"")) refl k refl
        (codes-append "\" AND instance_id:\"" (instance_id ++ "\"")
          ∙ ap (λ cs. b'"' ∷ cs)
              (sym (codes-append " AND instance_id:\"" (instance_id ++ "\"")))) in
    spliced b'"' "endpoint_id:\"" id _ (codes "endpoint_id:")
      (codes (" AND log_kind:\"" ++ kind ++ ("\" AND instance_id:\"" ++ instance_id ++ "\""))) refl
      h refl
      (codes-append "\" AND log_kind:\"" _
        ∙ ap (λ cs. b'"' ∷ cs) (sym (codes-append " AND log_kind:\"" _)))
    ∙ ap (λ ps. codes "endpoint_id:" ∷ codes id ∷ ps)
        (middle ∙ ap (λ ps. codes " AND log_kind:" ∷ codes kind ∷ ps) last)

-- In each query, a selector that Resolve lets through is one literal between quotes, whole and as it
-- is: cut at the quotes, the query of the entity store, that of the logs and the dimensions of the
-- metrics are their fixed texts and literals, and the selectors in their places.
pub queries-literals :
    (id kind instance_id : String)
    → is_safe_selector id ≡ true
    → is_safe_selector kind ≡ true
    → is_safe_selector instance_id ≡ true
    → (literals b'\'' (context_query id)
        ≡ codes ".entity with(domain="
          ∷ codes "sre"
          ∷ codes ", type="
          ∷ codes "sre.service_endpoint"
          ∷ codes ") | where endpoint_id = "
          ∷ codes id
          ∷ codes " | limit 0, 1"
          ∷ [])
      × (literals b'"' (logs_query id kind instance_id)
          ≡ codes "endpoint_id:"
            ∷ codes id
            ∷ codes " AND log_kind:"
            ∷ codes kind
            ∷ codes " AND instance_id:"
            ∷ codes instance_id
            ∷ []
            ∷ [])
      × (literals b'"' (instance_dimensions instance_id)
          ≡ codes "[{" ∷ codes "instanceId" ∷ codes ":" ∷ codes instance_id ∷ codes "}]" ∷ [])
      × (literals b'"' (probe_dimensions id)
          ≡ codes "[{" ∷ codes "taskId" ∷ codes ":" ∷ codes id ∷ codes "}]" ∷ [])
unfolding context_query logs_query instance_dimensions probe_dimensions pieces is_safe_char
queries-literals id kind instance_id h k g = (
  spliced b'\'' ".entity with(domain='sre', type='sre.service_endpoint') | where endpoint_id = '" id
      "' | limit 0, 1"
      (codes ".entity with(domain='sre', type='sre.service_endpoint') | where endpoint_id = ")
      (codes " | limit 0, 1") refl h refl refl,
  logs_literals id kind instance_id h k g,
  spliced b'"' "[{\"instanceId\":\"" instance_id "\"}]" (codes "[{\"instanceId\":") (codes "}]")
      refl g refl refl,
  spliced b'"' "[{\"taskId\":\"" id "\"}]" (codes "[{\"taskId\":") (codes "}]") refl h refl refl,
)
