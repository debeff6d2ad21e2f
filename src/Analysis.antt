-- ===== src/Analysis.antt =====
-- internal/cc/runner.go: what the runner accepts from its caller and from the model. The process
-- that it starts is a parameter of the module Runner.
pub mod Buffer
pub mod Runner
use Prim.Native.Char.{code}
use Prim.Native.String.{String}
use umodel_sre_rca.Common.{
  List, ℕ, Bool, Option, [], true, false, leb, Result, ok, err, failure, ◌>>◌, ◌>>=◌, ◌&&◌, ◌==◌,
  ◌^◌, eqb, if◌then◌else◌, none, not, refuse_if, some, ◌||◌, ◌∷◌,
}
use umodel_sre_rca.Common.Int.{ℤ, pos, ltb_ℤ}
use umodel_sre_rca.Domain.{RcaResult, Evidence, empty_result}

pub record EvidenceCollection : Type 0 where
  pub form : String
  pub evidence : List Evidence

-- The code points that `range` over a string yields.
abbrev pub codes : String → List ℕ
codes String.[] = []
codes (String.◌∷◌ c s) = code c ∷ codes s

abbrev pub all_of : (ℕ → Bool) → List ℕ → Bool
all_of p [] = true
all_of p (c ∷ cs) = p c && all_of p cs

abbrev pub any_of : (ℕ → Bool) → List ℕ → Bool
any_of p [] = false
any_of p (c ∷ cs) = p c || any_of p cs

abbrev pub between : ℕ → ℕ → ℕ → Bool
between lo hi c = leb lo c && leb c hi

-- unicode.IsSpace
unfoldable pub is_space : ℕ → Bool
is_space c =
    between 9 13 c
    || (eqb c 32
        || (eqb c 0x85
            || (eqb c 0xa0
                || (eqb c 0x1680
                    || (between 0x2000 0x200a c
                        || (eqb c 0x2028
                            || (eqb c 0x2029
                                || (eqb c 0x202f || (eqb c 0x205f || eqb c 0x3000)))))))))

-- strings.TrimSpace(s) == ""
unfoldable pub is_blank : String → Bool
unfolding is_space
is_blank s = all_of is_space (codes s)

-- The loop returns at the first ideograph.
unfoldable pub contains_han : String → Bool
contains_han s = any_of (between 0x4e00 0x9fff) (codes s)

unfoldable pub is_safe_char : ℕ → Bool
is_safe_char c =
    between b'a' b'z' c
    || (between b'A' b'Z' c
        || (between b'0' b'9' c || (eqb c b'-' || (eqb c b'_' || (eqb c b'.' || eqb c b':')))))

unfoldable pub is_safe_incident_id : String → Bool
unfolding is_blank is_safe_char
is_safe_incident_id id = if is_blank id then false else all_of is_safe_char (codes id)

abbrev pub fixed_evidence_forms : List (List String)
fixed_evidence_forms =
    ("incident" ∷ "context" ∷ [])
    ∷ ("metrics" ∷ "query" ∷ [])
    ∷ ("logs" ∷ "query" ∷ [])
    ∷ ("changes" ∷ "query" ∷ [])
    ∷ []

-- The comparison of one candidate: equal lengths, then word by word.
unfoldable pub matches_form : List String → List String → Bool
matches_form [] [] = true
matches_form [] (c ∷ cs) = false
matches_form (f ∷ fs) [] = false
matches_form (f ∷ fs) (c ∷ cs) = f == c && matches_form fs cs

unfoldable pub is_fixed_evidence_form : List String → Bool
unfolding matches_form
is_fixed_evidence_form form = search_forms fixed_evidence_forms
  where
    search_forms : List (List String) → Bool
    search_forms [] = false
    search_forms (c ∷ cs) = if matches_form form c then true else search_forms cs

-- float64(1), in the units of `RcaResult.confidence`
unfoldable pub one_unit : ℤ
one_unit = pos (2 ^ 1074)

-- An action must be given and be Chinese.
unfoldable pub bad_action : String → Bool
unfolding is_blank contains_han
bad_action a = is_blank a || not (contains_han a)

unfoldable pub check_actions : List String → Result (Unit {0})
unfolding bad_action
check_actions [] = ok tt
check_actions (a ∷ as') =
    refuse_if (bad_action a) (failure "RCA result next_actions must contain Chinese")
    >> check_actions as'

unfoldable pub contains : List String → String → Bool
contains [] id = false
contains (k ∷ ks) id = k == id || contains ks id

-- `knownEvidence != nil && !knownEvidence[id]`; a nil map is `none`.
abbrev pub is_unknown : Option (List String) → String → Bool
is_unknown none id = false
is_unknown (some known) id = not (contains known id)

unfoldable pub check_evidence_ids : Option (List String) → List String → Result (Unit {0})
unfolding contains
check_evidence_ids known [] = ok tt
check_evidence_ids known (id ∷ ids) =
    refuse_if (id == "") (failure "RCA evidence id must not be empty")
    >> (refuse_if (is_unknown known id) (failure "RCA result references unknown evidence")
        >> check_evidence_ids known ids)

abbrev pub is_empty : List String → Bool
is_empty [] = true
is_empty (x ∷ xs) = false

unfoldable pub validate_result : RcaResult → Option (List String) → Result (Unit {0})
unfolding is_blank contains_han check_actions check_evidence_ids one_unit
validate_result r known = do
  refuse_if (is_blank r.summary || is_blank r.root_cause)
      (failure "RCA result summary and root_cause are required")
  refuse_if (not (contains_han r.summary) || not (contains_han r.root_cause))
      (failure "RCA result summary and root_cause must contain Chinese")
  check_actions r.next_actions
  refuse_if (ltb_ℤ r.confidence (pos 0) || ltb_ℤ one_unit r.confidence)
      (failure "RCA confidence must be within [0,1]")
  refuse_if (is_empty r.evidence_ids) (failure "RCA result requires at least one evidence id")
  check_evidence_ids known r.evidence_ids

-- `decode_into raw r` is json.Unmarshal(raw, &r) of a result, `envelope` that of the envelope's
-- one field; `none` is a failure to decode.
module _ (decode_into : String → RcaResult → Option RcaResult)
    (envelope : String → Option String) where
  abbrev or_fail : String → Option RcaResult → Result RcaResult
  or_fail text none = err (failure text)
  or_fail text (some r) = ok r

  -- A result without a summary may stand inside the envelope that Claude Code prints.
  open_envelope : Option String → RcaResult → Result RcaResult
  open_envelope none r = ok r
  open_envelope (some inner) r =
      if inner == "" then ok r else or_fail "decode RCA result envelope" (decode_into inner r)

  unfoldable pub parse_result : String → Result RcaResult
  unfolding validate_result open_envelope
  parse_result raw = do
    first ← or_fail "decode RCA result" (decode_into raw empty_result)
    r ← (if first.summary == "" then open_envelope (envelope raw) first else ok first)
    validate_result r none
    ok r
