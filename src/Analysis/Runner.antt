-- ===== src/Analysis/Runner.antt =====
-- internal/cc/runner.go: Run, the prompt and the command of the child process. The process,
-- encoding/json and strconv are parameters.
use umodel_sre_rca.Common.{
  eqb, length, Result, ok, err, Error, ◌==◌, ◌>>=◌, ◌>>◌, ◌*◌, List, Option, [], ◌∷◌, failure,
  if◌then◌else◌, none, not, refuse_if, some, ℕ,
}
use mathlib.Core.List.{◌++◌ as ◌++ᴸ◌}
use Prim.Native.String.{String, ◌++◌}
use umodel_sre_rca.Common.Int.{ℤ, pos, pos_part, ltb_ℤ}
use umodel_sre_rca.Domain.{Evidence, RcaResult}
use umodel_sre_rca.Text.{join}
use umodel_sre_rca.Analysis.{
  EvidenceCollection, fixed_evidence_forms, is_fixed_evidence_form, is_safe_incident_id,
  parse_result,
}
use umodel_sre_rca.Analysis.Buffer.{new_bounded_buffer, write_all}

-- `timeout` is in seconds.
pub record Runner : Type 0 where
  pub timeout : ℤ
  pub max_turns : ℤ
  pub max_output_bytes : ℤ
  pub working_dir : String

-- exec.Cmd: the executable, its arguments, its directory and its whole environment.
pub record ChildCommand : Type 0 where
  pub path : String
  pub args : List String
  pub dir : String
  pub env : List String

-- How a child ends: the pieces that it writes, and the error of `Run`.
pub record Exit : Type 0 where
  pub stdout : List (List ℕ)
  pub failed : Option Error

-- `run` is a child under a timeout in seconds, `expired` the error of the context after it, and `bytes`
-- the text that the bytes are.
pub record System : Type 0 where
  pub run : ChildCommand → ℤ → Exit
  pub expired : ChildCommand → Option Error
  pub marshal_prompt : String → List EvidenceCollection → Option String
  pub marshal_ids : List String → Option String
  pub decimal : ℤ → String
  pub bytes : List ℕ → String
  pub decode_into : String → RcaResult → Option RcaResult
  pub envelope : String → Option String

abbrev pub positive_or : ℤ → ℤ → ℤ
positive_or n fallback = if ltb_ℤ (pos 0) n then n else fallback

abbrev pub timeout_of : Runner → ℤ
timeout_of r = positive_or r.timeout (pos 300)

abbrev pub max_turns_of : Runner → ℤ
max_turns_of r = positive_or r.max_turns (pos 8)

abbrev pub output_limit_of : Runner → ℤ
output_limit_of r = positive_or r.max_output_bytes (pos (64 * 1024))

abbrev pub working_dir_of : Runner → String
working_dir_of r = if r.working_dir == "" then "/opt/sre-rca/runtime" else r.working_dir

abbrev pub minimal_child_environment : List String
minimal_child_environment =
    "HOME=/var/lib/sre-rca" ∷ "PATH=/usr/local/sbin:/usr/local/bin:/usr/sbin:/usr/bin:/sbin:/bin"
    ∷ []

abbrev pub child_command : Runner → String → List String → ChildCommand
child_command r path args = record {
  path = path;
  args = args;
  dir = working_dir_of r;
  env = minimal_child_environment;
}

unfoldable pub prepare_evidence_command : Runner → List String → String → Result ChildCommand
prepare_evidence_command r form incident_id = do
  refuse_if (not (is_safe_incident_id incident_id))
      (failure "incident id is required and must be a safe reference")
  refuse_if (not (is_fixed_evidence_form form)) (failure "evidence form is not allowed")
  ok (child_command r "/opt/sre-rca/bin/sre-evidence" (form ++ᴸ incident_id ∷ []))

-- The loop over the collections, of which there are as many as fixed forms.
unfoldable pub check_forms : List (List String) → List EvidenceCollection → Result (Unit {0})
check_forms [] cs = ok tt
check_forms (f ∷ fs) [] = ok tt
check_forms (f ∷ fs) (c ∷ cs) =
    refuse_if (not (c.form == join f " "))
      (failure "RCA evidence collection is not an allowed fixed form")
    >> check_forms fs cs

abbrev pub item_ids : List Evidence → List String
item_ids [] = []
item_ids (item ∷ items) = item.id ∷ item_ids items

unfoldable pub allowed_evidence_ids : List EvidenceCollection → List String
allowed_evidence_ids [] = []
allowed_evidence_ids (c ∷ cs) = item_ids c.evidence ++ᴸ allowed_evidence_ids cs

abbrev pub or_fail : Option String → String → Result String
or_fail none text = err (failure text)
or_fail (some s) text = ok s

unfoldable pub prompt_text : String → String → String
prompt_text allowed payload =
    "/rca-investigate\nAnalyze only the supplied fixed evidence JSON. Do not request or use any other tools, commands, URLs, APIs, filesystem data, credentials, or network access.\nUse Simplified Chinese for every human-readable RCA value. Keep only opaque identifiers, URLs, and machine field names unchanged.\nYour evidence_ids must be a non-empty subset of the exact IDs in ALLOWED_EVIDENCE_IDS. Copy IDs verbatim; never hash, transform, infer, or invent an evidence ID.\nALLOWED_EVIDENCE_IDS="
    ++ allowed ++ "\n" ++ payload

module _ (s : System) where
  unfoldable pub build_prompt : String → List EvidenceCollection → Result String
  build_prompt incident_id collections = do
    refuse_if (not (is_safe_incident_id incident_id))
        (failure "incident id is required and must be a safe reference")
    refuse_if (not (eqb (length collections) (length fixed_evidence_forms)))
        (failure "RCA requires all fixed evidence collections")
    check_forms fixed_evidence_forms collections
    payload ← or_fail (s.marshal_prompt incident_id collections) "encode fixed RCA evidence"
    allowed ←
        or_fail (s.marshal_ids (allowed_evidence_ids collections)) "encode allowed RCA evidence IDs"
    ok (prompt_text allowed payload)

  unfoldable pub prepare_claude_command :
      Runner → String → List EvidenceCollection → Result ChildCommand
  prepare_claude_command r incident_id collections = do
    refuse_if (not (is_safe_incident_id incident_id))
        (failure "incident id is required and must be a safe reference")
    prompt ← build_prompt incident_id collections
    ok (
        child_command r "/usr/bin/claude" (
          "-p"
          ∷ prompt
          ∷ "--output-format"
          ∷ "json"
          ∷ "--max-turns"
          ∷ s.decimal (max_turns_of r)
          ∷ "--tools"
          ∷ ""
          ∷ "--no-session-persistence"
          ∷ []))

  -- The context's error stands for that of the child.
  abbrev pub cause : Option Error → Error → Error
  cause none e = e
  cause (some expired) e = expired

  abbrev pub read_exit : Runner → ChildCommand → Exit → Result RcaResult
  read_exit r command exit = elim exit.failed [
    | some e ↦ err (cause (s.expired command) e)
    | none ↦
        parse_result s.decode_into s.envelope (
          s.bytes
            (write_all exit.stdout (new_bounded_buffer (pos_part (output_limit_of r)))).buffer)
  ]

  unfoldable pub run_analysis : Runner → String → List EvidenceCollection → Result RcaResult
  run_analysis r incident_id collections = do
    refuse_if (not (is_safe_incident_id incident_id))
        (failure "incident id is required and must be a safe reference")
    command ← prepare_claude_command r incident_id collections
    read_exit r command (s.run command (timeout_of r))
