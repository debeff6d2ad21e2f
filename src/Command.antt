-- ===== src/Command.antt =====
-- cmd/sre-evidence/main.go: which command lines are run, and the one query that each runs.
pub mod Forms
pub mod Prints
use umodel_sre_rca.Common.{
  Result, ok, err, ◌==◌, ◌>>=◌, ◌&&◌, Bool, List, Option, String, [], eqb, false, if◌then◌else◌,
  none, not, some, ◌||◌, ℕ, ◌∷◌, Error,
}
use umodel_sre_rca.Analysis.{codes, all_of, is_safe_char}
use umodel_sre_rca.Domain.{Evidence}
use umodel_sre_rca.Evidence.{
  EvidenceClass, changes_class, context_class, logs_class, metrics_class, open_by_id, Service,
  resolve,
}
use umodel_sre_rca.Config.{Config, load}
use umodel_sre_rca.Launch.{Parts, new_evidence_service}
use Prim.Native.String.{◌++◌}

unfoldable pub is_safe_reference : String → Bool
unfolding is_safe_char
is_safe_reference value = if value == "" then false else all_of is_safe_char (codes value)

abbrev pub is_fixed_pair : String → String → Bool
is_fixed_pair a b =
    (a == "incident" && b == "context")
    || ((a == "metrics" && b == "query")
        || ((a == "logs" && b == "query")
            || ((a == "changes" && b == "query") || (a == "evidence" && b == "open"))))

-- Three words.
unfoldable pub is_fixed_command : List String → Bool
unfolding is_safe_reference
is_fixed_command (a ∷ b ∷ c ∷ []) = if not (is_safe_reference c) then false else is_fixed_pair a b
is_fixed_command _ = false

abbrev pub is_rooted : List ℕ → Bool
is_rooted [] = false
is_rooted (c ∷ cs) = eqb c b'/'

-- filepath.IsAbs on Unix.
unfoldable pub is_abs : String → Bool
is_abs path = is_rooted (codes path)

abbrev pub default_config_path : String
default_config_path = "/etc/sre-rca/sre.yaml"

abbrev pub accept : String → List String → Option (String × List String)
accept path command = if not (is_fixed_command command) then none else some (path, command)

abbrev pub parse_config : List String → Option (String × List String)
parse_config (flag ∷ path ∷ c ∷ command) =
    if not (is_abs path) then none else accept path (c ∷ command)
parse_config _ = none

unfoldable pub parse_command : List String → Option (String × List String)
unfolding is_fixed_command is_abs
parse_command [] = accept default_config_path []
parse_command (a ∷ args) =
    if a == "--config" then parse_config (a ∷ args) else accept default_config_path (a ∷ args)

abbrev pub first_word : List String → String
first_word [] = ""
first_word (word ∷ words) = word

abbrev pub last_word : List String → String
last_word [] = ""
last_word (word ∷ []) = word
last_word (word ∷ next ∷ words) = last_word (next ∷ words)

-- The switch of `run`: each command asks the service for its class of evidence; `open` is not a
-- class.
unfoldable pub dispatch : Service → String → String → Result (List Evidence)
unfolding resolve open_by_id
dispatch s word id =
    if word == "incident"
    then resolve s EvidenceClass.context_class id
    else if word == "metrics"
    then resolve s EvidenceClass.metrics_class id
    else if word == "logs"
    then resolve s EvidenceClass.logs_class id
    else if word == "changes"
    then resolve s EvidenceClass.changes_class id
    else if word == "evidence"
    then (open_by_id s id >>= λ item. ok (item ∷ []))
    else ok []

-- The configuration file after decoding, store.Open, the parts that runtime.NewEvidenceService puts
-- together, an error's text, encoding/json on the answer, and stdout: what it takes of a text, and
-- the error if that is not all.
pub record Surroundings : Type 0 where
  pub read_config : String → Result Config
  pub open_state_db : String → Result (Unit {0})
  pub parts : Parts
  pub error_text : Error → String
  pub encode : List Evidence → Result String
  pub write : String → String × Option Error

-- What a run leaves behind.
pub record Exit : Type 0 where
  pub status : ℕ
  pub stdout : String
  pub stderr : String

abbrev pub usage : String
usage =
    "usage: sre-evidence {incident context|metrics query|logs query|changes query|evidence open} <id>\n"

abbrev pub failed : String → Exit
failed text = record { status = 1; stdout = ""; stderr = text ++ "\n" }

module _ (s : Surroundings) where
  abbrev pub written : String × Option Error → Exit
  written (out, none) = record { status = 0; stdout = out; stderr = "" }
  written (out, some e) = record { status = 1; stdout = out; stderr = s.error_text e ++ "\n" }

  abbrev pub printed : Result String → Exit
  printed (err e) = failed (s.error_text e)
  printed (ok text) = written (s.write text)

  -- The answer of the query, or its error.
  abbrev pub report : Result (List Evidence) → Exit
  report (err e) = failed (s.error_text e)
  report (ok items) = printed (s.encode items)

  abbrev pub answer : List String → Result Service → Exit
  answer command (err e) = failed ("compose evidence service: " ++ s.error_text e)
  answer command (ok service) = report (dispatch service (first_word command) (last_word command))

  abbrev pub with_state : Config → List String → Result (Unit {0}) → Exit
  with_state c command (err e) = failed ("open evidence state DB: " ++ s.error_text e)
  with_state c command (ok u) = answer command (new_evidence_service c s.parts)

  abbrev pub with_config : List String → Result Config → Exit
  with_config command (err e) = failed ("load evidence config: " ++ s.error_text e)
  with_config command (ok c) = with_state c command (s.open_state_db c.state_db)

  -- `service` is nil but for a caller that hands one over.
  abbrev pub with_service : String → List String → Option Service → Exit
  with_service path command none = with_config command (s.read_config path >>= load)
  with_service path command (some service) = answer command (ok service)

  abbrev pub run_parsed : Option Service → Option (String × List String) → Exit
  run_parsed service none = record { status = 2; stdout = ""; stderr = usage }
  run_parsed service (some (path, command)) = with_service path command service

  unfoldable pub run : List String → Option Service → Exit
  unfolding parse_command dispatch new_evidence_service load
  run args service = run_parsed service (parse_command args)
