-- ===== src/Modelsync/Run.antt =====
-- cmd/sre-sync/main.go: one run of the command, after its flags are parsed.
pub mod Passing
pub mod Applied
use umodel_sre_rca.Common.{
  Result, ok, err, ◌==◌, ◌>>=◌, ◌+◌, ◌++◌, ◌&&◌, Bool, List, Option, String, [], eqb, failure,
  false, if◌then◌else◌, length, ltb, none, not, some, true, ◌||◌, ℕ, ◌∷◌,
}
use Prim.Native.Char.{code}
use umodel_sre_rca.Common.Int.{ℤ}
use umodel_sre_rca.Analysis.{is_blank}
use umodel_sre_rca.Modelsync.{
  Element, Endpoint, Plan, Relation, build_plan, build_relation_expiration_plan,
}
use umodel_sre_rca.Modelsync.Writer.{EntityStoreWrite}
use umodel_sre_rca.Modelsync.Sync.{Cms, SyncConfig, load_config, new_cms_writer, upsert}
use umodel_sre_rca.Modelsync.Inspect.{inspect_relation, inspect_schema}

pub record Flags : Type 0 where
  pub config : String
  pub apply : Bool
  pub inspect_schema : Bool
  pub inspect_relation : Bool
  pub expire_relation_type : String
  pub has_arguments : Bool

-- What is printed on the standard output.
pub data Report : Type 0 where
  schema_inspection : String → String → String → Report
  relation_inspection : String → String → String → String → String → Report
  synced : String → String → String → String → ℕ → Bool → List Element → Report

-- The exit code, the batches that were put, and whether the report was printed.
pub record Outcome : Type 0 where
  pub exit_code : ℕ
  pub written : List EntityStoreWrite
  pub report : Option Report

abbrev pub exit : ℕ → List EntityStoreWrite → Outcome
exit n written = record { exit_code = n; written = written; report = none }

-- filepath.IsAbs on Unix
abbrev pub is_absolute : String → Bool
is_absolute String.[] = false
is_absolute (String.◌∷◌ c s) = eqb (code c) b'/'

abbrev pub one : Bool → ℕ
one b = if b then 1 else 0

abbrev pub operation_count : Flags → ℕ
operation_count f = one f.apply + (one f.inspect_schema + one f.inspect_relation)

-- The two usage checks behind the parser.
unfoldable pub is_misused : Flags → Bool
is_misused f =
    (f.config == "" || (not (is_absolute f.config) || f.has_arguments))
    || (ltb 1 (operation_count f)
        || (not (f.expire_relation_type == "") && (f.inspect_schema || f.inspect_relation)))

abbrev pub report_of : SyncConfig → String → String → List Element → Report
report_of c operation mode elements =
    Report.synced operation mode c.workspace c.region (length elements)
      (operation == "sync" && not (c.relation.type == "")) elements

module _ (cms : Cms) where
  -- The loop over the endpoints.
  unfoldable pub plan_all : Relation → List Endpoint → Result (List Element)
  plan_all relation [] = ok []
  plan_all relation (e ∷ es) = build_plan cms.entity_id e relation (some cms.now) >>= λ plan.
      plan_all relation es >>= λ rest. ok (plan.elements ++ rest)

  unfoldable pub plan_expiration : String → List Endpoint → Result (List Element)
  plan_expiration type (e ∷ []) =
      build_relation_expiration_plan cms.entity_id e type (some cms.now) >>= λ plan.
      ok plan.elements
  plan_expiration type endpoints =
      err (failure "expire relation: exactly one endpoint must be configured")

module _ (cms : Cms) (decimal : ℤ → String) (encode : Report → Result (Unit {0})) where
  -- json.NewEncoder(stdout).Encode
  abbrev pub print : Report → List EntityStoreWrite → Outcome
  print report written = elim (encode report) [
    | err e ↦ exit 1 written
    | ok _ ↦ record { exit_code = 0; written = written; report = some report }
  ]

  abbrev pub after_inspection : Result String → (String → Report) → Outcome
  after_inspection (err e) report = exit 1 []
  after_inspection (ok result) report = print (report result) []

  unfoldable pub run_schema_inspection : SyncConfig → Outcome
  run_schema_inspection c =
      after_inspection
        (new_cms_writer cms c.region c.ecs_ram_role_name >>= λ _.
          inspect_schema cms decimal c.workspace ("sre" ∷ []))
        (λ result. Report.schema_inspection c.workspace c.region result)

  unfoldable pub run_relation_inspection : SyncConfig → List Endpoint → Outcome
  run_relation_inspection c (e ∷ []) =
      after_inspection
        (new_cms_writer cms c.region c.ecs_ram_role_name >>= λ _.
          inspect_relation cms decimal c.workspace e c.relation)
        (λ result.
          Report.relation_inspection c.workspace c.region e.endpoint_id c.relation.type result)
  run_relation_inspection c endpoints = exit 1 []

  abbrev pub after_upsert :
      SyncConfig → String → List Element → List EntityStoreWrite × Result (Unit {0}) → Outcome
  after_upsert c operation elements (written, err e) = exit 1 written
  after_upsert c operation elements (written, ok _) =
      print (report_of c operation "applied" elements) written

  unfoldable pub apply_plan : SyncConfig → String → List Element → Outcome
  apply_plan c operation elements = elim (new_cms_writer cms c.region c.ecs_ram_role_name) [
    | err e ↦ exit 1 []
    | ok _ ↦
        after_upsert c operation elements (upsert cms c.workspace (record { elements = elements }))
  ]

  abbrev pub with_plan : Flags → SyncConfig → String → Result (List Element) → Outcome
  with_plan f c operation (err e) = exit 1 []
  with_plan f c operation (ok elements) =
      if f.apply
      then apply_plan c operation elements
      else print (report_of c operation "dry-run" elements) []

  unfoldable pub run_sync : Flags → SyncConfig → Outcome
  run_sync f c =
      if not (f.expire_relation_type == "")
      then with_plan f c "expire-relation" (plan_expiration cms f.expire_relation_type c.endpoints)
      else with_plan f c "sync" (plan_all cms c.relation c.endpoints)

  abbrev pub on_config : Flags → Result SyncConfig → Outcome
  on_config f (err e) = exit 1 []
  on_config f (ok c) =
      if f.inspect_schema
      then run_schema_inspection c
      else if f.inspect_relation
      then run_relation_inspection c c.endpoints
      else run_sync f c

  -- `file` is the decoded file, or the error of reading it; no flags stand for a failing parser.
  unfoldable pub run_flags : Option Flags → Result SyncConfig → Outcome
  run_flags none file = exit 2 []
  run_flags (some f) file =
      if is_misused f then exit 2 [] else on_config f (file >>= λ c. load_config cms c)
