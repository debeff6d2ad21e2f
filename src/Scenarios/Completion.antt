-- ===== src/Scenarios/Completion.antt =====
-- A poll of a worker whose services all answer.
use umodel_sre_rca.Worker.Starts.{has_card}
use umodel_sre_rca.Common.{
  inr, ok, ◌∷◌, [], some, refl, ◌≡◌, ◌++◌, inl, subst, exists_where, find_where, none, false,
  count_where, arith,
}
use umodel_sre_rca.Domain.{
  IncidentState, JobStatus, Incident, Evidence, RcaResult, empty_result, new_job,
}
use umodel_sre_rca.Store.Tables.{Db, has_id, has_key, job_has_id, empty_db}
use umodel_sre_rca.Analysis.{
  validate_result, check_actions, check_evidence_ids, contains, is_blank, contains_han, is_space,
  bad_action, one_unit, is_safe_incident_id, is_safe_char,
}
use umodel_sre_rca.Store.Keeps.{IsValid}
use umodel_sre_rca.Store.Leases.{Claims, claim_next-cases}
use umodel_sre_rca.Worker.Investigates.{Answers, marked_answers}
use umodel_sre_rca.Worker.Env.{Env}
use umodel_sre_rca.Worker.Run.{run_one, collect_evidence}
use umodel_sre_rca.Worker.Completes.{run_one-completes, snapshot_of}
use umodel_sre_rca.Scenarios.Leases.{cpu_incident, cpu_job, one_row_once, queued_db}
use umodel_sre_rca.Scenarios.Worker.{cpu_env}
use umodel_sre_rca.Schedule.Quiet.{still}
use umodel_sre_rca.Store.Intake.{settle_job}
use umodel_sre_rca.Store.Claims.{claimed_by}
use umodel_sre_rca.Common.Int.{pos}
use umodel_sre_rca.Analysis.Runner.{System, build_prompt, prompt_text}
use umodel_sre_rca.Worker.Prompts.{collect_evidence-prompt}
use umodel_sre_rca.Gateway.{on_occurred, Reply}
use umodel_sre_rca.Scenarios.Gateway.{gate, cpu_alert}
use umodel_sre_rca.Gateway.Repeats.{entered}
use umodel_sre_rca.Gateway.Delivered.{investigated, occurred-delivers}

abbrev cpu_evidence : Evidence
cpu_evidence = record {
  id = "e1";
  type = "metric";
  observed_at = pos 100;
  source = "cms";
  query_ref = "q";
  summary = "CPU 99%";
  raw_ref = "sha256:0";
}

abbrev cpu_cause : RcaResult
cpu_cause = record empty_result {
  summary = "磁盘写满";
  root_cause = "日志写满磁盘";
  evidence_ids = "e1" ∷ [];
  next_actions = "清理磁盘" ∷ [];
}

abbrev able_env : Env
able_env = record cpu_env {
  metrics = λ id. ok (cpu_evidence ∷ []);
  investigate = λ id cs. ok cpu_cause;
}

abbrev shown_incident : Incident
shown_incident = record cpu_incident { feishu_message_id = "om_1" }

abbrev shown_db : Db
shown_db = record queued_db { incidents = shown_incident ∷ [] }

shown_db-IsValid : IsValid shown_db
shown_db-IsValid = record {
  one_incident = λ id. one_row_once (has_id id) shown_incident;
  one_active = λ key. one_row_once (has_key key) shown_incident;
  one_job = λ id. one_row_once _ cpu_job;
  idle_jobs = ((λ _. (refl, refl)), tt);
}

cpu_job-Claims : Claims "a" 200 shown_db cpu_job
unfolding exists_where
cpu_job-Claims = elim (claim_next-cases "a" 200 shown_db shown_db-IsValid) [
  | inl (no_job, _) ↦ absurd (cc)
  | inr (j, c) ↦ elim c.is_row [
    | inl e ↦ subst (λ k. Claims "a" 200 shown_db k) e c
    | inr w ↦ absurd w
  ]
]

answers : Answers able_env "i1" shown_db
unfolding collect_evidence exists_where validate_result check_actions check_evidence_ids contains
    is_blank contains_han is_space bad_action one_unit
answers = record {
  cards = λ m i r. refl;
  collections =
      record { form = "incident context"; evidence = [] }
      ∷ record { form = "metrics query"; evidence = cpu_evidence ∷ [] }
      ∷ record { form = "logs query"; evidence = [] }
      ∷ record { form = "changes query"; evidence = [] }
      ∷ [];
  items = cpu_evidence ∷ [];
  collected = refl;
  storable = ((refl, ("{}", refl)), tt);
  result = cpu_cause;
  investigated = refl;
  accepted = refl;
  settled = refl;
  json = "{}";
  encoded = refl;
  fresh = refl;
}

run_one-completes_example :
    (db' : Db) × (run_one able_env (still shown_db) ≡ (ok tt, still db'))
    × (find_where (has_id "i1") db'.incidents
        ≡ some (record shown_incident { state = IncidentState.completed; updated_at = 200 }))
    × (find_where (job_has_id "j1") db'.jobs
        ≡ some (settle_job JobStatus.completed (claimed_by "a" 200 cpu_job)))
    × (db'.evidence_snapshots ≡ [] ++ snapshot_of able_env "i1" "{}" ∷ [])
unfolding find_where answers
run_one-completes_example =
    run_one-completes able_env shown_db cpu_job shown_incident shown_incident shown_db-IsValid
      cpu_job-Claims refl refl (has_card refl) answers

abbrev system : System
system = record {
  run = λ c t. record { stdout = []; failed = none };
  expired = λ c. none;
  marshal_prompt = λ id cs. some "{}";
  marshal_ids = λ ids. some "[]";
  decimal = λ n. "8";
  bytes = λ bs. "";
  decode_into = λ s r. none;
  envelope = λ s. none;
}

collect_evidence-prompt_example :
    build_prompt system "i1" answers.collections ≡ ok (prompt_text "[]" "{}")
unfolding is_safe_incident_id is_blank is_space is_safe_char
collect_evidence-prompt_example =
    collect_evidence-prompt able_env system "i1" answers.collected refl refl refl

empty_db-IsValid : IsValid empty_db
unfolding count_where
empty_db-IsValid = record {
  one_incident = λ id. omega arith;
  one_active = λ key. omega arith;
  one_job = λ id. omega arith;
  idle_jobs = tt;
}

occurred-delivers_example :
    (on_occurred gate cpu_alert (still empty_db)
      ≡ (ok (Reply.accepted_incident "i1" false), still (entered gate cpu_alert empty_db)))
    × (db' : Db) × (run_one able_env (still (entered gate cpu_alert empty_db)) ≡ (ok tt, still db'))
    × (find_where (has_id "i1") db'.incidents ≡ some (investigated gate cpu_alert "om_1" 200))
    × (find_where (job_has_id "j1") db'.jobs
        ≡ some (settle_job JobStatus.completed (claimed_by "a" 200 (new_job "j1" "i1" 100))))
    × (db'.evidence_snapshots ≡ [] ++ snapshot_of able_env "i1" "{}" ∷ [])
unfolding exists_where answers marked_answers
occurred-delivers_example =
    occurred-delivers gate cpu_alert able_env empty_db empty_db-IsValid refl refl refl refl refl
      (omega arith) "om_1" refl refl (marked_answers answers (entered gate cpu_alert empty_db) refl)
