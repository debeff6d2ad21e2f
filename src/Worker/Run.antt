-- ===== src/Worker/Run.antt =====
-- internal/worker/worker.go: RunOne and the steps that it is made of.
use umodel_sre_rca.Common.{
  Result, ok, err, ◌>>=◌, ◌++◌, ◌&&◌, ◌+◌, ◌==◌, Bool, Error, List, Option, String, [], false,
  if◌then◌else◌, leb, none, not, some, true, ℕ, ◌∷◌,
}
use umodel_sre_rca.Worker.Env.{Env}
use umodel_sre_rca.Schedule.{W, attempt, give, repo}
use umodel_sre_rca.Domain.{Evidence, Incident, IncidentState, Job, RcaResult, empty_result}
use umodel_sre_rca.Analysis.{EvidenceCollection, validate_result}
use umodel_sre_rca.Store.Claims.{
  check_active_claim, claim_next, mark_investigating_for_claim, set_feishu_message_id,
  set_feishu_message_id_for_claim, update_active_claim_card,
}
use umodel_sre_rca.Store.Settlement.{
  complete_job_and_incident, complete_job_and_schedule_audit_retry, retry_or_fail_job,
}
use umodel_sre_rca.Store.Intake.{incident_by_id}
use umodel_sre_rca.Store.Tables.{is_recovered}
use umodel_sre_rca.Store.Records.{store_evidence}

abbrev pub is_inactive : Error → Bool
is_inactive Error.incident_inactive = true
is_inactive Error.job_lease_lost = true
is_inactive _ = false

abbrev pub max_attempts : ℕ
max_attempts = 3

-- 120 * time.Second
abbrev pub audit_delay : ℕ
audit_delay = 120

abbrev pub recovery_result : RcaResult
recovery_result = record empty_result { summary = "CloudMonitor 告警已恢复。" }

abbrev pub failure_result : RcaResult
failure_result = record empty_result {
  summary = "RCA 未能完成；请检查网关日志后重试。";
  next_actions = "检查网关错误并重试该事件。" ∷ [];
}

abbrev pub ids_of : List Evidence → List String
ids_of [] = []
ids_of (item ∷ items) = item.id ∷ ids_of items

module _ (env : Env) where
  open env use {now, later}

  abbrev pub quiet : W (Unit {0})
  quiet = give (ok tt)

  -- RetryOrFailJob, at the second reading of the clock.
  abbrev pub retry_or_fail : Job → W Bool
  retry_or_fail job = repo env.codecs (retry_or_fail_job job later max_attempts)

  unfoldable pub persistence_failure : Job → Error → W (Unit {0})
  persistence_failure job cause =
      if is_inactive cause
      then quiet
      else attempt (retry_or_fail job) (λ e. if is_inactive e then quiet else give (err e))
          (λ _. give (err cause))

  -- `if isInactive(err) { return nil }; return w.persistenceFailure(ctx, job, err)`
  abbrev pub quietly : Job → Error → W (Unit {0})
  quietly job e = if is_inactive e then quiet else persistence_failure job e

  unfoldable pub update_card : Job → Incident → RcaResult → W (Unit {0})
  update_card job incident result = repo env.codecs (
      update_active_claim_card job
        (λ _. env.update_incident_card incident.feishu_message_id incident result))

  unfoldable pub give_up : Job → Error → W (Unit {0})
  give_up job cause =
      attempt (retry_or_fail job) (λ e. if is_inactive e then quiet else give (err e))
        (λ _. give (err cause))

  -- The cause that is returned is the card's error if the card cannot be updated.
  unfoldable pub fail : Incident → Job → Error → W (Unit {0})
  unfolding update_card give_up
  fail incident job cause =
      if leb max_attempts job.attempt && not (incident.feishu_message_id == "")
      then attempt
          (update_card job (record incident { state = IncidentState.failed }) failure_result)
          (λ e. if is_inactive e then quiet else give_up job e) (λ _. give_up job cause)
      else give_up job cause

  -- A card that was created while the incident recovered is made to say so.
  unfoldable pub finish_recovered_card_create : String → String → W (Unit {0})
  finish_recovered_card_create incident_id message_id =
      attempt (repo env.codecs (incident_by_id incident_id)) (λ _. quiet)
        λ incident.
          if not (is_recovered incident.state)
          then quiet
          else attempt (repo env.codecs (set_feishu_message_id incident_id message_id now))
              (λ e. give (err e))
              λ _.
                attempt (repo env.codecs (incident_by_id incident_id)) (λ e. give (err e))
                  λ again.
                    give (env.update_incident_card again.feishu_message_id again recovery_result)

  abbrev pub collect :
      List (String × (String → Result (List Evidence)))
      → String
      → Result (List EvidenceCollection × List Evidence)
  collect [] incident_id = ok ([], [])
  collect ((form, query) ∷ queries) incident_id = do
    items ← query incident_id
    rest ← collect queries incident_id
    ok (record { form = form; evidence = items } ∷ rest.0, items ++ rest.1)

  unfoldable pub collect_evidence : String → Result (List EvidenceCollection × List Evidence)
  collect_evidence = collect (
      ("incident context", env.context)
      ∷ ("metrics query", env.metrics)
      ∷ ("logs query", env.logs)
      ∷ ("changes query", env.changes)
      ∷ [])

  -- The last third of RunOne, for a result that has been validated.
  unfoldable pub conclude : Job → Incident → RcaResult → W (Unit {0})
  unfolding update_card
  conclude job incident result =
      if result.pending_audit
      then attempt
          (update_card job (record incident { state = IncidentState.awaiting_audit_event }) result)
          (λ e.
            if is_inactive e
            then quiet
            else fail (record incident { state = IncidentState.awaiting_audit_event }) job e)
          (λ _.
            attempt
              (repo env.codecs (
                complete_job_and_schedule_audit_retry env.job_id job incident.id
                  (now + audit_delay)))
              (quietly job) (λ _. quiet))
      else attempt (update_card job (record incident { state = IncidentState.completed }) result)
          (λ e.
            if is_inactive e
            then quiet
            else fail (record incident { state = IncidentState.completed }) job e)
          (λ _.
            attempt
              (repo env.codecs
                (complete_job_and_incident env.marshal env.snapshot_id job incident.id result now))
              (quietly job) (λ _. quiet))

  -- From the evidence to a validated result.
  unfoldable pub analyse : Job → Incident → List EvidenceCollection → List Evidence → W (Unit {0})
  unfolding conclude fail
  analyse job incident collections items =
      attempt (repo env.codecs (store_evidence env.encode incident.id items now)) (quietly job) λ _.
        attempt (give (env.investigate incident.id collections)) (fail incident job) λ result.
          attempt (give (validate_result result (some (ids_of items)))) (fail incident job)
            λ _. conclude job incident result

  unfoldable pub investigate : Job → Incident → W (Unit {0})
  unfolding analyse update_card fail
  investigate job stored =
      attempt (repo env.codecs (mark_investigating_for_claim job now)) (quietly job) λ _.
        let incident = record stored { state = IncidentState.investigating } in
        attempt (update_card job incident empty_result)
          (λ e. if is_inactive e then quiet else fail incident job e)
          λ _.
            attempt (give (collect_evidence incident.id)) (fail incident job)
              λ found. analyse job incident found.0 found.1

  unfoldable pub create_card : Job → Incident → W (Unit {0})
  unfolding investigate persistence_failure fail finish_recovered_card_create
  create_card job incident = attempt (repo env.codecs (check_active_claim job)) (quietly job) λ _.
      attempt (give (env.create_incident_card incident)) (fail incident job) λ message_id.
        attempt (repo env.codecs (set_feishu_message_id_for_claim job message_id now))
          (λ e.
            if is_inactive e
            then finish_recovered_card_create incident.id message_id
            else persistence_failure job e)
          λ _.
            attempt (repo env.codecs (incident_by_id incident.id)) (persistence_failure job)
              λ again.
                if is_recovered again.state
                then give (env.update_incident_card again.feishu_message_id again recovery_result)
                else investigate job again

  abbrev pub work_on : Option Job → W (Unit {0})
  work_on none = quiet
  work_on (some job) =
      attempt (repo env.codecs (incident_by_id job.incident_id)) (persistence_failure job)
        λ incident.
          if incident.feishu_message_id == ""
          then create_card job incident
          else investigate job incident

  unfoldable pub run_one : W (Unit {0})
  unfolding create_card investigate persistence_failure
  run_one = attempt (repo env.codecs (claim_next env.worker_id now)) (λ e. give (err e)) work_on
