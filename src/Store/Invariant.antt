-- ===== src/Store/Invariant.antt =====
-- What holds of the database after any history of repository operations.
pub mod Intake
pub mod Settlement
use umodel_sre_rca.Common.{
  inl, inr, Bool-cases, ◌⊎◌, ℕ, String, Bool, true, false, List, [], ◌∷◌, ◌++◌, Option, none, some,
  ◌==◌, ◌≡◌, refl, arith, Result, ok, err, ap, find_where, ◌≤◌, ◌&&◌, count_where, Evolves,
  Evolves-find, ◌∙◌,
}
use umodel_sre_rca.Domain.{IncidentState, Incident, Job, Evidence, RcaResult, recovered}
use umodel_sre_rca.Store.Tables.{Db, Tx, settle, run, empty_db, is_live, has_id, job_has_id}
use umodel_sre_rca.Store.Intake.{
  create_or_get_incident, enqueue, recover, cancel_jobs_for_incident, incident_by_id,
}
use umodel_sre_rca.Store.Claims.{
  claim_next, mark_investigating_for_claim, set_feishu_message_id, set_feishu_message_id_for_claim,
  update_active_claim_card,
}
use umodel_sre_rca.Store.Settlement.{
  fail, schedule_audit_retry, complete_job, complete_job_and_schedule_audit_retry,
  retry_or_fail_job, complete, complete_job_and_incident,
}
use umodel_sre_rca.Store.Records.{store_evidence}
use umodel_sre_rca.Store.Moves.{IncidentMove, JobMove, may_become, IsIdle}
use umodel_sre_rca.Store.Keeps.{IsValid, Step, Step-refl, Step-trans, Keeps}
use umodel_sre_rca.Store.Keeps.Statements.{Keeps-cancel}
use Intake.{
  Keeps-create_or_get, Keeps-enqueue, Keeps-recover, Keeps-claim_next, Keeps-mark, Keeps-set_card,
  Keeps-set_card_for_claim, Keeps-update_card,
}
use Settlement.{
  Keeps-fail, Keeps-schedule, Keeps-complete_job, Keeps-complete_and_schedule, Keeps-retry_or_fail,
  Keeps-complete, Keeps-complete_job_and_incident, Keeps-store_evidence,
}

-- The operations of `Repository` that write, with their arguments.
pub data Op : Type 0 where
  create_or_get : Incident → Op
  enqueues : String → String → ℕ → Op
  recovers : String → ℕ → Op
  cancels : String → Op
  claims : String → ℕ → Op
  marks : Job → ℕ → Op
  sets_card : String → String → ℕ → Op
  sets_card_for_claim : Job → String → ℕ → Op
  updates_card : Job → (Incident → Result (Unit {0})) → Op
  stores_evidence : String → List Evidence → ℕ → Op
  completes : String → String → RcaResult → ℕ → Op
  fails : String → ℕ → Op
  schedules : String → String → ℕ → Op
  completes_job : Job → Op
  completes_job_and_incident : String → Job → String → RcaResult → ℕ → Op
  completes_job_and_schedules : String → Job → String → ℕ → Op
  retries_or_fails : Job → ℕ → ℕ → Op

abbrev pub after : {A : Type 0} → Tx A → Db → Db
after m db = (run m db).1

module _ (marshal : RcaResult → Option String) (encode : Evidence → Option String) where
  -- The database that an operation leaves behind, whether it succeeds or fails.
  unfoldable pub apply : Op → Db → Db
  apply (create_or_get i) = after (create_or_get_incident i)
  apply (enqueues id incident at) = after (enqueue id incident at)
  apply (recovers key at) = after (recover key at)
  apply (cancels incident) = after (cancel_jobs_for_incident incident)
  apply (claims w now) = after (claim_next w now)
  apply (marks job at) = after (mark_investigating_for_claim job at)
  apply (sets_card incident message at) = after (set_feishu_message_id incident message at)
  apply (sets_card_for_claim job message at) =
      after (set_feishu_message_id_for_claim job message at)
  apply (updates_card job update) = after (update_active_claim_card job update)
  apply (stores_evidence incident items at) = after (store_evidence encode incident items at)
  apply (completes id incident result at) = after (complete marshal id incident result at)
  apply (fails incident at) = after (fail incident at)
  apply (schedules id incident at) = after (schedule_audit_retry id incident at)
  apply (completes_job job) = after (complete_job job)
  apply (completes_job_and_incident id job incident result at) =
      after (complete_job_and_incident marshal id job incident result at)
  apply (completes_job_and_schedules id job incident at) =
      after (complete_job_and_schedule_audit_retry id job incident at)
  apply (retries_or_fails job at max) = after (retry_or_fail_job job at max)

  unfoldable pub apply_all : List Op → Db → Db
  unfolding apply
  apply_all [] db = db
  apply_all (op ∷ ops) db = apply_all ops (apply op db)

pub after-Step : {A : Type 0} (m : Tx A) → Keeps m → (db : Db) → Step db (after m db)
after-Step {A} m k db = go (m db) refl
  where
    go : (r : Result (A × Db)) → m db ≡ r → Step db (settle db r).1
    go (err e) h = Step-refl db
    go (ok (a, d)) h = k.at db a d h

module _ (marshal : RcaResult → Option String) (encode : Evidence → Option String) where
  apply-Step : (op : Op) (db : Db) → Step db (apply marshal encode op db)
  unfolding apply
  apply-Step (create_or_get i) = after-Step _ (Keeps-create_or_get i)
  apply-Step (enqueues id incident at) = after-Step _ (Keeps-enqueue id incident at)
  apply-Step (recovers key at) = after-Step _ (Keeps-recover key at)
  apply-Step (cancels incident) = after-Step _ (Keeps-cancel incident)
  apply-Step (claims w now) = after-Step _ (Keeps-claim_next w now)
  apply-Step (marks job at) = after-Step _ (Keeps-mark job at)
  apply-Step (sets_card incident message at) = after-Step _ (Keeps-set_card incident message at)
  apply-Step (sets_card_for_claim job message at) =
      after-Step _ (Keeps-set_card_for_claim job message at)
  apply-Step (updates_card job update) = after-Step _ (Keeps-update_card job update)
  apply-Step (stores_evidence incident items at) =
      after-Step _ (Keeps-store_evidence encode incident items at)
  apply-Step (completes id incident result at) =
      after-Step _ (Keeps-complete marshal id incident result at)
  apply-Step (fails incident at) = after-Step _ (Keeps-fail incident at)
  apply-Step (schedules id incident at) = after-Step _ (Keeps-schedule id incident at)
  apply-Step (completes_job job) = after-Step _ (Keeps-complete_job job)
  apply-Step (completes_job_and_incident id job incident result at) =
      after-Step _ (Keeps-complete_job_and_incident marshal id job incident result at)
  apply-Step (completes_job_and_schedules id job incident at) =
      after-Step _ (Keeps-complete_and_schedule id job incident at)
  apply-Step (retries_or_fails job at max) = after-Step _ (Keeps-retry_or_fail job at max)

  pub apply_all-Step : (ops : List Op) (db : Db) → Step db (apply_all marshal encode ops db)
  unfolding apply_all
  apply_all-Step [] db = Step-refl db
  apply_all-Step (op ∷ ops) db =
      Step-trans _ _ _ (apply-Step op db) (apply_all-Step ops (apply marshal encode op db))

  -- A database that began empty is well-formed after any history of repository operations: incident
  -- and job identifiers are unique, no two active incidents have the same key, and a job that is
  -- not running has no worker and no lease.
  pub apply_all-IsValid : (ops : List Op) → IsValid (apply_all marshal encode ops empty_db)
  unfolding count_where
  apply_all-IsValid ops = (apply_all-Step ops empty_db).valid (record {
    one_incident = λ id. omega arith;
    one_active = λ key. omega arith;
    one_job = λ id. omega arith;
    idle_jobs = tt;
  })

  -- Whatever operations follow, an incident that is stored stays stored under its identifier with
  -- its key, workspace, rule, resource, alert time and creation time; its card is set at most once;
  -- and its state moves only as `may_become` allows.
  pub incident_history :
      (ops : List Op) (db : Db) (id : String) {i : Incident}
      → find_where (has_id id) db.incidents ≡ some i
      → (k : Incident) × (find_where (has_id id) (apply_all marshal encode ops db).incidents
          ≡ some k)
        × IncidentMove i k
  incident_history ops db id {i} h =
      Evolves-find IncidentMove (has_id id) (λ x y m. ap (λ t. t == id) m.same_id) db.incidents _
        (apply_all-Step ops db).incidents h

  -- Whatever operations follow, a job that is stored stays stored under its identifier and with
  -- its incident, its attempts never fall, and if it is completed, cancelled or failed it is never
  -- touched again.
  pub job_history :
      (ops : List Op) (db : Db) (id : String) {j : Job}
      → find_where (job_has_id id) db.jobs ≡ some j
      → (k : Job) × (find_where (job_has_id id) (apply_all marshal encode ops db).jobs ≡ some k)
        × (k.incident_id ≡ j.incident_id)
        × (j.attempt ≤ k.attempt)
        × ((is_live j.status ≡ true) ⊎ (k ≡ j))
  job_history ops db id {j} h =
      let (k, f, m) =
        Evolves-find JobMove (job_has_id id) (λ x y m. ap (λ t. t == id) m.same_id) db.jobs _
          (apply_all-Step ops db).jobs h in
      (
        k,
        f,
        m.same_incident,
        m.attempts_grow,
        elim (Bool-cases (is_live j.status)) [ inl t ↦ inl t | inr e ↦ inr (m.over e) ],
      )
