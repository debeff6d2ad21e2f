-- ===== src/Worker/Completes.antt =====
-- RunOne when every service answers: the incident is completed.
use umodel_sre_rca.Worker.Investigates.{
  Answers, marked_answers, with_evidence, keeps_claim, investigates,
}
use umodel_sre_rca.Common.{[], ◌∷◌, ◌++◌, eq_iff, some, ◌∙◌, true, find_where, ok, ◌≡◌, String, ap}
use umodel_sre_rca.Domain.{Incident, IncidentState, Job, JobStatus}
use umodel_sre_rca.Store.Tables.{has_id, job_has_id, Db, Document}
use umodel_sre_rca.Store.Claims.{is_waiting, claimed_by}
use umodel_sre_rca.Store.Intake.{settle_job}
use umodel_sre_rca.Store.Leases.{Claims}
use umodel_sre_rca.Store.Keeps.{IsValid}
use umodel_sre_rca.Store.Holds.{own_id}
use umodel_sre_rca.Store.Progress.{mark-Holds, under_way, after_mark}
use umodel_sre_rca.Store.Closing.{incident_completed, job_completed, after_completion}
use umodel_sre_rca.Schedule.Quiet.{still}
use umodel_sre_rca.Worker.Env.{Env}
use umodel_sre_rca.Worker.Run.{run_one}
use umodel_sre_rca.Worker.Starts.{Starts, IsCarded, starts, IsCarded-state}

-- The snapshot of a result.
abbrev pub snapshot_of : Env → String → String → Document
snapshot_of env incident_id json = record {
  id = env.snapshot_id;
  incident_id = incident_id;
  evidence_json = json;
  created_at = env.now;
}

module _ (env : Env) (db : Db) (j : Job) (k : Incident) where
  completes_from :
      (s : Starts env db j k)
      → is_waiting k.state ≡ true
      → (a : Answers env j.incident_id db)
      → (db' : Db) × (run_one env (still db) ≡ (ok tt, still db'))
        × (find_where (has_id j.incident_id) db'.incidents
            ≡ some (record k { state = IncidentState.completed; updated_at = env.now }))
        × (find_where (job_has_id j.id) db'.jobs
            ≡ some (settle_job JobStatus.completed (claimed_by env.worker_id env.now j)))
        × (db'.evidence_snapshots
            ≡ db.evidence_snapshots ++ snapshot_of env j.incident_id a.json ∷ [])
  unfolding marked_answers
  completes_from s waits a =
      let job = claimed_by env.worker_id env.now j in
      let own = (eq_iff k.id j.incident_id).0 (own_id job k s.db1 s.held) in
      let marked = after_mark job k s.db1 s.held env.now in
      let busy = under_way job k s.db1 s.held env.now in
      let b = marked_answers a s.db1 s.snapshots in
      let (rs, finished) = investigates env job k s.db1 s.held b k own waits in
      let held = keeps_claim env job busy marked rs (mark-Holds job k s.db1 s.held env.now waits) in
      let stored = with_evidence env job marked rs in
      (
        after_completion job busy stored held env.now env.snapshot_id a.json b.fresh,
        s.begins ∙ finished,
        incident_completed job busy stored held env.now env.snapshot_id a.json b.fresh,
        job_completed job busy stored held env.now env.snapshot_id a.json b.fresh,
        ap (λ ds. ds ++ snapshot_of env j.incident_id a.json ∷ []) s.snapshots,
      )

-- On a well-formed database whose next claimable job is j, for an incident that waits for its
-- investigation, while nobody interferes: if the incident has a card or Feishu creates one, Feishu
-- updates it, the evidence service and the model answer, the result is accepted and final, and the
-- snapshot's identifier is new, then RunOne returns without an error, the incident is COMPLETED and
-- has the card, the job is COMPLETED and free of its lease, and the result stands as the last
-- snapshot.
pub run_one-completes :
    (env : Env) (db : Db) (j : Job) (i k : Incident)
    → IsValid db
    → Claims env.worker_id env.now db j
    → find_where (has_id j.incident_id) db.incidents ≡ some i
    → is_waiting i.state ≡ true
    → IsCarded env i k
    → (a : Answers env j.incident_id db)
    → (db' : Db) × (run_one env (still db) ≡ (ok tt, still db'))
      × (find_where (has_id j.incident_id) db'.incidents
          ≡ some (record k { state = IncidentState.completed; updated_at = env.now }))
      × (find_where (job_has_id j.id) db'.jobs
          ≡ some (settle_job JobStatus.completed (claimed_by env.worker_id env.now j)))
      × (db'.evidence_snapshots
          ≡ db.evidence_snapshots ++ snapshot_of env j.incident_id a.json ∷ [])
run_one-completes env db j i k v x found waits card a =
    completes_from env db j k (starts env db j i k v x found waits card)
      (rw (IsCarded-state card) waits) a
