-- ===== src/Store/Closing.antt =====
-- The end of an investigation, for a worker that holds its claim: StoreEvidence and
-- CompleteJobAndIncident.
use umodel_sre_rca.Common.{
  String, ℕ, List, [], ◌∷◌, ◌++◌, false, some, ◌==◌, ◌&&◌, not, ◌≡◌, ◌∙◌, refl, arith, eq_refl, All,
  find_where, exists_where, update_where, Option, find_where-update,
}
use umodel_sre_rca.Domain.{Incident, IncidentState, Job, JobStatus, Evidence, RcaResult}
use umodel_sre_rca.Store.Tables.{
  Db, Document, has_id, job_has_id, is_active, is_live, update_incidents, update_jobs,
  insert_snapshot, ◌>>=◌, ◌>>◌,
}
use umodel_sre_rca.Store.Intake.{settle_job}
use umodel_sre_rca.Store.Claims.{holds_claim}
use umodel_sre_rca.Store.Settlement.{
  finish_claim, close_incident, cancel_other_jobs, with_json, complete_job_and_incident,
}
use umodel_sre_rca.Store.Records.{without, store_item, store_evidence, replace_evidence}
use umodel_sre_rca.Store.Holds.{Holds, one_row_of, one_incident_of, own_id, own_claim}
use umodel_sre_rca.Store.Progress.{updated_row}
use umodel_sre_rca.Store.Runs.{Yields}

-- An item that StoreEvidence accepts.
abbrev pub IsStorable : (Evidence → Option String) → Evidence → Type 0
IsStorable encode item = ((item.id == "") ≡ false) × ((raw : String) × (encode item ≡ some raw))

module _ (encode : Evidence → Option String) (incident : String) (at : ℕ) where
  stores_one :
      (item : Evidence) (db : Db)
      → IsStorable encode item
      → (rs : List Document) × Yields
          (store_item encode incident at item)
          db
          tt
          (record db { evidence_records = rs })
  unfolding store_item replace_evidence
  stores_one item db (given, (raw, e)) = (
    without item.id db.evidence_records
        ++ record { id = item.id; incident_id = incident; evidence_json = raw; created_at = at }
          ∷ [],
    rw (given, e) refl,
  )

  -- Evidence goes to its own table.
  pub store_evidence-Yields :
      (items : List Evidence) (db : Db)
      → All (IsStorable encode) items
      → (rs : List Document) × Yields
          (store_evidence encode incident items at)
          db
          tt
          (record db { evidence_records = rs })
  unfolding store_evidence
  store_evidence-Yields [] db a = (db.evidence_records, refl)
  store_evidence-Yields (item ∷ items) db (s, a) =
      let (rs, r) = stores_one item db s in
      let (qs, q) = store_evidence-Yields items (record db { evidence_records = rs }) a in
      (qs, rw (r, ◌>>=◌) q)

module _ (job : Job) (i : Incident) (db : Db) (h : Holds job i db) (at : ℕ) (id raw : String)
    (fresh : exists_where (λ (d : Document). d.id == id) db.evidence_snapshots ≡ false) where
  abbrev pub snapshot : Document
  snapshot = record { id = id; incident_id = job.incident_id; evidence_json = raw; created_at = at }

  abbrev pub after_completion : Db
  after_completion = record db {
    incidents =
        update_where (λ k. k.id == job.incident_id && is_active k.state)
          (λ k. record k { state = IncidentState.completed; updated_at = at }) db.incidents;
    jobs =
        update_where
          (λ j. j.incident_id == job.incident_id && (not (j.id == job.id) && is_live j.status))
          (settle_job JobStatus.cancelled)
          (update_where (holds_claim job db) (settle_job JobStatus.completed) db.jobs);
    evidence_snapshots = db.evidence_snapshots ++ snapshot ∷ [];
  }

  -- What follows the encoding of the result.
  completes :
      Yields
        (finish_claim job job.incident_id
          >> (close_incident IncidentState.completed job.incident_id at
              >> (insert_snapshot snapshot >> cancel_other_jobs job.incident_id job.id)))
        db
        tt
        after_completion
  unfolding update_incidents update_jobs insert_snapshot
  completes =
      let q = λ (k : Incident). k.id == job.incident_id && is_active k.state in
      let one =
        one_incident_of job i db h q (λ k e. ground (arith, e))
          (rw (own_id job i db h, h.active) refl) in
      let row =
        one_row_of job i db h (holds_claim job db) (λ k e. ground (arith, e))
          (own_claim job i db h) in
      rw (row, ◌>>=◌, one, fresh) refl

  pub complete-Yields :
      (marshal : RcaResult → Option String) (result : RcaResult)
      → marshal result ≡ some raw
      → Yields
          (complete_job_and_incident marshal id job job.incident_id result at)
          db
          tt
          after_completion
  unfolding complete_job_and_incident
  complete-Yields marshal result m = rw (m, with_json) completes

  pub incident_completed :
      find_where (has_id job.incident_id) after_completion.incidents
      ≡ some (record i { state = IncidentState.completed; updated_at = at })
  incident_completed =
      updated_row (has_id job.incident_id) _ _ db.incidents i (λ _. refl) h.stored
        (rw (own_id job i db h, h.active) refl)

  pub job_completed :
      find_where (job_has_id job.id) after_completion.jobs
      ≡ some (settle_job JobStatus.completed job)
  job_completed =
      find_where-update (job_has_id job.id) _ (settle_job JobStatus.cancelled) (λ _. refl) _
      ∙ rw
          (updated_row (job_has_id job.id) (holds_claim job db) (settle_job JobStatus.completed)
            db.jobs job (λ _. refl) h.row (own_claim job i db h))
          (rw (eq_refl job.id) (ground arith))
