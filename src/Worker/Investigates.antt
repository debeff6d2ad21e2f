-- ===== src/Worker/Investigates.antt =====
-- From the start of an investigation to the completion of its job, when every service answers.
use umodel_sre_rca.Common.{
  List, some, ◌∙◌, refl, true, Error, exists_where, sym, subst, ◌==◌, false, ok, ◌≡◌, All, String,
}
use umodel_sre_rca.Domain.{Evidence, Incident, IncidentState, Job, RcaResult, empty_result}
use umodel_sre_rca.Analysis.{EvidenceCollection, validate_result}
use umodel_sre_rca.Store.Tables.{Db, Document}
use umodel_sre_rca.Store.Claims.{is_waiting, mark_investigating_for_claim, update_active_claim_card}
use umodel_sre_rca.Store.Records.{store_evidence}
use umodel_sre_rca.Store.Settlement.{complete_job_and_incident}
use umodel_sre_rca.Store.Holds.{Holds}
use umodel_sre_rca.Store.Progress.{
  mark-Yields, mark-Holds, under_way, after_mark, update_card-Yields,
}
use umodel_sre_rca.Store.Closing.{
  after_completion, store_evidence-Yields, IsStorable, complete-Yields,
}
use umodel_sre_rca.Schedule.{W, attempt, repo}
use umodel_sre_rca.Schedule.Quiet.{if_else, still, repo_then, give_then}
use umodel_sre_rca.Worker.Env.{Env}
use umodel_sre_rca.Worker.Run.{
  investigate, analyse, fail, conclude, update_card, quietly, quiet, ids_of, collect_evidence,
}

-- What the services answer about an incident.
pub record Answers (env : Env) (id : String) (db : Db) : Type 0 where
  pub cards : (m : String) (i : Incident) (r : RcaResult) → env.update_incident_card m i r ≡ ok tt
  pub collections : List EvidenceCollection
  pub items : List Evidence
  pub collected : collect_evidence env id ≡ ok (collections, items)
  pub storable : All (IsStorable env.encode) items
  pub result : RcaResult
  pub investigated : env.investigate id collections ≡ ok result
  pub accepted : validate_result result (some (ids_of items)) ≡ ok tt
  pub settled : result.pending_audit ≡ false
  pub json : String
  pub encoded : env.marshal result ≡ some json
  pub fresh : exists_where (λ (d : Document). d.id == env.snapshot_id) db.evidence_snapshots ≡ false

-- The answers do not depend on the tables, but for the snapshots.
unfoldable pub marked_answers :
    {env : Env} {id : String} {db : Db} (a : Answers env id db) (db' : Db)
    → db'.evidence_snapshots ≡ db.evidence_snapshots
    → Answers env id db'
marked_answers {env} a db' e = record {
  cards = a.cards;
  collections = a.collections;
  items = a.items;
  collected = a.collected;
  storable = a.storable;
  result = a.result;
  investigated = a.investigated;
  accepted = a.accepted;
  settled = a.settled;
  json = a.json;
  encoded = a.encoded;
  fresh =
      subst (λ ds. exists_where (λ (d : Document). d.id == env.snapshot_id) ds ≡ false) (sym e)
        a.fresh;
}

module _ (env : Env) (job : Job) where
  pub shows :
      (i k : Incident) (db : Db) (r : RcaResult) (bad : Error → W (Unit {0}))
      (good : Unit {0} → W (Unit {0}))
      → Holds job i db
      → env.update_incident_card k.feishu_message_id k r ≡ ok tt
      → attempt (update_card env job k r) bad good (still db) ≡ good tt (still db)
  unfolding update_card
  shows i k db r bad good h u =
      repo_then env.codecs
        (update_active_claim_card job (λ _. env.update_incident_card k.feishu_message_id k r)) bad
        good db tt db (update_card-Yields job i db h _ u)

  concludes :
      (i : Incident) (db : Db) (h : Holds job i db) (a : Answers env job.incident_id db)
      (k : Incident)
      → k.id ≡ job.incident_id
      → conclude env job k a.result (still db)
        ≡ (ok tt, still (after_completion job i db h env.now env.snapshot_id a.json a.fresh))
  unfolding conclude
  concludes i db h a k e =
      if_else a.result.pending_audit _ _ (still db) a.settled
      ∙ (shows i (record k { state = IncidentState.completed }) db a.result _ _ h (a.cards _ _ _)
          ∙ subst
              (λ id.
                attempt
                  (repo env.codecs
                    (complete_job_and_incident env.marshal env.snapshot_id job id a.result env.now))
                  (quietly env job) (λ _. quiet env) (still db)
                ≡ (
                  ok tt,
                  still (after_completion job i db h env.now env.snapshot_id a.json a.fresh),
                ))
              (sym e)
              (repo_then env.codecs
                (complete_job_and_incident env.marshal env.snapshot_id job job.incident_id a.result
                  env.now)
                (quietly env job) (λ _. quiet env) db tt _
                (complete-Yields job i db h env.now env.snapshot_id a.json a.fresh env.marshal
                  a.result a.encoded)))

  -- The database with the evidence stored.
  abbrev pub with_evidence : Db → List Document → Db
  with_evidence db rs = record db { evidence_records = rs }

  pub keeps_claim :
      (i : Incident) (db : Db) (rs : List Document)
      → Holds job i db
      → Holds job i (with_evidence db rs)
  keeps_claim i db rs h = record {
    valid = record {
      one_incident = h.valid.one_incident;
      one_active = h.valid.one_active;
      one_job = h.valid.one_job;
      idle_jobs = h.valid.idle_jobs;
    };
    stored = h.stored;
    active = h.active;
    row = h.row;
    running = h.running;
  }

  analyses :
      (i : Incident) (db : Db) (h : Holds job i db) (a : Answers env job.incident_id db)
      (k : Incident)
      → k.id ≡ job.incident_id
      → (rs : List Document) × (analyse env job k a.collections a.items (still db) ≡ (
        ok tt,
        still (
            after_completion job i
              (with_evidence db rs)
              (keeps_claim i db rs h)
              env.now
              env.snapshot_id
              a.json
              a.fresh),
      ))
  unfolding analyse marked_answers
  analyses i db h a k e =
      let (rs, stores) = store_evidence-Yields env.encode k.id env.now a.items db a.storable in
      (
        rs,
        repo_then env.codecs (store_evidence env.encode k.id a.items env.now) (quietly env job) _ db
              tt (with_evidence db rs) stores
            ∙ (give_then (env.investigate k.id a.collections) (fail env k job) _
                  (still (with_evidence db rs)) a.result
                  (subst (λ id. env.investigate id a.collections ≡ ok a.result) (sym e)
                    a.investigated)
                ∙ (give_then (validate_result a.result (some (ids_of a.items))) (fail env k job) _
                      (still (with_evidence db rs)) tt a.accepted
                    ∙ concludes i (with_evidence db rs) (keeps_claim i db rs h)
                        (marked_answers a (with_evidence db rs) refl) k e)),
      )

  pub investigates :
      (i : Incident) (db : Db) (h : Holds job i db) (a : Answers env job.incident_id db)
      (k : Incident)
      → k.id ≡ job.incident_id
      → (waits : is_waiting i.state ≡ true)
      → (rs : List Document) × (investigate env job k (still db) ≡ (
        ok tt,
        still (
            after_completion job
              (under_way job i db h env.now)
              (with_evidence (after_mark job i db h env.now) rs)
              (keeps_claim _ _ rs (mark-Holds job i db h env.now waits))
              env.now
              env.snapshot_id
              a.json
              a.fresh),
      ))
  unfolding investigate marked_answers
  investigates i db h a k e waits =
      let marked = after_mark job i db h env.now in
      let held = mark-Holds job i db h env.now waits in
      let kk = record k { state = IncidentState.investigating } in
      let (rs, rest) =
        analyses (under_way job i db h env.now) marked held (marked_answers a marked refl) kk e in
      (
        rs,
        repo_then env.codecs (mark_investigating_for_claim job env.now) (quietly env job) _ db tt
              marked (mark-Yields job i db h env.now waits)
            ∙ (shows (under_way job i db h env.now) kk marked empty_result _ _ held (a.cards _ _ _)
                ∙ (give_then (collect_evidence env k.id) (fail env kk job) _ (still marked)
                      (a.collections, a.items)
                      (subst (λ id. collect_evidence env id ≡ ok (a.collections, a.items)) (sym e)
                        a.collected)
                    ∙ rest)),
      )
