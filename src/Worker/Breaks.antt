-- ===== src/Worker/Breaks.antt =====
-- An investigation that fails behind the card while attempts are left: the job goes back into the
-- queue.
use umodel_sre_rca.Common.{
  ◌&&◌, ◌==◌, All, Error, List, String, err, false, if◌then◌else◌, leb, not, ok, refl, some, true,
  ◌∙◌, ◌≡◌,
}
use umodel_sre_rca.Store.Tables.{Db, Document}
use umodel_sre_rca.Worker.Env.{Env}
use umodel_sre_rca.Domain.{Evidence, Incident, IncidentState, Job, RcaResult, empty_result}
use umodel_sre_rca.Analysis.{EvidenceCollection, validate_result}
use umodel_sre_rca.Store.Holds.{Holds}
use umodel_sre_rca.Store.Closing.{IsStorable, store_evidence-Yields}
use umodel_sre_rca.Store.Progress.{after_mark, mark-Holds, mark-Yields, under_way}
use umodel_sre_rca.Store.Requeue.{after_requeue, requeue-Yields}
use umodel_sre_rca.Worker.Run.{
  analyse, collect_evidence, fail, give_up, ids_of, investigate, is_inactive, max_attempts, quiet,
  quietly,
}
use umodel_sre_rca.Schedule.{attempt, give}
use umodel_sre_rca.Store.Settlement.{retry_or_fail_job}
use umodel_sre_rca.Schedule.Quiet.{give_else, give_then, if_else, repo_then, still}
use umodel_sre_rca.Store.Claims.{is_waiting, mark_investigating_for_claim}
use umodel_sre_rca.Worker.Investigates.{keeps_claim, shows, with_evidence}
use umodel_sre_rca.Store.Records.{store_evidence}

-- The first step of an investigation that fails, behind the card and MarkInvestigatingForClaim.
pub data Breaks (env : Env) (id : String) : Error → Type 0 where
  no_evidence : (e : Error) → collect_evidence env id ≡ err e → Breaks env id e
  no_answer :
      (collections : List EvidenceCollection) (items : List Evidence) (e : Error)
      → collect_evidence env id ≡ ok (collections, items)
      → All (IsStorable env.encode) items
      → env.investigate id collections ≡ err e
      → Breaks env id e
  bad_answer :
      (collections : List EvidenceCollection) (items : List Evidence) (result : RcaResult)
      (e : Error)
      → collect_evidence env id ≡ ok (collections, items)
      → All (IsStorable env.encode) items
      → env.investigate id collections ≡ ok result
      → validate_result result (some (ids_of items)) ≡ err e
      → Breaks env id e

module _ (env : Env) (job : Job) (k : Incident) (db : Db) where
  analyse-Breaks :
      (e : Error)
      → Breaks env k.id e
      → (rs : List Document) × (attempt
            (give (collect_evidence env k.id))
            (fail env k job)
            (λ found. analyse env job k found.0 found.1)
            (still db)
          ≡ fail env k job e (still (with_evidence env job db rs)))
  unfolding analyse
  analyse-Breaks e (no_evidence _ h) =
      (db.evidence_records, give_else (collect_evidence env k.id) (fail env k job) _ (still db) e h)
  analyse-Breaks e (no_answer cs items _ c st h) =
      let (rs, stores) = store_evidence-Yields env.encode k.id env.now items db st in
      (
        rs,
        give_then (collect_evidence env k.id) (fail env k job) _ (still db) (cs, items) c
            ∙ (repo_then env.codecs (store_evidence env.encode k.id items env.now) (quietly env job)
                  _ db tt (with_evidence env job db rs) stores
                ∙ give_else (env.investigate k.id cs) (fail env k job) _
                    (still (with_evidence env job db rs)) e h),
      )
  analyse-Breaks e (bad_answer cs items r _ c st h bad) =
      let (rs, stores) = store_evidence-Yields env.encode k.id env.now items db st in
      (
        rs,
        give_then (collect_evidence env k.id) (fail env k job) _ (still db) (cs, items) c
            ∙ (repo_then env.codecs (store_evidence env.encode k.id items env.now) (quietly env job)
                  _ db tt (with_evidence env job db rs) stores
                ∙ (give_then (env.investigate k.id cs) (fail env k job) _
                      (still (with_evidence env job db rs)) r h
                    ∙ give_else (validate_result r (some (ids_of items))) (fail env k job) _
                        (still (with_evidence env job db rs)) e bad)),
      )

module _ (env : Env) (job : Job) (i : Incident) (db : Db) (h : Holds job i db)
    (left : leb max_attempts job.attempt ≡ false) where
  -- With attempts left, `fail` puts the job back into the queue.
  fail-requeues :
      (k : Incident) (e : Error)
      → fail env k job e (still db) ≡ (err e, still (after_requeue job i db h env.later))
  unfolding fail give_up
  fail-requeues k e =
      if_else (leb max_attempts job.attempt && not (k.feishu_message_id == "")) _ _ (still db)
        (rw left refl)
      ∙ repo_then env.codecs (retry_or_fail_job job env.later max_attempts)
          (λ x. if is_inactive x then quiet env else give (err x)) (λ _. give (err e)) db false
          (after_requeue job i db h env.later)
          (requeue-Yields job i db h env.later max_attempts refl left)

module _ (env : Env) (job : Job) (k : Incident) (db : Db) (h : Holds job k db)
    (waits : is_waiting k.state ≡ true) where
  abbrev pub left_behind : List Document → Db
  left_behind rs =
      after_requeue job (under_way job k db h env.now)
        (with_evidence env job (after_mark job k db h env.now) rs)
        (keeps_claim env job (under_way job k db h env.now) (after_mark job k db h env.now) rs
          (mark-Holds job k db h env.now waits))
        env.later

  pub investigate-Breaks :
      (e : Error)
      → leb max_attempts job.attempt ≡ false
      → k.id ≡ job.incident_id
      → ((m : String) (i : Incident) (r : RcaResult) → env.update_incident_card m i r ≡ ok tt)
      → Breaks env k.id e
      → (rs : List Document) × (investigate env job k (still db) ≡ (err e, still (left_behind rs)))
  unfolding investigate
  investigate-Breaks e left own cards b =
      let marked = after_mark job k db h env.now in
      let held = mark-Holds job k db h env.now waits in
      let busy = under_way job k db h env.now in
      let kk = record k { state = IncidentState.investigating } in
      let (rs, broken) = analyse-Breaks env job kk marked e b in
      (
        rs,
        repo_then env.codecs (mark_investigating_for_claim job env.now) (quietly env job) _ db tt
              marked (mark-Yields job k db h env.now waits)
            ∙ (shows env job busy kk marked empty_result _ _ held (cards _ _ _)
                ∙ (broken
                    ∙ fail-requeues env job busy (with_evidence env job marked rs)
                        (keeps_claim env job busy marked rs held) left kk e)),
      )
