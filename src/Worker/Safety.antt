-- ===== src/Worker/Safety.antt =====
-- What RunOne may do to the database, whatever others do meanwhile and whichever calls fail.
use umodel_sre_rca.Common.{
  err, ◌&&◌, ◌==◌, Error, List, Option, String, if◌then◌else◌, leb, none, not, some,
}
use umodel_sre_rca.Store.Tables.{is_recovered}
use umodel_sre_rca.Worker.Env.{Env}
use umodel_sre_rca.Schedule.{World, give}
use umodel_sre_rca.Domain.{Evidence, Incident, Job, RcaResult, IncidentState, empty_result}
use umodel_sre_rca.Analysis.{EvidenceCollection, validate_result}
use umodel_sre_rca.Store.Keeps.{Step}
use umodel_sre_rca.Store.Invariant.Intake.{
  Keeps-check_active_claim, Keeps-claim_next, Keeps-mark, Keeps-set_card, Keeps-set_card_for_claim,
  Keeps-update_card,
}
use umodel_sre_rca.Store.Invariant.Settlement.{
  Keeps-complete_and_schedule, Keeps-complete_job_and_incident, Keeps-retry_or_fail,
  Keeps-store_evidence,
}
use umodel_sre_rca.Worker.Run.{
  analyse, conclude, create_card, finish_recovered_card_create, give_up, investigate, is_inactive,
  max_attempts, persistence_failure, quiet, quietly, retry_or_fail, run_one, update_card, work_on,
  fail, ids_of, collect_evidence,
}
use umodel_sre_rca.Schedule.Steps.{
  Follows, Follows-attempt, Follows-give, Follows-if, Follows-incident, Follows-repo,
}

module _ (env : Env) where
  Follows-retry : (job : Job) → Follows (retry_or_fail env job)
  Follows-retry job = Follows-repo env.codecs _ (Keeps-retry_or_fail job env.later max_attempts)

  Follows-quiet_or : (e f : Error) → Follows (if is_inactive e then quiet env else give (err f))
  Follows-quiet_or e f = Follows-if (is_inactive e) _ _ (Follows-give _) (Follows-give _)

  Follows-persistence : (job : Job) (e : Error) → Follows (persistence_failure env job e)
  unfolding persistence_failure
  Follows-persistence job e =
      Follows-if (is_inactive e) _ _ (Follows-give _) (
        Follows-attempt _ _ _ (Follows-retry job) (λ f. Follows-quiet_or f f) (λ _. Follows-give _))

  Follows-quietly : (job : Job) (e : Error) → Follows (quietly env job e)
  Follows-quietly job e =
      Follows-if (is_inactive e) _ _ (Follows-give _) (Follows-persistence job e)

  Follows-update_card :
      (job : Job) (i : Incident) (r : RcaResult) → Follows (update_card env job i r)
  unfolding update_card
  Follows-update_card job i r = Follows-repo env.codecs _ (Keeps-update_card job _)

  Follows-give_up : (job : Job) (e : Error) → Follows (give_up env job e)
  unfolding give_up
  Follows-give_up job e =
      Follows-attempt _ _ _ (Follows-retry job) (λ f. Follows-quiet_or f f) (λ _. Follows-give _)

  Follows-fail : (i : Incident) (job : Job) (e : Error) → Follows (fail env i job e)
  unfolding fail
  Follows-fail i job e =
      Follows-if (leb max_attempts job.attempt && not (i.feishu_message_id == "")) _ _
        (Follows-attempt _ _ _ (Follows-update_card job _ _)
          (λ f. Follows-if (is_inactive f) _ _ (Follows-give _) (Follows-give_up job f))
          (λ _. Follows-give_up job e))
        (Follows-give_up job e)

  Follows-finish : (id m : String) → Follows (finish_recovered_card_create env id m)
  unfolding finish_recovered_card_create
  Follows-finish id m =
      Follows-attempt _ _ _ (Follows-incident env.codecs id) (λ _. Follows-give _)
        λ i. Follows-if (not (is_recovered i.state)) _ _ (Follows-give _) (
          Follows-attempt _ _ _ (Follows-repo env.codecs _ (Keeps-set_card id m env.now))
            (λ _. Follows-give _)
            λ _.
              Follows-attempt _ _ _ (Follows-incident env.codecs id) (λ _. Follows-give _)
                λ _. Follows-give _)

  Follows-conclude : (job : Job) (i : Incident) (r : RcaResult) → Follows (conclude env job i r)
  unfolding conclude
  Follows-conclude job i r =
      Follows-if r.pending_audit _ _
        (Follows-attempt _ _ _ (Follows-update_card job _ _)
          (λ f. Follows-if (is_inactive f) _ _ (Follows-give _) (Follows-fail _ job f))
          λ _.
            Follows-attempt _ _ _
              (Follows-repo env.codecs _ (Keeps-complete_and_schedule env.job_id job i.id _))
              (Follows-quietly job) (λ _. Follows-give _))
        (Follows-attempt _ _ _ (Follows-update_card job _ _)
          (λ f. Follows-if (is_inactive f) _ _ (Follows-give _) (Follows-fail _ job f))
          λ _.
            Follows-attempt _ _ _
              (Follows-repo env.codecs _
                (Keeps-complete_job_and_incident env.marshal env.snapshot_id job i.id r env.now))
              (Follows-quietly job) (λ _. Follows-give _))

  Follows-analyse :
      (job : Job) (i : Incident) (cs : List EvidenceCollection) (items : List Evidence)
      → Follows (analyse env job i cs items)
  unfolding analyse
  Follows-analyse job i cs items =
      Follows-attempt _ _ _
        (Follows-repo env.codecs _ (Keeps-store_evidence env.encode i.id items env.now))
        (Follows-quietly job)
        λ _.
          Follows-attempt _ _ _ (Follows-give (env.investigate i.id cs)) (Follows-fail i job) λ r.
            Follows-attempt _ _ _ (Follows-give (validate_result r (some (ids_of items))))
              (Follows-fail i job) λ _. Follows-conclude job i r

  Follows-investigate : (job : Job) (i : Incident) → Follows (investigate env job i)
  unfolding investigate
  Follows-investigate job i =
      let k = record i { state = IncidentState.investigating } in
      Follows-attempt _ _ _ (Follows-repo env.codecs _ (Keeps-mark job env.now))
        (Follows-quietly job)
        λ _.
          Follows-attempt _ _ _ (Follows-update_card job k empty_result)
            (λ f. Follows-if (is_inactive f) _ _ (Follows-give _) (Follows-fail k job f))
            λ _.
              Follows-attempt _ _ _ (Follows-give (collect_evidence env k.id)) (Follows-fail k job)
                λ found. Follows-analyse job k found.0 found.1

  Follows-create : (job : Job) (i : Incident) → Follows (create_card env job i)
  unfolding create_card
  Follows-create job i =
      Follows-attempt _ _ _ (Follows-repo env.codecs _ (Keeps-check_active_claim job))
        (Follows-quietly job)
        λ _.
          Follows-attempt _ _ _ (Follows-give (env.create_incident_card i)) (Follows-fail i job)
            λ m.
              Follows-attempt _ _ _
                (Follows-repo env.codecs _ (Keeps-set_card_for_claim job m env.now))
                (λ f.
                  Follows-if (is_inactive f) _ _ (Follows-finish i.id m)
                    (Follows-persistence job f))
                λ _.
                  Follows-attempt _ _ _ (Follows-incident env.codecs i.id) (Follows-persistence job)
                    λ k.
                      Follows-if (is_recovered k.state) _ _ (Follows-give _)
                        (Follows-investigate job k)

  Follows-work_on : (o : Option Job) → Follows (work_on env o)
  Follows-work_on none = Follows-give _
  Follows-work_on (some job) =
      Follows-attempt _ _ _ (Follows-incident env.codecs job.incident_id) (Follows-persistence job)
        λ i.
          Follows-if (i.feishu_message_id == "") _ _ (Follows-create job i)
            (Follows-investigate job i)

  -- Whatever others do between the repository calls of RunOne, and whichever of its calls fail, it
  -- leaves a well-formed database well-formed, and moves incidents, jobs and snapshots only as the
  -- repository's operations may: incidents keep their identity and follow the allowed states,
  -- settled jobs and snapshots stay as they were, no row is lost.
  pub run_one-Step : (w : World) → Step w.db (run_one env w).1.db
  unfolding run_one
  run_one-Step w =
      (Follows-attempt _ _ _ (Follows-repo env.codecs _ (Keeps-claim_next env.worker_id env.now))
          (λ _. Follows-give _) Follows-work_on).at
        w
