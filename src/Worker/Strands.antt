-- ===== src/Worker/Strands.antt =====
-- RunOne whose investigation fails while attempts are left, and every poll after it.
use umodel_sre_rca.Common.{
  [], ◌+◌, ◌⊎◌, ◌<◌, ◌≤◌, ◌∷◌, ◌==◌, All, Error, List, String, err, false, leb, ok, refl, some,
  true, ◌∙◌, ◌≡◌, Within, find_where, count_where, inl, inr, Bool-cases, sym, find_where_unique,
  subst, eq_iff, arith, All-Within,
}
use umodel_sre_rca.Store.Tables.{Db, has_id, job_has_id}
use umodel_sre_rca.Worker.Env.{Env}
use umodel_sre_rca.Domain.{Incident, IncidentState, Job, RcaResult, JobStatus}
use umodel_sre_rca.Store.Holds.{own_id}
use umodel_sre_rca.Store.Progress.{after_mark, mark-Holds, under_way}
use umodel_sre_rca.Store.Requeue.{requeued_row}
use umodel_sre_rca.Worker.Run.{max_attempts, run_one}
use umodel_sre_rca.Store.Settlement.{retry_delay}
use umodel_sre_rca.Schedule.Quiet.{still}
use umodel_sre_rca.Store.Claims.{is_waiting, claimed_by}
use umodel_sre_rca.Worker.Investigates.{keeps_claim, with_evidence}
use umodel_sre_rca.Store.Keeps.{IsValid}
use umodel_sre_rca.Store.Leases.{Claims}
use umodel_sre_rca.Worker.Starts.{
  SameOthers-update, IsCarded, SameOthers, starts, IsCarded-state, IsCarded-message,
  SameOthers-update,
}
use umodel_sre_rca.Worker.Retries.{IsUnderWay, polls, polls-stuck}
use umodel_sre_rca.Store.Intake.{settle_job}
use umodel_sre_rca.Worker.Safety.{run_one-Step}
use umodel_sre_rca.Worker.Breaks.{Breaks, investigate-Breaks, left_behind}

All-every : {A : Type 0} (P : A → Type 0) (xs : List A) → ((x : A) → Within x xs → P x) → All P xs
All-every P [] h = tt
All-every P (x ∷ xs) h = (h x (inl refl), All-every P xs (λ y w. h y (inr w)))

-- Of the rows of js, the one of the incident `id` is under way, and the others stood in `is`.
IsUnderWay-All :
    (id : String) (busy : Incident) (is js : List Incident)
    → find_where (has_id id) js ≡ some busy
    → count_where (has_id id) js ≤ 1
    → (busy.state ≡ IncidentState.investigating) × ((busy.feishu_message_id == "") ≡ false)
    → SameOthers id is js
    → All (λ y. ((y.id == id) ≡ true) ⊎ IsUnderWay y) is
    → All IsUnderWay js
IsUnderWay-All id busy is js found once b others a = All-every IsUnderWay js λ y w.
    elim (Bool-cases (y.id == id)) [
      | inl t ↦
          let same : y ≡ busy = cc (find_where_unique (has_id id) y js once w t, found) in
          subst IsUnderWay (sym same) (λ _. b)
      | inr f ↦ elim (All-Within _ y is a (others y w f)) [ inl t ↦ absurd (cc (t, f)) | inr u ↦ u ]
    ]

-- On a well-formed database whose next claimable job is j, in its first or second attempt, for an
-- incident that waits for its investigation and has a card or gets one, while nobody interferes and
-- every other incident that is active is INVESTIGATING with a card: if the evidence cannot be
-- collected, or the model does not answer, or its answer is refused, then RunOne returns that
-- error, the job is QUEUED again for the retry, the incident is left INVESTIGATING, and no number
-- of later polls, at any times and with any answers of Feishu, of the evidence service and of the
-- model, changes an incident any more.
pub first_failure-strands :
    (env : Env) (db : Db) (j : Job) (i k : Incident) (e : Error) (envs : List Env)
    → IsValid db
    → Claims env.worker_id env.now db j
    → find_where (has_id j.incident_id) db.incidents ≡ some i
    → is_waiting i.state ≡ true
    → IsCarded env i k
    → j.attempt < 2
    → ((m : String) (x : Incident) (r : RcaResult) → env.update_incident_card m x r ≡ ok tt)
    → Breaks env j.incident_id e
    → All (λ y. ((y.id == j.incident_id) ≡ true) ⊎ IsUnderWay y) db.incidents
    → (db' : Db) × (run_one env (still db) ≡ (err e, still db'))
      × (find_where (has_id j.incident_id) db'.incidents
          ≡ some (record k { state = IncidentState.investigating; updated_at = env.now }))
      × (find_where (job_has_id j.id) db'.jobs
          ≡ some (record (settle_job JobStatus.queued (claimed_by env.worker_id env.now j)) {
            run_after = env.later + retry_delay (j.attempt + 1);
          }))
      × ((polls envs db').incidents ≡ db'.incidents)
first_failure-strands env db j i k e envs v x found waits card early cards b a =
    let s = starts env db j i k v x found waits card in
    let job = claimed_by env.worker_id env.now j in
    let waits_too : is_waiting k.state ≡ true = rw (IsCarded-state card) waits in
    let own : k.id ≡ j.incident_id = (eq_iff k.id j.incident_id).0 (own_id job k s.db1 s.held) in
    let left : leb max_attempts job.attempt ≡ false = ground arith in
    let (rs, broken) =
      investigate-Breaks env job k s.db1 s.held waits_too e left own cards
        (subst (λ id. Breaks env id e) (sym own) b) in
    let db' = left_behind env job k s.db1 s.held waits_too rs in
    let ran : run_one env (still db) ≡ (err e, still db') = s.begins ∙ broken in
    let held = mark-Holds job k s.db1 s.held env.now waits_too in
    let valid : IsValid db' =
      subst (λ r. IsValid r.1.db) ran ((run_one-Step env (still db)).valid v) in
    (
      db',
      ran,
      held.stored,
      requeued_row job (under_way job k s.db1 s.held env.now)
          (with_evidence env job (after_mark job k s.db1 s.held env.now) rs)
          (keeps_claim env job (under_way job k s.db1 s.held env.now)
            (after_mark job k s.db1 s.held env.now) rs held)
          env.later,
      polls-stuck envs db' valid (
          IsUnderWay-All j.incident_id (under_way job k s.db1 s.held env.now) db.incidents
            db'.incidents held.stored (valid.one_incident j.incident_id)
            (refl, IsCarded-message card)
            (λ y w f.
              s.others y
                (SameOthers-update j.incident_id _ _ (λ z t. ground (arith, t)) (λ _. refl)
                  s.db1.incidents y w f)
                f)
            a),
    )
