-- ===== src/Worker/Retries.antt =====
-- What RunOne does for an incident that an earlier attempt has left INVESTIGATING.
use umodel_sre_rca.Common.{
  All-Within, ok, ◌==◌, All, List, String, [], arith, eq_refl, exists_where, exists_where-Within,
  false, find_where-Within, inl, inr, some, subst, sym, true, ℕ, ◌∷◌, ◌≡◌, ap, incident_inactive,
  refl, ◌∙◌,
}
use umodel_sre_rca.Store.Leases.{Claims, after_claim, claim_next-cases}
use umodel_sre_rca.Store.Tables.{Db, is_active, job_has_id}
use umodel_sre_rca.Worker.Env.{Env}
use umodel_sre_rca.Domain.{Incident, IncidentState, Job}
use umodel_sre_rca.Store.Keeps.{IsValid}
use umodel_sre_rca.Store.Runs.{Raises}
use umodel_sre_rca.Store.Claims.{claimed_by, holds_claim, mark_investigating_for_claim}
use umodel_sre_rca.Store.Invariant.Intake.{Keeps-claim_next}
use umodel_sre_rca.Worker.Run.{investigate, run_one, quietly}
use umodel_sre_rca.Store.Marking.{mark_again}
use umodel_sre_rca.Store.Holds.{claimed_incident}
use umodel_sre_rca.Worker.Begins.{claims-none, claims-some, reads_incident}
use umodel_sre_rca.Schedule.Quiet.{still, repo_else}

module _ (env : Env) where
  left_alone :
      (db : Db) (job : Job) (i : Incident)
      → Raises (mark_investigating_for_claim job env.now) db incident_inactive
      → investigate env job i (still db) ≡ (ok tt, still db)
  unfolding investigate
  left_alone db job i h =
      repo_else env.codecs (mark_investigating_for_claim job env.now) (quietly env job) _ db
        incident_inactive h

-- The worker has got past MarkInvestigatingForClaim before, with every incident that is active.
abbrev pub IsUnderWay : Incident → Type 0
IsUnderWay i =
    is_active i.state ≡ true
    → (i.state ≡ IncidentState.investigating) × ((i.feishu_message_id == "") ≡ false)

claim_holds :
    (w : String) (now : ℕ) (db : Db) (j : Job)
    → Claims w now db j
    → let db' = after_claim w now db j in
      exists_where (holds_claim (claimed_by w now j) db') db'.jobs ≡ true
claim_holds w now db j x =
    exists_where-Within (holds_claim (claimed_by w now j) (after_claim w now db j))
      (claimed_by w now j) _ (find_where-Within (job_has_id j.id) _ x.row)
      (rw (eq_refl j.id, eq_refl j.incident_id, eq_refl w) (ground (arith, x.claimable)))

module _ (env : Env) (db : Db) (v : IsValid db) where
  -- RunOne for a job that it has claimed: the worker hears that the incident is not active, and
  -- stops.
  claimed_is_left :
      (j : Job)
      → Claims env.worker_id env.now db j
      → All IsUnderWay db.incidents
      → run_one env (still db) ≡ (ok tt, still (after_claim env.worker_id env.now db j))
  claimed_is_left j x u =
      let (i, found, active, here) = claimed_incident env.worker_id env.now db j v x in
      let (busy, has_card) = All-Within IsUnderWay i db.incidents u here active in
      let job = claimed_by env.worker_id env.now j in
      let db' = after_claim env.worker_id env.now db j in
      let v' : IsValid db' =
        ((Keeps-claim_next env.worker_id env.now).at db (some job) db' x.result).valid v in
      let refused : Raises (mark_investigating_for_claim job env.now) db' incident_inactive =
        mark_again job env.now db' i v' found (claim_holds env.worker_id env.now db j x)
          (rw busy) in
      claims-some env db db' job x.result
      ∙ (reads_incident env db' job i found ∙ rw has_card (left_alone env db' job i refused))

  run_one-stays :
      All IsUnderWay db.incidents
      → (db' : Db) × (run_one env (still db) ≡ (ok tt, still db'))
        × IsValid db'
        × (db'.incidents ≡ db.incidents)
  run_one-stays u = elim (claim_next-cases env.worker_id env.now db v) [
    | inl (_, r) ↦ (db, claims-none env db r, v, refl)
    | inr (j, x) ↦ (
      after_claim env.worker_id env.now db j,
      claimed_is_left j x u,
      ((Keeps-claim_next env.worker_id env.now).at db _ _ x.result).valid v,
      refl,
    )
  ]

-- The polls of a worker, or of several, one after another: each with its own time, answers of the
-- cloud and of the model, and without interference.
unfoldable pub polls : List Env → Db → Db
polls [] db = db
polls (env ∷ envs) db = polls envs (run_one env (still db)).1.db

-- On a well-formed database whose active incidents are all INVESTIGATING and have a card, no
-- number of polls, one after another and undisturbed, at any times and with any answers of Feishu,
-- of the evidence service and of the model, changes any incident: none is completed, failed or put
-- off.
pub polls-stuck :
    (envs : List Env) (db : Db)
    → IsValid db
    → All IsUnderWay db.incidents
    → (polls envs db).incidents ≡ db.incidents
unfolding polls
polls-stuck [] db v u = refl
polls-stuck (env ∷ envs) db v u =
    let (db', r, v', same) = run_one-stays env db v u in
    let left : db' ≡ (run_one env (still db)).1.db = ap (λ p. p.1.db) (sym r) in
    subst (λ d. (polls envs d).incidents ≡ db.incidents) left
      (polls-stuck envs db' v' (subst (All IsUnderWay) (sym same) u) ∙ same)
