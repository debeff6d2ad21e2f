-- ===== src/Gateway/Delivered.antt =====
-- An alert from its callback to the end of its investigation: the gateway enters it, and a worker's
-- next poll takes it up.
use umodel_sre_rca.Worker.Starts.{gets_card}
use umodel_sre_rca.Common.{
  exists_where-append, ◌∙◌, ◌++◌, ◌&&◌, ◌==◌, Bool, List, String, Within, [], arith, eq_iff,
  exists_where, false, inl, inr, refl, ℕ, ◌∷◌, ◌≡◌, ◌⊎◌, true, find_where, some, ok,
  find_where-append, exists_where-without, ◌≤◌, eq_refl, subst,
}
use umodel_sre_rca.Domain.{Alert, Incident, Job, new_incident, new_job, IncidentState, JobStatus}
use umodel_sre_rca.Store.Tables.{Db, has_id, has_key, is_active, is_open, job_has_id}
use umodel_sre_rca.Gateway.{Gate, on_occurred, Reply}
use umodel_sre_rca.Store.Keeps.{IsValid}
use umodel_sre_rca.Store.Invariant.Intake.{Keeps-create_or_get, Keeps-enqueue}
use umodel_sre_rca.Gateway.Repeats.{
  alert_key, entered, enters_incident, incident_of, queues_job, occurred_first,
}
use umodel_sre_rca.Store.Claims.{is_claimable, claimed_by}
use umodel_sre_rca.Store.Leases.{Claims, claim_next-cases}
use umodel_sre_rca.Worker.Env.{Env}
use umodel_sre_rca.Worker.Investigates.{Answers}
use umodel_sre_rca.Schedule.Quiet.{still}
use umodel_sre_rca.Worker.Run.{run_one}
use umodel_sre_rca.Store.Intake.{settle_job}
use umodel_sre_rca.Worker.Completes.{snapshot_of, run_one-completes}

Within-append :
    {A : Type 0} (x y : A) (xs : List A) → Within x (xs ++ y ∷ []) → Within x xs ⊎ (x ≡ y)
Within-append x y [] (inl e) = inr e
Within-append x y [] (inr w) = elim w [ ]
Within-append x y (z ∷ xs) (inl e) = inl (inl e)
Within-append x y (z ∷ xs) (inr w) = elim (Within-append x y xs w) [
  | inl u ↦ inl (inr u)
  | inr e ↦ inr e
]

unfoldable is_for : String → Job → Bool
is_for id j = j.incident_id == id

module _ (gate : Gate) (alert : Alert) (db : Db) where
  abbrev pub first_job : Job
  first_job = new_job gate.job_id gate.incident_id alert.event_at

  -- The new incident opens no other job.
  opens_only :
      (id : String)
      → (id == gate.incident_id) ≡ false
      → is_open (entered gate alert db) id ≡ is_open db id
  unfolding new_incident exists_where
  opens_only id h =
      rw
        (exists_where-append (λ (i : Incident). i.id == id && is_active i.state) db.incidents
          (incident_of gate alert ∷ []))
        (ground (arith, eq_iff gate.incident_id id, eq_iff id gate.incident_id))

  module _ (fresh_id : exists_where (has_id gate.incident_id) db.incidents ≡ false)
      (fresh_key : exists_where (has_key (alert_key alert)) db.incidents ≡ false)
      (fresh_job : exists_where (job_has_id gate.job_id) db.jobs ≡ false) where
    entered-IsValid : IsValid db → IsValid (entered gate alert db)
    entered-IsValid v =
        ((Keeps-enqueue gate.job_id gate.incident_id alert.event_at).at _ _ _
            (queues_job gate alert db fresh_id fresh_key fresh_job)).valid
          (((Keeps-create_or_get (incident_of gate alert)).at _ _ _
              (enters_incident gate alert db fresh_id fresh_key)).valid
            v)

  module _ (now : ℕ) (unused : exists_where (is_for gate.incident_id) db.jobs ≡ false)
      (idle : exists_where (is_claimable now db) db.jobs ≡ false) where
    not_claimable :
        (j : Job) → Within j db.jobs → is_claimable now (entered gate alert db) j ≡ false
    unfolding is_for
    not_claimable j w =
        let another : (j.incident_id == gate.incident_id) ≡ false =
          exists_where-without (is_for gate.incident_id) j db.jobs w unused in
        let still_idle : is_claimable now db j ≡ false =
          exists_where-without (is_claimable now db) j db.jobs w idle in
        rw (opens_only j.incident_id another) still_idle

    first_job-IsClaimable :
        alert.event_at ≤ now → is_claimable now (entered gate alert db) first_job ≡ true
    unfolding new_job new_incident exists_where
    first_job-IsClaimable due =
        rw
          (exists_where-append (λ (i : Incident). i.id == gate.incident_id && is_active i.state)
            db.incidents (incident_of gate alert ∷ []))
          (ground (arith, eq_refl gate.incident_id))

    someone_waits :
        alert.event_at ≤ now
        → exists_where (is_claimable now (entered gate alert db)) (entered gate alert db).jobs
          ≡ true
    unfolding exists_where
    someone_waits due =
        rw (exists_where-append (is_claimable now (entered gate alert db)) db.jobs (first_job ∷ []))
          (ground (arith, first_job-IsClaimable due))

    -- The new job is the one that the next ClaimNext takes.
    Claims-first :
        (w : String)
        → IsValid (entered gate alert db)
        → alert.event_at ≤ now
        → Claims w now (entered gate alert db) first_job
    Claims-first w v due = elim (claim_next-cases w now (entered gate alert db) v) [
      | inl (no_job, _) ↦ absurd (cc (someone_waits due, no_job))
      | inr (j, x) ↦ elim (Within-append j first_job db.jobs x.is_row) [
        | inl there ↦ absurd (cc (not_claimable j there, x.claimable))
        | inr e ↦ subst (λ k. Claims w now (entered gate alert db) k) e x
      ]
    ]

entered_row :
    (gate : Gate) (alert : Alert) (db : Db)
    → exists_where (has_id gate.incident_id) db.incidents ≡ false
    → find_where (has_id gate.incident_id) (entered gate alert db).incidents
      ≡ some (incident_of gate alert)
unfolding new_incident find_where
entered_row gate alert db fresh =
    find_where-append (has_id gate.incident_id) db.incidents _ fresh
    ∙ rw (eq_refl gate.incident_id) refl

-- The incident of an alert after its investigation.
abbrev pub investigated : Gate → Alert → String → ℕ → Incident
investigated gate alert card at = record (incident_of gate alert) {
  feishu_message_id = card;
  state = IncidentState.completed;
  updated_at = at;
}

-- From an alert to the result, while nobody else runs and no call of the repository fails. On a
-- well-formed database in which no active incident has the alert's key, the identifiers drawn are
-- new and no job is claimable at the time of the poll, the callback of an alert is answered with
-- its new incident. If the alert's time has come, Feishu creates a card and updates it, the
-- evidence service and the model answer, the result is accepted and final, and the snapshot's
-- identifier is new, then the next RunOne of a worker returns without an error and leaves the
-- incident COMPLETED with that card, its job COMPLETED after one attempt and free of its lease, and
-- the result as the last snapshot.
pub occurred-delivers :
    (gate : Gate) (alert : Alert) (env : Env) (db : Db)
    → IsValid db
    → exists_where (has_id gate.incident_id) db.incidents ≡ false
    → exists_where (has_key (alert_key alert)) db.incidents ≡ false
    → exists_where (job_has_id gate.job_id) db.jobs ≡ false
    → exists_where (λ (j : Job). j.incident_id == gate.incident_id) db.jobs ≡ false
    → exists_where (is_claimable env.now db) db.jobs ≡ false
    → alert.event_at ≤ env.now
    → (card : String) → env.create_incident_card (incident_of gate alert) ≡ ok card
    → (card == "") ≡ false
    → (a : Answers env gate.incident_id (entered gate alert db))
    → (on_occurred gate alert (still db)
        ≡ (ok (Reply.accepted_incident gate.incident_id false), still (entered gate alert db)))
      × (db' : Db) × (run_one env (still (entered gate alert db)) ≡ (ok tt, still db'))
      × (find_where (has_id gate.incident_id) db'.incidents
          ≡ some (investigated gate alert card env.now))
      × (find_where (job_has_id gate.job_id) db'.jobs
          ≡ some (
              settle_job JobStatus.completed (
                claimed_by env.worker_id env.now
                  (new_job gate.job_id gate.incident_id alert.event_at))))
      × (db'.evidence_snapshots
          ≡ db.evidence_snapshots ++ snapshot_of env gate.incident_id a.json ∷ [])
unfolding new_job new_incident is_for
occurred-delivers gate alert env db v fresh_id fresh_key fresh_job unused idle due card c given a =
    let valid = entered-IsValid gate alert db fresh_id fresh_key fresh_job v in
    let (db', ran, row, job_row, kept) =
      run_one-completes env (entered gate alert db) (first_job gate alert db)
        (incident_of gate alert) _ valid
        (Claims-first gate alert db env.now unused idle env.worker_id valid due)
        (entered_row gate alert db fresh_id) refl (gets_card card refl c given) a in
    (occurred_first gate alert db fresh_id fresh_key fresh_job, db', ran, row, job_row, kept)
