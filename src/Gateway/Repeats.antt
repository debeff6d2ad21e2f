-- ===== src/Gateway/Repeats.antt =====
-- Callbacks that arrive again while their incident is active.
use umodel_sre_rca.Common.{
  ok, ◌≡◌, refl, ◌∙◌, String, find_where, some, true, false, exists_where, [], ◌∷◌, ◌++◌,
  find_where-append, eq_refl, subst,
}
use umodel_sre_rca.Domain.{Alert, Incident, incident_key, new_incident, new_job}
use umodel_sre_rca.Store.Intake.{create_or_get_incident, enqueue}
use umodel_sre_rca.Store.Tables.{Db, insert_job, has_key, has_id, job_has_id}
use umodel_sre_rca.Store.Runs.{Yields}
use umodel_sre_rca.Store.Repeats.{create-repeats, create_first}
use umodel_sre_rca.Schedule.Quiet.{still, repo_then}
use umodel_sre_rca.Gateway.{Gate, on_occurred, Reply, answer}

abbrev pub alert_key : Alert → String
alert_key alert = incident_key alert.workspace alert.rule_id alert.resource_id

abbrev pub incident_of : Gate → Alert → Incident
incident_of gate alert =
    new_incident gate.incident_id gate.now alert.workspace alert.rule_id alert.resource_id
      alert.event_at

-- The incident and its job, at the end of their tables.
abbrev pub entered : Gate → Alert → Db → Db
entered gate alert db = record db {
  incidents = db.incidents ++ incident_of gate alert ∷ [];
  jobs = db.jobs ++ new_job gate.job_id gate.incident_id alert.event_at ∷ [];
}

module _ (gate : Gate) (alert : Alert) (db : Db) where
  -- An alert whose key an active incident has is not entered again, and no second job is queued.
  pub occurred_again :
      (i : Incident)
      → find_where (has_key (alert_key alert)) db.incidents ≡ some i
      → on_occurred gate alert (still db) ≡ (ok (Reply.accepted_incident i.id true), still db)
  unfolding on_occurred new_incident
  occurred_again i h =
      repo_then gate.codecs (create_or_get_incident (incident_of gate alert))
        (λ _. answer gate (Reply.server_error "persist incident")) _ db (i, false) db
        (create-repeats (incident_of gate alert) db refl i h)

module _ (gate : Gate) (alert : Alert) (db : Db)
    (fresh_id : exists_where (has_id gate.incident_id) db.incidents ≡ false)
    (fresh_key : exists_where (has_key (alert_key alert)) db.incidents ≡ false) where
  pub enters_incident :
      Yields
        (create_or_get_incident (incident_of gate alert))
        db
        (incident_of gate alert, true)
        (record db { incidents = db.incidents ++ incident_of gate alert ∷ [] })
  unfolding new_incident
  enters_incident = create_first (incident_of gate alert) db refl fresh_id fresh_key

module _ (gate : Gate) (alert : Alert) (db : Db)
    (fresh_key : exists_where (has_key (alert_key alert)) db.incidents ≡ false) where
  pub finds_incident :
      (key : String)
      → alert_key alert ≡ key
      → find_where (has_key key) (db.incidents ++ incident_of gate alert ∷ [])
        ≡ some (incident_of gate alert)
  unfolding new_incident find_where
  finds_incident key e =
      subst
        (λ k.
          find_where (has_key k) (db.incidents ++ incident_of gate alert ∷ [])
          ≡ some (incident_of gate alert))
        e
        (find_where-append (has_key (alert_key alert)) db.incidents _ fresh_key
          ∙ rw (eq_refl (alert_key alert)) refl)

module _ (gate : Gate) (alert : Alert) (db : Db)
    (fresh_id : exists_where (has_id gate.incident_id) db.incidents ≡ false)
    (fresh_key : exists_where (has_key (alert_key alert)) db.incidents ≡ false)
    (fresh_job : exists_where (job_has_id gate.job_id) db.jobs ≡ false) where
  pub queues_job :
      Yields
        (enqueue gate.job_id gate.incident_id alert.event_at)
        (record db { incidents = db.incidents ++ incident_of gate alert ∷ [] })
        tt
        (entered gate alert db)
  unfolding enqueue insert_job new_job
  queues_job = rw fresh_job refl

  pub occurred_first :
      on_occurred gate alert (still db)
      ≡ (ok (Reply.accepted_incident gate.incident_id false), still (entered gate alert db))
  unfolding on_occurred new_incident
  occurred_first =
      repo_then gate.codecs (create_or_get_incident (incident_of gate alert))
        (λ _. answer gate (Reply.server_error "persist incident")) _ db
        (incident_of gate alert, true) _ (enters_incident gate alert db fresh_id fresh_key)
      ∙ repo_then gate.codecs (enqueue gate.job_id gate.incident_id alert.event_at)
          (λ _. answer gate (Reply.server_error "queue incident")) _ _ tt (entered gate alert db)
          queues_job

  -- On a database in which no active incident has the alert's key, and in which the identifiers
  -- drawn are new, the first callback of an alert enters one incident and queues one job for it.
  -- Another callback of the same key that comes next, whatever its time and whatever identifiers
  -- it draws, is answered with the same incident as a duplicate and leaves the database as it is.
  -- Nobody else runs, and no call fails.
  pub occurred_twice :
      (gate' : Gate) (alert' : Alert)
      → alert_key alert ≡ alert_key alert'
      → (on_occurred gate alert (still db)
          ≡ (ok (Reply.accepted_incident gate.incident_id false), still (entered gate alert db)))
        × (on_occurred gate' alert' (still (entered gate alert db))
            ≡ (ok (Reply.accepted_incident gate.incident_id true), still (entered gate alert db)))
  unfolding new_incident
  occurred_twice gate' alert' e = (
    occurred_first,
    occurred_again gate' alert' (entered gate alert db) (incident_of gate alert)
        (finds_incident gate alert db fresh_key (alert_key alert') e),
  )
