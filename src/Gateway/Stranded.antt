-- ===== src/Gateway/Stranded.antt =====
-- A callback whose Enqueue fails after its CreateOrGetIncident has succeeded.
use umodel_sre_rca.Common.{
  Error, ok, ◌≡◌, refl, ◌∙◌, String, find_where, some, none, true, false, exists_where, List, [],
  ◌∷◌, ◌++◌, failure, All, ap, subst,
}
use umodel_sre_rca.Domain.{Alert, Incident}
use umodel_sre_rca.Store.Intake.{create_or_get_incident, enqueue}
use umodel_sre_rca.Store.Tables.{Db, Tx, has_key, has_id}
use umodel_sre_rca.Store.Runs.{Yields}
use umodel_sre_rca.Store.Invariant.{apply_all}
use umodel_sre_rca.Schedule.{World, Codecs, W, repo, attempt, branch}
use umodel_sre_rca.Schedule.Quiet.{still}
use umodel_sre_rca.Gateway.{Gate, on_occurred, Reply, answer}
use umodel_sre_rca.Gateway.Repeats.{
  alert_key, incident_of, occurred_again, enters_incident, finds_incident,
}

-- The first call succeeds and the second does not; nobody else runs.
abbrev pub fails_second : String → Db → World
fails_second text db = record {
  db = db;
  turns =
      record { meanwhile = []; fault = none } ∷ record { meanwhile = []; fault = some text } ∷ [];
}

abbrev pub fails_first : String → Db → World
fails_first text db = record { db = db; turns = record { meanwhile = []; fault = some text } ∷ [] }

module _ (codecs : Codecs) {A B : Type 0} (m : Tx A) (bad : Error → W B) (good : A → W B)
    (text : String) (db : Db) where
  call_then :
      (a : A) (db' : Db)
      → Yields m db a db'
      → attempt (repo codecs m) bad good (fails_second text db) ≡ good a (fails_first text db')
  unfolding repo apply_all
  call_then a db' h = rw (h, branch) refl

  call_fails :
      attempt (repo codecs m) bad good (fails_first text db) ≡ bad (failure text) (still db)
  unfolding repo apply_all
  call_fails = refl

-- Callbacks of alerts that have occurred, one after another, without interference.
unfoldable pub callbacks : List (Gate × Alert) → Db → Db
callbacks [] db = db
callbacks ((gate, alert) ∷ rest) db = callbacks rest (on_occurred gate alert (still db)).1.db

callbacks_ignored :
    (key : String) (i : Incident) (db : Db)
    → find_where (has_key key) db.incidents ≡ some i
    → (calls : List (Gate × Alert)) → All (λ c. key ≡ alert_key c.1) calls
    → callbacks calls db ≡ db
unfolding callbacks
callbacks_ignored key i db h [] a = refl
callbacks_ignored key i db h ((gate, alert) ∷ calls) (e, a) =
    let same : (on_occurred gate alert (still db)).1.db ≡ db =
      ap (λ r. r.1.db)
        (occurred_again gate alert db i
          (subst (λ k. find_where (has_key k) db.incidents ≡ some i) e h)) in
    rw same (callbacks_ignored key i db h calls a)

-- On a database in which no active incident has the alert's key, for a new identifier, and while
-- nobody else runs: if Enqueue fails after CreateOrGetIncident has succeeded, the callback is
-- answered with an error and the incident stays without a new job; no number of callbacks that come
-- next and say that an alert of the same key has occurred, not even the sender's retries of the one
-- that failed, queues a job or changes the database in any way.
pub enqueue_fault-strands :
    (gate : Gate) (alert : Alert) (text : String) (db : Db)
    → exists_where (has_id gate.incident_id) db.incidents ≡ false
    → exists_where (has_key (alert_key alert)) db.incidents ≡ false
    → (calls : List (Gate × Alert)) → All (λ c. alert_key alert ≡ alert_key c.1) calls
    → (on_occurred gate alert (fails_second text db) ≡ (
      ok (Reply.server_error "queue incident"),
      still (record db { incidents = db.incidents ++ incident_of gate alert ∷ [] }),
    ))
      × (callbacks calls (record db { incidents = db.incidents ++ incident_of gate alert ∷ [] })
          ≡ record db { incidents = db.incidents ++ incident_of gate alert ∷ [] })
unfolding on_occurred
enqueue_fault-strands gate alert text db fresh_id fresh_key calls same = (
  call_then gate.codecs (create_or_get_incident (incident_of gate alert))
        (λ _. answer gate (Reply.server_error "persist incident")) _ text db
        (incident_of gate alert, true) _ (enters_incident gate alert db fresh_id fresh_key)
      ∙ call_fails gate.codecs (enqueue gate.job_id (incident_of gate alert).id alert.event_at)
          (λ _. answer gate (Reply.server_error "queue incident"))
          (λ _. answer gate (Reply.accepted_incident (incident_of gate alert).id false)) text _,
  callbacks_ignored (alert_key alert) (incident_of gate alert) _
      (finds_incident gate alert db fresh_key (alert_key alert) refl) calls same,
)
