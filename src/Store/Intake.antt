-- ===== src/Store/Intake.antt =====
-- internal/store/sqlite.go: reading incidents, and what the gateway calls (CreateOrGetIncident,
-- Enqueue, Recover).
use Prim.Native.String.{compare}
use text.Mathlib.Text.{is_lt}
use umodel_sre_rca.Common.{
  ℕ, String, Bool, true, false, ◌||◌, ◌&&◌, Option, none, some, ◌==◌, leb, ltb, eqb, if◌then◌else◌,
  find_where, first_by, Error, ok, err, no_rows,
}
use umodel_sre_rca.Domain.{IncidentState, JobStatus, Incident, Job, new_job}
use umodel_sre_rca.Store.Tables.{
  Tx, ◌>>=◌, ◌>>◌, pure, raise, is_active, is_settled, is_recovered, is_live, has_id, has_key,
  update_incidents, update_jobs, insert_incident, insert_job, one_row,
}

abbrev pub text_lt : String → String → Bool
text_lt a b = is_lt (compare a b)

-- ORDER BY alert_at DESC, id DESC
abbrev pub newer : Incident → Incident → Bool
newer i k = ltb k.alert_at i.alert_at || (eqb i.alert_at k.alert_at && text_lt k.id i.id)

-- A SELECT of one row: ErrNoRows if there is none.
abbrev pub one : {A : Type 0} → Option A → Tx A
one none = raise no_rows
one (some a) = pure a

unfoldable pub incident_by_id : String → Tx Incident
incident_by_id id db = one (find_where (has_id id) db.incidents) db

-- A refused INSERT is answered by the active incident of the same key, if there is one.
abbrev pub existing : Option Incident → Error → Tx (Incident × Bool)
existing none e = raise e
existing (some got) e = pure (got, false)

unfoldable pub create_or_get_incident : Incident → Tx (Incident × Bool)
create_or_get_incident incident db = elim (insert_incident incident db) [
  | ok (_, db') ↦ ok ((incident, true), db')
  | err e ↦ existing (find_where (has_key incident.key) db.incidents) e db
]

-- `id` is the random identifier of the new job.
unfoldable pub enqueue : String → String → ℕ → Tx (Unit {0})
unfolding new_job
enqueue id incident_id run_after = insert_job (new_job id incident_id run_after)

abbrev found : Option Incident → Option Incident × Bool
found none = (none, false)
found (some i) = (some i, true)

unfoldable pub recovered_incident_by_key : String → ℕ → Tx (Option Incident × Bool)
recovered_incident_by_key key at db = ok (
  found (
      first_by newer (λ i. i.key == key && is_recovered i.state && leb i.alert_at at) db.incidents),
  db,
)

-- UPDATE jobs SET status = 'CANCELLED', worker_id = '', lease_until = 0 …
abbrev pub settle_job : JobStatus → Job → Job
settle_job s j = record j { status = s; worker_id = ""; lease_until = 0 }

unfoldable pub cancel_jobs_for_incident : String → Tx (Unit {0})
cancel_jobs_for_incident incident_id = do
  _ ←
      update_jobs (λ _ j. j.incident_id == incident_id && is_live j.status)
        (settle_job JobStatus.cancelled)
  pure tt

-- incident_key = ? AND state IN ('RECEIVED',…,'RECOVERED') AND alert_at <= ?
abbrev pub recoverable : String → ℕ → Incident → Bool
recoverable key at i =
    i.key == key
    && ((is_active i.state || is_settled i.state || is_recovered i.state) && leb i.alert_at at)

unfoldable pub recover_incident : ℕ → Incident → Tx (Incident × Bool)
unfolding cancel_jobs_for_incident
recover_incident at i = do
  changed ←
      update_incidents (λ _ k. k.id == i.id && (is_active k.state || is_settled k.state))
        (λ k. record k { state = IncidentState.recovered; updated_at = at })
  one_row no_rows changed
  cancel_jobs_for_incident i.id
  pure (record i { state = IncidentState.recovered; updated_at = at }, true)

-- The part of `Recover` below the SELECT: nothing to do for an incident that has recovered before.
abbrev pub recover_found : ℕ → Option Incident → Tx (Option Incident × Bool)
recover_found at none = pure (none, false)
recover_found at (some i) =
    if is_recovered i.state
    then pure (some i, false)
    else (recover_incident at i >>= λ r. pure (some r.0, r.1))

-- `none` stands for the zero incident that `Recover` returns when no row matches.
unfoldable pub recover : String → ℕ → Tx (Option Incident × Bool)
unfolding recover_incident
recover key at db = recover_found at (first_by newer (recoverable key at) db.incidents) db
