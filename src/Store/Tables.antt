-- ===== src/Store/Tables.antt =====
-- The tables of internal/store/sqlite.go, the statements that the repository runs on them, and
-- transactions. A failing transaction is rolled back, so its result holds no database.
use umodel_sre_rca.Common.{
  ℕ, String, Bool, true, false, ◌||◌, ◌&&◌, List, [], ◌∷◌, ◌++◌, ◌==◌, eqb, if◌then◌else◌,
  exists_where, count_where, update_where, Error, Result, ok, err, constraint,
}
use umodel_sre_rca.Domain.{IncidentState, JobStatus, Incident, Job}

pub record Document : Type 0 where
  pub id : String
  pub incident_id : String
  pub evidence_json : String
  pub created_at : ℕ

pub record Db : Type 0 where
  pub incidents : List Incident
  pub jobs : List Job
  pub evidence_snapshots : List Document
  pub evidence_records : List Document

abbrev pub empty_db : Db
empty_db = record { incidents = []; jobs = []; evidence_snapshots = []; evidence_records = [] }

-- state IN ('RECEIVED','INVESTIGATING','AWAITING_AUDIT_EVENT')
abbrev pub is_active : IncidentState → Bool
is_active IncidentState.received = true
is_active IncidentState.investigating = true
is_active IncidentState.awaiting_audit_event = true
is_active _ = false

-- state IN ('COMPLETED','FAILED')
abbrev pub is_settled : IncidentState → Bool
is_settled IncidentState.completed = true
is_settled IncidentState.failed = true
is_settled _ = false

abbrev pub is_recovered : IncidentState → Bool
is_recovered IncidentState.recovered = true
is_recovered _ = false

abbrev pub is_queued : JobStatus → Bool
is_queued JobStatus.queued = true
is_queued _ = false

abbrev pub is_running : JobStatus → Bool
is_running JobStatus.running = true
is_running _ = false

-- status IN ('QUEUED','RUNNING')
abbrev pub is_live : JobStatus → Bool
is_live s = is_queued s || is_running s

-- An operation on the database, inside a transaction or as a single statement.
abbrev pub Tx : Type 0 → Type 0
Tx A = Db → Result (A × Db)

infixl 5 ◌>>=◌ ◌>>◌
abbrev pub ◌>>=◌ : {A B : Type 0} → Tx A → (A → Tx B) → Tx B
◌>>=◌ m f db = elim (m db) [ err e ↦ err e | ok (a, db') ↦ f a db' ]

abbrev pub ◌>>◌ : {B : Type 0} → Tx (Unit {0}) → Tx B → Tx B
m >> k = m >>= λ _. k

abbrev pub pure : {A : Type 0} → A → Tx A
pure a db = ok (a, db)

abbrev pub raise : {A : Type 0} → Error → Tx A
raise e db = err e

-- Commit or roll back.
abbrev pub settle : {A : Type 0} → Db → Result (A × Db) → Result A × Db
settle db (err e) = (err e, db)
settle db (ok (a, db')) = (ok a, db')

abbrev pub run : {A : Type 0} → Tx A → Db → Result A × Db
run m db = settle db (m db)

abbrev pub has_id : String → Incident → Bool
has_id id i = i.id == id

abbrev pub has_key : String → Incident → Bool
has_key key i = is_active i.state && i.key == key

abbrev pub job_has_id : String → Job → Bool
job_has_id id j = j.id == id

-- EXISTS (SELECT 1 FROM incidents WHERE incidents.id = jobs.incident_id AND state IN (…))
abbrev pub is_open : Db → String → Bool
is_open db incident_id = exists_where (λ i. i.id == incident_id && is_active i.state) db.incidents

-- UPDATE incidents SET … WHERE …; the result is RowsAffected.
unfoldable pub update_incidents : (Db → Incident → Bool) → (Incident → Incident) → Tx ℕ
update_incidents p f db =
    ok (
      count_where (p db) db.incidents,
      record db { incidents = update_where (p db) f db.incidents },
    )

-- UPDATE jobs SET … WHERE …
unfoldable pub update_jobs : (Db → Job → Bool) → (Job → Job) → Tx ℕ
update_jobs p f db =
    ok (count_where (p db) db.jobs, record db { jobs = update_where (p db) f db.jobs })

-- INSERT INTO incidents: refused by the primary key, and by the unique index on the key of active
-- incidents. The statement does not name feishu_message_id, whose default is ''.
unfoldable pub insert_incident : Incident → Tx (Unit {0})
insert_incident i db =
    if exists_where (has_id i.id) db.incidents
      || (is_active i.state && exists_where (has_key i.key) db.incidents)
    then err constraint
    else ok (tt, record db { incidents = db.incidents ++ record i { feishu_message_id = "" } ∷ [] })

-- INSERT INTO jobs (id, incident_id, status, run_after): the other columns take their defaults.
unfoldable pub insert_job : Job → Tx (Unit {0})
insert_job j db =
    if exists_where (job_has_id j.id) db.jobs
    then err constraint
    else ok (
      tt,
      record db {
        jobs = db.jobs ++ record j { worker_id = ""; attempt = 0; lease_until = 0 } ∷ [];
      },
    )

unfoldable pub insert_snapshot : Document → Tx (Unit {0})
insert_snapshot s db =
    if exists_where (λ (t : Document). t.id == s.id) db.evidence_snapshots
    then err constraint
    else ok (tt, record db { evidence_snapshots = db.evidence_snapshots ++ s ∷ [] })

-- `oneRow`, `activeRow` and `leaseRow`, which differ in the error.
abbrev pub one_row : Error → ℕ → Tx (Unit {0})
one_row e changed db = if eqb changed 1 then ok (tt, db) else err e
