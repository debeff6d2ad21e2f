-- ===== src/Store/Keeps.antt =====
-- Well-formed databases, the evolution of a database, and the combinators that carry both through a
-- transaction: each statement and each way to put statements together has a rule.
pub mod Inserts
pub mod Statements
use umodel_sre_rca.Common.{
  ℕ, inl, inr, String, Bool, true, false, ◌||◌, ◌≤◌, List, [], ◌∷◌, ◌++◌, ◌==◌, eqb, eq_iff, ◌≡◌,
  refl, ◌∙◌, sym, arith, if◌then◌else◌, Bool-cases, All, All-append, All-update, exists_where,
  count_where, update_where, count_where-append, count_where-eq-zero, count_where-update-le,
  Evolves, Evolves-refl, Evolves-trans, Evolves-append, Evolves-update, Error, Result, ok, err,
}
use umodel_sre_rca.Domain.{IncidentState, Incident, Job}
use umodel_sre_rca.Store.Tables.{
  Document, Db, Tx, ◌>>=◌, pure, raise, run, is_active, is_running, has_id, has_key, job_has_id,
  update_incidents, update_jobs, insert_incident, insert_job, insert_snapshot, one_row,
}
use umodel_sre_rca.Store.Runs.{Yields}
use umodel_sre_rca.Store.Moves.{
  IncidentMove, JobMove, IsIdle, may_become, IncidentMove-refl, IncidentMove-trans, JobMove-refl,
  JobMove-trans,
}

-- Primary keys are unique, no two active incidents share a key, and only running jobs have a lease.
pub record IsValid (db : Db) : Type 0 where
  pub one_incident : (id : String) → count_where (has_id id) db.incidents ≤ 1
  pub one_active : (key : String) → count_where (has_key key) db.incidents ≤ 1
  pub one_job : (id : String) → count_where (job_has_id id) db.jobs ≤ 1
  pub idle_jobs : All IsIdle db.jobs

-- What any operation does: it keeps a database well-formed, moves each row as allowed, never
-- changes a snapshot, and deletes no row.
pub record Step (db db' : Db) : Type 0 where
  pub valid : IsValid db → IsValid db'
  pub incidents : Evolves IncidentMove db.incidents db'.incidents
  pub jobs : Evolves JobMove db.jobs db'.jobs
  pub snapshots : Evolves (λ s t. t ≡ s) db.evidence_snapshots db'.evidence_snapshots

pub Step-refl : (db : Db) → Step db db
Step-refl db = record {
  valid = λ v. v;
  incidents = Evolves-refl IncidentMove IncidentMove-refl db.incidents;
  jobs = Evolves-refl JobMove JobMove-refl db.jobs;
  snapshots = Evolves-refl _ (λ _. refl) db.evidence_snapshots;
}

pub Step-trans : (a b c : Db) → Step a b → Step b c → Step a c
Step-trans a b c h k = record {
  valid = λ v. k.valid (h.valid v);
  incidents = Evolves-trans IncidentMove IncidentMove-trans _ _ _ h.incidents k.incidents;
  jobs = Evolves-trans JobMove JobMove-trans _ _ _ h.jobs k.jobs;
  snapshots = Evolves-trans _ (λ _ _ _ p q. q ∙ p) _ _ _ h.snapshots k.snapshots;
}

pub ok-db :
    {A : Type 0} {a b : A} {db db' : Db}
    → ◌≡◌ {A = Result (A × Db)} (ok (a, db)) (ok (b, db'))
    → db' ≡ db
ok-db e = ground arith

pub record Keeps {A : Type 0} (m : Tx A) : Type 0 where
  pub at : (db : Db) (a : A) (db' : Db) → Yields m db a db' → Step db db'

pub Keeps-pure : {A : Type 0} (a : A) → Keeps (pure a)
Keeps-pure a = record { at = λ db b db' e. rw (ok-db e) (Step-refl db) }

pub Keeps-raise : {A : Type 0} (e : Error) → Keeps {A = A} (raise e)
Keeps-raise e = record { at = λ db b db' h. absurd (cc) }

pub Keeps->>= :
    {A B : Type 0} (m : Tx A) (f : A → Tx B) → Keeps m → ((a : A) → Keeps (f a)) → Keeps (m >>= f)
Keeps->>= {A} {B} m f h k = record { at = λ db b db'. go db b db' (m db) refl }
  where
    go :
        (db : Db) (b : B) (db' : Db) (r : Result (A × Db))
        → m db ≡ r
        → ◌≡◌ {A = Result (B × Db)} (elim r [ err e ↦ err e | ok (a, d) ↦ f a d ]) (ok (b, db'))
        → Step db db'
    go db b db' (err e) p q = absurd (cc)
    go db b db' (ok (a, d)) p q = Step-trans db d db' (h.at db a d p) ((k a).at d b db' q)

pub Keeps-if : {A : Type 0} (b : Bool) (m n : Tx A) → Keeps m → Keeps n → Keeps (if b then m else n)
Keeps-if true m n h k = h
Keeps-if false m n h k = k

-- An operation that may look at the database before it chooses what to do.
pub Keeps-look : {A : Type 0} (f : Db → Tx A) → ((db : Db) → Keeps (f db)) → Keeps (λ db. f db db)
Keeps-look f h = record { at = λ db a db' e. (h db).at db a db' e }

pub Keeps-one_row : (e : Error) (n : ℕ) → Keeps (one_row e n)
Keeps-one_row e n = record {
  at = λ db a db' h. elim (Bool-cases (eqb n 1)) [
    | inl t ↦ rw (ok-db (rw t at h)) (Step-refl db)
    | inr f ↦ absurd (ground arith)
  ];
}

active_before :
    (s t : IncidentState) → may_become s t ≡ true → is_active t ≡ true → is_active s ≡ true
active_before s t h k = ground arith

module _ (p : Db → Incident → Bool) (f : Incident → Incident) where
  abbrev pub MovesIncidents : Type 0
  MovesIncidents = (db : Db) (i : Incident) → p db i ≡ true → IncidentMove i (f i)

  keeps_key :
      MovesIncidents
      → (db : Db) (key : String) (i : Incident) → p db i ≡ true
      → has_key key (f i) ≡ true
      → has_key key i ≡ true
  keeps_key h db key i e k =
      let m = h db i e in ground (arith, active_before i.state (f i).state m.legal, m.same_key)

  update_incidents-IsValid :
      MovesIncidents
      → (db : Db) → IsValid db
      → IsValid (record db { incidents = update_where (p db) f db.incidents })
  update_incidents-IsValid h db v = record {
    one_incident = λ id. omega (
      arith,
      v.one_incident id,
      count_where-update-le (has_id id) (p db) f (λ x e k. rw (← (h db x e).same_id) k)
          db.incidents,
    );
    one_active = λ key. omega (
      arith,
      v.one_active key,
      count_where-update-le (has_key key) (p db) f (keeps_key h db key) db.incidents,
    );
    one_job = v.one_job;
    idle_jobs = v.idle_jobs;
  }

  pub Keeps-update_incidents : MovesIncidents → Keeps (update_incidents p f)
  unfolding update_incidents
  Keeps-update_incidents h = record {
    at = λ db n db' e. rw (ok-db e) (record {
      valid = update_incidents-IsValid h db;
      incidents = Evolves-update IncidentMove IncidentMove-refl (p db) f (h db) db.incidents;
      jobs = (Step-refl db).jobs;
      snapshots = (Step-refl db).snapshots;
    });
  }

module _ (p : Db → Job → Bool) (f : Job → Job) where
  abbrev pub MovesJobs : Type 0
  MovesJobs = (db : Db) (j : Job) → p db j ≡ true → JobMove j (f j)

  update_jobs-IsValid :
      MovesJobs
      → (db : Db) → IsValid db
      → IsValid (record db { jobs = update_where (p db) f db.jobs })
  update_jobs-IsValid h db v = record {
    one_incident = v.one_incident;
    one_active = v.one_active;
    one_job = λ id. omega (
      arith,
      v.one_job id,
      count_where-update-le (job_has_id id) (p db) f (λ x e k. rw (← (h db x e).same_id) k) db.jobs,
    );
    idle_jobs = All-update IsIdle (p db) f (λ x e. (h db x e).idle) db.jobs v.idle_jobs;
  }

  pub Keeps-update_jobs : MovesJobs → Keeps (update_jobs p f)
  unfolding update_jobs
  Keeps-update_jobs h = record {
    at = λ db n db' e. rw (ok-db e) (record {
      valid = update_jobs-IsValid h db;
      incidents = (Step-refl db).incidents;
      jobs = Evolves-update JobMove JobMove-refl (p db) f (h db) db.jobs;
      snapshots = (Step-refl db).snapshots;
    });
  }
