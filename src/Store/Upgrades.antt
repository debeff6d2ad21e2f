-- ===== src/Store/Upgrades.antt =====
-- A database that Open has opened is well-formed, and need not be migrated again.
use umodel_sre_rca.Store.Migration.{migrate, tables}
use umodel_sre_rca.Common.{
  ◌∙◌, ◌&&◌, ◌≤◌, false, sym, count_where, Bool, String, update_where, All, All-map, either_false,
  count_where-update-le, exists_where, eq_iff, count_where-eq-zero, ap,
}
use umodel_sre_rca.Common.{
  Bool-cases, List, Result, arith, err, inl, inr, ok, refl, subst, true, ◌∷◌, ◌≡◌, false, [],
}
use umodel_sre_rca.Store.Migration.{
  DbFile, Faults, JobsTable, carry_out, exec_all, has_duplicates, or_empty, or_new, migrate,
}
use umodel_sre_rca.Domain.{Job, Incident}
use umodel_sre_rca.Store.Keeps.{IsValid}
use umodel_sre_rca.Store.Tables.{is_running, has_id, job_has_id, has_key, is_active, Db}
use umodel_sre_rca.Store.Moves.{IsIdle}
use umodel_sre_rca.Store.Opened.{
  migrated_jobs, up_to_date, no_faults, Ends, migrate_quiet, migrates, IsIndexable,
}
use umodel_sre_rca.Store.Migration.{migrate, open_file, opened, tables}

no_duplicates :
    (is : List Incident)
    → has_duplicates is ≡ false
    → (key : String) → count_where (has_key key) is ≤ 1
unfolding has_duplicates count_where
no_duplicates [] h key = omega arith
no_duplicates (i ∷ is) h key =
    let (apart, rest) = either_false (is_active i.state && exists_where (has_key i.key) is) _ h in
    elim (Bool-cases (has_key key i)) [
      | inl t ↦
          let same : i.key ≡ key = (eq_iff i.key key).0 (ground arith) in
          let none_left : exists_where (has_key key) is ≡ false =
            subst (λ k. exists_where (has_key k) is ≡ false) same (ground arith) in
          rw (t, count_where-eq-zero (has_key key) is none_left) (omega arith)
      | inr n ↦ rw n (omega (arith, no_duplicates is rest key))
    ]

abbrev IsIdleRow : Bool → Job → Type 0
IsIdleRow leased j =
    is_running j.status ≡ false → (j.worker_id ≡ "") × (leased ≡ true → j.lease_until ≡ 0)

-- What this package has left in a file, by its present version or by the one before: primary keys are
-- unique, no two active incidents have one key if there is an index, and only a running job has a
-- worker, and a lease if there is a column for it.
pub record IsFile (f : DbFile) : Type 0 where
  pub one_incident : (id : String) → count_where (has_id id) (or_empty f.incidents) ≤ 1
  pub one_active :
      f.active_key ≡ true → (key : String) → count_where (has_key key) (or_empty f.incidents) ≤ 1
  pub one_job : (id : String) → count_where (job_has_id id) (or_new f.jobs).rows ≤ 1
  pub idle_jobs : All (IsIdleRow (or_new f.jobs).has_lease_until) (or_new f.jobs).rows

defaults-IsIdle :
    (js : List Job)
    → All (IsIdleRow false) js
    → All IsIdle (update_where (λ _. true) (λ j. record j { lease_until = 0 }) js)
unfolding update_where
defaults-IsIdle [] a = tt
defaults-IsIdle (j ∷ js) (p, a) = ((λ h. ((p h).0, refl)), defaults-IsIdle js a)

leased-IsIdle : (js : List Job) → All (IsIdleRow true) js → All IsIdle js
leased-IsIdle js a = All-map js (λ j p h. ((p h).0, (p h).1 refl)) a

module _ (f : DbFile) (v : IsFile f) where
  migrated-IsIdle : All IsIdle (migrated_jobs (or_new f.jobs)).rows
  migrated-IsIdle = elim (Bool-cases (or_new f.jobs).has_lease_until) [
    | inl t ↦ rw t (
        leased-IsIdle (or_new f.jobs).rows
          (subst (λ b. All (IsIdleRow b) (or_new f.jobs).rows) t v.idle_jobs))
    | inr n ↦ rw n (
        defaults-IsIdle (or_new f.jobs).rows
          (subst (λ b. All (IsIdleRow b) (or_new f.jobs).rows) n v.idle_jobs))
  ]

  migrated-once :
      (id : String) → count_where (job_has_id id) (migrated_jobs (or_new f.jobs)).rows ≤ 1
  migrated-once id = elim (Bool-cases (or_new f.jobs).has_lease_until) [
    | inl t ↦ rw t (v.one_job id)
    | inr n ↦ rw n (
        omega (
          arith,
          v.one_job id,
          count_where-update-le (job_has_id id) (λ _. true)
              (λ (j : Job). record j { lease_until = 0 }) (λ x e k. k) (or_new f.jobs).rows,
        ))
  ]

  up_to_date-IsValid : IsIndexable f → IsValid (tables (up_to_date f))
  up_to_date-IsValid x = record {
    one_incident = v.one_incident;
    one_active = elim x [ inl t ↦ v.one_active t | inr n ↦ no_duplicates (or_empty f.incidents) n ];
    one_job = migrated-once;
    idle_jobs = migrated-IsIdle;
  }

-- A file that has been migrated is not changed again.
migrated_has : (t : JobsTable) → (migrated_jobs t).has_lease_until ≡ true
migrated_has t = elim (Bool-cases t.has_lease_until) [ inl h ↦ rw h refl | inr n ↦ rw n refl ]

migrate_again : (f : DbFile) → Ends (migrate no_faults (up_to_date f)) (up_to_date f)
unfolding migrate exec_all carry_out
migrate_again f = rw (migrated_has (or_new f.jobs)) refl

open-Ends :
    (faults : Faults) (sql_open : Result (Unit {0})) (f g : DbFile) (db : Db)
    → ◌≡◌ {A = Result Db × DbFile} (open_file faults sql_open f) (ok db, g)
    → Ends (migrate faults f) g × (db ≡ tables g)
unfolding open_file
open-Ends faults (err e) f g db h = absurd (ground arith)
open-Ends faults (ok u) f g db h = ends (migrate faults f) h
  where
    ends :
        (r : Result (Unit {0}) × DbFile)
        → ◌≡◌ {A = Result Db × DbFile} (opened r) (ok db, g)
        → Ends r g × (db ≡ tables g)
    ends (err e, k) h = absurd (ground arith)
    ends (ok u, k) h = (ground arith, ground arith)

-- If Open succeeds on a file that this package has left, by its present version or by the one before,
-- or on a new one, whichever statements the driver could have refused, then the database is
-- well-formed. Its incidents, snapshots and evidence are those of the file; so are its jobs, whose
-- leases have ended if the file had no column for them. To open the file again gives the same
-- database and changes nothing.
pub open_file-IsValid :
    (faults : Faults) (sql_open : Result (Unit {0})) (f g : DbFile) (db : Db)
    → IsFile f
    → ◌≡◌ {A = Result Db × DbFile} (open_file faults sql_open f) (ok db, g)
    → IsValid db
      × (db ≡ record {
        incidents = or_empty f.incidents;
        jobs = (migrated_jobs (or_new f.jobs)).rows;
        evidence_snapshots = or_empty f.evidence_snapshots;
        evidence_records = or_empty f.evidence_records;
      })
      × (open_file no_faults (ok tt) g ≡ (ok db, g))
unfolding open_file
open_file-IsValid faults sql_open f g db v h =
    let (run, shown) = open-Ends faults sql_open f g db h in
    let (same, x) = migrates f g (migrate_quiet faults f g run) in
    let all : db ≡ tables (up_to_date f) = shown ∙ ap tables same in
    (
      subst IsValid (sym all) (up_to_date-IsValid f v x),
      all,
      rw (same, migrate_again f) (ap (λ (d : Db). (ok d, up_to_date f)) (sym all)),
    )
