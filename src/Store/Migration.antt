-- ===== src/Store/Migration.antt =====
-- internal/store/sqlite.go: Open and migrate, on a file of this package: new, of the present version,
-- or of the version before jobs had the column lease_until.
use umodel_sre_rca.Common.{
  ◌&&◌, Bool, Error, List, Option, Result, [], constraint, err, exists_where, false, if◌then◌else◌,
  none, ok, some, true, update_where, ◌||◌, ◌∷◌,
}
use umodel_sre_rca.Store.Tables.{Db, Document, has_key, is_active}
use umodel_sre_rca.Domain.{Incident, Job}

-- A row of a table without the column has no lease; what its record says there is not looked at.
pub record JobsTable : Type 0 where
  pub has_lease_until : Bool
  pub rows : List Job

-- A table is `none` until it is created. The two indexes are there or not.
pub record DbFile : Type 0 where
  pub incidents : Option (List Incident)
  pub active_key : Bool
  pub jobs : Option JobsTable
  pub claimable : Bool
  pub evidence_snapshots : Option (List Document)
  pub evidence_records : Option (List Document)

pub data Statement : Type 0 where
  create_incidents create_active_key create_jobs create_claimable : Statement
  create_evidence_snapshots create_evidence_records : Statement
  table_info add_lease_until : Statement

abbrev pub or_empty : {A : Type 0} → Option (List A) → List A
or_empty none = []
or_empty (some rows) = rows

abbrev pub new_jobs : JobsTable
new_jobs = record { has_lease_until = true; rows = [] }

abbrev pub or_new : Option JobsTable → JobsTable
or_new none = new_jobs
or_new (some table) = table

-- Two active incidents with one key: the unique index cannot be made.
unfoldable pub has_duplicates : List Incident → Bool
has_duplicates [] = false
has_duplicates (i ∷ is) =
    (is_active i.state && exists_where (has_key i.key) is) || has_duplicates is

abbrev pub with_default : JobsTable → JobsTable
with_default t = record {
  has_lease_until = true;
  rows = update_where (λ _. true) (λ j. record j { lease_until = 0 }) t.rows;
}

-- A statement that the driver carries out; each commits by itself.
unfoldable pub carry_out : Statement → DbFile → Result (Unit {0}) × DbFile
unfolding has_duplicates
carry_out Statement.create_incidents f =
    (ok tt, record f { incidents = some (or_empty f.incidents) })
carry_out Statement.create_active_key f =
    if f.active_key
    then (ok tt, f)
    else if has_duplicates (or_empty f.incidents)
    then (err constraint, f)
    else (ok tt, record f { active_key = true })
carry_out Statement.create_jobs f = (ok tt, record f { jobs = some (or_new f.jobs) })
carry_out Statement.create_claimable f = (ok tt, record f { claimable = true })
carry_out Statement.create_evidence_snapshots f =
    (ok tt, record f { evidence_snapshots = some (or_empty f.evidence_snapshots) })
carry_out Statement.create_evidence_records f =
    (ok tt, record f { evidence_records = some (or_empty f.evidence_records) })
carry_out Statement.table_info f = (ok tt, f)
carry_out Statement.add_lease_until f =
    (ok tt, record f { jobs = some (with_default (or_new f.jobs)) })

-- The driver may refuse any statement.
abbrev pub Faults : Type 0
Faults = Statement → Option Error

module _ (faults : Faults) where
  abbrev pub unless :
      Option Error → Result (Unit {0}) × DbFile → DbFile → Result (Unit {0}) × DbFile
  unless none carried f = carried
  unless (some e) carried f = (err e, f)

  abbrev pub exec : Statement → DbFile → Result (Unit {0}) × DbFile
  exec s f = unless (faults s) (carry_out s f) f

  abbrev pub next :
      Result (Unit {0}) × DbFile
      → (DbFile → Result (Unit {0}) × DbFile)
      → Result (Unit {0}) × DbFile
  next (err e, f) k = (err e, f)
  next (ok u, f) k = k f

  unfoldable pub exec_all : List Statement → DbFile → Result (Unit {0}) × DbFile
  unfolding carry_out
  exec_all [] f = (ok tt, f)
  exec_all (s ∷ ss) f = next (exec s f) (exec_all ss)

  abbrev pub statements : List Statement
  statements =
      Statement.create_incidents ∷ Statement.create_active_key ∷ Statement.create_jobs
      ∷ Statement.create_claimable ∷ Statement.create_evidence_snapshots
      ∷ Statement.create_evidence_records ∷ []

  abbrev pub add_column : DbFile → Result (Unit {0}) × DbFile
  add_column f =
      if (or_new f.jobs).has_lease_until then (ok tt, f) else exec Statement.add_lease_until f

  unfoldable pub migrate : DbFile → Result (Unit {0}) × DbFile
  unfolding exec_all carry_out
  migrate f = next (exec_all statements f) (λ g. next (exec Statement.table_info g) add_column)

-- The tables of a file that has been opened.
abbrev pub tables : DbFile → Db
tables f = record {
  incidents = or_empty f.incidents;
  jobs = (or_new f.jobs).rows;
  evidence_snapshots = or_empty f.evidence_snapshots;
  evidence_records = or_empty f.evidence_records;
}

abbrev pub opened : Result (Unit {0}) × DbFile → Result Db × DbFile
opened (err e, f) = (err e, f)
opened (ok u, f) = (ok (tables f), f)

-- `sql_open` is the answer of sql.Open.
unfoldable pub open_file : Faults → Result (Unit {0}) → DbFile → Result Db × DbFile
unfolding migrate
open_file faults (err e) f = (err e, f)
open_file faults (ok u) f = opened (migrate faults f)
