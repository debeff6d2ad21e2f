-- ===== src/Store/Runs.antt =====
-- How a transaction runs: through its failing statement, or on from the one that has succeeded.
use umodel_sre_rca.Common.{Bool, ◌≡◌, Error, Result, ok, err, count_where, update_where}
use umodel_sre_rca.Domain.{Incident, Job}
use umodel_sre_rca.Store.Tables.{Db, Tx, ◌>>=◌, one_row, update_jobs, update_incidents}

-- The run of m on db ends with a and db'.
abbrev pub Yields : {A : Type 0} → Tx A → Db → A → Db → Type 0
Yields {A} m db a db' = ◌≡◌ {A = Result (A × Db)} (m db) (ok (a, db'))

abbrev pub Raises : {A : Type 0} → Tx A → Db → Error → Type 0
Raises {A} m db e = ◌≡◌ {A = Result (A × Db)} (m db) (err e)

module _ {A B : Type 0} (m : Tx A) (f : A → Tx B) (db : Db) where
  pub bind-err : (e : Error) → Raises m db e → Raises (m >>= f) db e
  bind-err e h = rw (h, ◌>>=◌)

  pub bind-ok : (a : A) (db' : Db) → Yields m db a db' → (m >>= f) db ≡ f a db'
  bind-ok a db' h = rw (h, ◌>>=◌)

module _ (p : Db → Job → Bool) (f : Job → Job) (e : Error) (db : Db) where
  pub update_jobs-none :
      count_where (p db) db.jobs ≡ 0 → Raises (update_jobs p f >>= λ n. one_row e n) db e
  unfolding update_jobs
  update_jobs-none h = rw h

  pub update_jobs-one :
      count_where (p db) db.jobs ≡ 1
      → Yields
          (update_jobs p f >>= λ n. one_row e n)
          db
          tt
          (record db { jobs = update_where (p db) f db.jobs })
  unfolding update_jobs
  update_jobs-one h = rw h

module _ (p : Db → Incident → Bool) (f : Incident → Incident) (e : Error) (db : Db) where
  pub update_incidents-none :
      count_where (p db) db.incidents ≡ 0 → Raises (update_incidents p f >>= λ n. one_row e n) db e
  unfolding update_incidents
  update_incidents-none h = rw h

  pub update_incidents-one :
      count_where (p db) db.incidents ≡ 1
      → Yields
          (update_incidents p f >>= λ n. one_row e n)
          db
          tt
          (record db { incidents = update_where (p db) f db.incidents })
  unfolding update_incidents
  update_incidents-one h = rw h
