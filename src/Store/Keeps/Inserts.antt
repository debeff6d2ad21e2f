-- ===== src/Store/Keeps/Inserts.antt =====
-- The rules for the INSERT statements.
use umodel_sre_rca.Common.{
  String, Bool, true, false, ◌&&◌, ◌≤◌, List, [], ◌∷◌, ◌++◌, ◌==◌, eq_iff, ◌≡◌, refl, arith, inl,
  inr, Bool-cases, All-append, exists_where, count_where, count_where-append, count_where-eq-zero,
  Evolves-append,
}
use umodel_sre_rca.Domain.{Incident, Job}
use umodel_sre_rca.Store.Tables.{
  Document, Db, is_active, has_id, has_key, job_has_id, insert_incident, insert_job,
  insert_snapshot,
}
use umodel_sre_rca.Store.Moves.{IncidentMove, JobMove, IsIdle, IncidentMove-refl, JobMove-refl}
use umodel_sre_rca.Store.Keeps.{IsValid, Step-refl, Keeps, ok-db}

-- A row is added under a condition that at most one row meets, and none of the old ones does if the
-- new one does.
count_where-insert :
    {A : Type 0} (q : A → Bool) (x : A) (xs : List A)
    → count_where q xs ≤ 1
    → (q x ≡ true → exists_where q xs ≡ false)
    → count_where q (xs ++ x ∷ []) ≤ 1
unfolding count_where
count_where-insert q x xs h new = elim (Bool-cases (q x)) [
  | inl t ↦ rw (count_where-append q xs (x ∷ [])) (ground (arith, count_where-eq-zero q xs (new t)))
  | inr f ↦ rw (count_where-append q xs (x ∷ [])) (ground arith)
]

abbrev stored : Incident → Incident
stored i = record i { feishu_message_id = "" }

insert_incident-IsValid :
    (i : Incident) (db : Db)
    → exists_where (has_id i.id) db.incidents ≡ false
    → (is_active i.state && exists_where (has_key i.key) db.incidents) ≡ false
    → IsValid db
    → IsValid (record db { incidents = db.incidents ++ stored i ∷ [] })
insert_incident-IsValid i db fresh unique v = record {
  one_incident = λ id.
      count_where-insert (has_id id) (stored i) db.incidents (v.one_incident id)
        (λ e. rw (← (eq_iff i.id id).0 e) fresh);
  one_active = λ key.
      count_where-insert (has_key key) (stored i) db.incidents (v.one_active key)
        (λ e. unused key e);
  one_job = v.one_job;
  idle_jobs = v.idle_jobs;
}
  where
    unused :
        (key : String)
        → (is_active i.state && i.key == key) ≡ true
        → exists_where (has_key key) db.incidents ≡ false
    unused key e =
        let same : i.key ≡ key = ground (arith, eq_iff i.key key) in rw (← same) (ground arith)

pub Keeps-insert_incident : (i : Incident) → Keeps (insert_incident i)
unfolding insert_incident
Keeps-insert_incident i = record {
  at = λ db a db' e. elim (Bool-cases (exists_where (has_id i.id) db.incidents)) [
    | inl t ↦ absurd (ground arith)
    | inr f ↦ elim (Bool-cases (is_active i.state && exists_where (has_key i.key) db.incidents)) [
      | inl t ↦ absurd (ground arith)
      | inr g ↦ rw (ok-db (rw (f, g) at e)) (record {
        valid = insert_incident-IsValid i db f g;
        incidents = Evolves-append IncidentMove IncidentMove-refl db.incidents _;
        jobs = (Step-refl db).jobs;
        snapshots = (Step-refl db).snapshots;
      })
    ]
  ];
}

abbrev fresh_job : Job → Job
fresh_job j = record j { worker_id = ""; attempt = 0; lease_until = 0 }

insert_job-IsValid :
    (j : Job) (db : Db)
    → exists_where (job_has_id j.id) db.jobs ≡ false
    → IsValid db
    → IsValid (record db { jobs = db.jobs ++ fresh_job j ∷ [] })
insert_job-IsValid j db fresh v = record {
  one_incident = v.one_incident;
  one_active = v.one_active;
  one_job = λ id.
      count_where-insert (job_has_id id) (fresh_job j) db.jobs (v.one_job id)
        (λ e. rw (← (eq_iff j.id id).0 e) fresh);
  idle_jobs = All-append IsIdle db.jobs (fresh_job j ∷ []) v.idle_jobs ((λ _. (refl, refl)), tt);
}

pub Keeps-insert_job : (j : Job) → Keeps (insert_job j)
unfolding insert_job
Keeps-insert_job j = record {
  at = λ db a db' e. elim (Bool-cases (exists_where (job_has_id j.id) db.jobs)) [
    | inl t ↦ absurd (ground arith)
    | inr f ↦ rw (ok-db (rw f at e)) (record {
      valid = insert_job-IsValid j db f;
      incidents = (Step-refl db).incidents;
      jobs = Evolves-append JobMove JobMove-refl db.jobs _;
      snapshots = (Step-refl db).snapshots;
    })
  ];
}

pub Keeps-insert_snapshot : (s : Document) → Keeps (insert_snapshot s)
unfolding insert_snapshot
Keeps-insert_snapshot s = record {
  at = λ db a db' e.
      elim (Bool-cases (exists_where (λ (t : Document). t.id == s.id) db.evidence_snapshots)) [
        | inl t ↦ absurd (ground arith)
        | inr f ↦ rw (ok-db (rw f at e)) (record {
          valid = λ v. record {
            one_incident = v.one_incident;
            one_active = v.one_active;
            one_job = v.one_job;
            idle_jobs = v.idle_jobs;
          };
          incidents = (Step-refl db).incidents;
          jobs = (Step-refl db).jobs;
          snapshots = Evolves-append _ (λ _. refl) db.evidence_snapshots _;
        })
      ];
}
