-- ===== src/Store/Progress.antt =====
-- The operations of RunOne, for a worker that holds its claim.
use umodel_sre_rca.Common.{
  Bool, String, ℕ, List, [], ◌∷◌, true, some, ◌==◌, ◌&&◌, ◌≡◌, ◌∙◌, refl, arith, eq_refl,
  exists_where-Within, find_where, find_where-Within, find_where_unique, find_where-update,
  update_where, ok, Result,
}
use umodel_sre_rca.Domain.{Incident, IncidentState, Job}
use umodel_sre_rca.Store.Tables.{
  Db, has_id, job_has_id, is_active, update_incidents, update_jobs, ◌>>=◌,
}
use umodel_sre_rca.Store.Claims.{
  claimed_by, holds_claim, is_waiting, is_leased, mark_investigating_for_claim,
  update_active_claim_card, fence,
}
use umodel_sre_rca.Store.Keeps.{IsValid}
use umodel_sre_rca.Store.Invariant.Intake.{Keeps-mark, Keeps-claim_next}
use umodel_sre_rca.Store.Leases.{Claims, after_claim}
use umodel_sre_rca.Store.Holds.{Holds, one_row_of, one_incident_of, own_id, own_claim}
use umodel_sre_rca.Store.Runs.{Yields}

pub claims-Holds :
    (w : String) (now : ℕ) (db : Db) (j : Job) (i : Incident)
    → IsValid db
    → Claims w now db j
    → find_where (has_id j.incident_id) db.incidents ≡ some i
    → is_active i.state ≡ true
    → Holds (claimed_by w now j) i (after_claim w now db j)
claims-Holds w now db j i v x f a = record {
  valid = ((Keeps-claim_next w now).at db _ _ x.result).valid v;
  stored = f;
  active = a;
  row = x.row;
  running = refl;
}

update_where_id : {A : Type 0} (p : A → Bool) (xs : List A) → update_where p (λ x. x) xs ≡ xs
unfolding update_where
update_where_id p [] = refl
update_where_id p (x ∷ xs) = ground (arith, update_where_id p xs)

-- The row that a SELECT by p finds after an UPDATE that fits it.
pub updated_row :
    {A : Type 0} (q p : A → Bool) (f : A → A) (xs : List A) (x : A)
    → ((y : A) → q (f y) ≡ q y)
    → find_where q xs ≡ some x
    → p x ≡ true
    → find_where q (update_where p f xs) ≡ some (f x)
updated_row q p f xs x same e h = find_where-update q p f same xs ∙ rw (e, h) refl

module _ (job : Job) (i : Incident) (db : Db) (h : Holds job i db) where
  leased : is_leased job db ≡ true
  leased = exists_where-Within _ job db.jobs (find_where-Within (job_has_id job.id) db.jobs h.row) (
      rw (eq_refl job.id, eq_refl job.incident_id, h.running, eq_refl job.worker_id) (ground arith))

  module _ (at : ℕ) where
    marks : Incident → Bool
    marks k = k.id == job.incident_id && (is_waiting k.state && is_leased job db)

    abbrev pub under_way : Incident
    under_way = record i { state = IncidentState.investigating; updated_at = at }

    abbrev pub after_mark : Db
    after_mark = record db {
      incidents =
          update_where (λ k. k.id == job.incident_id && (is_waiting k.state && is_leased job db))
            (λ k. record k { state = IncidentState.investigating; updated_at = at }) db.incidents;
    }

    pub mark-Yields :
        is_waiting i.state ≡ true → Yields (mark_investigating_for_claim job at) db tt after_mark
    unfolding mark_investigating_for_claim update_incidents
    mark-Yields n =
        let one =
          one_incident_of job i db h
            (λ k. k.id == job.incident_id && (is_waiting k.state && is_leased job db))
            (λ k e. ground (arith, e)) (rw (own_id job i db h, n, leased) refl) in
        rw one refl

    pub mark-Holds : is_waiting i.state ≡ true → Holds job under_way after_mark
    mark-Holds n = record {
      valid = ((Keeps-mark job at).at db _ _ (mark-Yields n)).valid h.valid;
      stored =
          updated_row (has_id job.incident_id) _ _ db.incidents i (λ _. refl) h.stored
            (rw (own_id job i db h, n, leased) refl);
      active = refl;
      row = h.row;
      running = h.running;
    }

  pub fence-Yields : Yields (fence job) db tt db
  unfolding update_jobs
  fence-Yields =
      let one =
        one_row_of job i db h (holds_claim job db) (λ k e. ground (arith, e))
          (own_claim job i db h) in
      rw (one, update_where_id (holds_claim job db) db.jobs) refl

  pub update_card-Yields :
      (update : Incident → Result (Unit {0}))
      → update i ≡ ok tt
      → Yields (update_active_claim_card job update) db tt db
  unfolding update_active_claim_card update_incidents
  update_card-Yields update u =
      let q = λ (k : Incident). k.id == job.incident_id && is_active k.state in
      let own : q i ≡ true = rw (own_id job i db h, h.active) refl in
      let one = one_incident_of job i db h q (λ k e. ground (arith, e)) own in
      let found =
        find_where_unique q i db.incidents (omega (arith, one))
          (find_where-Within (has_id job.incident_id) db.incidents h.stored) own in
      rw (found, ◌>>=◌, fence-Yields, one, u) (rw (update_where_id q db.incidents) refl)
