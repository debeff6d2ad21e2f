-- ===== src/Store/Leases.antt =====
-- How ClaimNext hands out jobs, and that a claim which another worker has taken over is powerless.
pub mod Fencing
pub mod Superseded
pub mod Stale
use mathlib.Core.Option
use native.Mathlib.Nat.{le_refl, le_trans}
use umodel_sre_rca.Common.{
  exists_where, exists_where-none, ℕ, String, Bool, true, false, ◌||◌, ◌&&◌, ◌≤◌, ◌<◌, ◌+◌, Option,
  none, some, ◌==◌, eq_iff, eq_refl, eqb, leb, ltb, ◌≡◌, ◌≢◌, refl, sym, ◌∙◌, ap, subst, arith, inl,
  inr, ◌⊎◌, if◌then◌else◌, Bool-cases, Option-cases, Result, ok, err, Error, job_lease_lost,
  incident_inactive, find_where, count_where, update_where, first_by, Within, find_where-update,
  find_where_unique, find_where-Within, find_where-holds, count_where-le, count_where-Within,
  count_where-none, first_by-none, first_by-some, first_by-least,
}
use umodel_sre_rca.Domain.{IncidentState, JobStatus, Incident, Job}
use umodel_sre_rca.Store.Tables.{Db, is_running, is_queued, is_open, job_has_id, update_jobs, run}
use umodel_sre_rca.Store.Intake.{text_lt}
use umodel_sre_rca.Store.Claims.{
  job_lease_duration, sooner, is_due, is_claimable, claimed_by, claim_found, claim_next,
}
use umodel_sre_rca.Store.Runs.{Yields}
use umodel_sre_rca.Store.Keeps.{IsValid}

-- The UPDATE of a claim, on the job that the SELECT has found.
abbrev takes : ℕ → Db → Job → Job → Bool
takes now db j k = k.id == j.id && (is_due now k && is_open db k.incident_id)

abbrev pub after_claim : String → ℕ → Db → Job → Db
after_claim w now db j = record db {
  jobs = update_where (takes now db j) (claimed_by w now) db.jobs;
}

takes_self : (now : ℕ) (db : Db) (j : Job) → is_claimable now db j ≡ true → takes now db j j ≡ true
takes_self now db j h = rw (eq_refl j.id) (ground arith)

takes_once :
    (now : ℕ) (db : Db) (j : Job)
    → IsValid db
    → Within j db.jobs
    → is_claimable now db j ≡ true
    → count_where (takes now db j) db.jobs ≡ 1
takes_once now db j v w h = omega (
  arith,
  v.one_job j.id,
  count_where-le (job_has_id j.id) (takes now db j) (λ x e. ground arith) db.jobs,
  count_where-Within (takes now db j) j db.jobs w (takes_self now db j h),
)

claim_found-eq :
    (w : String) (now : ℕ) (db : Db) (j : Job)
    → IsValid db
    → Within j db.jobs
    → is_claimable now db j ≡ true
    → Yields (claim_found w now (some j)) db (some (claimed_by w now j)) (after_claim w now db j)
unfolding update_jobs
claim_found-eq w now db j v i h = rw (takes_once now db j v i h)

pub claimed_row :
    (w : String) (now : ℕ) (db : Db) (j : Job)
    → IsValid db
    → Within j db.jobs
    → is_claimable now db j ≡ true
    → find_where (job_has_id j.id) (after_claim w now db j).jobs ≡ some (claimed_by w now j)
claimed_row w now db j v i h =
    rw
      (
        find_where-update (job_has_id j.id) (takes now db j) (claimed_by w now) (λ x. refl) db.jobs,
        find_where_unique (job_has_id j.id) j db.jobs (v.one_job j.id) i (eq_refl j.id),
      )
      (rw (takes_self now db j h))

-- Every other row is as it was.
pub other_row :
    (w : String) (now : ℕ) (db : Db) (j : Job) (id : String)
    → id ≢ j.id
    → find_where (job_has_id id) (after_claim w now db j).jobs ≡ find_where (job_has_id id) db.jobs
other_row w now db j id h =
    find_where-update (job_has_id id) (takes now db j) (claimed_by w now) (λ x. refl) db.jobs
    ∙ untouched (find_where (job_has_id id) db.jobs) refl
  where
    untouched :
        (o : Option Job)
        → find_where (job_has_id id) db.jobs ≡ o
        → Option.map (λ x. if takes now db j x then claimed_by w now x else x) o ≡ o
    untouched none e = refl
    untouched (some k) e =
        let is : k.id ≡ id = (eq_iff k.id id).0 (find_where-holds (job_has_id id) db.jobs e) in
        ground (arith, eq_iff k.id j.id, h (sym is ∙ (eq_iff k.id j.id).0 _))

sooner_le : (x y : Job) → sooner x y ≡ true → x.run_after ≤ y.run_after
sooner_le x y h = ground arith

not_sooner_le : (x y : Job) → sooner x y ≡ false → y.run_after ≤ x.run_after
not_sooner_le x y h = ground arith

-- What ClaimNext does with the job j.
pub record Claims (w : String) (now : ℕ) (db : Db) (j : Job) : Type 0 where
  pub is_row : Within j db.jobs
  pub claimable : is_claimable now db j ≡ true
  pub earliest :
      (k : Job) → Within k db.jobs → is_claimable now db k ≡ true → j.run_after ≤ k.run_after
  pub row : find_where (job_has_id j.id) (after_claim w now db j).jobs ≡ some (claimed_by w now j)
  pub others :
      (id : String)
      → id ≢ j.id
      → find_where (job_has_id id) (after_claim w now db j).jobs
        ≡ find_where (job_has_id id) db.jobs
  pub result : Yields (claim_next w now) db (some (claimed_by w now j)) (after_claim w now db j)

-- On a well-formed database ClaimNext returns nothing and changes nothing exactly when no job is
-- claimable. Otherwise it takes a claimable job with the earliest run_after: the row of that job
-- becomes RUNNING for the worker, with one more attempt and a lease of 300 seconds from now, which
-- is also what it returns, and every other job row and every incident stays as it was.
pub claim_next-cases :
    (w : String) (now : ℕ) (db : Db)
    → IsValid db
    → ((exists_where (is_claimable now db) db.jobs ≡ false) × Yields (claim_next w now) db none db)
      ⊎ ((j : Job) × Claims w now db j)
unfolding claim_next
claim_next-cases w now db v = elim (Option-cases (first_by sooner (is_claimable now db) db.jobs)) [
  | inl n ↦ inl (
    exists_where-none (is_claimable now db) db.jobs
        (first_by-none sooner (is_claimable now db) db.jobs n),
    rw n,
  )
  | inr (j, s) ↦
      let (i, h) = first_by-some sooner (is_claimable now db) db.jobs s in
      inr (
        j,
        record {
          is_row = i;
          claimable = h;
          earliest =
              first_by-least sooner (is_claimable now db) (λ x y. x.run_after ≤ y.run_after)
                (λ x. le_refl x.run_after) (λ x y z. le_trans) sooner_le not_sooner_le db.jobs s;
          row = claimed_row w now db j v i h;
          others = other_row w now db j;
          result = rw s (claim_found-eq w now db j v i h);
        },
      )
]
