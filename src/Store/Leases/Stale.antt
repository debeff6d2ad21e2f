-- ===== src/Store/Leases/Stale.antt =====
-- The claim on a job that ClaimNext has handed out again, through the operations that follow.
use umodel_sre_rca.Common.{
  ℕ, String, true, Option, some, ◌==◌, ◌≡◌, ◌≢◌, sym, ◌∙◌, ap, arith, inl, inr, find_where, List,
  Evolves-find,
}
use umodel_sre_rca.Domain.{Evidence, Job, RcaResult}
use umodel_sre_rca.Store.Tables.{Db, is_running, job_has_id}
use umodel_sre_rca.Store.Claims.{claimed_by, claim_next}
use umodel_sre_rca.Store.Runs.{Yields}
use umodel_sre_rca.Store.Keeps.{IsValid, ok-db}
use umodel_sre_rca.Store.Invariant.Intake.{Keeps-claim_next}
use umodel_sre_rca.Store.Leases.{claim_next-cases, after_claim}
use umodel_sre_rca.Store.Leases.Fencing.{ok-value, same_row}
use umodel_sre_rca.Store.Moves.{JobMove}
use umodel_sre_rca.Store.Invariant.{Op, apply_all, apply_all-Step}
use umodel_sre_rca.Store.Leases.Superseded.{Refused, superseded-Refused}

-- What a claim leaves in the table.
reclaimed :
    (w : String) (now : ℕ) (db db' : Db) (old c : Job)
    → IsValid db
    → find_where (job_has_id old.id) db.jobs ≡ some old
    → is_running old.status ≡ true
    → Yields (claim_next w now) db (some c) db'
    → c.id ≡ old.id
    → (find_where (job_has_id old.id) db'.jobs ≡ some c) × (c.lease_until ≢ old.lease_until)
reclaimed w now db db' old c v row busy claim same = elim (claim_next-cases w now db v) [
  | inl (_, r) ↦ absurd (ground arith)
  | inr (j, x) ↦
      let e : db' ≡ after_claim w now db j = ok-db (sym x.result ∙ claim) in
      let ec : c ≡ claimed_by w now j = ground (arith, ok-value (sym x.result ∙ claim)) in
      let is : j ≡ old = ground (arith, sym (same_row db old j v x.is_row (ground arith)) ∙ row) in
      (rw (e, ec, ← is) x.row, λ q. absurd (ground (arith, x.claimable)))
]

module _ (marshal : RcaResult → Option String) (encode : Evidence → Option String) where
  -- On a well-formed database, when ClaimNext hands a running job to a worker, the claim that the
  -- row carried before is refused from then on by every operation that wants a claim, whatever
  -- operations follow, of any workers and in any order, until ClaimNext hands the job out yet
  -- again: as long as its row has no more attempts than the new claim.
  pub reclaim-Refused :
      (w : String) (now : ℕ) (db db' : Db) (old c : Job) (ops : List Op) {k : Job}
      → IsValid db
      → find_where (job_has_id old.id) db.jobs ≡ some old
      → is_running old.status ≡ true
      → Yields (claim_next w now) db (some c) db'
      → c.id ≡ old.id
      → find_where (job_has_id old.id) (apply_all marshal encode ops db').jobs ≡ some k
      → k.attempt ≡ c.attempt
      → Refused old (apply_all marshal encode ops db')
  reclaim-Refused w now db db' old c ops {k} v row busy claim same later unclaimed =
      let (found, other) = reclaimed w now db db' old c v row busy claim same in
      let history = apply_all-Step marshal encode ops db' in
      let (k', here, m) =
        Evolves-find JobMove (job_has_id old.id) (λ x y m. ap (λ t. t == old.id) m.same_id) db'.jobs
          _ history.jobs found in
      let is : k' ≡ k = ground (arith, sym here ∙ later) in
      superseded-Refused old (apply_all marshal encode ops db')
        (history.valid (((Keeps-claim_next w now).at db (some c) db' claim).valid v))
        (
          k,
          later,
          λ r q.
              let (_, s) = m.same_claim (ground (arith, is, unclaimed)) (ground (arith, is, r)) in
              other (sym s ∙ (ap (λ (j : Job). j.lease_until) is ∙ q)),
        )
