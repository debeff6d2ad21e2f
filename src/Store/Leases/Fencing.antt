-- ===== src/Store/Leases/Fencing.antt =====
-- ClaimNext while a job runs under its lease.
use umodel_sre_rca.Common.{
  ℕ, String, ◌<◌, ◌==◌, ap, subst, Option, Evolves-find, some, none, err, All, List, [], ◌∷◌, true,
  eq_iff, ◌≡◌, ◌≢◌, sym, ◌∙◌, arith, inl, inr, Result, ok, find_where, Within, find_where_unique,
}
use umodel_sre_rca.Domain.{Evidence, Job, RcaResult}
use umodel_sre_rca.Store.Tables.{Db, is_running, job_has_id}
use umodel_sre_rca.Store.Claims.{claimed_by, claim_next}
use umodel_sre_rca.Store.Runs.{Yields}
use umodel_sre_rca.Store.Keeps.{IsValid, ok-db}
use umodel_sre_rca.Store.Invariant.Intake.{Keeps-claim_next}
use umodel_sre_rca.Store.Moves.{JobMove}
use umodel_sre_rca.Store.Invariant.{Op, apply_all, apply_all-Step}
use umodel_sre_rca.Store.Leases.{claim_next-cases, after_claim}

pub ok-value :
    {A : Type 0} {a b : A} {db db' : Db}
    → ◌≡◌ {A = Result (A × Db)} (ok (a, db)) (ok (b, db'))
    → a ≡ b
ok-value e = ground arith

pub same_row :
    (db : Db) (j k : Job)
    → IsValid db
    → Within k db.jobs
    → k.id ≡ j.id
    → find_where (job_has_id j.id) db.jobs ≡ some k
same_row db j k v w e =
    find_where_unique (job_has_id j.id) k db.jobs (v.one_job j.id) w ((eq_iff k.id j.id).1 e)

-- Polls of ClaimNext one after another, each a worker and its time: the jobs that they get, and the
-- database behind them.
unfoldable pub claimed : List (String × ℕ) → Db → List Job
claimed [] db = []
claimed ((w, at) ∷ polls) db = elim (claim_next w at db) [
  | err e ↦ claimed polls db
  | ok (none, d) ↦ claimed polls d
  | ok (some c, d) ↦ c ∷ claimed polls d
]

-- The row that a claim leaves.
claim_row :
    (w : String) (now : ℕ) (db db' : Db) (c : Job)
    → IsValid db
    → Yields (claim_next w now) db (some c) db'
    → find_where (job_has_id c.id) db'.jobs ≡ some c
claim_row w now db db' c v first = elim (claim_next-cases w now db v) [
  | inl (_, r) ↦ absurd (ground arith)
  | inr (j, x) ↦
      let e : db' ≡ after_claim w now db j = ok-db (sym x.result ∙ first) in
      let ec : c ≡ claimed_by w now j = ground (arith, ok-value (sym x.result ∙ first)) in
      rw (e, ec) x.row
]

-- The row of the claim stays in the table, so no poll before the lease's end gets it.
claimed_others :
    (c : Job) (polls : List (String × ℕ)) (db : Db)
    → IsValid db
    → find_where (job_has_id c.id) db.jobs ≡ some c
    → is_running c.status ≡ true
    → All (λ p. p.1 < c.lease_until) polls
    → All (λ d. d.id ≢ c.id) (claimed polls db)
unfolding claimed
claimed_others c [] db v row busy early = tt
claimed_others c ((w, at) ∷ polls) db v row busy (soon, early) = elim (claim_next-cases w at db v) [
  | inl (_, r) ↦ rw (claimed, r) (claimed_others c polls db v row busy early)
  | inr (k, x) ↦
      let other : k.id ≢ c.id = λ same.
        let is : k ≡ c = ground (arith, sym (same_row db c k v x.is_row same) ∙ row) in
        absurd (ground (arith, x.claimable)) in
      let v' : IsValid (after_claim w at db k) =
        ((Keeps-claim_next w at).at db _ _ x.result).valid v in
      rw (claimed, x.result)
        (
          other,
          claimed_others c polls (after_claim w at db k) v'
              (x.others c.id (λ e. other (sym e)) ∙ row) busy early,
        )
]

module _ (marshal : RcaResult → Option String) (encode : Evidence → Option String) where
  -- On a well-formed database, when ClaimNext has handed out a job, and whatever operations follow:
  -- as long as the job runs on this claim, its row RUNNING with no more attempts than the claim,
  -- however many ClaimNext calls come next, of any workers and at any times before the end of the
  -- claim's lease, none of them hands the job out.
  pub claim_exclusive :
      (w : String) (now : ℕ) (db db' : Db) (c : Job) (ops : List Op) {k : Job}
      (polls : List (String × ℕ))
      → IsValid db
      → Yields (claim_next w now) db (some c) db'
      → find_where (job_has_id c.id) (apply_all marshal encode ops db').jobs ≡ some k
      → is_running k.status ≡ true
      → k.attempt ≡ c.attempt
      → All (λ p. p.1 < c.lease_until) polls
      → All (λ d. d.id ≢ c.id) (claimed polls (apply_all marshal encode ops db'))
  claim_exclusive w now db db' c ops {k} polls v first later busy unclaimed early =
      let history = apply_all-Step marshal encode ops db' in
      let (k', here, m) =
        Evolves-find JobMove (job_has_id c.id) (λ x y m. ap (λ t. t == c.id) m.same_id) db'.jobs _
          history.jobs (claim_row w now db db' c v first) in
      let is : k' ≡ k = ground (arith, sym here ∙ later) in
      let (_, lease) = m.same_claim (ground (arith, is, unclaimed)) (ground (arith, is, busy)) in
      let same : k.id ≡ c.id = ground (arith, is, m.same_id) in
      subst (λ id. All (λ d. d.id ≢ id) (claimed polls (apply_all marshal encode ops db'))) same
        (claimed_others k polls (apply_all marshal encode ops db')
          (history.valid (((Keeps-claim_next w now).at db (some c) db' first).valid v))
          (subst (λ id. find_where (job_has_id id) (apply_all marshal encode ops db').jobs ≡ some k)
            (sym same) later)
          busy
          (subst (λ l. All (λ p. p.1 < l) polls) (sym lease ∙ ap (λ (j : Job). j.lease_until) is)
            early))
