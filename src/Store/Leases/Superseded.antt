-- ===== src/Store/Leases/Superseded.antt =====
-- A claim that its job no longer runs under is refused by every operation that wants a claim.
use umodel_sre_rca.Common.{
  ℕ, String, Bool, true, false, ◌&&◌, ◌≤◌, Option, none, some, ◌==◌, eq_iff, eqb, leb, ◌≡◌, ◌≢◌,
  refl, sym, ◌∙◌, arith, inl, inr, ◌⊎◌, Bool-cases, Result, err, job_lease_lost, incident_inactive,
  find_where, count_where, Within, List, count_where-none, exists_where-none, subst,
}
use umodel_sre_rca.Domain.{Incident, Job, RcaResult}
use umodel_sre_rca.Store.Tables.{
  Db, Tx, is_running, is_active, is_open, job_has_id, update_jobs, update_incidents,
}
use umodel_sre_rca.Store.Claims.{
  is_leased, is_waiting, holds_claim, check_active_claim, mark_investigating_for_claim,
  set_feishu_message_id_for_claim, update_active_claim_card, active_incident, fence,
}
use umodel_sre_rca.Store.Settlement.{
  complete_job, complete_job_and_schedule_audit_retry, is_claim, retry_or_fail_job, fail_job,
  requeue_job, finish_claim, with_json, complete_job_and_incident,
}
use umodel_sre_rca.Store.Runs.{Raises, bind-err, bind-ok, update_jobs-none}
use umodel_sre_rca.Store.Keeps.{IsValid}
use umodel_sre_rca.Store.Leases.Fencing.{same_row}

-- The job's row, if the job runs, carries another lease than the claim does.
abbrev pub IsSuperseded : Job → Db → Type 0
IsSuperseded old db =
    (c : Job) × (find_where (job_has_id old.id) db.jobs ≡ some c)
    × (is_running c.status ≡ true → c.lease_until ≢ old.lease_until)

-- What every operation that wants a claim answers to this one; an error changes nothing.
pub record Refused (old : Job) (db : Db) : Type 0 where
  pub check : check_active_claim old db ≡ err job_lease_lost
  pub mark : (at : ℕ) → mark_investigating_for_claim old at db ≡ err job_lease_lost
  pub set_card :
      (m : String) (at : ℕ)
      → (m == "") ≡ false
      → set_feishu_message_id_for_claim old m at db ≡ err job_lease_lost
  pub update_card :
      (f : Incident → Result (Unit {0}))
      → (update_active_claim_card old f db ≡ err job_lease_lost)
        ⊎ (update_active_claim_card old f db ≡ err incident_inactive)
  pub finish : complete_job old db ≡ err job_lease_lost
  pub finish_and_close :
      (marshal : RcaResult → Option String) (id incident raw : String) (r : RcaResult) (at : ℕ)
      → marshal r ≡ some raw
      → complete_job_and_incident marshal id old incident r at db ≡ err job_lease_lost
  pub finish_and_wait :
      (id incident : String) (at : ℕ)
      → complete_job_and_schedule_audit_retry id old incident at db ≡ err job_lease_lost
  pub retry : (at max : ℕ) → 1 ≤ max → retry_or_fail_job old at max db ≡ err job_lease_lost

module _ (old : Job) (db : Db) (v : IsValid db) (s : IsSuperseded old db) where
  other_lease :
      (k : Job)
      → Within k db.jobs
      → (k.id == old.id && (is_running k.status && eqb k.lease_until old.lease_until)) ≡ false
  other_lease k w = elim (Bool-cases (k.id == old.id)) [
    | inr f ↦ rw f
    | inl t ↦
        let here = same_row db old k v w ((eq_iff k.id old.id).0 t) in
        let is : k ≡ s.0 = ground (arith, sym here ∙ s.1) in rw t (differs is)
  ]
    where
      differs :
          {k : Job} → k ≡ s.0 → (is_running k.status && eqb k.lease_until old.lease_until) ≡ false
      differs {k} e = elim (Bool-cases (is_running k.status && eqb k.lease_until old.lease_until)) [
        | inr f ↦ f
        | inl t ↦
            let same = subst (λ (j : Job). is_same j ≡ true) e t in
            absurd (s.2 (ground (arith, same)) (ground (arith, same)))
      ]
        where
          is_same : Job → Bool
          is_same j = is_running j.status && eqb j.lease_until old.lease_until

  -- No row fits a condition that wants this identifier and this lease.
  none_fits :
      (p : Job → Bool)
      → ((k : Job)
          → p k ≡ true
          → (k.id == old.id && (is_running k.status && eqb k.lease_until old.lease_until)) ≡ true)
      → (k : Job) → Within k db.jobs
      → p k ≡ false
  none_fits p h k w = elim (Bool-cases (p k)) [
    | inr f ↦ f
    | inl t ↦ absurd (ground (arith, h k t, other_lease k w))
  ]

  no_holder : (d : Db) (k : Job) → Within k db.jobs → holds_claim old d k ≡ false
  no_holder d = none_fits (holds_claim old d) λ k e. ground arith

  -- Whatever an earlier statement has done to the incidents.
  check_refused :
      (is : List Incident)
      → check_active_claim old (record db { incidents = is }) ≡ err job_lease_lost
  unfolding check_active_claim
  check_refused is = rw (
      exists_where-none (holds_claim old (record db { incidents = is })) db.jobs
        (no_holder (record db { incidents = is })))

  no_lease : is_leased old db ≡ false
  no_lease = exists_where-none _ db.jobs (none_fits _ λ k e. ground arith)

  nothing_marked :
      count_where
        (λ i. i.id == old.incident_id && (is_waiting i.state && is_leased old db))
        db.incidents
      ≡ 0
  nothing_marked = count_where-none _ db.incidents λ i w. rw no_lease (ground arith)

  mark_refused : (at : ℕ) → mark_investigating_for_claim old at db ≡ err job_lease_lost
  unfolding mark_investigating_for_claim update_incidents
  mark_refused at =
      rw nothing_marked (bind-err (check_active_claim old) _ _ job_lease_lost (check_refused _))

  fence_refused : Raises (fence old) db job_lease_lost
  fence_refused =
      update_jobs-none (holds_claim old) (λ j. j) job_lease_lost db
        (count_where-none (holds_claim old db) db.jobs (no_holder db))

  set_card_refused :
      (m : String) (at : ℕ)
      → (m == "") ≡ false
      → set_feishu_message_id_for_claim old m at db ≡ err job_lease_lost
  unfolding set_feishu_message_id_for_claim
  set_card_refused m at h = rw h (bind-err (fence old) _ db job_lease_lost fence_refused)

  update_card_refused :
      (f : Incident → Result (Unit {0}))
      → (update_active_claim_card old f db ≡ err job_lease_lost)
        ⊎ (update_active_claim_card old f db ≡ err incident_inactive)
  unfolding update_active_claim_card
  update_card_refused f =
      split (find_where (λ i. i.id == old.incident_id && is_active i.state) db.incidents) refl
    where
      found : Db → Tx Incident
      found d =
          active_incident
            (find_where (λ i. i.id == old.incident_id && is_active i.state) d.incidents)

      split :
          (o : Option Incident)
          → find_where (λ i. i.id == old.incident_id && is_active i.state) db.incidents ≡ o
          → (update_active_claim_card old f db ≡ err job_lease_lost)
            ⊎ (update_active_claim_card old f db ≡ err incident_inactive)
      split none e = inr (bind-err (λ d. found d d) _ db incident_inactive (rw e))
      split (some i) e = inl (
          bind-ok (λ d. found d d) _ db i db (rw e)
          ∙ bind-err (fence old) _ db job_lease_lost fence_refused)

  finish_refused : complete_job old db ≡ err job_lease_lost
  unfolding complete_job
  finish_refused = update_jobs-none _ _ job_lease_lost db (
      count_where-none
        (λ j.
          j.id == old.id
          && (j.worker_id == old.worker_id
              && (eqb j.lease_until old.lease_until
                  && (is_running j.status && is_open db j.incident_id))))
        db.jobs (none_fits _ λ k e. ground arith))

  -- `finish_claim` asks for the incident that the caller names.
  finish_claim_refused : (incident : String) → Raises (finish_claim old incident) db job_lease_lost
  finish_claim_refused incident = update_jobs-none _ _ job_lease_lost db (
      count_where-none (holds_claim (record old { incident_id = incident }) db) db.jobs
        (none_fits (holds_claim (record old { incident_id = incident }) db) λ k e. ground arith))

  finish_and_close_refused :
      (marshal : RcaResult → Option String) (id incident raw : String) (r : RcaResult) (at : ℕ)
      → marshal r ≡ some raw
      → complete_job_and_incident marshal id old incident r at db ≡ err job_lease_lost
  unfolding complete_job_and_incident
  finish_and_close_refused marshal id incident raw r at h =
      rw (h, with_json)
        (bind-err (finish_claim old incident) _ db _ (finish_claim_refused incident))

  finish_and_wait_refused :
      (id incident : String) (at : ℕ)
      → complete_job_and_schedule_audit_retry id old incident at db ≡ err job_lease_lost
  unfolding complete_job_and_schedule_audit_retry
  finish_and_wait_refused id incident at =
      bind-err (finish_claim old incident) _ db _ (finish_claim_refused incident)

  -- `fail_job` and `requeue_job` fail at their first statement.
  fail_refused : (at : ℕ) → fail_job old at db ≡ err job_lease_lost
  unfolding fail_job update_jobs
  fail_refused at =
      rw (count_where-none (is_claim old) db.jobs (none_fits (is_claim old) λ k e. ground arith))

  requeue_refused : (at : ℕ) → requeue_job old at db ≡ err job_lease_lost
  unfolding requeue_job update_jobs
  requeue_refused at = rw (
      count_where-none (λ j. is_claim old j && is_open db j.incident_id) db.jobs
        (none_fits (λ j. is_claim old j && is_open db j.incident_id) λ k e. ground arith))

  retry_refused : (at max : ℕ) → 1 ≤ max → retry_or_fail_job old at max db ≡ err job_lease_lost
  unfolding retry_or_fail_job
  retry_refused at max h = elim (Bool-cases (leb max old.attempt)) [
    | inl t ↦ rw t (ground (arith, fail_refused at))
    | inr f ↦ rw f (ground (arith, requeue_refused at))
  ]

-- On a well-formed database, a claim whose job does not run under its lease is refused by every
-- operation that wants a claim, and so changes nothing.
pub superseded-Refused : (old : Job) (db : Db) → IsValid db → IsSuperseded old db → Refused old db
superseded-Refused old db v s = record {
  check = check_refused old db v s db.incidents;
  mark = mark_refused old db v s;
  set_card = set_card_refused old db v s;
  update_card = update_card_refused old db v s;
  finish = finish_refused old db v s;
  finish_and_close = finish_and_close_refused old db v s;
  finish_and_wait = finish_and_wait_refused old db v s;
  retry = retry_refused old db v s;
}
