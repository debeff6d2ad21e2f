-- ===== src/Store/Keeps/Statements.antt =====
-- The rules for the statements that several operations of the repository share.
use umodel_sre_rca.Common.{ℕ, String, Bool, false, true, ◌&&◌, ◌≡◌, refl, arith, Error}
use umodel_sre_rca.Domain.{IncidentState, JobStatus, Incident, Job}
use umodel_sre_rca.Store.Tables.{Tx, ◌>>=◌, ◌>>◌, is_active, is_live, is_running, one_row}
use umodel_sre_rca.Store.Intake.{settle_job, cancel_jobs_for_incident}
use umodel_sre_rca.Store.Claims.{claimed_by, fence}
use umodel_sre_rca.Store.Settlement.{
  close_incident, is_schedulable, await_audit_event, finish_claim, cancel_other_jobs,
}
use umodel_sre_rca.Store.Moves.{IncidentMove, JobMove, IncidentMove-refl, JobMove-refl, may_become}
use umodel_sre_rca.Store.Keeps.{
  Keeps, Keeps-pure, Keeps->>=, Keeps-one_row, Keeps-update_incidents, Keeps-update_jobs,
}

pub set_state-Move :
    (s : IncidentState) (at : ℕ) (i : Incident)
    → may_become i.state s ≡ true
    → IncidentMove i (record i { state = s; updated_at = at })
set_state-Move s at i h = ground arith

pub set_card-Move :
    (m : String) (at : ℕ) (i : Incident)
    → i.feishu_message_id ≡ ""
    → IncidentMove i (record i { feishu_message_id = m; updated_at = at })
set_card-Move m at i h = ground (arith, (IncidentMove-refl i).legal)

pub settle_job-Move :
    (s : JobStatus)
    → is_running s ≡ false
    → (j : Job) → is_live j.status ≡ true
    → JobMove j (settle_job s j)
settle_job-Move s idle j h = record {
  same_id = refl;
  same_incident = refl;
  attempts_grow = omega arith;
  over = λ e. absurd (ground arith);
  idle = λ _ _. (refl, refl);
  same_claim = λ _ r. absurd (ground arith);
}

pub requeue-Move :
    (at : ℕ) (j : Job)
    → is_live j.status ≡ true
    → JobMove j (record (settle_job JobStatus.queued j) { run_after = at })
requeue-Move at j h = record {
  same_id = refl;
  same_incident = refl;
  attempts_grow = omega arith;
  over = λ e. absurd (ground arith);
  idle = λ _ _. (refl, refl);
  same_claim = λ _ r. absurd (cc);
}

pub claimed_by-Move :
    (w : String) (now : ℕ) (j : Job) → is_live j.status ≡ true → JobMove j (claimed_by w now j)
claimed_by-Move w now j h = record {
  same_id = refl;
  same_incident = refl;
  attempts_grow = omega arith;
  over = λ e. absurd (ground arith);
  idle = λ _ e. absurd (cc);
  same_claim = λ e r. absurd (omega (arith, e));
}

-- An UPDATE whose row count the code checks.
pub counted : (m : Tx ℕ) (e : Error) → Keeps m → Keeps (m >>= λ n. one_row e n)
counted m e h = Keeps->>= m _ h (λ n. Keeps-one_row e n)

pub and_then : {B : Type 0} (m : Tx (Unit {0})) (k : Tx B) → Keeps m → Keeps k → Keeps (m >> k)
and_then m k h i = Keeps->>= m _ h (λ _. i)

pub Keeps-close_incident :
    (s : IncidentState) (id : String) (at : ℕ)
    → ((t : IncidentState) → is_active t ≡ true → may_become t s ≡ true)
    → Keeps (close_incident s id at)
Keeps-close_incident s id at h =
    counted _ _
      (Keeps-update_incidents _ _ λ db i e. set_state-Move s at i (h i.state (ground arith)))

pub to_completed :
    (t : IncidentState) → is_active t ≡ true → may_become t IncidentState.completed ≡ true
to_completed t h = ground arith

pub to_failed : (t : IncidentState) → is_active t ≡ true → may_become t IncidentState.failed ≡ true
to_failed t h = ground arith

pub is_schedulable_iff : (s : IncidentState) → is_schedulable s ≡ is_active s
is_schedulable_iff IncidentState.received = refl
is_schedulable_iff IncidentState.investigating = refl
is_schedulable_iff _ = refl

schedulable_wait :
    (t : IncidentState)
    → is_schedulable t ≡ true
    → may_become t IncidentState.awaiting_audit_event ≡ true
schedulable_wait t h = ground (arith, is_schedulable_iff t)

pub Keeps-await : (id : String) (at : ℕ) → Keeps (await_audit_event id at)
Keeps-await id at = counted _ _ (
    Keeps-update_incidents _ _
      λ db i e. set_state-Move _ at i (schedulable_wait i.state (and_right _ _ e)))
  where
    and_right : (a b : Bool) → (a && b) ≡ true → b ≡ true
    and_right a b e = ground arith

pub Keeps-cancel : (id : String) → Keeps (cancel_jobs_for_incident id)
unfolding cancel_jobs_for_incident
Keeps-cancel id =
    Keeps->>= _ _
      (Keeps-update_jobs _ _ λ db j e. settle_job-Move JobStatus.cancelled refl j (ground arith))
      (λ _. Keeps-pure tt)

pub Keeps-cancel_other : (id job : String) → Keeps (cancel_other_jobs id job)
Keeps-cancel_other id job =
    Keeps->>= _ _
      (Keeps-update_jobs _ _ λ db j e. settle_job-Move JobStatus.cancelled refl j (ground arith))
      (λ _. Keeps-pure tt)

pub Keeps-finish_claim : (job : Job) (id : String) → Keeps (finish_claim job id)
Keeps-finish_claim job id =
    counted _ _
      (Keeps-update_jobs _ _ λ db j e. settle_job-Move JobStatus.completed refl j (ground arith))

pub Keeps-fence : (job : Job) → Keeps (fence job)
Keeps-fence job = counted _ _ (Keeps-update_jobs _ _ λ db j e. JobMove-refl j)
