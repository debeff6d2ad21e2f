-- ===== src/Store/Invariant/Intake.antt =====
-- The operations that read, create and claim take only the steps of `Store.Keeps`.
use umodel_sre_rca.Common.{
  ℕ, String, Bool, true, ◌&&◌, Option, none, some, ◌==◌, eq_iff, ◌≡◌, refl, arith, inl, inr, Result,
  ok, err, find_where, first_by, Bool-cases, Option-cases, eqb, exists_where, incident_inactive,
}
use umodel_sre_rca.Domain.{Incident, Job}
use umodel_sre_rca.Store.Tables.{Db, is_active, is_recovered, has_key, insert_incident}
use umodel_sre_rca.Store.Intake.{
  existing, create_or_get_incident, enqueue, recover_incident, recover, recover_found, recoverable,
  newer,
}
use umodel_sre_rca.Store.Claims.{
  holds_claim, claim_next, claim_found, sooner, is_claimable, check_active_claim,
  mark_investigating_for_claim, set_feishu_message_id, set_feishu_message_id_for_claim,
  update_active_claim_card, active_incident,
}
use umodel_sre_rca.Store.Moves.{IncidentMove-refl}
use umodel_sre_rca.Store.Keeps.{
  Step, Step-refl, Keeps, ok-db, Keeps-pure, Keeps-raise, Keeps->>=, Keeps-if, Keeps-look,
  Keeps-one_row, Keeps-update_incidents, Keeps-update_jobs,
}
use umodel_sre_rca.Store.Keeps.Inserts.{Keeps-insert_incident, Keeps-insert_job}
use umodel_sre_rca.Store.Keeps.Statements.{
  set_state-Move, set_card-Move, claimed_by-Move, counted, and_then, Keeps-cancel, Keeps-fence,
}

pub Keeps-create_or_get : (i : Incident) → Keeps (create_or_get_incident i)
unfolding create_or_get_incident
Keeps-create_or_get i = record { at = λ db a db' h. go db a db' (insert_incident i db) refl h }
  where
    go :
        (db : Db) (a : Incident × Bool) (db' : Db) (r : Result (Unit × Db))
        → insert_incident i db ≡ r
        → ◌≡◌ {A = Result ((Incident × Bool) × Db)}
            (elim r [
              | ok (_, d) ↦ ok ((i, true), d)
              | err e ↦ existing (find_where (has_key i.key) db.incidents) e db
            ])
            (ok (a, db'))
        → Step db db'
    go db a db' (ok (u, d)) e h = rw (ok-db h) ((Keeps-insert_incident i).at db u d e)
    go db a db' (err x) e h = elim (Option-cases (find_where (has_key i.key) db.incidents)) [
      | inl n ↦ absurd (ground arith)
      | inr (g, f) ↦ rw (ok-db (rw f at h)) (Step-refl db)
    ]

pub Keeps-enqueue : (id incident : String) (at : ℕ) → Keeps (enqueue id incident at)
unfolding enqueue
Keeps-enqueue id incident at = Keeps-insert_job _

pub Keeps-recover_incident : (at : ℕ) (i : Incident) → Keeps (recover_incident at i)
unfolding recover_incident
Keeps-recover_incident at i =
    Keeps->>= _ _ (Keeps-update_incidents _ _ λ db k e. set_state-Move _ at k (ground arith))
      λ n. and_then _ _ (Keeps-one_row _ n) (and_then _ _ (Keeps-cancel i.id) (Keeps-pure _))

Keeps-recover_found : (at : ℕ) (o : Option Incident) → Keeps (recover_found at o)
Keeps-recover_found at none = Keeps-pure _
Keeps-recover_found at (some i) =
    Keeps-if (is_recovered i.state) _ _ (Keeps-pure _)
      (Keeps->>= _ _ (Keeps-recover_incident at i) λ r. Keeps-pure _)

pub Keeps-recover : (key : String) (at : ℕ) → Keeps (recover key at)
unfolding recover
Keeps-recover key at =
    Keeps-look (λ db. recover_found at (first_by newer (recoverable key at) db.incidents))
      (λ db. Keeps-recover_found at _)

Keeps-claim_found : (w : String) (now : ℕ) (o : Option Job) → Keeps (claim_found w now o)
Keeps-claim_found w now none = Keeps-pure none
Keeps-claim_found w now (some job) =
    Keeps->>= _ _ (Keeps-update_jobs _ _ λ db j e. claimed_by-Move w now j (ground arith))
      λ n. Keeps-if (eqb n 1) _ _ (Keeps-pure _) (Keeps-pure _)

pub Keeps-claim_next : (w : String) (now : ℕ) → Keeps (claim_next w now)
unfolding claim_next
Keeps-claim_next w now =
    Keeps-look (λ db. claim_found w now (first_by sooner (is_claimable now db) db.jobs))
      (λ db. Keeps-claim_found w now _)

pub Keeps-check_active_claim : (job : Job) → Keeps (check_active_claim job)
unfolding check_active_claim
Keeps-check_active_claim job = record {
  at = λ db a db' e. elim (Bool-cases (exists_where (holds_claim job db) db.jobs)) [
    | inl t ↦ rw (ok-db (rw t at e)) (Step-refl db)
    | inr f ↦ absurd (ground arith)
  ];
}

pub Keeps-mark : (job : Job) (at : ℕ) → Keeps (mark_investigating_for_claim job at)
unfolding mark_investigating_for_claim
Keeps-mark job at =
    Keeps->>= _ _ (Keeps-update_incidents _ _ λ db i e. set_state-Move _ at i (ground arith)) λ n.
      Keeps-if (eqb n 1) _ _ (Keeps-pure tt)
        (and_then _ _ (Keeps-check_active_claim job) (Keeps-raise incident_inactive))

pub Keeps-set_card :
    (incident message : String) (at : ℕ) → Keeps (set_feishu_message_id incident message at)
unfolding set_feishu_message_id
Keeps-set_card incident message at = Keeps-if (message == "") _ _ (Keeps-raise _) (
    counted _ _ (
      Keeps-update_incidents _ _
        λ db i e. set_card-Move message at i (ground (arith, eq_iff i.feishu_message_id ""))))

pub Keeps-set_card_for_claim :
    (job : Job) (message : String) (at : ℕ) → Keeps (set_feishu_message_id_for_claim job message at)
unfolding set_feishu_message_id_for_claim
Keeps-set_card_for_claim job message at = Keeps-if (message == "") _ _ (Keeps-raise _) (
    and_then _ _ (Keeps-fence job) (
      counted _ _ (
        Keeps-update_incidents _ _
          λ db i e. set_card-Move message at i (ground (arith, eq_iff i.feishu_message_id "")))))

Keeps-active_incident : (o : Option Incident) → Keeps (active_incident o)
Keeps-active_incident none = Keeps-raise _
Keeps-active_incident (some i) = Keeps-pure i

Keeps-callback :
    (r : Result (Unit {0})) → Keeps (λ db. elim r [ ok _ ↦ ok (tt, db) | err e ↦ err e ])
Keeps-callback (ok u) = Keeps-pure tt
Keeps-callback (err e) = Keeps-raise e

pub Keeps-update_card :
    (job : Job) (update : Incident → Result (Unit {0}))
    → Keeps (update_active_claim_card job update)
unfolding update_active_claim_card
Keeps-update_card job update =
    Keeps->>= _ _
      (Keeps-look
        (λ db.
          active_incident
            (find_where (λ i. i.id == job.incident_id && is_active i.state) db.incidents))
        λ db. Keeps-active_incident _)
      λ i. and_then _ _ (Keeps-fence job) (
        Keeps->>= _ _ (Keeps-update_incidents _ _ λ db k e. IncidentMove-refl k)
          λ n. and_then _ _ (Keeps-one_row _ n) (Keeps-callback (update i)))
