-- ===== src/Worker/Starts.antt =====
-- RunOne up to the start of an investigation, for an incident that has a card and for one that has
-- none yet.
use umodel_sre_rca.Common.{
  inr, inl, ◌==◌, String, arith, false, find_where, if◌then◌else◌, ok, refl, subst, sym, true, ◌∙◌,
  ◌≡◌, [], eq_iff, some, ◌∷◌, update_where, List, Bool, Within, Bool-cases, ap,
}
use umodel_sre_rca.Store.Tables.{Db, has_id, is_active, is_recovered}
use umodel_sre_rca.Worker.Env.{Env}
use umodel_sre_rca.Store.Holds.{Holds, own_id}
use umodel_sre_rca.Domain.{Incident, IncidentState, Job}
use umodel_sre_rca.Store.Runs.{Yields}
use umodel_sre_rca.Store.Carding.{after_card, card-Holds, card-Yields, carded, check-Yields}
use umodel_sre_rca.Store.Claims.{
  check_active_claim, is_waiting, set_feishu_message_id_for_claim, claimed_by,
}
use umodel_sre_rca.Worker.Run.{
  create_card, fail, investigate, persistence_failure, quietly, recovery_result, run_one,
}
use umodel_sre_rca.Schedule.{give}
use umodel_sre_rca.Schedule.Quiet.{give_then, if_else, repo_then, still, if_then}
use umodel_sre_rca.Store.Intake.{incident_by_id, one}
use umodel_sre_rca.Store.Leases.{Claims, after_claim}
use umodel_sre_rca.Store.Keeps.{IsValid}
use umodel_sre_rca.Store.Progress.{claims-Holds}
use umodel_sre_rca.Worker.Begins.{claims-some, reads_incident}

Within-update :
    {A : Type 0} (p : A → Bool) (f : A → A) (y : A) (xs : List A)
    → Within y (update_where p f xs)
    → (x : A) × Within x xs × (y ≡ (if p x then f x else x))
unfolding update_where
Within-update p f y [] w = elim w [ ]
Within-update p f y (x ∷ xs) (inl e) = (x, inl refl, e)
Within-update p f y (x ∷ xs) (inr w) =
    let (z, there, e) = Within-update p f y xs w in (z, inr there, e)

-- The rows of js for other incidents are rows of is.
abbrev pub SameOthers : String → List Incident → List Incident → Type 0
SameOthers id is js = (y : Incident) → Within y js → (y.id == id) ≡ false → Within y is

pub SameOthers-update :
    (id : String) (p : Incident → Bool) (f : Incident → Incident)
    → ((k : Incident) → p k ≡ true → (k.id == id) ≡ true)
    → ((k : Incident) → (f k).id ≡ k.id)
    → (is : List Incident) → SameOthers id is (update_where p f is)
SameOthers-update id p f own same is y w other =
    let (x, there, e) = Within-update p f y is w in
    elim (Bool-cases (p x)) [
      | inl t ↦
          let moved : y ≡ f x = rw t at e in
          let same_id : y.id ≡ x.id = ap (λ (k : Incident). k.id) moved ∙ same x in
          absurd (cc (other, own x t, same_id))
      | inr n ↦ let kept : y ≡ x = rw n at e in subst (λ k. Within k is) (sym kept) there
    ]

waits-is_active : (s : IncidentState) → is_waiting s ≡ true → is_active s ≡ true
waits-is_active s h = ground arith

active_not_recovered : (s : IncidentState) → is_active s ≡ true → is_recovered s ≡ false
active_not_recovered s h = ground arith

module _ (env : Env) (job : Job) (i : Incident) (db : Db) (h : Holds job i db) where
  module _ (m : String) (bare : (i.feishu_message_id == "") ≡ true)
      (given : (m == "") ≡ false) where
    pub create_card-investigates :
        env.create_incident_card i ≡ ok m
        → i.id ≡ job.incident_id
        → create_card env job i (still db)
          ≡ investigate env job
              (carded job i db h m env.now)
              (still (after_card job i db h m env.now))
    unfolding create_card incident_by_id
    create_card-investigates c e =
        let shown = after_card job i db h m env.now in
        let k = carded job i db h m env.now in
        let held = card-Holds job i db h m env.now bare given in
        repo_then env.codecs (check_active_claim job) (quietly env job) _ db tt db
          (check-Yields job i db h)
        ∙ (give_then (env.create_incident_card i) (fail env i job) _ (still db) m c
            ∙ (repo_then env.codecs (set_feishu_message_id_for_claim job m env.now) _ _ db tt shown
                  (card-Yields job i db h m env.now bare given)
                ∙ (repo_then env.codecs (incident_by_id i.id) (persistence_failure env job)
                      (λ again.
                        if is_recovered again.state
                        then give
                            (env.update_incident_card again.feishu_message_id again recovery_result)
                        else investigate env job again)
                      shown k shown
                      (subst
                        (λ id. Yields (one (find_where (has_id id) shown.incidents)) shown k shown)
                        (sym e) (rw held.stored refl))
                    ∙ if_else (is_recovered k.state) _ _ (still shown)
                        (active_not_recovered k.state h.active))))

-- RunOne for the job j starts the investigation of k on the database `db1`.
pub record Starts (env : Env) (db : Db) (j : Job) (k : Incident) : Type 0 where
  pub db1 : Db
  pub held : Holds (claimed_by env.worker_id env.now j) k db1
  pub begins :
      run_one env (still db) ≡ investigate env (claimed_by env.worker_id env.now j) k (still db1)
  pub snapshots : db1.evidence_snapshots ≡ db.evidence_snapshots
  pub others : SameOthers j.incident_id db.incidents db1.incidents

module _ (env : Env) (db : Db) (j : Job) (i : Incident) (v : IsValid db)
    (x : Claims env.worker_id env.now db j)
    (found : find_where (has_id j.incident_id) db.incidents ≡ some i)
    (waits : is_waiting i.state ≡ true) where
  Starts-shown : (i.feishu_message_id == "") ≡ false → Starts env db j i
  Starts-shown card =
      let job = claimed_by env.worker_id env.now j in
      let db0 = after_claim env.worker_id env.now db j in
      record {
        db1 = db0;
        held = claims-Holds env.worker_id env.now db j i v x found (waits-is_active i.state waits);
        begins =
            claims-some env db db0 job x.result
            ∙ (reads_incident env db0 job i found
                ∙ if_else (i.feishu_message_id == "") _ _ (still db0) card);
        snapshots = refl;
        others = λ y w o. w;
      }

  Starts-bare :
      (m : String)
      → (i.feishu_message_id == "") ≡ true
      → env.create_incident_card i ≡ ok m
      → (m == "") ≡ false
      → Starts env db j (record i { feishu_message_id = m; updated_at = env.now })
  Starts-bare m bare created given =
      let job = claimed_by env.worker_id env.now j in
      let db0 = after_claim env.worker_id env.now db j in
      let h = claims-Holds env.worker_id env.now db j i v x found (waits-is_active i.state waits) in
      let own = (eq_iff i.id j.incident_id).0 (own_id job i db0 h) in
      record {
        db1 = after_card job i db0 h m env.now;
        held = card-Holds job i db0 h m env.now bare given;
        begins =
            claims-some env db db0 job x.result
            ∙ (reads_incident env db0 job i found
                ∙ (if_then (i.feishu_message_id == "") _ _ (still db0) bare
                    ∙ create_card-investigates env job i db0 h m bare given created own));
        snapshots = refl;
        others =
            SameOthers-update j.incident_id _ _ (λ k e. ground (arith, e)) (λ k. refl) db.incidents;
      }

-- The incident as it is investigated: with the card that it has, or with one that Feishu creates.
pub data IsCarded (env : Env) (i : Incident) : Incident → Type 0 where
  has_card : (i.feishu_message_id == "") ≡ false → IsCarded env i i
  gets_card :
      (m : String)
      → (i.feishu_message_id == "") ≡ true
      → env.create_incident_card i ≡ ok m
      → (m == "") ≡ false
      → IsCarded env i (record i { feishu_message_id = m; updated_at = env.now })

pub IsCarded-state : {env : Env} {i k : Incident} → IsCarded env i k → k.state ≡ i.state
IsCarded-state (has_card h) = refl
IsCarded-state (gets_card m h c g) = refl

pub IsCarded-message :
    {env : Env} {i k : Incident} → IsCarded env i k → (k.feishu_message_id == "") ≡ false
IsCarded-message (has_card h) = h
IsCarded-message (gets_card m h c g) = g

pub starts :
    (env : Env) (db : Db) (j : Job) (i k : Incident)
    → IsValid db
    → Claims env.worker_id env.now db j
    → find_where (has_id j.incident_id) db.incidents ≡ some i
    → is_waiting i.state ≡ true
    → IsCarded env i k
    → Starts env db j k
starts env db j i k v x found waits (has_card h) = Starts-shown env db j i v x found waits h
starts env db j i k v x found waits (gets_card m h c g) =
    Starts-bare env db j i v x found waits m h c g
