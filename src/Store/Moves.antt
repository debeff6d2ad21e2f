-- ===== src/Store/Moves.antt =====
-- What an operation of the store may do to the rows of its tables, and the combinators that carry
-- such facts through a transaction.
use umodel_sre_rca.Common.{Bool, true, false, ◌≤◌, ◌≡◌, refl, ◌∙◌, sym, ◌⊎◌, inl, inr, arith}
use umodel_sre_rca.Domain.{IncidentState, Incident, Job}
use umodel_sre_rca.Store.Tables.{is_running, is_live}

-- The life of an incident: no state leads back to RECEIVED, a completed or failed incident can only
-- recover, and a recovered one stays so.
abbrev pub may_become : IncidentState → IncidentState → Bool
may_become IncidentState.received k = true
may_become IncidentState.investigating IncidentState.received = false
may_become IncidentState.investigating k = true
may_become IncidentState.awaiting_audit_event IncidentState.received = false
may_become IncidentState.awaiting_audit_event k = true
may_become IncidentState.completed IncidentState.completed = true
may_become IncidentState.completed IncidentState.recovered = true
may_become IncidentState.completed k = false
may_become IncidentState.failed IncidentState.failed = true
may_become IncidentState.failed IncidentState.recovered = true
may_become IncidentState.failed k = false
may_become IncidentState.recovered IncidentState.recovered = true
may_become IncidentState.recovered k = false

pub record IncidentMove (i k : Incident) : Type 0 where
  pub same_id : k.id ≡ i.id
  pub same_key : k.key ≡ i.key
  pub same_workspace : k.workspace ≡ i.workspace
  pub same_rule : k.rule_id ≡ i.rule_id
  pub same_resource : k.resource_id ≡ i.resource_id
  pub same_alert : k.alert_at ≡ i.alert_at
  pub same_creation : k.created_at ≡ i.created_at
  pub card_once : (i.feishu_message_id ≡ "") ⊎ (k.feishu_message_id ≡ i.feishu_message_id)
  pub legal : may_become i.state k.state ≡ true

-- Only a running job carries a worker and a lease.
abbrev pub IsIdle : Job → Type 0
IsIdle j = is_running j.status ≡ false → (j.worker_id ≡ "") × (j.lease_until ≡ 0)

-- The last field: a job that runs, with no more attempts than before, still runs on the same lease.
pub record JobMove (j k : Job) : Type 0 where
  pub same_id : k.id ≡ j.id
  pub same_incident : k.incident_id ≡ j.incident_id
  pub attempts_grow : j.attempt ≤ k.attempt
  pub over : is_live j.status ≡ false → k ≡ j
  pub idle : IsIdle j → IsIdle k
  pub same_claim :
      k.attempt ≡ j.attempt
      → is_running k.status ≡ true
      → (is_running j.status ≡ true) × (k.lease_until ≡ j.lease_until)

may_become_refl : (s : IncidentState) → may_become s s ≡ true
may_become_refl IncidentState.received = refl
may_become_refl IncidentState.investigating = refl
may_become_refl _ = refl

may_become_trans :
    (s t u : IncidentState) → may_become s t ≡ true → may_become t u ≡ true → may_become s u ≡ true
may_become_trans s t u h k = ground arith

pub IncidentMove-refl : (i : Incident) → IncidentMove i i
IncidentMove-refl i = ground (arith, may_become_refl i.state)

pub IncidentMove-trans : (i j k : Incident) → IncidentMove i j → IncidentMove j k → IncidentMove i k
IncidentMove-trans i j k h m = record {
  same_id = m.same_id ∙ h.same_id;
  same_key = m.same_key ∙ h.same_key;
  same_workspace = m.same_workspace ∙ h.same_workspace;
  same_rule = m.same_rule ∙ h.same_rule;
  same_resource = m.same_resource ∙ h.same_resource;
  same_alert = m.same_alert ∙ h.same_alert;
  same_creation = m.same_creation ∙ h.same_creation;
  card_once = elim h.card_once [
    | inl e ↦ inl e
    | inr e ↦ elim m.card_once [ inl f ↦ inl (sym e ∙ f) | inr f ↦ inr (f ∙ e) ]
  ];
  legal = may_become_trans i.state j.state k.state h.legal m.legal;
}

pub JobMove-refl : (j : Job) → JobMove j j
JobMove-refl j = record {
  same_id = refl;
  same_incident = refl;
  attempts_grow = omega arith;
  over = λ _. refl;
  idle = λ h. h;
  same_claim = λ _ e. (e, refl);
}

pub JobMove-trans : (i j k : Job) → JobMove i j → JobMove j k → JobMove i k
JobMove-trans i j k h m = record {
  same_id = m.same_id ∙ h.same_id;
  same_incident = m.same_incident ∙ h.same_incident;
  attempts_grow = omega (arith, h.attempts_grow, m.attempts_grow);
  over = λ e. let s = h.over e in m.over (rw s e) ∙ s;
  idle = λ w. m.idle (h.idle w);
  same_claim = λ e r.
      let both : (k.attempt ≡ j.attempt) × (j.attempt ≡ i.attempt) = (
        omega (arith, h.attempts_grow, m.attempts_grow),
        omega (arith, h.attempts_grow, m.attempts_grow),
      ) in
      let (busy, s) = m.same_claim both.0 r in
      let (before, t) = h.same_claim both.1 busy in (before, s ∙ t);
}
