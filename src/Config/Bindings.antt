-- ===== src/Config/Bindings.antt =====
-- What ValidateIncidentBindings promises to the incident source.
use umodel_sre_rca.Common.{
  ok, ◌≡◌, refl, ◌==◌, ◌||◌, true, false, List, [], ◌∷◌, String, none, some, Within, exists_where,
  passes, Bool-cases, inl, inr, arith, eq_refl, eq_iff, Result, sym, subst,
}
use umodel_sre_rca.Common.Int.{pos}
use umodel_sre_rca.Analysis.{is_blank}
use umodel_sre_rca.Domain.{Incident}
use umodel_sre_rca.Evidence.{is_empty_map}
use umodel_sre_rca.Config.{
  IncidentBinding, incident_binding_key, has_incident_key, check_bindings,
  validate_incident_bindings, find_binding, resolve_incident, has_blank_selector, window_start,
  key_of,
}

-- What the checks of one binding leave: its key is new, and the rest pass.
one_binding :
    (seen : List IncidentBinding) (b : IncidentBinding) (bs : List IncidentBinding)
    → check_bindings seen (b ∷ bs) ≡ ok tt
    → (exists_where (has_incident_key (incident_binding_key b)) seen ≡ false)
      × (check_bindings (b ∷ seen) bs ≡ ok tt)
unfolding check_bindings
one_binding seen b bs h =
    let (_, h1) =
      passes (is_blank b.workspace || (is_blank b.rule_id || is_blank b.resource_id)) _ _ h in
    let (new, h2) = passes (exists_where (has_incident_key (incident_binding_key b)) seen) _ _ h1 in
    let (_, h3) = passes (is_empty_map b.selectors) _ _ h2 in
    let (_, h4) = passes (has_blank_selector b.selectors) _ (check_bindings (b ∷ seen) bs) h3 in
    (new, h4)

not_repeated :
    (key : String) (seen bs : List IncidentBinding)
    → check_bindings seen bs ≡ ok tt
    → exists_where (has_incident_key key) seen ≡ true
    → find_binding bs key ≡ none
unfolding find_binding exists_where
not_repeated key seen [] h s = refl
not_repeated key seen (b ∷ bs) h s =
    let (new, rest) = one_binding seen b bs h in
    let later : find_binding bs key ≡ none =
      not_repeated key (b ∷ seen) bs rest (ground (arith, s)) in
    elim (Bool-cases (incident_binding_key b == key)) [
      | inl t ↦
          let same = (eq_iff (incident_binding_key b) key).0 t in
          absurd (
            ground (arith, s, subst (λ k. exists_where (has_incident_key k) seen ≡ false) same new))
      | inr f ↦ rw (later, f) refl
    ]

finds_own :
    (seen bs : List IncidentBinding)
    → check_bindings seen bs ≡ ok tt
    → (b : IncidentBinding) → Within b bs
    → find_binding bs (incident_binding_key b) ≡ some b
unfolding find_binding exists_where
finds_own seen [] h b w = absurd w
finds_own seen (k ∷ ks) h b (inl e) =
    let (_, rest) = one_binding seen k ks h in
    let later =
      not_repeated (incident_binding_key k) (k ∷ seen) ks rest
        (rw (eq_refl (incident_binding_key k)) refl) in
    subst (λ c. find_binding (k ∷ ks) (incident_binding_key c) ≡ some c) (sym e)
      (rw (later, eq_refl (incident_binding_key k)) refl)
finds_own seen (k ∷ ks) h b (inr w) =
    let (_, rest) = one_binding seen k ks h in rw (finds_own (k ∷ seen) ks rest b w) refl

finds_valid :
    (bindings : List IncidentBinding)
    → validate_incident_bindings bindings ≡ ok tt
    → (b : IncidentBinding) → Within b bindings
    → find_binding bindings (incident_binding_key b) ≡ some b
unfolding validate_incident_bindings
finds_valid [] v b w = absurd w
finds_valid (k ∷ ks) v b w = finds_own [] (k ∷ ks) v b w

key_of_same :
    (b : IncidentBinding) (i : Incident)
    → i.workspace ≡ b.workspace
    → i.rule_id ≡ b.rule_id
    → i.resource_id ≡ b.resource_id
    → incident_binding_key b ≡ key_of i.workspace i.rule_id i.resource_id
unfolding incident_binding_key
key_of_same b i e1 e2 e3 = cc

-- For bindings that ValidateIncidentBindings accepts, and any of them: if an identifier that is
-- not empty is that of an incident of the binding's workspace, rule and resource, ResolveIncident
-- answers it with the binding's selectors and with the thirty minutes up to the alert.
pub resolve_incident-finds :
    (bindings : List IncidentBinding) (b : IncidentBinding) (read : String → Result Incident)
    (id : String) (incident : Incident)
    → validate_incident_bindings bindings ≡ ok tt
    → Within b bindings
    → (id == "") ≡ false
    → read id ≡ ok incident
    → incident.workspace ≡ b.workspace
    → incident.rule_id ≡ b.rule_id
    → incident.resource_id ≡ b.resource_id
    → resolve_incident bindings read id
      ≡ ok (record {
        selectors = b.selectors;
        window = record { start = window_start incident.alert_at; end = pos incident.alert_at };
      })
unfolding resolve_incident
resolve_incident-finds bindings b read id i v w g r e1 e2 e3 =
    let found =
      subst (λ key. find_binding bindings key ≡ some b) (key_of_same b i e1 e2 e3)
        (finds_valid bindings v b w) in
    rw (g, r, found) refl
