-- ===== src/Store/Marking.antt =====
-- MarkInvestigatingForClaim for a worker that holds its claim.
use umodel_sre_rca.Common.{
  err, ◌&&◌, ◌==◌, Bool, Bool-cases, String, Within, arith, count_where-none, exists_where, false,
  find_where, find_where_unique, incident_inactive, inl, inr, some, sym, true, update_where-none, ℕ,
  ◌∙◌, ◌≡◌,
}
use umodel_sre_rca.Store.Tables.{Db, has_id, update_incidents, ◌>>=◌}
use umodel_sre_rca.Domain.{Incident, IncidentState, Job}
use umodel_sre_rca.Store.Keeps.{IsValid}
use umodel_sre_rca.Store.Claims.{
  check_active_claim, holds_claim, is_leased, is_waiting, mark_investigating_for_claim,
}

-- The only row with the incident's identifier.
incident_row :
    (db : Db) (id : String) (i k : Incident)
    → IsValid db
    → find_where (has_id id) db.incidents ≡ some i
    → Within k db.incidents
    → (k.id == id) ≡ true
    → k ≡ i
incident_row db id i k v e w h =
    let again = find_where_unique (has_id id) k db.incidents (v.one_incident id) w h in
    ground (arith, sym again ∙ e)

module _ (job : Job) (at : ℕ) (db : Db) (i : Incident) (v : IsValid db)
    (stored : find_where (has_id job.incident_id) db.incidents ≡ some i)
    (held : exists_where (holds_claim job db) db.jobs ≡ true) where
  abbrev marks_row : Incident → Bool
  marks_row k = k.id == job.incident_id && (is_waiting k.state && is_leased job db)

  abbrev marked : Incident → Incident
  marked k = record k { state = IncidentState.investigating; updated_at = at }

  not_waiting :
      is_waiting i.state ≡ false → (k : Incident) → Within k db.incidents → marks_row k ≡ false
  not_waiting n k w = elim (Bool-cases (k.id == job.incident_id)) [
    | inr f ↦ rw f
    | inl t ↦
        let same : k ≡ i = incident_row db job.incident_id i k v stored w t in rw t (rw same (rw n))
  ]

  -- A claim on an incident that is under investigation already is answered as if the incident were
  -- no longer active, although the claim holds and the incident is active.
  pub mark_again :
      is_waiting i.state ≡ false → mark_investigating_for_claim job at db ≡ err incident_inactive
  unfolding mark_investigating_for_claim check_active_claim update_incidents
  mark_again n =
      rw (count_where-none marks_row db.incidents (not_waiting n))
        (rw (update_where-none marks_row marked db.incidents (not_waiting n), held, ◌>>=◌))
