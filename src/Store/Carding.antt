-- ===== src/Store/Carding.antt =====
-- CheckActiveClaim and SetFeishuMessageIDForClaim, for a worker that holds its claim on an incident
-- that has no card yet.
use umodel_sre_rca.Common.{◌&&◌, ◌==◌, String, arith, false, refl, true, update_where, ℕ, ◌≡◌}
use umodel_sre_rca.Store.Tables.{Db, has_id, is_active, update_incidents, ◌>>=◌}
use umodel_sre_rca.Store.Holds.{Holds, claim_held, one_incident_of, own_id}
use umodel_sre_rca.Domain.{Incident, Job}
use umodel_sre_rca.Store.Invariant.Intake.{Keeps-set_card_for_claim}
use umodel_sre_rca.Store.Runs.{Yields}
use umodel_sre_rca.Store.Claims.{check_active_claim, set_feishu_message_id_for_claim}
use umodel_sre_rca.Store.Progress.{fence-Yields, updated_row}

module _ (job : Job) (i : Incident) (db : Db) (h : Holds job i db) where
  pub check-Yields : Yields (check_active_claim job) db tt db
  unfolding check_active_claim
  check-Yields = rw (claim_held job i db h)

  module _ (m : String) (at : ℕ) where
    abbrev pub carded : Incident
    carded = record i { feishu_message_id = m; updated_at = at }

    abbrev pub after_card : Db
    after_card = record db {
      incidents =
          update_where
            (λ k. k.id == job.incident_id && (k.feishu_message_id == "" && is_active k.state))
            (λ k. record k { feishu_message_id = m; updated_at = at }) db.incidents;
    }

    module _ (bare : (i.feishu_message_id == "") ≡ true) (given : (m == "") ≡ false) where
      pub card-Yields : Yields (set_feishu_message_id_for_claim job m at) db tt after_card
      unfolding set_feishu_message_id_for_claim update_incidents
      card-Yields =
          let one =
            one_incident_of job i db h
              (λ k. k.id == job.incident_id && (k.feishu_message_id == "" && is_active k.state))
              (λ k e. ground (arith, e)) (rw (own_id job i db h, bare, h.active) refl) in
          rw (given, ◌>>=◌, fence-Yields job i db h, one) refl

      pub card-Holds : Holds job carded after_card
      card-Holds = record {
        valid = ((Keeps-set_card_for_claim job m at).at db _ _ card-Yields).valid h.valid;
        stored =
            updated_row (has_id job.incident_id) _ _ db.incidents i (λ _. refl) h.stored
              (rw (own_id job i db h, bare, h.active) refl);
        active = h.active;
        row = h.row;
        running = h.running;
      }
