-- ===== src/Store/Repeats.antt =====
-- CreateOrGetIncident on an alert that is new, and on one whose incident is active.
use umodel_sre_rca.Common.{
  ◌≡◌, refl, find_where, some, true, false, exists_where, [], ◌∷◌, ◌++◌, exists_where-Within,
  find_where-Within, find_where-holds, constraint, arith,
}
use umodel_sre_rca.Domain.{Incident}
use umodel_sre_rca.Store.Tables.{Db, insert_incident, has_key, has_id, is_active}
use umodel_sre_rca.Store.Intake.{create_or_get_incident}
use umodel_sre_rca.Store.Runs.{Yields, Raises}

module _ (i : Incident) (db : Db) (active : is_active i.state ≡ true) where
  refuses :
      exists_where (has_key i.key) db.incidents ≡ true → Raises (insert_incident i) db constraint
  unfolding insert_incident
  refuses h = ground (arith, active, h)

  inserts :
      exists_where (has_id i.id) db.incidents ≡ false
      → exists_where (has_key i.key) db.incidents ≡ false
      → Yields
          (insert_incident i)
          db
          tt
          (record db { incidents = db.incidents ++ record i { feishu_message_id = "" } ∷ [] })
  unfolding insert_incident
  inserts h k = ground (arith, active, h, k)

  pub create-repeats :
      (k : Incident)
      → find_where (has_key i.key) db.incidents ≡ some k
      → Yields (create_or_get_incident i) db (k, false) db
  unfolding create_or_get_incident
  create-repeats k h =
      let there =
        exists_where-Within (has_key i.key) k db.incidents
          (find_where-Within (has_key i.key) db.incidents h)
          (find_where-holds (has_key i.key) db.incidents h) in
      rw (create_or_get_incident, refuses there, h) refl

  pub create_first :
      exists_where (has_id i.id) db.incidents ≡ false
      → exists_where (has_key i.key) db.incidents ≡ false
      → Yields
          (create_or_get_incident i)
          db
          (i, true)
          (record db { incidents = db.incidents ++ record i { feishu_message_id = "" } ∷ [] })
  unfolding create_or_get_incident
  create_first h k = rw (create_or_get_incident, inserts h k) refl
