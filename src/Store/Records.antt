-- ===== src/Store/Records.antt =====
-- internal/store/sqlite.go: StoreEvidence and OpenEvidence. `marshal` and `unmarshal` stand for
-- encoding/json on one evidence item; they may fail.
use umodel_sre_rca.Common.{
  ℕ, String, List, [], ◌∷◌, ◌++◌, Option, none, some, ◌==◌, if◌then◌else◌, find_where, ok, err,
  failure, no_rows,
}
use umodel_sre_rca.Domain.{Evidence}
use umodel_sre_rca.Store.Tables.{Document, Tx, ◌>>◌, pure, raise}

-- The rows but those of one primary key.
unfoldable pub without : String → List Document → List Document
without id [] = []
without id (d ∷ ds) = if d.id == id then without id ds else d ∷ without id ds

-- INSERT OR REPLACE INTO evidence_records: the row of the same primary key is deleted first.
unfoldable pub replace_evidence : Document → Tx (Unit {0})
unfolding without
replace_evidence d db =
    ok (tt, record db { evidence_records = without d.id db.evidence_records ++ d ∷ [] })

module _ (marshal : Evidence → Option String) where
  unfoldable pub store_item : String → ℕ → Evidence → Tx (Unit {0})
  store_item incident_id at item db =
      if item.id == "" then err (failure "evidence id is required") else elim (marshal item) [
        | none ↦ err (failure "json")
        | some raw ↦
            replace_evidence
              (record {
                id = item.id;
                incident_id = incident_id;
                evidence_json = raw;
                created_at = at;
              })
              db
      ]

  unfoldable pub store_evidence : String → List Evidence → ℕ → Tx (Unit {0})
  unfolding store_item replace_evidence
  store_evidence incident_id [] at = pure tt
  store_evidence incident_id (item ∷ items) at =
      store_item incident_id at item >> store_evidence incident_id items at

module _ (unmarshal : String → Option Evidence) where
  decode : Option Evidence → Tx Evidence
  decode none = raise (failure "decode stored evidence")
  decode (some item) = pure item

  open_row : Option Document → Tx Evidence
  unfolding decode
  open_row none = raise no_rows
  open_row (some d) = decode (unmarshal d.evidence_json)

  unfoldable pub open_evidence : String → Tx Evidence
  unfolding open_row
  open_evidence id db = open_row (find_where (λ (d : Document). d.id == id) db.evidence_records) db
