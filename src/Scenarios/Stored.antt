-- ===== src/Scenarios/Stored.antt =====
-- Evidence that is stored and opened again.
use umodel_sre_rca.Common.{refl, [], ◌∷◌, Option, some, String}
use umodel_sre_rca.Domain.{Evidence}
use umodel_sre_rca.Store.Tables.{Db, empty_db, Document}
use umodel_sre_rca.Store.Records.{store_evidence, replace_evidence, store_item, without}
use umodel_sre_rca.Store.Runs.{Yields}
use umodel_sre_rca.Common.Int.{pos}

abbrev pub cpu_load : Evidence
cpu_load = record {
  id = "e1";
  type = "metric";
  observed_at = pos 90;
  source = "cms";
  query_ref = "q";
  summary = "98%";
  raw_ref = "";
}

abbrev pub disk_load : Evidence
disk_load = record cpu_load { id = "e2" }

-- Each item as its summary, which is all that the two items here need.
abbrev pub to_json : Evidence → Option String
to_json item = some item.summary

abbrev pub from_json : String → Option Evidence
from_json raw = some (record cpu_load { summary = raw })

abbrev pub document : Evidence → Document
document item = record { id = item.id; incident_id = "i1"; evidence_json = "98%"; created_at = 95 }

abbrev pub stored_db : Db
stored_db = record empty_db { evidence_records = document cpu_load ∷ document disk_load ∷ [] }

pub store_runs :
    Yields (store_evidence to_json "i1" (cpu_load ∷ disk_load ∷ []) 95) empty_db tt stored_db
unfolding store_evidence store_item replace_evidence without
store_runs = refl
