-- ===== src/Scenarios/Sync.antt =====
-- Runs of sre-sync on a file with one endpoint.
use umodel_sre_rca.Common.{ok, ◌∷◌, [], some, refl, ◌≡◌, ◌⊎◌, List, true, false}
use umodel_sre_rca.Common.Int.{pos}
use umodel_sre_rca.Modelsync.{Element, build_plan, add_relation, is_safe_relation_type}
use umodel_sre_rca.Modelsync.Writer.{EntityStoreWrite, build_entity_store_writes, is_workspace}
use umodel_sre_rca.Modelsync.Sync.{
  Cms, SyncConfig, load_config, check_endpoints, new_cms_writer, put_one,
}
use umodel_sre_rca.Modelsync.Run.{Flags, run_flags, plan_all, is_misused}
use umodel_sre_rca.Modelsync.Run.Applied.{run_flags-dry, run_flags-applies}
use umodel_sre_rca.Scenarios.Checks.{shop, runs_on}
use umodel_sre_rca.Text.{trim_left, trim_right}
use umodel_sre_rca.Analysis.{is_space, is_blank}

abbrev cms : Cms
cms = record {
  now = pos 100;
  entity_id = λ id. "d1";
  decimal = λ n. "100";
  new_credential = λ c. ok tt;
  new_inspector = λ c. ok tt;
  put_logs = λ project logstore group. ok tt;
  call_api = λ params request. ok "{}";
}

abbrev file : SyncConfig
file = record {
  workspace = " ws";
  region = "cn-hangzhou";
  ecs_ram_role_name = "sre";
  relation = runs_on;
  endpoints = shop ∷ [];
}

abbrev applying : Flags
applying = record {
  config = "/etc/sync.yaml";
  apply = true;
  inspect_schema = false;
  inspect_relation = false;
  expire_relation_type = "";
  has_arguments = false;
}

-- LoadConfig refuses this file.
abbrev no_region : SyncConfig
no_region = record file { region = "" }

run_flags-dry_example :
    ((run_flags cms (λ n. "0") (λ r. ok tt) (some applying) (ok no_region)).written ≡ [])
    ⊎ ((is_misused applying ≡ false)
        × (true ≡ true)
        × (false ≡ false)
        × (false ≡ false)
        × ((c : SyncConfig) × (load_config cms no_region ≡ ok c)))
run_flags-dry_example = run_flags-dry cms (λ n. "0") (λ r. ok tt) applying (ok no_region)

run_flags-applies_example :
    (elements : List Element) × (ws : List EntityStoreWrite) × (plan_all cms runs_on (shop ∷ [])
      ≡ ok elements)
    × (build_entity_store_writes "ws" (record { elements = elements }) ≡ ok ws)
    × ((run_flags cms (λ n. "0") (λ r. ok tt) (some applying) (ok file)).exit_code ≡ 0)
    × ((run_flags cms (λ n. "0") (λ r. ok tt) (some applying) (ok file)).written ≡ ws)
unfolding is_misused new_cms_writer put_one load_config trim_left trim_right is_space is_workspace
    check_endpoints build_plan add_relation is_blank is_safe_relation_type
run_flags-applies_example =
    run_flags-applies cms (λ n. "0") (λ r. ok tt) applying file (record file { workspace = "ws" })
      refl refl refl refl refl refl refl (λ w. refl) (λ r. refl) (λ id. refl)
