-- ===== src/Command/Prints.antt =====
-- `sre-evidence evidence open` on the database in which StoreEvidence has stored the item.
use umodel_sre_rca.Common.{
  ◌==◌, All, Error, List, Option, Result, String, [], ap, arith, bound, false, from_ok, none, ok,
  refl, some, sym, true, ℕ, ◌∙◌, ◌∷◌, ◌≡◌, ◌>>=◌, ◌++◌,
}
use umodel_sre_rca.Config.{Config, load, load_incident_bindings, new_incident_source}
use umodel_sre_rca.Store.Tables.{Db}
use umodel_sre_rca.Domain.{Evidence}
use umodel_sre_rca.Launch.{Parts, new_evidence_service}
use umodel_sre_rca.Evidence.{Service, load_registry, open_by_id}
use umodel_sre_rca.Store.Tables
use umodel_sre_rca.Command.{
  run, Surroundings, default_config_path, dispatch, is_fixed_command, is_safe_reference,
  parse_command,
}
use umodel_sre_rca.Store.Runs.{Yields}
use umodel_sre_rca.Store.Records.{open_evidence, store_evidence}
use umodel_sre_rca.Store.Opens.{store-open_evidence}
use umodel_sre_rca.Provider.Sdk.{new_aliyun_sdk_client}

fixed_open :
    (id : String)
    → is_safe_reference id ≡ true
    → parse_command ("evidence" ∷ "open" ∷ id ∷ [])
      ≡ some (default_config_path, "evidence" ∷ "open" ∷ id ∷ [])
unfolding parse_command is_fixed_command
fixed_open id h = rw h refl

given : (id : String) → is_safe_reference id ≡ true → (id == "") ≡ false
unfolding is_safe_reference
given id h = ground (arith, h)

opens_with :
    (c : Config) (parts : Parts) (service : Service)
    → new_evidence_service c parts ≡ ok service
    → service.open_evidence ≡ some parts.open_evidence
unfolding new_evidence_service
opens_with c parts service h =
    let (sdk, _, h1) =
      bound (new_aliyun_sdk_client parts.constructors c.region c.ecs_ram_role_name) _ h in
    let (bindings, _, h2) = bound parts.bindings_file _ h1 in
    let (registry, _, h3) = bound (load_registry bindings) _ h2 in
    let (bindings', _, h4) = bound (load_incident_bindings parts.incident_bindings_file) _ h3 in
    let (_, _, h5) = bound (new_incident_source (some parts.incident_by_id) bindings') _ h4 in
    ap (λ (x : Service). x.open_evidence) (sym (from_ok h5))

opens_item :
    (service : Service) (open' : String → Result Evidence) (id : String) (item : Evidence)
    → (id == "") ≡ false
    → service.open_evidence ≡ some open'
    → open' id ≡ ok item
    → dispatch service "evidence" id ≡ ok (item ∷ [])
unfolding dispatch open_by_id
opens_item service open' id item n e h = rw (n, e, h) refl

module _ (s : Surroundings) (c : Config) (service : Service) (item : Evidence) (text : String)
    (loaded : (s.read_config default_config_path >>= load) ≡ ok c)
    (opened : s.open_state_db c.state_db ≡ ok tt)
    (composed : new_evidence_service c s.parts ≡ ok service)
    (encoded : s.encode (item ∷ []) ≡ ok text)
    (taken : ◌≡◌ {A = String × Option Error} (s.write text) (text, none)) where
  prints :
      is_safe_reference item.id ≡ true
      → s.parts.open_evidence item.id ≡ ok item
      → run s ("evidence" ∷ "open" ∷ item.id ∷ []) none
        ≡ record { status = 0; stdout = text; stderr = "" }
  unfolding run
  prints safe found =
      rw
        (
          fixed_open item.id safe,
          loaded,
          opened,
          composed,
          opens_item service s.parts.open_evidence item.id item (given item.id safe)
              (opens_with c s.parts service composed) found,
          encoded,
          taken,
        )
        refl

  -- If StoreEvidence has stored a list of items in the database that the command opens, then
  -- `sre-evidence evidence open` prints each of them, as it was, and ends with 0: an item with a safe
  -- identifier, which no later item of the list replaces, and whose JSON decodes to the item. The
  -- configuration is accepted, the service can be composed, the answer can be encoded, and stdout
  -- takes it.
  pub store-run_open :
      (marshal : Evidence → Option String) (unmarshal : String → Option Evidence)
      (incident : String) (at : ℕ) (before after : List Evidence) (db db' : Db)
      → Yields (store_evidence marshal incident (before ++ item ∷ after) at) db tt db'
      → All (λ (k : Evidence). (k.id == item.id) ≡ false) after
      → ((raw : String) → marshal item ≡ some raw → unmarshal raw ≡ some item)
      → ((id : String) → s.parts.open_evidence id ≡ (Tables.run (open_evidence unmarshal id) db').0)
      → is_safe_reference item.id ≡ true
      → run s ("evidence" ∷ "open" ∷ item.id ∷ []) none
        ≡ record { status = 0; stdout = text; stderr = "" }
  store-run_open marshal unmarshal incident at before after db db' h a decodes reads safe =
      prints safe (
        reads item.id
        ∙ rw
            (store-open_evidence marshal unmarshal incident at before after item db db' h a decodes)
            refl)
