-- ===== src/Modelsync/Run/Applied.antt =====
-- What sre-sync writes.
use umodel_sre_rca.Common.{
  ◌>>=◌, ◌∙◌, ap, ◌≡◌, ◌⊎◌, ◌==◌, ◌∷◌, refl, ok, err, Result, true, false, not, arith, inl, inr,
  passes, both_pass, from_ok, List, [], Bool, Bool-cases, if◌then◌else◌, some, String, Result-cases,
  subst,
}
use umodel_sre_rca.Common.Int.{ℤ}
use umodel_sre_rca.Modelsync.{Element, Endpoint}
use umodel_sre_rca.Modelsync.Writer.{EntityStoreWrite, build_entity_store_writes, is_workspace}
use umodel_sre_rca.Modelsync.Sync.{
  Cms, SyncConfig, load_config, upsert, check_endpoints, put_all, put_one, new_cms_writer, trimmed,
  has_no_endpoint,
}
use umodel_sre_rca.Modelsync.Run.{
  Flags, Report, run_flags, is_misused, on_config, run_sync, with_plan, plan_all, apply_plan,
  run_schema_inspection, run_relation_inspection, print, after_inspection, report_of,
}
use umodel_sre_rca.Modelsync.Run.Passing.{planned, Passes-written}

pick_then : {A : Type 0} (b : Bool) (x y : A) → b ≡ true → (if b then x else y) ≡ x
pick_then b x y h = rw h refl

pick_else : {A : Type 0} (b : Bool) (x y : A) → b ≡ false → (if b then x else y) ≡ y
pick_else b x y h = rw h refl

put_every :
    (cms : Cms) (workspace : String) (ws : List EntityStoreWrite)
    → ((w : EntityStoreWrite) → put_one cms workspace w ≡ ok tt)
    → put_all cms workspace ws ≡ (ws, ok tt)
unfolding put_all
put_every cms workspace [] puts = refl
put_every cms workspace (w ∷ ws) puts = rw (put_all, puts w, put_every cms workspace ws puts) refl

module _ (cms : Cms) (decimal : ℤ → String) (encode : Report → Result (Unit {0})) where
  prints :
      (report : Report) (ws : List EntityStoreWrite)
      → (print cms decimal encode report ws).written ≡ ws
  prints report ws = elim (Result-cases (encode report)) [
    | inl (e, h) ↦ rw (print, h) refl
    | inr (_, h) ↦ rw (print, h) refl
  ]

  inspected :
      (r : Result String) (report : String → Report)
      → (after_inspection cms decimal encode r report).written ≡ []
  inspected (err e) report = refl
  inspected (ok result) report = prints (report result) []

  inspected_relation :
      (c : SyncConfig) (es : List Endpoint)
      → (run_relation_inspection cms decimal encode c es).written ≡ []
  unfolding run_relation_inspection
  inspected_relation c [] = refl
  inspected_relation c (e ∷ []) = inspected _ _
  inspected_relation c (e ∷ k ∷ es) = refl

  dry :
      (f : Flags) (operation : String) (c : SyncConfig) (elements : Result (List Element))
      → f.apply ≡ false
      → (with_plan cms decimal encode f c operation elements).written ≡ []
  dry f operation c (err e) h = refl
  dry f operation c (ok es) h = rw h (prints _ [])

  applied :
      (c : SyncConfig) (operation : String) (elements : List Element) (ws : List EntityStoreWrite)
      → new_cms_writer cms c.region c.ecs_ram_role_name ≡ ok tt
      → build_entity_store_writes c.workspace (record { elements = elements }) ≡ ok ws
      → ((w : EntityStoreWrite) → put_one cms c.workspace w ≡ ok tt)
      → encode (report_of c operation "applied" elements) ≡ ok tt
      → apply_plan cms decimal encode c operation elements ≡ record {
        exit_code = 0;
        written = ws;
        report = some (report_of c operation "applied" elements);
      }
  unfolding apply_plan upsert
  applied c operation elements ws made writes puts shown =
      rw (apply_plan, made, upsert, writes, put_every cms c.workspace ws puts, print, shown) refl

  synced :
      (f : Flags) (c : SyncConfig)
      → f.apply ≡ false
      → (run_sync cms decimal encode f c).written ≡ []
  unfolding run_sync
  synced f c h = elim (Bool-cases (not (f.expire_relation_type == ""))) [
    | inl t ↦ rw t (dry f _ c _ h)
    | inr n ↦ rw n (dry f _ c _ h)
  ]

  -- What a run writes, by its flags and its configuration.
  configured :
      (f : Flags) (r : Result SyncConfig)
      → ((on_config cms decimal encode f r).written ≡ [])
        ⊎ ((f.apply ≡ true)
            × (f.inspect_schema ≡ false)
            × (f.inspect_relation ≡ false)
            × ((c : SyncConfig) × (r ≡ ok c)))
  unfolding run_schema_inspection run_sync
  configured f (err e) = inl refl
  configured f (ok c) = elim (Bool-cases f.inspect_schema) [
    | inl t ↦
        inl (rw t (inspected _ (λ result. Report.schema_inspection c.workspace c.region result)))
    | inr n ↦ elim (Bool-cases f.inspect_relation) [
      | inl t ↦ inl (rw (n, t) (inspected_relation c c.endpoints))
      | inr m ↦ elim (Bool-cases f.apply) [
        | inl t ↦ inr (t, n, m, (c, refl))
        | inr o ↦ inl (rw (n, m) (synced f c o))
      ]
    ]
  ]

  -- sre-sync writes nothing, unless its flags are no misuse, with --apply and without an inspection,
  -- and LoadConfig accepts its file: a misuse, a dry run, an inspection, and a file that LoadConfig
  -- refuses or that cannot be read each leave the entity store alone.
  pub run_flags-dry :
      (f : Flags) (file : Result SyncConfig)
      → ((run_flags cms decimal encode (some f) file).written ≡ [])
        ⊎ ((is_misused f ≡ false)
            × (f.apply ≡ true)
            × (f.inspect_schema ≡ false)
            × (f.inspect_relation ≡ false)
            × ((c : SyncConfig) × ((file >>= λ c. load_config cms c) ≡ ok c)))
  unfolding run_flags
  run_flags-dry f file = elim (Bool-cases (is_misused f)) [
    | inl t ↦ inl (rw t refl)
    | inr n ↦ elim (configured f (file >>= λ c. load_config cms c)) [
      | inl w ↦ inl (rw n w)
      | inr (t, a, b, c) ↦ inr (n, t, a, b, c)
    ]
  ]

  -- What LoadConfig has checked.
  accepted :
      (file c : SyncConfig)
      → load_config cms file ≡ ok c
      → (is_workspace c.workspace ≡ true) × (check_endpoints cms c.relation c.endpoints ≡ ok tt)
  unfolding load_config
  accepted file c h =
      let t = trimmed file in
      let (safe, h1) = passes (not (is_workspace t.workspace)) _ _ h in
      let (_, h2) = passes (t.region == "") _ _ h1 in
      let (_, h3) = passes (t.ecs_ram_role_name == "") _ _ h2 in
      let (_, h4) = passes (has_no_endpoint t.endpoints) _ _ h3 in
      let (checked, made) = both_pass (check_endpoints cms t.relation t.endpoints) _ h4 in
      subst
        (λ k.
          (is_workspace k.workspace ≡ true) × (check_endpoints cms k.relation k.endpoints ≡ ok tt))
        (from_ok made) (ground (arith, safe), checked)

  first_steps :
      (f : Flags) (file c : SyncConfig)
      → is_misused f ≡ false
      → load_config cms file ≡ ok c
      → run_flags cms decimal encode (some f) (ok file) ≡ on_config cms decimal encode f (ok c)
  unfolding run_flags
  first_steps f file c used loads = pick_else _ _ _ used ∙ ap (on_config cms decimal encode f) loads

  sync_run :
      (f : Flags) (c : SyncConfig) (elements : List Element) (ws : List EntityStoreWrite)
      → f.inspect_schema ≡ false
      → f.inspect_relation ≡ false
      → (f.expire_relation_type == "") ≡ true
      → f.apply ≡ true
      → plan_all cms c.relation c.endpoints ≡ ok elements
      → new_cms_writer cms c.region c.ecs_ram_role_name ≡ ok tt
      → build_entity_store_writes c.workspace (record { elements = elements }) ≡ ok ws
      → ((w : EntityStoreWrite) → put_one cms c.workspace w ≡ ok tt)
      → ((report : Report) → encode report ≡ ok tt)
      → on_config cms decimal encode f (ok c) ≡ record {
        exit_code = 0;
        written = ws;
        report = some (report_of c "sync" "applied" elements);
      }
  unfolding run_sync
  sync_run f c elements ws schema relation sync apply all made writes puts shown =
      pick_else _ _ _ schema
      ∙ (pick_else _ _ _ relation
          ∙ (pick_else _ _ _ (ap not sync)
              ∙ (ap (with_plan cms decimal encode f c "sync") all
                  ∙ (pick_then _ _ _ apply
                      ∙ (applied c "sync" elements ws made writes puts (shown _))))))

  -- With --apply and a file that LoadConfig accepts, whatever its endpoints and its relation are: if
  -- the client can be made, every PutLogs succeeds, the report can be printed, and a digest is never
  -- the empty text, then sre-sync exits with 0, and has put every batch of the plan: BuildPlan and the
  -- writer's checks refuse nothing that LoadConfig has accepted.
  pub run_flags-applies :
      (f : Flags) (file c : SyncConfig)
      → is_misused f ≡ false
      → f.apply ≡ true
      → f.inspect_schema ≡ false
      → f.inspect_relation ≡ false
      → (f.expire_relation_type == "") ≡ true
      → load_config cms file ≡ ok c
      → new_cms_writer cms c.region c.ecs_ram_role_name ≡ ok tt
      → ((w : EntityStoreWrite) → put_one cms c.workspace w ≡ ok tt)
      → ((report : Report) → encode report ≡ ok tt)
      → ((id : String) → (cms.entity_id id == "") ≡ false)
      → (elements : List Element) × (ws : List EntityStoreWrite) × (plan_all cms c.relation
            c.endpoints
          ≡ ok elements)
        × (build_entity_store_writes c.workspace (record { elements = elements }) ≡ ok ws)
        × ((run_flags cms decimal encode (some f) (ok file)).exit_code ≡ 0)
        × ((run_flags cms decimal encode (some f) (ok file)).written ≡ ws)
  run_flags-applies f file c used apply schema relation sync loads made puts shown digest =
      let (safe, checked) = accepted file c loads in
      let (elements, all, good) =
        planned cms digest c.workspace c.relation c.endpoints safe checked in
      let (ws, writes) = Passes-written c.workspace elements safe good in
      let done = sync_run f c elements ws schema relation sync apply all made writes puts shown in
      let whole = first_steps f file c used loads ∙ done in
      (elements, ws, all, writes, ap (λ o. o.exit_code) whole, ap (λ o. o.written) whole)
