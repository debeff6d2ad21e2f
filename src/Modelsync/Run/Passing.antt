-- ===== src/Modelsync/Run/Passing.antt =====
-- Plans for several endpoints pass the writer's checks.
use umodel_sre_rca.Common.{
  ◌≡◌, ◌==◌, ◌++◌, ◌∷◌, refl, ok, true, false, not, inl, inr, bound, passes, both_pass, List, [],
  Bool-cases, some, String,
}
use umodel_sre_rca.Modelsync.{
  entity_log_store, topo_log_store, Element, Endpoint, Plan, Relation, build_plan,
}
use umodel_sre_rca.Modelsync.Writer.{
  EntityStoreWrite, build_entity_store_writes, check_entities, check_relations, is_workspace,
  split_elements, entity_writes, relation_writes, is_relation_element, validate_entity_element,
  validate_relation_element,
}
use umodel_sre_rca.Modelsync.Accepted.{build_plan-Written}
use umodel_sre_rca.Modelsync.Sync.{Cms, check_endpoints}
use umodel_sre_rca.Modelsync.Run.{plan_all}

-- The elements pass the checks of the two batches that they are split into.
abbrev pub Passes : List Element → Type 0
Passes es =
    (check_entities (split_elements es).0 ≡ ok tt) × (check_relations (split_elements es).1 ≡ ok tt)

entities-append :
    (xs ys : List Element)
    → check_entities xs ≡ ok tt
    → check_entities ys ≡ ok tt
    → check_entities (xs ++ ys) ≡ ok tt
unfolding check_entities
entities-append [] ys h k = k
entities-append (x ∷ xs) ys h k =
    let (n, h1) = passes (is_relation_element x) _ _ h in
    let (v, h2) = both_pass (validate_entity_element x) _ h1 in
    rw (n, v) (entities-append xs ys h2 k)

relations-append :
    (xs ys : List Element)
    → check_relations xs ≡ ok tt
    → check_relations ys ≡ ok tt
    → check_relations (xs ++ ys) ≡ ok tt
unfolding check_relations
relations-append [] ys h k = k
relations-append (x ∷ xs) ys h k =
    let (n, h1) = passes (not (is_relation_element x)) _ _ h in
    let (v, h2) = both_pass (validate_relation_element x) _ h1 in
    rw (n, v) (relations-append xs ys h2 k)

split-append :
    (xs ys : List Element)
    → split_elements (xs ++ ys) ≡ (
      (split_elements xs).0 ++ (split_elements ys).0,
      (split_elements xs).1 ++ (split_elements ys).1,
    )
unfolding split_elements
split-append [] ys = refl
split-append (x ∷ xs) ys = elim (Bool-cases (is_relation_element x)) [
  | inl t ↦ rw (split-append xs ys, t) refl
  | inr f ↦ rw (split-append xs ys, f) refl
]

Passes-append : (xs ys : List Element) → Passes xs → Passes ys → Passes (xs ++ ys)
Passes-append xs ys (a, b) (c, d) =
    rw (split-append xs ys) (entities-append _ _ a c, relations-append _ _ b d)

-- A plan that can be written passes, and one that passes can be written.
written-Passes :
    (workspace : String) (es : List Element) {ws : List EntityStoreWrite}
    → build_entity_store_writes workspace (record { elements = es }) ≡ ok ws
    → Passes es
unfolding build_entity_store_writes check_entities check_relations
written-Passes workspace es h =
    let (_, h1) = passes (not (is_workspace workspace)) _ _ h in
    let (a, ha, h2) = bound (entity_writes workspace (split_elements es).0) _ h1 in
    let (b, hb, _) = bound (relation_writes workspace (split_elements es).1) _ h2 in
    (entities (split_elements es).0 ha, relations (split_elements es).1 hb)
  where
    entities :
        (xs : List Element) {a : List EntityStoreWrite}
        → entity_writes workspace xs ≡ ok a
        → check_entities xs ≡ ok tt
    entities [] h = refl
    entities (x ∷ xs) h = (both_pass (check_entities (x ∷ xs)) _ h).0

    relations :
        (xs : List Element) {a : List EntityStoreWrite}
        → relation_writes workspace xs ≡ ok a
        → check_relations xs ≡ ok tt
    relations [] h = refl
    relations (x ∷ xs) h = (both_pass (check_relations (x ∷ xs)) _ h).0

pub Passes-written :
    (workspace : String) (es : List Element)
    → is_workspace workspace ≡ true
    → Passes es
    → (ws : List EntityStoreWrite) × (build_entity_store_writes workspace (record { elements = es })
        ≡ ok ws)
unfolding build_entity_store_writes
Passes-written workspace es safe (a, b) =
    let (xs, ha) = entities (split_elements es).0 a in
    let (ys, hb) = relations (split_elements es).1 b in (xs ++ ys, rw (safe, ha, hb) refl)
  where
    entities :
        (xs : List Element)
        → check_entities xs ≡ ok tt
        → (a : List EntityStoreWrite) × (entity_writes workspace xs ≡ ok a)
    entities [] h = ([], refl)
    entities (x ∷ xs) h =
        (record { logstore = entity_log_store workspace; group = x ∷ xs } ∷ [], rw h refl)

    relations :
        (xs : List Element)
        → check_relations xs ≡ ok tt
        → (a : List EntityStoreWrite) × (relation_writes workspace xs ≡ ok a)
    relations [] h = ([], refl)
    relations (x ∷ xs) h =
        (record { logstore = topo_log_store workspace; group = x ∷ xs } ∷ [], rw h refl)

module _ (cms : Cms) (digest : (id : String) → (cms.entity_id id == "") ≡ false) where
  one_plan :
      (workspace : String) (e : Endpoint) (r : Relation) (plan : Plan)
      → is_workspace workspace ≡ true
      → build_plan cms.entity_id e r (some cms.now) ≡ ok plan
      → Passes plan.elements
  one_plan workspace e r plan safe h =
      let (t, _, w) =
        build_plan-Written cms.entity_id workspace e safe (digest e.endpoint_id) r (some cms.now)
          plan h in
      elim w [
        | inl (_, x) ↦ written-Passes workspace plan.elements x
        | inr (_, x) ↦ written-Passes workspace plan.elements x
      ]

  -- After the checks of LoadConfig, the plan is made, and it passes.
  pub planned :
      (workspace : String) (r : Relation) (es : List Endpoint)
      → is_workspace workspace ≡ true
      → check_endpoints cms r es ≡ ok tt
      → (elements : List Element) × (plan_all cms r es ≡ ok elements) × Passes elements
  unfolding check_endpoints plan_all split_elements check_entities check_relations
  planned workspace r [] safe h = ([], refl, (refl, refl))
  planned workspace r (e ∷ es) safe h =
      let (plan, made, h1) = bound (build_plan cms.entity_id e r (some cms.now)) _ h in
      let (rest, all, good) = planned workspace r es safe h1 in
      (
        plan.elements ++ rest,
        (rw made (rw all refl)),
        Passes-append plan.elements rest (one_plan workspace e r plan safe made) good,
      )
