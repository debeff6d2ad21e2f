-- ===== src/Modelsync/Accepted.antt =====
-- The plans that BuildPlan makes pass the writer's checks.
use umodel_sre_rca.Common.{
  passes, if◌then◌else◌, not, ◌||◌, Result, Option, none, some, ◌⊎◌, err, failure, ok, ◌==◌, ◌≡◌,
  refl, [], ◌∷◌, true, false, String, Bool-cases, inl, inr, eq_iff, subst, arith,
}
use umodel_sre_rca.Common.Int.{ℤ}
use umodel_sre_rca.Analysis.{is_blank}
use umodel_sre_rca.Modelsync.{
  Relation, Plan, add_relation, build_plan, is_safe_relation_type, or_default, Endpoint, Element,
  endpoint_element, relation_element, entity_log_store, topo_log_store,
}
use umodel_sre_rca.Modelsync.Writer.{
  EntityStoreWrite, build_entity_store_writes, is_workspace, field, split_elements, check_entities,
  check_relations, validate_entity_element, validate_relation_element, require_fields,
}

not_empty : (s : String) → is_blank s ≡ false → (s == "") ≡ false
unfolding is_blank
not_empty s h = elim (Bool-cases (s == "")) [
  | inr f ↦ f
  | inl t ↦
      let e = (eq_iff s "").0 t in
      let f : is_blank "" ≡ false = subst (λ z. is_blank z ≡ false) e h in absurd (cc)
]

module _ (entity_id : String → String) (workspace : String) (e : Endpoint) where
  abbrev entity : ℤ → Element
  entity at = endpoint_element entity_id e at

  abbrev link : String → ℤ → Element
  link type at = relation_element entity_id e type at

  abbrev entity_batch : ℤ → EntityStoreWrite
  entity_batch at = record { logstore = entity_log_store workspace; group = entity at ∷ [] }

  abbrev link_batch : String → ℤ → EntityStoreWrite
  link_batch type at = record { logstore = topo_log_store workspace; group = link type at ∷ [] }

  abbrev planned : Relation → ℤ → Result Plan
  planned r t =
      if is_blank r.type
      then ok (record { elements = entity t ∷ [] })
      else add_relation entity_id e r t

  -- What a planned relation is written as.
  abbrev pub Written : Relation → ℤ → Plan → Type 0
  Written r t plan =
      ((is_blank r.type ≡ true)
        × (build_entity_store_writes workspace plan ≡ ok (entity_batch t ∷ [])))
      ⊎ ((is_blank r.type ≡ false)
          × (build_entity_store_writes workspace plan
              ≡ ok (entity_batch t ∷ link_batch r.type t ∷ [])))

  module _ (safe : is_workspace workspace ≡ true)
      (digest : (entity_id e.endpoint_id == "") ≡ false) where
    writes_entity :
        (at : ℤ)
        → build_entity_store_writes workspace (record { elements = entity at ∷ [] })
          ≡ ok (entity_batch at ∷ [])
    unfolding build_entity_store_writes split_elements check_entities validate_entity_element
        require_fields field endpoint_element
    writes_entity at = rw (safe, digest) refl

    writes_both :
        (type : String) (at : ℤ)
        → (e.ecs_entity_id == "") ≡ false
        → (type == "") ≡ false
        → build_entity_store_writes workspace (record { elements = entity at ∷ link type at ∷ [] })
          ≡ ok (entity_batch at ∷ link_batch type at ∷ [])
    unfolding build_entity_store_writes split_elements check_entities check_relations
        validate_entity_element validate_relation_element require_fields field endpoint_element
        relation_element
    writes_both type at f g = rw (safe, digest, f, g) refl

    written_link :
        (r : Relation) (t : ℤ) (plan : Plan)
        → (e.ecs_entity_id == "") ≡ false
        → is_blank r.type ≡ false
        → add_relation entity_id e r t ≡ ok plan
        → Written r t plan
    unfolding add_relation
    written_link r t plan f g h =
        let (_, h1) = passes (not (is_safe_relation_type r.type)) _ _ h in
        let (_, h2) =
          passes
            (not (or_default r.destination_domain "acs" == "acs")
              || not
                  (or_default r.destination_entity_type "acs.ecs.instance" == "acs.ecs.instance"))
            _ (ok (record { elements = entity t ∷ link r.type t ∷ [] })) h1 in
        let same : ◌≡◌ {A = Plan} (record { elements = entity t ∷ link r.type t ∷ [] }) plan =
          ground arith in
        inr (
          g,
          subst
              (λ p.
                build_entity_store_writes workspace p
                ≡ ok (entity_batch t ∷ link_batch r.type t ∷ []))
              same (writes_both r.type t f (not_empty r.type g)),
        )

    written :
        (r : Relation) (t : ℤ) (plan : Plan)
        → (e.ecs_entity_id == "") ≡ false
        → planned r t ≡ ok plan
        → Written r t plan
    written r t plan f h = elim (Bool-cases (is_blank r.type)) [
      | inr g ↦ written_link r t plan f g (rw g at h)
      | inl g ↦
          let h' : ok (record { elements = entity t ∷ [] }) ≡ ok plan = rw g at h in
          let same : ◌≡◌ {A = Plan} (record { elements = entity t ∷ [] }) plan = ground arith in
          inl (
            g,
            subst (λ p. build_entity_store_writes workspace p ≡ ok (entity_batch t ∷ [])) same
                (writes_entity t),
          )
    ]

    -- For a safe workspace, and a digest that is not the empty text: whatever plan BuildPlan makes, at
    -- a time that is then given, is written without an error. The endpoint goes to the workspace's
    -- entity log store and, when a relation type is given and only then, the relation to the ECS
    -- instance goes to its topology log store; nothing else is written.
    pub build_plan-Written :
        (r : Relation) (observed_at : Option ℤ) (plan : Plan)
        → build_plan entity_id e r observed_at ≡ ok plan
        → (t : ℤ) × (observed_at ≡ some t) × Written r t plan
    unfolding build_plan
    build_plan-Written r none plan h =
        let (_, h1) = passes (is_blank e.endpoint_id) _ _ h in
        let (_, h2) = passes (is_blank e.service_name) _ _ h1 in
        let (_, h3) =
          passes (is_blank e.ecs_entity_id) _ (err (failure "observed time is required")) h2 in
        absurd (cc)
    build_plan-Written r (some t) plan h =
        let (_, h1) = passes (is_blank e.endpoint_id) _ _ h in
        let (_, h2) = passes (is_blank e.service_name) _ _ h1 in
        let (named, h3) = passes (is_blank e.ecs_entity_id) _ (planned r t) h2 in
        (t, refl, written r t plan (not_empty e.ecs_entity_id named) h3)
