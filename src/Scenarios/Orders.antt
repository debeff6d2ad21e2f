-- ===== src/Scenarios/Orders.antt =====
-- Two bindings, in either order.
use mathlib.Core.List.Perm
use umodel_sre_rca.Evidence.{
  Binding, EvidenceClass, check_mapping, is_allowed_template, load_registry, register_all, resolve,
  validate_binding,
}
use umodel_sre_rca.Common.{[], exists_where, ok, refl, ◌∷◌, ◌≡◌}
use umodel_sre_rca.Analysis.{contains}
use umodel_sre_rca.Scenarios.Cloud.{cpu_binding}
use umodel_sre_rca.Evidence.Reordered.{load_registry-perm}
use umodel_sre_rca.Scenarios.Opened.{service}

abbrev first_binding : Binding
first_binding = record cpu_binding { id = "a-first" }

load_registry-perm_example :
    (load_registry (first_binding ∷ cpu_binding ∷ []) ≡ ok (first_binding ∷ cpu_binding ∷ []))
    × (resolve
          (record service { registry = cpu_binding ∷ first_binding ∷ [] })
          EvidenceClass.metrics_class
          "i1"
        ≡ resolve
            (record service { registry = first_binding ∷ cpu_binding ∷ [] })
            EvidenceClass.metrics_class
            "i1")
unfolding load_registry register_all validate_binding check_mapping is_allowed_template contains
    exists_where
load_registry-perm_example =
    load_registry-perm service EvidenceClass.metrics_class "i1" (cpu_binding ∷ first_binding ∷ [])
      (first_binding ∷ cpu_binding ∷ []) (cpu_binding ∷ first_binding ∷ [])
      (Perm.swap first_binding cpu_binding []) refl
