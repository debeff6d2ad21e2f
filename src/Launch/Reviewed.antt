-- ===== src/Launch/Reviewed.antt =====
-- The reviewed bindings and the provider that answers them.
use umodel_sre_rca.Common.{
  ◌≡◌, ◌⊎◌, ◌==◌, ◌||◌, refl, ok, true, false, bound, inl, inr, arith, Bool, if◌then◌else◌, String,
  some, Within, subst, from_ok, sym, All-Within,
}
use umodel_sre_rca.Evidence.TextOrder.{same_test}
use umodel_sre_rca.Config.{Config, load_incident_bindings, new_incident_source}
use umodel_sre_rca.Evidence.{
  Binding, Service, Selectors, Window, load_registry, is_allowed_template, allowed_templates,
}
use umodel_sre_rca.Evidence.Allowed.{IsAllowed, load_registry-All}
use umodel_sre_rca.Analysis.{contains}
use umodel_sre_rca.Provider.Resolve.{
  Provider, resolve, resolve_template, resolve_context, resolve_topology_context, resolve_metrics,
  resolve_logs, resolve_changes,
}
use umodel_sre_rca.Launch.{
  Parts, new_evidence_service, provider_names, configured, new_aliyun_sdk_client, call,
}

-- One of the five queries answers.
abbrev pub IsDispatched : Provider → Binding → Selectors → Window → Type 0
IsDispatched p b s w =
    (resolve_template p b s w ≡ resolve_context p b s w)
    ⊎ (resolve_template p b s w ≡ resolve_topology_context p b s w)
    ⊎ (resolve_template p b s w ≡ resolve_metrics p b s w)
    ⊎ (resolve_template p b s w ≡ resolve_logs p b s w)
    ⊎ (resolve_template p b s w ≡ resolve_changes p b s w)

reviewed_name :
    (provider template : String)
    → is_allowed_template allowed_templates provider template ≡ true
    → contains provider_names provider ≡ true
unfolding is_allowed_template contains
reviewed_name provider template h = ground (arith, h)

-- The templates in the order of the switch.
implemented :
    (provider t : String)
    → is_allowed_template allowed_templates provider t ≡ true
    → ((t == "endpoint_context_v1")
        || ((t == "endpoint_topology_v1")
            || ((t == "availability_window_v1" || t == "ecs_normal_state_window_v1")
                || ((t == "nginx_access_by_window_v1" || t == "nginx_error_by_window_v1")
                    || t == "security_group_change_window_v1"))))
      ≡ true
unfolding is_allowed_template contains
implemented provider t h = ground (
  arith,
  h,
  same_test "endpoint_context_v1" t,
  same_test "endpoint_topology_v1" t,
  same_test "availability_window_v1" t,
  same_test "ecs_normal_state_window_v1" t,
  same_test "nginx_access_by_window_v1" t,
  same_test "nginx_error_by_window_v1" t,
  same_test "security_group_change_window_v1" t,
)

switch :
    {A : Type 0} (a b c d e : Bool) (v w x y z u : A)
    → (a || (b || (c || (d || e)))) ≡ true
    → let r =
        if a then v else if b then w else if c then x else if d then y else if e then z else u in
      (r ≡ v) ⊎ (r ≡ w) ⊎ (r ≡ x) ⊎ (r ≡ y) ⊎ (r ≡ z)
switch true b c d e v w x y z u h = inl refl
switch false true c d e v w x y z u h = inr (inl refl)
switch false false true d e v w x y z u h = inr (inr (inl refl))
switch false false false true e v w x y z u h = inr (inr (inr (inl refl)))
switch false false false false true v w x y z u h = inr (inr (inr (inr refl)))
switch false false false false false v w x y z u h = absurd (cc)

dispatches :
    (p : Provider) (b : Binding) (s : Selectors) (w : Window)
    → is_allowed_template allowed_templates b.provider b.query_template ≡ true
    → IsDispatched p b s w
unfolding resolve_template
dispatches p b s w h =
    let t = b.query_template in
    switch (t == "endpoint_context_v1") (t == "endpoint_topology_v1")
      (t == "availability_window_v1" || t == "ecs_normal_state_window_v1")
      (t == "nginx_access_by_window_v1" || t == "nginx_error_by_window_v1")
      (t == "security_group_change_window_v1") (resolve_context p b s w)
      (resolve_topology_context p b s w) (resolve_metrics p b s w) (resolve_logs p b s w)
      (resolve_changes p b s w) _ (implemented b.provider t h)

-- In the evidence service that the commands put together, every reviewed binding has the Alibaba Cloud
-- provider behind its provider's name, and one of the five queries of that provider answers its
-- template, whatever the selectors and the window: neither "provider is not configured" nor "template
-- is not implemented" can be the answer to a reviewed binding.
pub new_evidence_service-IsDispatched :
    (c : Config) (parts : Parts) {service : Service} (b : Binding) (s : Selectors) (w : Window)
    → new_evidence_service c parts ≡ ok service
    → Within b service.registry
    → (p : Provider) × (service.providers b.provider ≡ some (resolve p)) × IsDispatched p b s w
unfolding new_evidence_service
new_evidence_service-IsDispatched c parts {service} b s w h within =
    let (sdk, _, h1) =
      bound (new_aliyun_sdk_client parts.constructors c.region c.ecs_ram_role_name) _ h in
    let (bindings, _, h2) = bound parts.bindings_file _ h1 in
    let (registry, loaded, h3) = bound (load_registry bindings) _ h2 in
    let (incidents, _, h4) = bound (load_incident_bindings parts.incident_bindings_file) _ h3 in
    let (_, _, made) = bound (new_incident_source (some parts.incident_by_id) incidents) _ h4 in
    let p = configured c (call sdk) parts.libraries in
    let held = subst (λ k. Within b k.registry) (sym (from_ok made)) within in
    let allowed =
      (All-Within IsAllowed b registry (load_registry-All bindings registry loaded)
        held).template in
    (
      p,
      subst (λ k. k.providers b.provider ≡ some (resolve p)) (from_ok made)
          (rw (reviewed_name b.provider b.query_template allowed) refl),
      dispatches p b s w allowed,
    )
