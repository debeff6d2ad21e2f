-- ===== src/Provider/Asks.antt =====
-- Which requests Resolve asks its cloud for.
use umodel_sre_rca.Common.{◌>>=◌, ◌≡◌, refl, ok, Result, String, err}
use umodel_sre_rca.Provider.Requests.{
  AliyunConfig, AliyunRequest, Formats, build_action_trail_request,
  build_entity_store_context_request, build_entity_store_topology_request, build_metrics_request,
  build_nginx_logs_request, required_selector, validate_window,
}
use umodel_sre_rca.Evidence.{Binding, Selectors, Window}
use umodel_sre_rca.Provider.Resolve.{
  Provider, resolve, resolve_context, resolve_topology_context, resolve_metrics, resolve_logs,
  resolve_changes, resolve_template, log_kind, validate_selectors,
}

module _ (f : Formats) (config : AliyunConfig) (selectors : Selectors) (window : Window) where
  -- The requests that the builders make.
  pub data Built : AliyunRequest → Type 0 where
    context :
        (id : String) {r : AliyunRequest}
        → build_entity_store_context_request f config id window ≡ ok r
        → Built r
    topology :
        (id : String) {r : AliyunRequest}
        → build_entity_store_topology_request f config id window ≡ ok r
        → Built r
    metrics : {r : AliyunRequest} → build_metrics_request f config selectors window ≡ ok r → Built r
    logs :
        (kind : String) {r : AliyunRequest}
        → build_nginx_logs_request config kind selectors window ≡ ok r
        → Built r
    changes : (id : String) → Built (build_action_trail_request f id window)

same_after :
    {A B : Type 0} (m : Result A) (g h : A → Result B)
    → ((a : A) → m ≡ ok a → g a ≡ h a)
    → (m >>= g) ≡ (m >>= h)
same_after (ok a) g h e = e a refl
same_after (err x) g h e = refl

module _ (p : Provider) (cloud : AliyunRequest → Result String) (b : Binding) (s : Selectors)
    (w : Window) where
  abbrev other : Provider
  other = record p { cloud = cloud }

  abbrev Agree : Type 0
  Agree = (r : AliyunRequest) → Built p.formats p.config s w r → p.cloud r ≡ cloud r

  same_context : Agree → resolve_context p b s w ≡ resolve_context other b s w
  unfolding resolve_context
  same_context agree = same_after (required_selector s "endpoint_id") _ _ λ id _.
      same_after (build_entity_store_context_request p.formats p.config id w) _ _
        λ r h. rw (agree r (Built.context id h)) refl

  same_topology : Agree → resolve_topology_context p b s w ≡ resolve_topology_context other b s w
  unfolding resolve_topology_context
  same_topology agree = same_after (required_selector s "endpoint_id") _ _ λ id _.
      same_after (build_entity_store_topology_request p.formats p.config id w) _ _
        λ r h. rw (agree r (Built.topology id h)) refl

  same_metrics : Agree → resolve_metrics p b s w ≡ resolve_metrics other b s w
  unfolding resolve_metrics
  same_metrics agree =
      same_after (build_metrics_request p.formats p.config s w) _ _
        λ r h. rw (agree r (Built.metrics h)) refl

  same_logs : Agree → resolve_logs p b s w ≡ resolve_logs other b s w
  unfolding resolve_logs
  same_logs agree = same_after (log_kind b.query_template) _ _ λ kind _.
      same_after (build_nginx_logs_request p.config kind s w) _ _
        λ r h. rw (agree r (Built.logs kind h)) refl

  same_changes : Agree → resolve_changes p b s w ≡ resolve_changes other b s w
  unfolding resolve_changes
  same_changes agree =
      same_after (required_selector s "security_group_id") _ _
        λ id _. rw (agree _ (Built.changes id)) refl

  same_template : Agree → resolve_template p b s w ≡ resolve_template other b s w
  unfolding resolve_template
  same_template agree =
      rw
        (
          same_context agree,
          same_topology agree,
          same_metrics agree,
          same_logs agree,
          same_changes agree,
        )
        refl

  -- Resolve asks the cloud only for what the builders make of a valid window: two clouds that agree
  -- on such requests give the same evidence.
  pub resolve-Built : (validate_window w ≡ ok tt → Agree) → resolve p b s w ≡ resolve other b s w
  unfolding resolve
  resolve-Built agree =
      same_after (validate_window w) _ _
        λ _ valid. same_after (validate_selectors s) _ _ λ _ _. same_template (agree valid)
