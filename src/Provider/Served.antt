-- ===== src/Provider/Served.antt =====
-- Resolve with SDKAliyunClient as its cloud.
use umodel_sre_rca.Common.{
  unrefused, from_ok, bound, err, ◌||◌, ◌∙◌, inr, inl, ◌==◌, ◌≡◌, refl, ok, Result, true, false,
  some, Option, [], ◌∷◌, if◌then◌else◌, subst, sym, eq_iff, Bool, either_false, passes, Error,
  Bool-cases, List, not, ℕ, arith, ap, both_pass,
}
use umodel_sre_rca.Common.Int.{ltb_ℤ, pos}
use umodel_sre_rca.Provider.Requests.{
  AliyunConfig, AliyunRequest, Formats, Value, build_action_trail_request, to_int32,
  build_entity_store_context_request, build_entity_store_topology_request, build_metrics_request,
  build_nginx_logs_request, validate_window, required_selector, validate_selector_value,
  context_query, topology_query, endpoint_entity_id, build_entity_store_request, get_logs,
  metric_list, metrics_region, is_zero_time, instance_metrics, probe_metrics,
}
use umodel_sre_rca.Provider.Client.{
  Sdk, call, entity_store_params, rpc_params, entry, call_rpc, call_sls, call_entity_store_data,
  build_entity_store_data_request,
}
use umodel_sre_rca.Provider.Resolve.{Provider, resolve}
use umodel_sre_rca.Provider.Asks.{Built, resolve-Built}
use umodel_sre_rca.Modelsync.Writer.{is_workspace}
use Prim.Native.String.{String, ◌++◌}
use Prim.Native.String.append
use umodel_sre_rca.Evidence.{Binding, Selectors, Window, look_up, is_allowed_template}
use umodel_sre_rca.Analysis.{contains, codes}

abbrev pub text_of : Option Value → String
text_of (some (Value.text t)) = t
text_of _ = ""

-- The call of the SDK that a request of Resolve stands for, without a check.
unfoldable pub sent : Sdk → AliyunConfig → Window → AliyunRequest → Result String
unfolding look_up entry
sent sdk config window r =
    if r.operation == "GetEntityStoreData"
    then sdk.cms (entity_store_params config.workspace) (record {
      query = [];
      body =
          ("from", Value.int64 window.start)
          ∷ ("to", Value.int64 window.end)
          ∷ ("query", Value.text (look_up r.query "Query"))
          ∷ [];
    })
    else if r.operation == "DescribeMetricList"
    then sdk.cms (rpc_params r.operation "2019-01-01") (record { query = r.query; body = [] })
    else if r.operation == "GetLogs"
    then sdk.get_logs config.sls_project config.sls_logstore (record {
      from = to_int32 window.start;
      to = to_int32 window.end;
      query = text_of (entry r.body "query");
      line = pos 100;
    })
    else sdk.action_trail (rpc_params r.operation "2020-07-06")
        (record { query = r.query; body = [] })

ordered : (w : Window) → validate_window w ≡ ok tt → ltb_ℤ w.start w.end ≡ true
unfolding validate_window
ordered w valid =
    negated (ltb_ℤ w.start w.end)
      (either_false (is_zero_time w.end) _
        (either_false (is_zero_time w.start) _ (unrefused _ _ valid)).1).1
  where
    negated : (b : Bool) → not b ≡ false → b ≡ true
    negated b h = ground arith

begun : (a b : String) → (a == "") ≡ false → ((a ++ b) == "") ≡ false
begun String.[] b h = absurd (cc)
begun (String.◌∷◌ c s) b h = elim (Bool-cases ((String.◌∷◌ c s ++ b) == "")) [
  | inl t ↦
      let e : String.◌∷◌ c s ++ b ≡ "" = (eq_iff _ "").0 t in
      absurd (no_empty (ap codes (sym (append.cons c s b) ∙ e)))
  | inr n ↦ n
]
  where
    no_empty : {d : ℕ} {cs : List ℕ} → (d ∷ cs) ≡ [] → ⊥
    no_empty h = cc

module _ (sdk : Sdk) (f : Formats) (config : AliyunConfig) (w : Window) where
  abbrev Served : AliyunRequest → Type 0
  Served r = call sdk r ≡ sent sdk config w r

  Served-from : {a r : AliyunRequest} → ok a ≡ ok r → Served a → Served r
  Served-from e h = subst Served (from_ok e) h

  Served-store :
      (query : String)
      → (query == "") ≡ false
      → is_workspace config.workspace ≡ true
      → sdk.parse_int (f.sprint w.start) ≡ some w.start
      → sdk.parse_int (f.sprint w.end) ≡ some w.end
      → ltb_ℤ w.start w.end ≡ true
      → Served (build_entity_store_request f config.workspace query w)
  unfolding call sent call_entity_store_data build_entity_store_data_request look_up
      is_allowed_template contains
  Served-store query given safe reads_start reads_end order =
      rw (safe, reads_start, reads_end, order, given) refl

  Served-metrics :
      (region : String) (target : List (String × String)) → Served (metric_list f w region target)
  unfolding call sent call_rpc is_allowed_template contains
  Served-metrics region target = refl

  Served-target :
      (s : Selectors) {r : AliyunRequest} → build_metrics_request f config s w ≡ ok r → Served r
  unfolding build_metrics_request
  Served-target s h =
      let region = metrics_region config s in
      let instance_id = look_up s "instance_id" in
      let probe = look_up s "probe_task_id" in
      let (_, made) = both_pass (validate_selector_value region) _ h in
      elim (Bool-cases (not (instance_id == ""))) [
        | inl t ↦
            Served-from (both_pass (validate_selector_value instance_id) _ (rw t at made)).1
              (Served-metrics region (instance_metrics instance_id))
        | inr n ↦ elim (Bool-cases (not (probe == ""))) [
          | inl t ↦
              Served-from (both_pass (validate_selector_value probe) _ (rw (n, t) at made)).1
                (Served-metrics region (probe_metrics probe))
          | inr m ↦ absurd (refused (rw (n, m) at made))
        ]
      ]
    where
      refused : {e : Error} {q : AliyunRequest} → err e ≡ ok q → ⊥
      refused h = cc

  Served-logs :
      (query : String)
      → (config.sls_project == "") ≡ false
      → (config.sls_logstore == "") ≡ false
      → Served (get_logs config query w)
  unfolding call sent call_sls is_allowed_template contains look_up entry to_int32
  Served-logs query project logstore = rw (project, logstore) refl

  Served-changes : (id : String) → Served (build_action_trail_request f id w)
  unfolding call sent call_rpc is_allowed_template contains build_action_trail_request
  Served-changes id = refl

module _ (sdk : Sdk) (f : Formats) (config : AliyunConfig) (s : Selectors) (w : Window)
    (safe : is_workspace config.workspace ≡ true)
    (reads_start : sdk.parse_int (f.sprint w.start) ≡ some w.start)
    (reads_end : sdk.parse_int (f.sprint w.end) ≡ some w.end)
    (order : ltb_ℤ w.start w.end ≡ true) where
  served : (r : AliyunRequest) → Built f config s w r → Served sdk f config w r
  unfolding build_entity_store_context_request build_entity_store_topology_request
      build_metrics_request build_nginx_logs_request context_query topology_query
  served r (Built.context id h) = Served-from sdk f config w (passes _ _ _ h).1 (
      Served-store sdk f config w (context_query id) (begun _ _ refl) safe reads_start reads_end
        order)
  served r (Built.topology id h) = Served-from sdk f config w (passes _ _ _ h).1 (
      Served-store sdk f config w (topology_query (endpoint_entity_id f id)) (begun _ _ refl) safe
        reads_start reads_end order)
  served r (Built.metrics h) = Served-target sdk f config w s h
  served r (Built.logs kind h) =
      let (endpoint_id, _, h1) = bound (required_selector s "endpoint_id") _ h in
      let (instance_id, _, h2) = bound (required_selector s "instance_id") _ h1 in
      let (given, made) = passes (config.sls_project == "" || config.sls_logstore == "") _ _ h2 in
      let (project, logstore) = either_false (config.sls_project == "") _ given in
      Served-from sdk f config w made (Served-logs sdk f config w _ project logstore)
  served r (Built.changes id) = Served-changes sdk f config w id

-- With SDKAliyunClient as its cloud, a workspace that the client finds safe, and times of the window
-- that ParseInt reads back as fmt.Sprint wrote them, Resolve gives what it gives when each of its
-- requests goes straight to the SDK: the allowlist and all other checks of the client let every
-- request of Resolve through, with the window's own times, cut to 32 bits only in the log queries.
pub resolve-sent :
    (p : Provider) (sdk : Sdk) (b : Binding) (s : Selectors) (w : Window)
    → is_workspace p.config.workspace ≡ true
    → sdk.parse_int (p.formats.sprint w.start) ≡ some w.start
    → sdk.parse_int (p.formats.sprint w.end) ≡ some w.end
    → resolve (record p { cloud = call sdk }) b s w
      ≡ resolve (record p { cloud = sent sdk p.config w }) b s w
resolve-sent p sdk b s w safe reads_start reads_end =
    resolve-Built (record p { cloud = call sdk }) (sent sdk p.config w) b s w
      λ valid. served sdk p.formats p.config s w safe reads_start reads_end (ordered w valid)
