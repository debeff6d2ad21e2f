-- ===== src/Provider/LogRequests.antt =====
-- What the request of the log queries holds: its times, which are of 32 bits, and its query.
use umodel_sre_rca.Common.{
  ◌≡◌, ◌↔◌, ◌<◌, ◌^◌, refl, arith, ◌∷◌, [], some, ok, ◌==◌, ◌||◌, String, bound, both_pass, passes,
  from_ok, unrefused, subst, ap, sym, ◌∙◌, true, not,
}
use umodel_sre_rca.Common.Int.{ℤ, pos, negsuc}
use umodel_sre_rca.Analysis.{codes}
use umodel_sre_rca.Evidence.{Selectors, Window, look_up}
use umodel_sre_rca.Provider.Requests.{
  AliyunConfig, AliyunRequest, Value, to_int32, build_nginx_logs_request, required_selector,
  is_safe_selector, get_logs, logs_query, validate_selector_value,
}
use umodel_sre_rca.Provider.Client.{entry}
use umodel_sre_rca.Provider.Queries.{literals, logs_literals}

-- -2^31 ≤ n < 2^31
abbrev pub IsInt32 : ℤ → Type 0
IsInt32 (pos n) = n < 2 ^ 31
IsInt32 (negsuc n) = n < 2 ^ 31

to_int32_exact : (n : ℤ) → (to_int32 n ≡ n) ↔ IsInt32 n
unfolding to_int32
to_int32_exact (pos n) = ((λ e. ground arith), (λ h. ground arith))
to_int32_exact (negsuc n) = ((λ e. ground arith), (λ h. ground arith))

-- A time of the body is the given one exactly when it is of 32 bits.
time_exact : (n : ℤ) → (some (Value.int32 (to_int32 n)) ≡ some (Value.int32 n)) ↔ IsInt32 n
time_exact n =
    (λ e. (to_int32_exact n).0 (cc), λ h. ap (λ t. some (Value.int32 t)) ((to_int32_exact n).1 h))

selected :
    (s : Selectors) (name : String) {value : String}
    → required_selector s name ≡ ok value
    → (value ≡ look_up s name) × (is_safe_selector value ≡ true)
unfolding required_selector validate_selector_value
selected s name h =
    let (_, h1) = passes (look_up s name == "") _ _ h in
    let (safe, made) = both_pass (validate_selector_value (look_up s name)) _ h1 in
    (
      sym (from_ok made),
      ground
          (arith, unrefused (not (is_safe_selector (look_up s name))) _ safe, sym (from_ok made)),
    )

-- The body of a log query for a kind, the selectors and a window.
pub record IsLogBody (kind : String) (s : Selectors) (window : Window) (r : AliyunRequest)
    : Type 0 where
  pub from : (entry r.body "from" ≡ some (Value.int32 window.start)) ↔ IsInt32 window.start
  pub to : (entry r.body "to" ≡ some (Value.int32 window.end)) ↔ IsInt32 window.end
  pub query : String
  pub asks : entry r.body "query" ≡ some (Value.text query)
  pub literals :
      literals b'"' query
      ≡ codes "endpoint_id:"
        ∷ codes (look_up s "endpoint_id")
        ∷ codes " AND log_kind:"
        ∷ codes kind
        ∷ codes " AND instance_id:"
        ∷ codes (look_up s "instance_id")
        ∷ []
        ∷ []

holds_selectors :
    (config : AliyunConfig) (kind : String) (s : Selectors) (window : Window)
    (id instance_id : String)
    → is_safe_selector kind ≡ true
    → (id ≡ look_up s "endpoint_id") × (is_safe_selector id ≡ true)
    → (instance_id ≡ look_up s "instance_id") × (is_safe_selector instance_id ≡ true)
    → IsLogBody kind s window (get_logs config (logs_query id kind instance_id) window)
unfolding entry to_int32
holds_selectors config kind s window id instance_id safe (i, k) (j, l) = record {
  from = time_exact window.start;
  to = time_exact window.end;
  query = logs_query id kind instance_id;
  asks = refl;
  literals = logs_literals id kind instance_id k safe l ∙ rw (i, j) refl;
}

-- The request that BuildNginxLogsRequest makes for a safe kind of log: each of its two times is the
-- window's own exactly when that fits in 32 bits with a sign, so if it is before
-- 2038-01-19T03:14:08Z and not before 1901-12-13T20:45:52Z; and its query, cut at the quotes, has the
-- selectors of the endpoint and of the instance in their places, each whole and as it is.
pub build_nginx_logs_request-IsLogBody :
    (config : AliyunConfig) (kind : String) (s : Selectors) (window : Window) {r : AliyunRequest}
    → is_safe_selector kind ≡ true
    → build_nginx_logs_request config kind s window ≡ ok r
    → IsLogBody kind s window r
unfolding build_nginx_logs_request entry
build_nginx_logs_request-IsLogBody config kind s window safe h =
    let (id, e1, h1) = bound (required_selector s "endpoint_id") _ h in
    let (instance_id, e2, h2) = bound (required_selector s "instance_id") _ h1 in
    let (_, made) = passes (config.sls_project == "" || config.sls_logstore == "") _ _ h2 in
    subst (IsLogBody kind s window) (from_ok made) (
      holds_selectors config kind s window id instance_id safe (selected s "endpoint_id" e1)
        (selected s "instance_id" e2))
