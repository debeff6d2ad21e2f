-- ===== src/Provider/Summary.antt =====
-- internal/provider/aliyun.go: the summaries of metrics and access logs. encoding/json, ParseFloat,
-- fmt and the arithmetic of float64 are parameters; its order and its NaN are written out.
use umodel_sre_rca.Common.{
  ◌^◌, ◌*◌, ◌==◌, ◌&&◌, ◌+◌, Bool, List, Option, String, [], false, if◌then◌else◌, length, none,
  not, some, true, ℕ, ◌∷◌,
}
use Prim.Native.String.{◌++◌}
use umodel_sre_rca.Common.Int.{ℤ, pos, ltb_ℤ}

-- A float64: the finite ones count units of 2^-1074.
pub data Float : Type 0 where
  finite : ℤ → Float
  infinity minus_infinity nan : Float

-- a < b
abbrev pub lt_float : Float → Float → Bool
lt_float nan b = false
lt_float a nan = false
lt_float infinity b = false
lt_float minus_infinity minus_infinity = false
lt_float minus_infinity b = true
lt_float (finite m) (finite n) = ltb_ℤ m n
lt_float (finite m) infinity = true
lt_float (finite m) minus_infinity = false

-- a >= b
abbrev pub ge_float : Float → Float → Bool
ge_float nan b = false
ge_float a nan = false
ge_float a b = not (lt_float a b)

-- What `any` holds after decoding, as far as it is read.
pub data Any : Type 0 where
  number : Float → Any
  text : String → Any
  other : Any

-- float64(n) of an integer
abbrev pub units : ℕ → Float
units n = finite (pos (n * 2 ^ 1074))

-- The library calls. `cpu_body`, `nginx_body` and `data_points` are json.Unmarshal into the three
-- shapes; `none` is a failure to decode.
pub record Readings : Type 0 where
  pub cpu_body : String → Option (List (String × String))
  pub json_string : String → Option String
  pub data_points : String → Option (List (List (String × Any)))
  pub nginx_body : String → Option (List (List (String × Any)))
  pub parse_float : String → Option Float
  pub add : Float → Float → Float
  pub divide : Float → ℕ → Float
  pub two_digits : Float → String
  pub decimal : ℕ → String

-- m[key]; a missing key gives nil.
unfoldable pub value_at : List (String × Any) → String → Any
value_at [] key = Any.other
value_at ((k, v) ∷ entries) key = if k == key then v else value_at entries key

abbrev pub raw_at : List (String × String) → String → Option String
raw_at [] key = none
raw_at ((k, v) ∷ entries) key = if k == key then some v else raw_at entries key

-- The loops of `maximum` and `minimum` over values[1:], from values[0].
unfoldable pub maximum : Float → List Float → Float
maximum result [] = result
maximum result (v ∷ vs) = maximum (if lt_float result v then v else result) vs

unfoldable pub minimum : Float → List Float → Float
minimum result [] = result
minimum result (v ∷ vs) = minimum (if lt_float v result then v else result) vs

abbrev pub keep : Option Float → List Float → List Float
keep none rest = rest
keep (some x) rest = x ∷ rest

abbrev pub is_5xx : Option Float → Bool
is_5xx none = false
is_5xx (some status) = ge_float status (units 500) && lt_float status (units 600)

abbrev pub status_keys : List String
status_keys = "http_code" ∷ "status" ∷ "status_code" ∷ []

module _ (r : Readings) where
  unfoldable pub number_value : Any → Option Float
  number_value (Any.number x) = some x
  number_value (Any.text t) = r.parse_float t
  number_value Any.other = none

  -- The values of one aggregate, over all points.
  unfoldable pub aggregate : String → List (List (String × Any)) → List Float
  unfolding number_value value_at
  aggregate key [] = []
  aggregate key (p ∷ ps) = keep (number_value (value_at p key)) (aggregate key ps)

  unfoldable pub total : Float → List Float → Float
  total sum [] = sum
  total sum (v ∷ vs) = total (r.add sum v) vs

  unfoldable pub average : List Float → Float
  unfolding total
  average values = r.divide (total (finite (pos 0)) values) (length values)

  abbrev pub cpu_statistics : ℕ → List Float → List Float → List Float → String
  unfolding average maximum minimum
  cpu_statistics n (a ∷ as') (b ∷ bs) (c ∷ cs) =
      "云监控 ECS CPU："
      ++ r.decimal n
      ++ " 个数据点，平均值 "
      ++ r.two_digits (average (a ∷ as'))
      ++ "%，最大值 "
      ++ r.two_digits (maximum b bs)
      ++ "%，最小值 "
      ++ r.two_digits (minimum c cs)
      ++ "%"
  cpu_statistics n as' bs cs = "云监控 ECS CPU：" ++ r.decimal n ++ " 个数据点，缺少完整聚合值"

  abbrev pub summarize_points : Option (List (List (String × Any))) → String
  unfolding cpu_statistics aggregate
  summarize_points none = "云监控 ECS CPU：已读取时间窗数据，数据点格式无法解析"
  summarize_points (some []) = "云监控 ECS CPU：0 个数据点"
  summarize_points (some (p ∷ ps)) =
      cpu_statistics (length (p ∷ ps)) (aggregate "Average" (p ∷ ps)) (aggregate "Maximum" (p ∷ ps))
        (aggregate "Minimum" (p ∷ ps))

  abbrev pub summarize_encoded : Option String → String
  unfolding summarize_points
  summarize_encoded none = "云监控 ECS CPU：已读取时间窗数据，数据点格式无法解析"
  summarize_encoded (some encoded) = summarize_points (r.data_points encoded)

  abbrev pub summarize_field : Option String → String
  unfolding summarize_encoded
  summarize_field none = "云监控 ECS CPU：已读取时间窗数据，未返回数据点字段"
  summarize_field (some raw) = summarize_encoded (r.json_string raw)

  abbrev pub summarize_cpu_body : Option (List (String × String)) → String
  unfolding summarize_field
  summarize_cpu_body none = "云监控 ECS CPU：已读取时间窗数据，统计解析失败"
  summarize_cpu_body (some body) = summarize_field (raw_at body "Datapoints")

  unfoldable pub summarize_ecs_cpu : String → String
  unfolding summarize_cpu_body
  summarize_ecs_cpu raw = summarize_cpu_body (r.cpu_body raw)

  -- The inner loop, over the names of the status field.
  unfoldable pub entry_is_5xx : List (String × Any) → List String → Bool
  unfolding number_value value_at
  entry_is_5xx entry [] = false
  entry_is_5xx entry (key ∷ keys) =
      if is_5xx (number_value (value_at entry key)) then true else entry_is_5xx entry keys

  unfoldable pub count_5xx : List (List (String × Any)) → ℕ
  unfolding entry_is_5xx
  count_5xx [] = 0
  count_5xx (entry ∷ entries) =
      (if entry_is_5xx entry status_keys then 1 else 0) + count_5xx entries

  abbrev pub summarize_nginx_body : Option (List (List (String × Any))) → String
  unfolding count_5xx
  summarize_nginx_body none = "Nginx access 日志：已读取时间窗数据，统计解析失败"
  summarize_nginx_body (some entries) =
      "Nginx access 日志："
      ++ r.decimal (length entries)
      ++ " 条，5xx 响应 "
      ++ r.decimal (count_5xx entries)
      ++ " 条"

  unfoldable pub summarize_nginx_access : String → String
  unfolding summarize_nginx_body
  summarize_nginx_access raw = summarize_nginx_body (r.nginx_body raw)
