-- ===== src/Feishu.antt =====
-- internal/feishu/client.go: the incident cards, and the calls of Feishu that show them. net/http,
-- encoding/json and the formatting of a float are parameters.
pub mod Answers
use umodel_sre_rca.Common.{
  ◌^◌, ◌&&◌, Result, ok, err, ◌==◌, ◌>>=◌, ◌>>◌, ◌*◌, Bool, List, Option, String, [], failure,
  false, if◌then◌else◌, leb, ltb, none, not, refuse_if, some, true, ◌||◌, ℕ, ◌∷◌, eqb,
}
use mathlib.Core.List.{◌++◌ as ◌++ᴸ◌}
use Prim.Native.String.{String, ◌++◌, len}
use Prim.Native.Char.{code}
use umodel_sre_rca.Common.Int.{ℤ, pos, negsuc}
use umodel_sre_rca.Domain.{Incident, RcaResult, empty_result, IncidentState}
use umodel_sre_rca.Analysis.{is_empty}
use umodel_sre_rca.Text.{join}
use umodel_sre_rca.Json.{Json, items, fields}

-- strings.TrimRight(s, "/")
unfoldable pub trim_slashes : String → String
trim_slashes String.[] = ""
trim_slashes (String.◌∷◌ c s) =
    let rest = trim_slashes s in if rest == "" && eqb (code c) b'/' then "" else String.◌∷◌ c rest

pub record Request : Type 0 where
  pub method : String
  pub url : String
  pub headers : List (String × String)
  pub body : String

pub record Response : Type 0 where
  pub status_code : ℕ
  pub body : String

-- What the three responses are decoded into; a missing field is zero.
pub record TokenResponse : Type 0 where
  pub code : ℤ
  pub tenant_access_token : String

pub record CreateResponse : Type 0 where
  pub code : ℤ
  pub message_id : String

-- http.Client.Do, json.Marshal, the decoders of at most that many bytes of a body, and "%.0f" of a
-- hundred times a confidence.
pub record Services : Type 0 where
  pub send : Request → Result Response
  pub marshal : Json → Option String
  pub decode_token : ℕ → String → Option TokenResponse
  pub decode_create : ℕ → String → Option CreateResponse
  pub decode_code : ℕ → String → Option ℤ
  pub percent : ℤ → String

pub record Client : Type 0 where
  pub base_url : String
  pub app_id : String
  pub app_secret : String
  pub chat_id : String
  pub http : Services

unfoldable pub new_client : String → String → String → String → Services → Client
unfolding trim_slashes
new_client base_url app_id app_secret chat_id http = record {
  base_url = trim_slashes base_url;
  app_id = app_id;
  app_secret = app_secret;
  chat_id = chat_id;
  http = http;
}

abbrev pub localized_state : IncidentState → String
localized_state IncidentState.received = "已接收"
localized_state IncidentState.investigating = "调查中"
localized_state IncidentState.awaiting_audit_event = "等待审计事件"
localized_state IncidentState.completed = "已完成"
localized_state IncidentState.failed = "调查失败"
localized_state IncidentState.recovered = "已恢复"

abbrev pub card_template : IncidentState → String
card_template IncidentState.completed = "green"
card_template IncidentState.failed = "red"
card_template IncidentState.recovered = "blue"
card_template _ = "orange"

-- {"tag": "div", "text": {"tag": "lark_md", "content": content}}
unfoldable pub div : String → Json
div content = Json.object (
    fields (
      ("tag", Json.text "div")
      ∷ (
        "text",
        Json.object (fields (("tag", Json.text "lark_md") ∷ ("content", Json.text content) ∷ [])),
      )
      ∷ []))

abbrev pub when : Bool → List Json → List Json
when b es = if b then es else []

abbrev pub max_card_bytes : ℕ
max_card_bytes = 30 * 1024

abbrev pub or_fail : {A : Type 0} → Option A → String → Result A
or_fail none text = err (failure text)
or_fail (some a) text = ok a

abbrev pub is_zero : ℤ → Bool
is_zero (pos n) = eqb n 0
is_zero (negsuc n) = false

module _ (s : Services) where
  unfoldable pub card_elements : Incident → RcaResult → List Json
  unfolding div join
  card_elements incident result =
      (div ("**事件**\n" ++ incident.id) ∷ div ("**状态**\n" ++ localized_state incident.state) ∷ [])
      ++ᴸ when (not (result.summary == "")) (
          div ("**结论**\n" ++ result.summary)
          ∷ div ("**置信度**\n" ++ s.percent result.confidence ++ "%")
          ∷ [])
      ++ᴸ when (not (is_empty result.evidence_ids))
          (div ("**证据引用**\n" ++ join result.evidence_ids ", ") ∷ [])
      ++ᴸ when (not (is_empty result.next_actions))
          (div ("**建议动作**\n- " ++ join result.next_actions "\n- ") ∷ [])

  unfoldable pub card : Incident → RcaResult → Json
  unfolding card_elements
  card incident result = Json.object (
      fields (
        ("config", Json.object (fields (("wide_screen_mode", Json.truth true) ∷ [])))
        ∷ (
          "header",
          Json.object (
              fields (
                (
                  "title",
                  Json.object (
                      fields (
                        ("tag", Json.text "plain_text")
                        ∷ ("content", Json.text ("SRE RCA · " ++ localized_state incident.state))
                        ∷ [])),
                )
                ∷ ("template", Json.text (card_template incident.state))
                ∷ [])),
        )
        ∷ ("elements", Json.array (items (card_elements incident result)))
        ∷ []))

  unfoldable pub render_incident_card : Incident → RcaResult → Result String
  unfolding card
  render_incident_card incident result = do
    raw ← or_fail (s.marshal (card incident result)) "marshal card"
    refuse_if (ltb max_card_bytes (len raw)) (failure "Feishu card is too large")
    ok raw

module _ (c : Client) where
  abbrev pub headers_of : String → List (String × String)
  headers_of token =
      ("Content-Type", "application/json; charset=utf-8")
      ∷ (if token == "" then [] else ("Authorization", "Bearer " ++ token) ∷ [])

  unfoldable pub do_json :
      {A : Type 0} → (ℕ → String → Option A) → String → String → String → Json → Result A
  do_json decode method path token body = do
    raw ← or_fail (c.http.marshal body) "marshal request"
    response ← c.http.send (record {
      method = method;
      url = c.base_url ++ path;
      headers = headers_of token;
      body = raw;
    })
    refuse_if (ltb response.status_code 200 || leb 300 response.status_code)
        (failure "Feishu returned an HTTP status")
    or_fail (decode (2 ^ 20) response.body) "decode Feishu response"

  unfoldable pub tenant_access_token : Result String
  unfolding do_json
  tenant_access_token = do
    response ← do_json c.http.decode_token "POST" "/auth/v3/tenant_access_token/internal" "" (
        Json.object
          (fields (("app_id", Json.text c.app_id) ∷ ("app_secret", Json.text c.app_secret) ∷ [])))
    refuse_if (not (is_zero response.code) || response.tenant_access_token == "")
        (failure "Feishu tenant token request failed")
    ok response.tenant_access_token

  unfoldable pub create_incident_card : Incident → Result String
  unfolding do_json tenant_access_token render_incident_card
  create_incident_card incident = do
    content ← render_incident_card c.http incident empty_result
    token ← tenant_access_token
    response ← do_json c.http.decode_create "POST" "/im/v1/messages?receive_id_type=chat_id" token (
        Json.object (
          fields (
            ("receive_id", Json.text c.chat_id)
            ∷ ("msg_type", Json.text "interactive")
            ∷ ("content", Json.text content)
            ∷ [])))
    refuse_if (not (is_zero response.code) || response.message_id == "")
        (failure "Feishu create message failed")
    ok response.message_id

  unfoldable pub update_incident_card : String → Incident → RcaResult → Result (Unit {0})
  unfolding do_json tenant_access_token render_incident_card
  update_incident_card message_id incident result = do
    refuse_if (message_id == "") (failure "Feishu message id is required")
    content ← render_incident_card c.http incident result
    token ← tenant_access_token
    code ← do_json c.http.decode_code "PATCH" ("/im/v1/messages/" ++ message_id) token (
        Json.object
          (fields (("msg_type", Json.text "interactive") ∷ ("content", Json.text content) ∷ [])))
    refuse_if (not (is_zero code)) (failure "Feishu update message failed")
