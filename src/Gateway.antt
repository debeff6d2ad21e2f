-- ===== src/Gateway.antt =====
-- internal/httpapi/server.go: the handler of POST /v1/inbound/cloudmonitor; Server has the routes.
pub mod Repeats
pub mod Delivered
pub mod Stranded
pub mod Server
pub mod Authorized
use umodel_sre_rca.Common.{
  ◌&&◌, Result, ok, err, ◌==◌, ◌*◌, Bool, List, Option, String, failure, false, if◌then◌else◌,
  length, ltb, none, not, some, true, ◌||◌, ℕ,
}
use umodel_sre_rca.Domain.{Alert, Incident, RcaResult, new_incident, incident_key}
use umodel_sre_rca.Inbound.{
  CloudMonitorEvent, CloudMonitorPayload, Transition, parse_cloud_monitor_event,
}
use umodel_sre_rca.Schedule.{W, Codecs, attempt, give, repo}
use umodel_sre_rca.Store.Intake.{create_or_get_incident, enqueue, recover}
use umodel_sre_rca.Worker.Run.{recovery_result}

-- A request: the `token` of its query and its body, which may break off while it is read.
pub record Request : Type 0 where
  pub token : String
  pub body : List ℕ
  pub is_cut_short : Bool

-- What is written to the client; `accepted_incident` carries the incident's id and `duplicate`.
pub data Reply : Type 0 where
  unauthorized : Reply
  bad_request : String → Reply
  server_error : String → Reply
  recovery_ignored recovery_accepted : Reply
  accepted_incident : String → Bool → Reply

abbrev pub status_code : Reply → ℕ
status_code Reply.unauthorized = 401
status_code (Reply.bad_request text) = 400
status_code (Reply.server_error text) = 500
status_code Reply.recovery_ignored = 202
status_code Reply.recovery_accepted = 202
status_code (Reply.accepted_incident id duplicate) = 202

-- The arguments of the gateway, and what one request draws: the clock and the two random
-- identifiers. `notify` is the RecoveryNotifier, which may be nil.
pub record Gate : Type 0 where
  pub callback_token : String
  pub now : ℕ
  pub incident_id : String
  pub job_id : String
  pub notify : Option (String → Incident → RcaResult → Result (Unit {0}))
  pub decode : List ℕ → Option CloudMonitorPayload
  pub parse_time : String → String → Option ℕ
  pub codecs : Codecs

abbrev pub max_callback_bytes : ℕ
max_callback_bytes = 256 * 1024

-- http.MaxBytesReader refuses a body of more bytes.
unfoldable pub read_body : Request → Result (List ℕ)
read_body r =
    if r.is_cut_short || ltb max_callback_bytes (length r.body)
    then err (failure "read callback body")
    else ok r.body

module _ (gate : Gate) where
  abbrev pub answer : Reply → W Reply
  answer reply = give (ok reply)

  -- subtle.ConstantTimeCompare: the tokens are equal.
  abbrev pub authorized : Request → Bool
  authorized r = r.token == gate.callback_token

  -- The card of a recovered incident says so.
  abbrev pub announce :
      Option (String → Incident → RcaResult → Result (Unit {0})) → Incident → Result (Unit {0})
  announce none incident = ok tt
  announce (some update) incident =
      if incident.feishu_message_id == ""
      then ok tt
      else update incident.feishu_message_id incident recovery_result

  -- `none` is an incident of empty fields.
  abbrev pub answer_recovery : Option Incident × Bool → W Reply
  answer_recovery (none, recovered) =
      if not recovered then answer Reply.recovery_ignored else answer Reply.recovery_accepted
  answer_recovery (some incident, recovered) =
      if not recovered && incident.id == ""
      then answer Reply.recovery_ignored
      else attempt (give (announce gate.notify incident))
          (λ _. answer (Reply.server_error "notify recovery")) (λ _. answer Reply.recovery_accepted)

  unfoldable pub on_recovered : Alert → W Reply
  unfolding new_incident
  on_recovered alert =
      let key =
        (new_incident gate.incident_id gate.now alert.workspace alert.rule_id alert.resource_id
          alert.event_at).key in
      attempt (repo gate.codecs (recover key alert.event_at))
        (λ _. answer (Reply.server_error "persist recovery")) answer_recovery

  unfoldable pub on_occurred : Alert → W Reply
  on_occurred alert =
      attempt
        (repo gate.codecs (
          create_or_get_incident (
            new_incident gate.incident_id gate.now alert.workspace alert.rule_id alert.resource_id
              alert.event_at)))
        (λ _. answer (Reply.server_error "persist incident"))
        λ got.
          if got.1
          then attempt (repo gate.codecs (enqueue gate.job_id got.0.id alert.event_at))
              (λ _. answer (Reply.server_error "queue incident"))
              (λ _. answer (Reply.accepted_incident got.0.id false))
          else answer (Reply.accepted_incident got.0.id true)

  abbrev pub on_event : CloudMonitorEvent → W Reply
  on_event event = elim event.transition [
    | Transition.recovered ↦ on_recovered event.alert
    | Transition.occurred ↦ on_occurred event.alert
  ]

  unfoldable pub cloud_monitor_ingress : Request → W Reply
  unfolding read_body on_recovered on_occurred
  cloud_monitor_ingress r =
      if not (authorized r)
      then answer Reply.unauthorized
      else attempt (give (read_body r)) (λ _. answer (Reply.bad_request "read callback body"))
          λ raw.
            attempt (give (parse_cloud_monitor_event gate.decode gate.parse_time raw))
              (λ _. answer (Reply.bad_request "invalid CloudMonitor callback")) on_event
