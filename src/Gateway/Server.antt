-- ===== src/Gateway/Server.antt =====
-- internal/httpapi/server.go: the routes of the gateway, and the handler that stores fixtures. Which
-- pattern of net/http's ServeMux a request fits is written out; one that fits none is not routed.
use umodel_sre_rca.Common.{
  Result, ok, err, Error, ◌==◌, ◌&&◌, ◌||◌, Bool, List, String, if◌then◌else◌, not, ℕ,
}
use umodel_sre_rca.Schedule.{World}
use umodel_sre_rca.Gateway.{Gate, Reply, Request, authorized, cloud_monitor_ingress, read_body}
use umodel_sre_rca.Inbound.Capture.{Files, Surroundings, save}

pub record HttpRequest : Type 0 where
  pub method : String
  pub path : String
  pub request : Request

-- The arguments of `newGateway`, without the repository if it is nil, and what the capture needs of its
-- surroundings; `text` is the text that the bytes of a body are.
pub record Server : Type 0 where
  pub gate : Gate
  pub has_repository : Bool
  pub capture_dir : String
  pub surroundings : Surroundings
  pub text : List ℕ → String

pub data Answer : Type 0 where
  healthy not_routed : Answer
  replied : Result Reply → Answer
  fixture : String → Answer
  not_captured : Error → Answer

-- What the gateway changes: the database that it shares, and the captured files.
pub record State : Type 0 where
  pub world : World
  pub files : Files

-- "GET" fits HEAD as well.
abbrev pub is_get : String → Bool
is_get method = method == "GET" || method == "HEAD"

abbrev pub fits_health : HttpRequest → Bool
fits_health r = is_get r.method && r.path == "/healthz"

abbrev pub fits_ingress : HttpRequest → Bool
fits_ingress r = r.method == "POST" && r.path == "/v1/inbound/cloudmonitor"

abbrev pub fits_capture : HttpRequest → Bool
fits_capture r = r.method == "POST" && r.path == "/v1/inbound/cloudmonitor/capture"

module _ (s : Server) where
  abbrev pub after_save : World → Result String × Files → Answer × State
  after_save w (err e, files) = (Answer.not_captured e, record { world = w; files = files })
  after_save w (ok id, files) = (Answer.fixture id, record { world = w; files = files })

  abbrev pub capture_body : Result (List ℕ) → State → Answer × State
  capture_body (err e) st = (Answer.replied (ok (Reply.bad_request "read callback body")), st)
  capture_body (ok raw) st =
      after_save st.world (save s.surroundings s.capture_dir (s.text raw) st.files)

  unfoldable pub capture : Request → State → Answer × State
  capture r st =
      if not (authorized s.gate r)
      then (Answer.replied (ok Reply.unauthorized), st)
      else capture_body (read_body r) st

  abbrev pub ingress : Request → State → Answer × State
  ingress r st =
      let done = cloud_monitor_ingress s.gate r st.world in
      (Answer.replied done.0, record st { world = done.1 })

  unfoldable pub serve : HttpRequest → State → Answer × State
  serve r st =
      if fits_health r
      then (Answer.healthy, st)
      else if s.has_repository && fits_ingress r
      then ingress r.request st
      else if not (s.capture_dir == "") && fits_capture r
      then capture r.request st
      else (Answer.not_routed, st)
