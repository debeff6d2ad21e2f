-- ===== src/Launch/Serving.antt =====
-- cmd/sre-gateway/main.go: how the gateway is put together, the requests that it answers, and how it
-- ends. net/http is a parameter: which events there are, and what ListenAndServe and Shutdown return.
use umodel_sre_rca.Feishu
use umodel_sre_rca.Gateway.Server.{Answer, HttpRequest, Server, State, serve}
use umodel_sre_rca.Feishu.{Client, Services}
use umodel_sre_rca.Inbound.{CloudMonitorPayload}
use umodel_sre_rca.Schedule.{Codecs}
use umodel_sre_rca.Config.{Config, load}
use umodel_sre_rca.Common.{
  ◌>>=◌, ◌>>◌, Error, List, Option, Result, String, [], err, failure, none, ok, some, true, ℕ, ◌∷◌,
}
use umodel_sre_rca.Domain.{Incident, RcaResult}
use umodel_sre_rca.Inbound.Capture.{Surroundings}
use umodel_sre_rca.Launch.{new_gateway_notifier, validate_gateway_config}

-- What one request draws: the clock, the two random identifiers, and what a capture needs of its
-- surroundings.
pub record Drawn : Type 0 where
  pub now : ℕ
  pub incident_id : String
  pub job_id : String
  pub surroundings : Surroundings

-- The functions of libraries that the handlers call.
pub record Libraries : Type 0 where
  pub decode : List ℕ → Option CloudMonitorPayload
  pub parse_time : String → String → Option ℕ
  pub text : List ℕ → String
  pub codecs : Codecs

abbrev pub notify_of : Option Client → Option (String → Incident → RcaResult → Result (Unit {0}))
notify_of none = none
notify_of (some client) = some (Feishu.update_incident_card client)

unfoldable pub new_gateway_handler : Libraries → Config → Option Client → Drawn → Server
new_gateway_handler l c notifier d = record {
  gate = record {
    callback_token = c.callback_token;
    now = d.now;
    incident_id = d.incident_id;
    job_id = d.job_id;
    notify = notify_of notifier;
    decode = l.decode;
    parse_time = l.parse_time;
    codecs = l.codecs;
  };
  has_repository = true;
  capture_dir = c.callback_capture_dir;
  surroundings = d.surroundings;
  text = l.text;
}

-- http.Server, with its timeouts in seconds.
pub record HttpServer : Type 0 where
  pub addr : String
  pub handler : Drawn → Server
  pub read_header_timeout : ℕ
  pub read_timeout : ℕ
  pub write_timeout : ℕ
  pub idle_timeout : ℕ

unfoldable pub new_gateway_server : String → (Drawn → Server) → HttpServer
new_gateway_server addr handler = record {
  addr = addr;
  handler = handler;
  read_header_timeout = 10;
  read_timeout = 30;
  write_timeout = 30;
  idle_timeout = 60;
}

-- What ListenAndServe returns: nothing, http.ErrServerClosed, or another error.
pub data Served : Type 0 where
  no_error server_closed : Served
  fault : Error → Served

-- In the order in which they come: a request, the end of ListenAndServe before any signal, and a
-- signal, with what Shutdown returns and what ListenAndServe returns then.
pub data GatewayEvent : Type 0 where
  arrives : Drawn → HttpRequest → GatewayEvent
  breaks : Served → GatewayEvent
  signalled : Result (Unit {0}) → Served → GatewayEvent

-- errors.Is(nil, …) is false, so `no_error` is answered with an error.
abbrev pub after_break : Served → Result (Unit {0})
after_break Served.no_error = err (failure "serve gateway")
after_break Served.server_closed = ok tt
after_break (Served.fault e) = err e

abbrev pub after_shutdown : Served → Result (Unit {0})
after_shutdown Served.no_error = ok tt
after_shutdown Served.server_closed = ok tt
after_shutdown (Served.fault e) = err e

-- `result` is none while the gateway serves. Errors stand for themselves, without the text that
-- fmt.Errorf puts before them.
pub record Serving : Type 0 where
  pub result : Option (Result (Unit {0}))
  pub answers : List Answer
  pub state : State

abbrev pub answered : Answer → Serving → Serving
answered a s = record s { answers = a ∷ s.answers }

unfoldable pub serve_gateway : HttpServer → List GatewayEvent → State → Serving
unfolding serve
serve_gateway h [] st = record { result = none; answers = []; state = st }
serve_gateway h (GatewayEvent.arrives d r ∷ events) st =
    answered (serve (h.handler d) r st).0 (serve_gateway h events (serve (h.handler d) r st).1)
serve_gateway h (GatewayEvent.breaks e ∷ events) st = record {
  result = some (after_break e);
  answers = [];
  state = st;
}
serve_gateway h (GatewayEvent.signalled shutdown e ∷ events) st = record {
  result = some (shutdown >> after_shutdown e);
  answers = [];
  state = st;
}

abbrev pub serving :
    State
    → (HttpServer → List GatewayEvent → State → Serving)
    → List GatewayEvent
    → Result HttpServer
    → Serving
serving st run events (err e) = record { result = some (err e); answers = []; state = st }
serving st run events (ok h) = run h events st

-- `run` up to the server.
unfoldable pub start_gateway :
    Libraries → Services → Result Config → (String → Result (Unit {0})) → Result HttpServer
unfolding load validate_gateway_config new_gateway_notifier new_gateway_handler new_gateway_server
start_gateway l http file open_state_db = do
  decoded ← file
  c ← load decoded
  validate_gateway_config c
  open_state_db c.state_db
  ok (new_gateway_server c.listen_addr (new_gateway_handler l c (new_gateway_notifier c http)))

unfoldable pub run_gateway :
    Libraries
    → Services
    → Result Config
    → (String → Result (Unit {0}))
    → List GatewayEvent
    → State
    → Serving
unfolding start_gateway serve_gateway
run_gateway l http file open_state_db events st =
    serving st serve_gateway events (start_gateway l http file open_state_db)
