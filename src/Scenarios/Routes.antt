-- ===== src/Scenarios/Routes.antt =====
-- A request for the capture of a fixture, without a token.
use umodel_sre_rca.Common.{◌≡◌, ◌⊎◌, ok, refl, [], true, false, List, none, ◌∷◌}
use umodel_sre_rca.Schedule.Quiet.{still}
use umodel_sre_rca.Gateway.{Reply}
use umodel_sre_rca.Gateway.Server.{Answer, HttpRequest, Server, State, serve}
use umodel_sre_rca.Gateway.Authorized.{serve-unauthorized}
use umodel_sre_rca.Scenarios.Leases.{queued_db}
use umodel_sre_rca.Scenarios.Gateway.{gate}
use umodel_sre_rca.Scenarios.Callbacks.{surroundings}
use umodel_sre_rca.Launch.Serving.{
  Drawn, GatewayEvent, HttpServer, Libraries, Served, new_gateway_handler, new_gateway_server,
  run_gateway,
}
use umodel_sre_rca.Launch.Guarded.{IsUntouched, run_gateway-IsUntouched}
use umodel_sre_rca.Scenarios.Cards.{answering}
use umodel_sre_rca.Scenarios.Commands.{config}

abbrev server : Server
server = record {
  gate = gate;
  has_repository = true;
  capture_dir = "/c";
  surroundings = surroundings;
  text = λ bytes. "{}";
}

abbrev anonymous : HttpRequest
anonymous = record {
  method = "POST";
  path = "/v1/inbound/cloudmonitor/capture";
  request = record { token = ""; body = []; is_cut_short = false };
}

abbrev quiet_state : State
quiet_state = record { world = still queued_db; files = [] }

serve-unauthorized_example :
    (serve server anonymous quiet_state ≡ (Answer.replied (ok Reply.unauthorized), quiet_state))
    ⊎ (serve server anonymous quiet_state ≡ (Answer.healthy, quiet_state))
    ⊎ (serve server anonymous quiet_state ≡ (Answer.not_routed, quiet_state))
serve-unauthorized_example = serve-unauthorized server anonymous quiet_state refl

abbrev drawn : Drawn
drawn = record { now = 101; incident_id = "i1"; job_id = "j1"; surroundings = surroundings }

abbrev libraries : Libraries
libraries = record {
  decode = gate.decode;
  parse_time = gate.parse_time;
  text = λ bytes. "{}";
  codecs = gate.codecs;
}

abbrev events : List GatewayEvent
events =
    GatewayEvent.arrives drawn anonymous ∷ GatewayEvent.signalled (ok tt) Served.server_closed ∷ []

run_gateway-IsUntouched_example :
    IsUntouched quiet_state
      (run_gateway libraries answering (ok config) (λ path. ok tt) events quiet_state)
run_gateway-IsUntouched_example =
    run_gateway-IsUntouched libraries answering (ok config) (λ path. ok tt) events quiet_state
      (refl, (tt, tt))

abbrev http_server : HttpServer
http_server = new_gateway_server "127.0.0.1:8080" (new_gateway_handler libraries config none)
