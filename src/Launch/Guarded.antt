-- ===== src/Launch/Guarded.antt =====
-- The requests that a running sre-gateway does not act on.
use umodel_sre_rca.Common.{
  ◌==◌, All, List, Result, Result-cases, String, [], ap, both_pass, bound, false, from_ok, inl, inr,
  ok, passes, refl, subst, ◌∙◌, ◌∷◌, ◌≡◌, ◌⊎◌,
}
use umodel_sre_rca.Gateway.Server.{Answer, HttpRequest, State, serve}
use umodel_sre_rca.Config.{Config, load}
use umodel_sre_rca.Launch.Serving.{
  Drawn, GatewayEvent, HttpServer, Libraries, Serving, new_gateway_handler, new_gateway_server,
  run_gateway, serve_gateway, start_gateway,
}
use umodel_sre_rca.Gateway.{Reply}
use umodel_sre_rca.Feishu.{Services}
use umodel_sre_rca.Evidence.TextOrder.{same_test}
use umodel_sre_rca.Gateway.Authorized.{serve-unauthorized}
use umodel_sre_rca.Launch.{validate_gateway_config}

abbrev IsIdleAnswer : Answer → Type 0
IsIdleAnswer a =
    (a ≡ Answer.replied (ok Reply.unauthorized)) ⊎ (a ≡ Answer.healthy) ⊎ (a ≡ Answer.not_routed)

-- A request that names no token.
abbrev pub IsAnonymous : GatewayEvent → Type 0
IsAnonymous (GatewayEvent.arrives d r) = r.request.token ≡ ""
IsAnonymous (GatewayEvent.breaks e) = Unit
IsAnonymous (GatewayEvent.signalled s e) = Unit

abbrev pub IsUntouched : State → Serving → Type 0
IsUntouched st s = (s.state ≡ st) × All IsIdleAnswer s.answers

abbrev Guards : HttpServer → Type 0
Guards h = (d : Drawn) → ((h.handler d).gate.callback_token == "") ≡ false

module _ (h : HttpServer) (guards : Guards h) where
  serves_none :
      (d : Drawn) (r : HttpRequest) (st : State)
      → r.request.token ≡ ""
      → ((serve (h.handler d) r st).1 ≡ st) × IsIdleAnswer (serve (h.handler d) r st).0
  serves_none d r st e =
      let wrong : (r.request.token == (h.handler d).gate.callback_token) ≡ false =
        rw e (same_test "" (h.handler d).gate.callback_token ∙ guards d) in
      elim (serve-unauthorized (h.handler d) r st wrong) [
        | inl u ↦ (ap (λ p. p.1) u, inl (ap (λ p. p.0) u))
        | inr rest ↦ elim rest [
          | inl u ↦ (ap (λ p. p.1) u, inr (inl (ap (λ p. p.0) u)))
          | inr u ↦ (ap (λ p. p.1) u, inr (inr (ap (λ p. p.0) u)))
        ]
      ]

  serve_gateway-anonymous :
      (events : List GatewayEvent) (st : State)
      → All IsAnonymous events
      → IsUntouched st (serve_gateway h events st)
  unfolding serve_gateway
  serve_gateway-anonymous [] st a = (refl, tt)
  serve_gateway-anonymous (GatewayEvent.arrives d r ∷ events) st (e, a) =
      let (same, idle) = serves_none d r st e in
      let (s, rest) = serve_gateway-anonymous events (serve (h.handler d) r st).1 a in
      (s ∙ same, (idle, rest))
  serve_gateway-anonymous (GatewayEvent.breaks e ∷ events) st a = (refl, tt)
  serve_gateway-anonymous (GatewayEvent.signalled s e ∷ events) st a = (refl, tt)

start_gateway-Guards :
    (l : Libraries) (http : Services) (file : Result Config)
    (open_state_db : String → Result (Unit {0})) {h : HttpServer}
    → start_gateway l http file open_state_db ≡ ok h
    → Guards h
unfolding start_gateway validate_gateway_config new_gateway_server new_gateway_handler
start_gateway-Guards l http file open_state_db {h} e =
    let (decoded, _, h1) = bound file _ e in
    let (c, _, h2) = bound (load decoded) _ h1 in
    let (checked, h3) = both_pass (validate_gateway_config c) _ h2 in
    let (_, made) = both_pass (open_state_db c.state_db) _ h3 in
    let (token, _) = passes (c.callback_token == "") _ _ checked in
    subst Guards (from_ok made) (λ d. token)

-- Whatever the configuration is, whichever requests come and however it ends, a run of sre-gateway
-- in which every request's token is missing or empty changes neither the database nor the captured
-- files, and answers each request as unauthorized, as a test of health, or as a request for no route:
-- a gateway without a callback token does not start.
pub run_gateway-IsUntouched :
    (l : Libraries) (http : Services) (file : Result Config)
    (open_state_db : String → Result (Unit {0})) (events : List GatewayEvent) (st : State)
    → All IsAnonymous events
    → IsUntouched st (run_gateway l http file open_state_db events st)
unfolding run_gateway
run_gateway-IsUntouched l http file open_state_db events st a =
    elim (Result-cases (start_gateway l http file open_state_db)) [
      | inl (e, r) ↦ rw r (refl, tt)
      | inr (h, r) ↦
          rw r (
            serve_gateway-anonymous h (start_gateway-Guards l http file open_state_db r) events st
              a)
    ]
