-- ===== src/Gateway/Authorized.antt =====
-- What a request without the callback token can do.
use umodel_sre_rca.Common.{◌≡◌, ◌⊎◌, refl, ok, false, inl, inr, Bool-cases, ◌==◌, not, ◌&&◌, Result}
use umodel_sre_rca.Schedule.{World}
use umodel_sre_rca.Gateway.{Reply, Request, cloud_monitor_ingress}
use umodel_sre_rca.Gateway.Server.{
  Answer, HttpRequest, Server, State, capture, fits_capture, fits_health, fits_ingress, serve,
}

module _ (s : Server) where
  refused_ingress :
      (r : Request) (w : World)
      → (r.token == s.gate.callback_token) ≡ false
      → ◌≡◌ {A = Result Reply × World} (cloud_monitor_ingress s.gate r w) (ok Reply.unauthorized, w)
  unfolding cloud_monitor_ingress
  refused_ingress r w h = rw h refl

  refused_capture :
      (r : Request) (st : State)
      → (r.token == s.gate.callback_token) ≡ false
      → capture s r st ≡ (Answer.replied (ok Reply.unauthorized), st)
  unfolding capture
  refused_capture r st h = rw h refl

  -- A request whose token is not the callback token changes neither the database nor the captured
  -- files, whatever its method, its path and its body are; it is answered as unauthorized, as a test
  -- of health, or as a request for no route.
  pub serve-unauthorized :
      (r : HttpRequest) (st : State)
      → (r.request.token == s.gate.callback_token) ≡ false
      → (serve s r st ≡ (Answer.replied (ok Reply.unauthorized), st))
        ⊎ (serve s r st ≡ (Answer.healthy, st))
        ⊎ (serve s r st ≡ (Answer.not_routed, st))
  unfolding serve
  serve-unauthorized r st h = elim (Bool-cases (fits_health r)) [
    | inl t ↦ inr (inl (rw t refl))
    | inr n ↦ elim (Bool-cases (s.has_repository && fits_ingress r)) [
      | inl t ↦ inl (rw (n, t, refused_ingress r.request st.world h) refl)
      | inr m ↦ elim (Bool-cases (not (s.capture_dir == "") && fits_capture r)) [
        | inl t ↦ inl (rw (n, m, t) (refused_capture r.request st h))
        | inr k ↦ inr (inr (rw (n, m, k) refl))
      ]
    ]
  ]
