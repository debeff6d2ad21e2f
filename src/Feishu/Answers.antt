-- ===== src/Feishu/Answers.antt =====
-- What the Feishu client makes of the answers that it gets.
use umodel_sre_rca.Common.{
  ◌∙◌, bound, failure, ◌≡◌, ◌≤◌, ◌||◌, refl, ok, err, Result, true, false, arith, String, Error,
  ◌==◌, passes, either_false, refuse_if, ltb, leb, ◌>>=◌, subst, sym, Option, not, ℕ, failure,
}
use Prim.Native.String.{len}
use umodel_sre_rca.Domain.{Incident, RcaResult, empty_result}
use umodel_sre_rca.Feishu.{
  Client, Services, Response, Request, render_incident_card, card, do_json, tenant_access_token,
  create_incident_card, update_incident_card, max_card_bytes, or_fail, is_zero,
}
use umodel_sre_rca.Json.{Json}

-- Every answer that a service gives has a status outside 200 to 299.
abbrev pub Refuses : Services → Type 0
Refuses s =
    (q : Request) (r : Response)
    → s.send q ≡ ok r
    → (ltb r.status_code 200 || leb 300 r.status_code) ≡ true

fails :
    {A B : Type 0} (m : Result A) (g : A → Result B)
    → ((a : A) → m ≡ ok a → (e : Error) × (g a ≡ err e))
    → (e : Error) × ((m >>= g) ≡ err e)
fails (err e) g h = (e, refl)
fails (ok a) g h = h a refl

refused_first :
    {A B : Type 0} (m : Result A) (g : A → Result B)
    → (e : Error) × (m ≡ err e)
    → (e : Error) × ((m >>= g) ≡ err e)
refused_first m g (e, refused) = (e, rw refused refl)

module _ (c : Client) where
  do_json-Refuses :
      {A : Type 0} (decode : ℕ → String → Option A) (method path token : String) (body : Json)
      → Refuses c.http
      → (e : Error) × (do_json c decode method path token body ≡ err e)
  unfolding do_json
  do_json-Refuses decode method path token body h =
      fails (or_fail (c.http.marshal body) _) _ λ raw _.
        fails (c.http.send _) _
          λ r sends. (failure "Feishu returned an HTTP status", rw (h _ r sends) refl)

  tenant_access_token-Refuses : Refuses c.http → (e : Error) × (tenant_access_token c ≡ err e)
  unfolding tenant_access_token
  tenant_access_token-Refuses h =
      refused_first _ _
        (do_json-Refuses c.http.decode_token "POST" "/auth/v3/tenant_access_token/internal" "" _ h)

  -- A client whose every HTTP request is answered outside 200 to 299, or not answered at all, makes
  -- and updates no card: both operations return an error.
  pub cards-Refuses :
      (incident : Incident) (message_id : String) (result : RcaResult)
      → Refuses c.http
      → ((e : Error) × (create_incident_card c incident ≡ err e))
        × ((e : Error) × (update_incident_card c message_id incident result ≡ err e))
  unfolding create_incident_card update_incident_card
  cards-Refuses incident message_id result h =
      let (e, refused) = tenant_access_token-Refuses h in
      (
        fails (render_incident_card c.http incident empty_result) _
            λ content _. (e, rw refused refl),
        fails (refuse_if (message_id == "") _) _ λ _ _.
            fails (render_incident_card c.http incident result) _ λ content _. (e, rw refused refl),
      )

  -- The identifier that a new card has is never empty, and its text holds at most 30 KiB.
  pub create_incident_card-given :
      (incident : Incident) {id : String}
      → create_incident_card c incident ≡ ok id
      → ((id == "") ≡ false)
        × ((raw : String) × (render_incident_card c.http incident empty_result ≡ ok raw)
            × (len raw ≤ 30720))
  unfolding create_incident_card render_incident_card
  create_incident_card-given incident {id} h =
      let (content, drawn, h1) = bound (render_incident_card c.http incident empty_result) _ h in
      let (token, _, h2) = bound (tenant_access_token c) _ h1 in
      let (response, _, h3) = bound (do_json c c.http.decode_create _ _ token _) _ h2 in
      let (good, made) = passes (not (is_zero response.code) || response.message_id == "") _ _ h3 in
      let (_, given) = either_false (not (is_zero response.code)) _ good in
      let (raw, _, h4) =
        bound (or_fail (c.http.marshal (card c.http incident empty_result)) _) _ drawn in
      let (small, same) = passes (ltb max_card_bytes (len raw)) _ _ h4 in
      (subst (λ s. (s == "") ≡ false) (cc) given, (raw, drawn ∙ sym same, ground arith))
