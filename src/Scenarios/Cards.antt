-- ===== src/Scenarios/Cards.antt =====
-- The cards of one incident, at a Feishu that answers and at one that does not.
use umodel_sre_rca.Common.{
  subst, ltb, leb, ◌||◌, true, from_ok, ok, err, some, refl, ◌≡◌, ◌≤◌, ◌==◌, Error, String, false,
}
use umodel_sre_rca.Common.Int.{pos}
use umodel_sre_rca.Domain.{empty_result}
use umodel_sre_rca.Feishu.{
  Services, Client, create_incident_card, update_incident_card, render_incident_card,
  tenant_access_token, do_json,
}
use umodel_sre_rca.Feishu.Answers.{cards-Refuses, create_incident_card-given, Refuses}
use umodel_sre_rca.Scenarios.Leases.{cpu_incident}
use Prim.Native.String.{len}

abbrev pub answering : Services
answering = record {
  send = λ q. ok (record { status_code = 200; body = "{}" });
  marshal = λ j. some "{}";
  decode_token = λ n s. some (record { code = pos 0; tenant_access_token = "t" });
  decode_create = λ n s. some (record { code = pos 0; message_id = "om_1" });
  decode_code = λ n s. some (pos 0);
  percent = λ x. "0";
}

abbrev down : Services
down = record answering { send = λ q. ok (record { status_code = 503; body = "" }) }

abbrev client : Services → Client
client http = record {
  base_url = "https://f";
  app_id = "a";
  app_secret = "s";
  chat_id = "c";
  http = http;
}

down-Refuses : Refuses down
down-Refuses q r sent =
    subst (λ a. (ltb a.status_code 200 || leb 300 a.status_code) ≡ true) (from_ok sent) refl

cards-Refuses_example :
    ((e : Error) × (create_incident_card (client down) cpu_incident ≡ err e))
    × ((e : Error) × (update_incident_card (client down) "om_1" cpu_incident empty_result ≡ err e))
cards-Refuses_example = cards-Refuses (client down) cpu_incident "om_1" empty_result down-Refuses

create_incident_card-given_example :
    (("om_1" == "") ≡ false)
    × ((raw : String) × (render_incident_card answering cpu_incident empty_result ≡ ok raw)
        × (len raw ≤ 30720))
unfolding create_incident_card tenant_access_token do_json render_incident_card
create_incident_card-given_example = create_incident_card-given (client answering) cpu_incident refl
