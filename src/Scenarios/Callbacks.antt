-- ===== src/Scenarios/Callbacks.antt =====
-- A callback with a token in it.
use umodel_sre_rca.Common.{ok, err, [], none, some, refl, ◌≡◌, ◌⊎◌, Error, String, true}
use Prim.Native.String.{◌++◌}
use umodel_sre_rca.Json.{Json, Fields}
use umodel_sre_rca.Inbound.Capture.{Surroundings, save, redact, is_sensitive}
use umodel_sre_rca.Inbound.Capture.Redacted.{
  IsClean, redact-IsClean_idem, Alike, AlikeFields, redact-Alike,
}
use umodel_sre_rca.Inbound.Capture.Kept.{save-cases, Stores}

abbrev callback : String → Json
callback token = Json.object (
    Fields.field "Access-Key" (Json.text token) (
      Fields.field "alert" (Json.object (Fields.field "id" (Json.text "1") Fields.no_fields))
        Fields.no_fields))

redact-IsClean_idem_example :
    IsClean (redact (callback "k1")) × (redact (redact (callback "k1")) ≡ redact (callback "k1"))
redact-IsClean_idem_example = redact-IsClean_idem (callback "k1")

alike : Alike (callback "k1") (callback "k2")
unfolding is_sensitive
alike =
    Alike.objects
      (AlikeFields.secret refl (AlikeFields.open_field (Alike.same _) AlikeFields.no_fields))

redact-Alike_example : redact (callback "k1") ≡ redact (callback "k2")
redact-Alike_example = redact-Alike alike

abbrev pub surroundings : Surroundings
surroundings = record {
  cancelled = none;
  decode = λ s. some (callback "k1", "");
  ends = λ s. true;
  marshal_indent = λ v. some "{}";
  mkdir_all = λ d. ok tt;
  random = ok "0a1b2c3d4e5f";
  now = "20260101T000000.000000000Z";
  join_path = λ d f. d ++ "/" ++ f;
  open_error = λ p. none;
  write = λ s. (s, none);
}

save-cases_example :
    ((e : Error) × (save surroundings "/c" "{}" [] ≡ (err e, [])))
    ⊎ Stores surroundings "/c" "{}" []
save-cases_example = save-cases surroundings "/c" "{}" []
