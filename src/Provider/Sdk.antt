-- ===== src/Provider/Sdk.antt =====
-- internal/provider/client.go, sdk.go and internal/aliyunauth: how the clients of the SDK are made.
use Prim.Native.String.{◌++◌}
use umodel_sre_rca.Common.{
  ◌>>=◌, ◌>>◌, ◌==◌, Bool, Option, Result, String, failure, if◌then◌else◌, none, ok, refuse_if,
  some, true,
}
use umodel_sre_rca.Provider.Client.{GetLogsRequest, OpenApiRequest, Params, Sdk}
use umodel_sre_rca.Common.Int.{ℤ}

-- openapi.Config, for the credential of a role.
pub record ClientConfig : Type 0 where
  pub endpoint : String
  pub region_id : String
  pub ecs_ram_role_name : String

-- credentials.Config; `none` is the role that is attached to the machine.
pub record CredentialConfig : Type 0 where
  pub type : String
  pub disable_imds_v1 : Bool
  pub role_name : Option String

-- The constructors of the SDK, and of a credential, which either is made or is not.
pub record Constructors : Type 0 where
  pub new_credential : CredentialConfig → Result (Unit {0})
  pub new_cms : ClientConfig → Result (Params → OpenApiRequest → Result String)
  pub new_action_trail : ClientConfig → Result (Params → OpenApiRequest → Result String)
  pub new_sls : ClientConfig → Result (String → String → GetLogsRequest → Result String)
  pub parse_int : String → Option ℤ

abbrev pub client_config : String → String → String → ClientConfig
client_config endpoint region role = record {
  endpoint = endpoint;
  region_id = region;
  ecs_ram_role_name = role;
}

unfoldable pub new_ecs_ram_role_credential :
    (CredentialConfig → Result (Unit {0})) → String → Result (Unit {0})
new_ecs_ram_role_credential new_credential role_name = new_credential (record {
  type = "ecs_ram_role";
  disable_imds_v1 = true;
  role_name = if role_name == "" then none else some role_name;
})

unfoldable pub new_aliyun_sdk_client : Constructors → String → String → Result Sdk
unfolding new_ecs_ram_role_credential
new_aliyun_sdk_client k region role = do
  refuse_if (region == "") (failure "aliyun region is required")
  new_ecs_ram_role_credential k.new_credential role
  cms ← k.new_cms (client_config ("cms." ++ region ++ ".aliyuncs.com") region role)
  action_trail ←
      k.new_action_trail (client_config ("actiontrail." ++ region ++ ".aliyuncs.com") region role)
  get_logs ← k.new_sls (client_config (region ++ ".log.aliyuncs.com") region role)
  ok (record {
    cms = cms;
    action_trail = action_trail;
    get_logs = get_logs;
    parse_int = k.parse_int;
  })
