-- ===== src/Tests/Flows.antt =====
-- A tenant with two methods, one that shows a page and one that succeeds at once, and a flow that waits
-- for its callback.
use openauth.Prelude.{
  String, true, false, Option, none, some, [], ◌∷◌, ◌==◌, put, empty, if◌then◌else◌,
}
use openauth.Types.Json.{null, str, obj, end}
use openauth.Types.Tenant.{TenantConfig, MethodConfig, password, code}
use openauth.Types.Flow.{FlowRecord}
use openauth.Types.Method.{
  Request, TenantContext, MethodContext, Rendered, MethodResult, challenge, success, Handling,
  returns, puts, AuthMethod, Factory, valid,
}
use openauth.SessionStore.{SessionStore, new_session_store}
use openauth.Types.Error.{ok}
use openauth.World.{World, Env}
use openauth.Flow.{FlowDeps}
use openauth.Authorize.{AuthorizationRequest}
use openauth.Callback.{HandleCallbackInput}
use openauth.MethodRoute.{HandleMethodRouteInput}
use openauth.Tests.Envelopes.{crypto, state_keys}
use openauth.Tests.Fixtures.{env, acme, profile, verifier, world}

abbrev pub page : Rendered
page = record { response = "login"; set_cookies = []; cache = none }

abbrev pub signed_in : MethodResult
signed_in = success "u1" (obj profile) none

abbrev routes : String → Option (MethodContext → Handling)
routes r =
    if r == "GET /authorize"
    then some
        (λ ctx. puts "seen" "1" 1000 (λ a. returns (some (challenge page (some (str "sent"))))))
    else if r == "GET /callback"
    then some (λ ctx. returns (some signed_in))
    else if r == "POST /verify"
    then some (λ ctx. returns (some signed_in))
    else none

abbrev pub login : AuthMethod
login = record {
  id = "pw";
  kind = "password";
  type = password;
  routes = routes;
  unsolicited_callback = false;
}

abbrev pub instant : AuthMethod
instant = record {
  id = "now";
  kind = "instant";
  type = code;
  routes = λ r. some (λ ctx. returns (some signed_in));
  unsolicited_callback = true;
}

abbrev pub factories : String → Option Factory
factories kind =
    if kind == "password"
    then some (record { validate = valid; build = λ i k t v. some login })
    else if kind == "instant"
    then some (record { validate = valid; build = λ i k t v. some instant })
    else none

abbrev pub password_config : MethodConfig
password_config = record {
  id = "pw";
  kind = "password";
  type = password;
  config = null;
  enabled = true;
}

abbrev pub broken_config : MethodConfig
broken_config = record password_config { id = "sms"; kind = "sms" }

abbrev pub acme_methods : TenantConfig
acme_methods = record acme {
  methods =
      password_config
      ∷ (record password_config { id = "now"; kind = "instant"; type = code })
      ∷ broken_config
      ∷ [];
}

-- the request to `path`, with this state in its query
abbrev pub request_to : String → String → Request
request_to path state = record {
  method = "GET";
  host = "id.example";
  pathname = path;
  query = λ k. if k == "state" then some state else none;
  content_type = none;
  form = none;
  entries = none;
}

abbrev pub context : TenantContext
context = record {
  id = "acme";
  config = acme_methods;
  raw = request_to "/authorize" "";
  custom = end;
}

abbrev pub deps : FlowDeps String
deps = record {
  crypto = crypto;
  state_keys = state_keys;
  parse_url = λ u. some (record { protocol = "https:"; host = "id.example"; pathname = "/" });
  factories = factories;
  callback_host_for = none;
  custom_context = none;
  new_flow_id = "f1";
  new_nonce = "n9";
  flow_ttl_ms = none;
}

abbrev pub authorize_request : String → AuthorizationRequest
authorize_request method_id = record {
  client_id = "spa";
  redirect_uri = "https://spa.example/cb";
  response_type = "code";
  scopes = "openid" ∷ [];
  state = some "s1";
  audience = none;
  method_id = some method_id;
  code_challenge = some verifier;
  code_challenge_method = some "S256";
  prompt = none;
  ui_locales = none;
  nonce = some "n1";
  claims_request = none;
}

abbrev pub no_cookies : String → Option String
no_cookies k = none

abbrev pub waiting : FlowRecord
waiting = record {
  flow_id = "f1";
  tenant_id = "acme";
  method_id = "pw";
  method_kind = "password";
  client_id = "spa";
  app_redirect_uri = "https://spa.example/cb";
  callback_path = "/cb/pw";
  callback_host = "id.example";
  app_state = some "s1";
  scopes = "openid" ∷ [];
  audience = none;
  prompt = none;
  ui_locales = none;
  nonce = "n9";
  app_nonce = some "n1";
  claims_request = none;
  client_pkce = some verifier;
  method_state = null;
  context = some end;
  created_at = 1000;
  expires_at = 601000;
}

abbrev pub waiting_sessions : SessionStore
waiting_sessions = record new_session_store {
  flows = put empty "f1" (record { record_of = waiting; expires_at = 601000 });
}

abbrev pub waiting_world : World
waiting_world = record world { sessions = waiting_sessions }

abbrev pub callback_input : String → HandleCallbackInput
callback_input state = record {
  raw_request = request_to "/cb/pw" state;
  cookies = no_cookies;
  tenant = none;
}

abbrev pub route_input : HandleMethodRouteInput
route_input = record {
  tenant = context;
  method_id = "pw";
  sub_path = "/verify";
  http_method = "POST";
  flow_id = "f1";
  cookies = no_cookies;
}

abbrev pub flow_env : Env
flow_env = record env { config = λ t. ok acme_methods }
