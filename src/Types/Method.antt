-- ===== src/Types/Method.antt =====
-- packages/openauth/src/types/method.ts, with the requests that methods are given. A `Request` carries
-- its parsed URL and body, which the runtime parses. Responses, cookies and cache policies are handed
-- on as they are, so they are texts here; `logout`, `publicRoutes` and the cookies of a success are
-- not modelled.
use openauth.Prelude.{ℕ, String, Bool, Option, List}
use openauth.Types.Error.{AuthError, Result}
use openauth.Types.Json.{Json, Fields}
use openauth.Types.Tenant.{TenantConfig, MethodType}
use openauth.Types.Flow.{FlowRecord}

pub record Request : Type 0 where
  pub method : String
  pub host : String
  pub pathname : String
  -- `url.searchParams.get`
  pub query : String → Option String
  -- `headers.get("content-type")`
  pub content_type : Option String
  -- `new URLSearchParams(await req.clone().text()).get`; `none` where the body cannot be read
  pub form : Option (String → Option String)
  -- the same of `Object.fromEntries(new URLSearchParams(await req.text()).entries())`
  pub entries : Option (String → Option String)

-- `tenant.request` is flattened.
pub record TenantContext : Type 0 where
  pub id : String
  pub config : TenantConfig
  pub raw : Request
  pub custom : Fields

pub record MethodDispatchData : Type 0 where
  pub state : String
  pub callback_url : String
  pub issuer_url : String

pub record MethodContext : Type 0 where
  pub request : Request
  pub issuer_url : String
  pub sub_path : String
  pub tenant : TenantContext
  pub flow : Option FlowRecord
  pub method_state : Json
  pub cookies : String → Option String
  pub dispatch : Option MethodDispatchData

-- The client that a method asks to be sent to after an unsolicited callback.
pub record UnsolicitedBinding : Type 0 where
  pub client_id : String
  pub redirect_uri : String
  pub scopes : List String

pub record Rendered : Type 0 where
  pub response : String
  pub set_cookies : List String
  pub cache : Option String

pub data MethodResult : Type 0 where
  -- what is rendered, and `saveMethodState`
  challenge : Rendered → Option Json → MethodResult
  -- the upstream subject, its properties and the binding
  success : String → Json → Option UnsolicitedBinding → MethodResult
  -- the reason and the cookies
  denied : String → List String → MethodResult
  error : AuthError → MethodResult

-- What a handler does with the store: it calls its `methodScratch`, goes on with the answer, and
-- returns, or throws (`none`).
pub data Handling : Type 0 where
  returns : Option MethodResult → Handling
  puts : String → String → ℕ → (Result (Unit {0}) → Handling) → Handling
  gets : String → (Result String → Handling) → Handling
  deletes : String → (Result (Unit {0}) → Handling) → Handling

pub record AuthMethod : Type 0 where
  pub id : String
  pub kind : String
  pub type : MethodType
  pub routes : String → Option (MethodContext → Handling)
  pub unsolicited_callback : Bool

-- `AnyAuthMethodFactory`: `validate` answers with the paths of the issues, or the parsed value, and
-- `build` is given the id, the kind, the tenant and that value; `none` where it throws.
pub data Parsed : Type 0 where
  issues : String → Parsed
  valid : Json → Parsed

pub record Factory : Type 0 where
  pub validate : Json → Parsed
  pub build : String → String → String → Json → Option AuthMethod
