-- ===== src/Logout.antt =====
-- packages/openauth/src/domain/logout.ts: the end_session endpoint. WHATWG's URL is a parameter, the
-- text of a URL with its `state` set, `none` where the constructor throws.
pub mod Laws
use openauth.Prelude.{
  String, Bool, true, false, not, ◌&&◌, Option, none, some, List, ◌==◌, ◌<>◌, ◌⊎◌, inl, inr,
  if◌then◌else◌, includes,
}
use openauth.Types.Error.{
  AuthError, Result, ok, err, or_fail, and_then, passed, Check, invalid_request,
}
use openauth.Types.Effect.{Exec, pure, lift, check, ◌>>=◌, ◌>>◌}
use openauth.Types.Tenant.{ClientConfig, TenantConfig, find_client}
use openauth.Types.Method.{TenantContext}
use openauth.Types.Audit.{session_logout}
use openauth.ClientAuth.{truthy}
use openauth.Revoke.{revoke_all_for_subject}
use openauth.Flow.{rejected_promise}
use openauth.World.{Env, World, SigningKey, safe_audit}

abbrev pub RedirectUrl : Type 0
RedirectUrl = String → Option String → Option String

pub record EndSessionRequest : Type 0 where
  pub id_token_hint : Option String
  pub client_id : Option String
  pub post_logout_redirect_uri : Option String
  pub state : Option String

pub data EndSessionOutput : Type 0 where
  redirect : String → EndSessionOutput
  logged_out : Option String → EndSessionOutput

-- what a verified hint tells: `hintSubject` and `hintAud`
pub record Hint : Type 0 where
  pub subject : Option String
  pub audience : Option String

abbrev pub no_hint : Hint
no_hint = record { subject = none; audience = none }

abbrev pub bad_hint : String → AuthError
bad_hint reason =
    invalid_request ("id_token_hint failed signature/issuer verification: " <> reason)
      (some "id_token_hint")

abbrev pub disagreement : AuthError
disagreement = invalid_request "client_id does not match id_token_hint.aud" (some "client_id")

abbrev pub unknown_client_id : String → AuthError
unknown_client_id id = invalid_request ("unknown client \"" <> id <> "\"") (some "client_id")

abbrev pub no_client : AuthError
no_client =
    invalid_request
      "post_logout_redirect_uri requires identifying the client via client_id or id_token_hint"
      (some "post_logout_redirect_uri")

abbrev pub not_registered : AuthError
not_registered =
    invalid_request "post_logout_redirect_uri is not registered for this client"
      (some "post_logout_redirect_uri")

abbrev pub hint_of : String ⊎ (String × String) → Result Hint
hint_of (inl reason) = err (bad_hint reason)
hint_of (inr (subject, audience)) = ok (record { subject = some subject; audience = some audience })

-- Step 2; an empty text counts as absent.
abbrev pub agreement : Option String → Option String → Check
agreement (some id) (some audience) =
    if not (id == "") && not (audience == "") && not (id == audience)
    then some disagreement
    else none
agreement (some id) none = none
agreement none audience = none

-- `req.clientId ?? hintAud`
abbrev pub resolved_client_id : Option String → Option String → Option String
resolved_client_id (some id) audience = some id
resolved_client_id none audience = audience

-- Step 3
abbrev pub resolve_client : TenantConfig → Option String → Result (Option ClientConfig)
resolve_client tenant none = ok none
resolve_client tenant (some id) =
    if id == ""
    then ok none
    else and_then (or_fail (unknown_client_id id) (find_client tenant id)) (λ c. ok (some c))

-- Step 4
abbrev pub redirect_check : Option String → Option ClientConfig → Check
redirect_check none client = none
redirect_check (some uri) none = if uri == "" then none else some no_client
redirect_check (some uri) (some client) =
    if uri == ""
    then none
    else if includes client.post_logout_redirect_uris uri
    then none
    else some not_registered

-- `...(x ? { key: x } : {})`
abbrev pub non_blank : Option String → Option String
non_blank o = if truthy o then o else none

-- Step 6
abbrev pub answer :
    RedirectUrl → Option String → Option String → Option String → Result EndSessionOutput
answer redirect_url none state subject = ok (logged_out (non_blank subject))
answer redirect_url (some uri) state subject =
    if uri == ""
    then ok (logged_out (non_blank subject))
    else and_then (or_fail rejected_promise (redirect_url uri state)) (λ url. ok (redirect url))

module _ (env : Env) (redirect_url : RedirectUrl) (req : EndSessionRequest)
    (tenant : TenantContext) where
  -- Step 1
  unfoldable pub presented_hint : Result Hint
  presented_hint = hinted req.id_token_hint
    where
      hinted : Option String → Result Hint
      hinted none = ok no_hint
      hinted (some token) =
          if token == ""
          then ok no_hint
          else and_then env.keys.signing_keys λ keys. hint_of (
              env.jose.verify_id_token token keys
                (if env.issuer_url == "" then none else some env.issuer_url))

  -- Steps 1 to 4, which change nothing.
  unfoldable pub logout_check : Result Hint
  unfolding presented_hint
  logout_check = and_then presented_hint λ hint.
      and_then (passed (agreement req.client_id hint.audience)) λ _.
        and_then (resolve_client tenant.config (resolved_client_id req.client_id hint.audience))
          λ client.
            and_then (passed (redirect_check req.post_logout_redirect_uri client)) λ _. ok hint

  -- Step 5
  unfoldable pub revoke_hinted : Option String → Exec World (Unit {0})
  revoke_hinted none = pure tt
  revoke_hinted (some subject) =
      if subject == "" then pure tt else revoke_all_for_subject env tenant.id subject

  unfoldable pub end_session : Exec World EndSessionOutput
  end_session = do
    hint ← lift logout_check
    revoke_hinted hint.subject
    safe_audit (
        session_logout tenant.id (non_blank (resolved_client_id req.client_id hint.audience))
          (non_blank hint.subject) env.now)
    lift (answer redirect_url req.post_logout_redirect_uri req.state hint.subject)
