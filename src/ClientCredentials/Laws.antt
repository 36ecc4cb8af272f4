-- ===== src/ClientCredentials/Laws.antt =====
-- Whom the client-credentials grant serves, and with what. About
-- packages/openauth/src/domain/client-credentials.ts.
use openauth.Prelude.{
  String, true, none, some, List, [], ◌∷◌, ◌≡◌, refl, arith, includes, All, ◌<>◌, join, ap, ◌∙◌,
}
use openauth.Types.Error.{ok, or_fail, or_fail-eq-ok, invalid_client}
use openauth.Types.Effect.{lift, after_bind, ◌>>◌}
use openauth.Types.Effect.Keeps.{Keeps, keeps_rules}
use openauth.Types.Json.{Json}
use openauth.Types.Tenant.{MethodConfig, ClientConfig, TenantConfig, find_client}
use openauth.Types.Token.{SubjectClaim, TokenResponse}
use openauth.Crypto.{IsUtf8}
use openauth.ClientAuth.Laws.{IsAuthentic, verify_client_credentials_iff}
use openauth.World.{Env, World}
use openauth.Token.Mint.{mint_tokens}
use openauth.Token.Mint.Laws.{IsMinted, mint_tokens-IsMinted}
use openauth.Token.Exchange.{subject_claim}
use openauth.Token.Exchange.Sound.{subject_claim-tokens}
use openauth.ClientCredentials.{
  ClientCredentialsRequest, M2mMethod, MethodCache, is_confidential, allows_client_credentials,
  asked_scopes, scopes_allowed, m2m_methods, single, client_of, client_check, m2m_input, m2m_args,
  grant_client, dispatch_client, with_m2m_client, client_credentials_grant,
}

-- The client is confidential, allowed this grant, authenticated, and asks for scopes of its own.
pub record IsServed (env : Env) (req : ClientCredentialsRequest) (client : ClientConfig)
    : Type 0 where
  pub is_secret : is_confidential client.type ≡ true
  pub allowed : allows_client_credentials client.grant_types ≡ true
  pub authentic : IsAuthentic env.platform client.type (some req.client_secret)
  pub within : All (λ s. includes client.scopes s ≡ true) (asked_scopes req.scope client.scopes)

pub scopes_allowed_sound :
    (allowed asked : List String)
    → scopes_allowed allowed asked ≡ none
    → All (λ s. includes allowed s ≡ true) asked
unfolding scopes_allowed
scopes_allowed_sound allowed [] h = tt
scopes_allowed_sound allowed (s ∷ rest) h =
    (ground arith, scopes_allowed_sound allowed rest (ground arith))

single_sound : (ms : List MethodConfig) (m : MethodConfig) → single ms ≡ ok m → ms ≡ m ∷ []
unfolding single
single_sound [] m h = absurd (cc)
single_sound (x ∷ []) m h = ground arith
single_sound (x ∷ y ∷ ms) m h = absurd (cc)

module _ (env : Env) (resolve : MethodCache) (req : ClientCredentialsRequest) where
  client_check_sound :
      (client : ClientConfig) (w : World)
      → IsUtf8 env.platform
      → (client_check env resolve req client w).0 ≡ ok tt
      → IsServed env req client
  unfolding client_check
  client_check_sound client w utf8 h = record {
    is_secret = ground arith;
    allowed = ground arith;
    authentic =
        (verify_client_credentials_iff env.platform client (some req.client_secret) utf8).0
          (ground arith);
    within =
        scopes_allowed_sound client.scopes (asked_scopes req.scope client.scopes) (ground arith);
  }

  client_check-unchanged :
      (client : ClientConfig) (w : World) → (client_check env resolve req client w).1 ≡ w
  unfolding client_check
  client_check-unchanged client w =
      let k : Keeps (λ v. v ≡ w) (client_check env resolve req client) =
        search keeps_rules depth 9 in
      k.at w refl

-- Why a client was given a token, and which.
pub record IsGrantedToClient (env : Env) (req : ClientCredentialsRequest) (tenant_id : String)
    (w w' : World) (r : TokenResponse) : Type 0 where
  pub tenant : TenantConfig
  pub client : ClientConfig
  pub config : MethodConfig
  pub access_token_only : (r.refresh_token ≡ none) × (r.id_token ≡ none)
  pub unchanged : w'.tokens ≡ w.tokens
  pub configured : env.config tenant_id ≡ ok tenant
  pub registered : find_client tenant req.client_id ≡ some client
  pub served : IsServed env req client
  pub only_method : m2m_methods tenant ≡ config ∷ []
  pub scopes : r.scope ≡ join " " (asked_scopes req.scope client.scopes)

module _ (env : Env) (resolve : MethodCache) (req : ClientCredentialsRequest) where
  -- Of a minted response without refresh token and end user.
  IsMinted-access_only :
      (tenant : TenantConfig) (client : ClientConfig) (method : M2mMethod) (claim : SubjectClaim)
      (w w' : World) (r : TokenResponse)
      → IsMinted env (m2m_args env resolve req tenant client method claim) w w' r
      → (r.refresh_token ≡ none)
        × (r.id_token ≡ none)
        × (w'.tokens ≡ w.tokens)
        × (r.scope ≡ join " " (asked_scopes req.scope client.scopes))
  IsMinted-access_only tenant client method claim w w' r m =
      (m.refresh, ground (arith, m.id_token), m.stored, m.scopes)

  grant_client_sound :
      (tenant : TenantConfig) (client : ClientConfig) (method : M2mMethod) (properties : Json)
      (w : World) (r : TokenResponse)
      → (grant_client env resolve req tenant client method properties w).0 ≡ ok r
      → (r.refresh_token ≡ none)
        × (r.id_token ≡ none)
        × ((grant_client env resolve req tenant client method properties w).1.tokens ≡ w.tokens)
        × (r.scope ≡ join " " (asked_scopes req.scope client.scopes))
  unfolding grant_client
  grant_client_sound tenant client method properties w r h =
      let input = m2m_input env resolve req tenant method properties in
      after_bind
        (λ (w' : World).
          (r.refresh_token ≡ none)
          × (r.id_token ≡ none)
          × (w'.tokens ≡ w.tokens)
          × (r.scope ≡ join " " (asked_scopes req.scope client.scopes)))
        (subject_claim env input client.id)
        (λ claim. mint_tokens env (m2m_args env resolve req tenant client method claim)) w r h
        λ claim made h1.
          let w1 : World = (subject_claim env input client.id w).1 in
          let args = m2m_args env resolve req tenant client method claim in
          let (refresh, id, same, scopes) =
            IsMinted-access_only tenant client method claim w1 (mint_tokens env args w1).1 r
              (mint_tokens-IsMinted env args w1 r h1) in
          (refresh, id, same ∙ subject_claim-tokens env input client.id w, scopes)

  -- Over an encoding that keeps the laws of UTF-8, when the client-credentials grant succeeds, the
  -- tenant is configured and has exactly one enabled m2m method, the client is registered,
  -- confidential, allowed the grant and authenticated, every scope is one of the client's, and the
  -- response has an access token only, with the token store left as it was.
  pub client_credentials_grant-IsGrantedToClient :
      (tenant_id : String) (w : World) (r : TokenResponse)
      → IsUtf8 env.platform
      → (client_credentials_grant env resolve req tenant_id w).0 ≡ ok r
      → IsGrantedToClient env req tenant_id w
          (client_credentials_grant env resolve req tenant_id w).1
          r
  unfolding client_credentials_grant with_m2m_client dispatch_client
  client_credentials_grant-IsGrantedToClient tenant_id w r utf8 h =
      let P = λ (w' : World). IsGrantedToClient env req tenant_id w w' r in
      after_bind P (lift (env.config tenant_id)) (with_m2m_client env resolve req) w r h
        λ tenant configured h1.
          after_bind P
            (lift (
              or_fail (invalid_client ("unknown client \"" <> req.client_id <> "\""))
                (find_client tenant req.client_id)))
            (λ client.
              client_check env resolve req client >> dispatch_client env resolve req tenant client)
            w r h1
            λ client found h2.
              after_bind P (client_check env resolve req client)
                (λ _. dispatch_client env resolve req tenant client) w r h2
                λ checked passed h3.
                  let w1 : World = (client_check env resolve req client w).1 in
                  after_bind P (lift (single (m2m_methods tenant))) _ w1 r h3 λ config only h4.
                    after_bind P (lift (resolve tenant config.id)) _ w1 r h4 λ method resolved h5.
                      after_bind P (lift (client_of config method)) _ w1 r h5 λ say has h6.
                        after_bind P (lift (say req.client_id req.client_secret req.params))
                          (grant_client env resolve req tenant client method) w1 r h6
                          λ properties said h7.
                            let (refresh, id, same, scopes) =
                              grant_client_sound tenant client method properties w1 r h7 in
                            record {
                              tenant = tenant;
                              client = client;
                              config = config;
                              access_token_only = (refresh, id);
                              unchanged =
                                  same
                                  ∙ ap (λ (v : World). v.tokens)
                                      (client_check-unchanged env resolve req client w);
                              configured = configured;
                              registered = or_fail-eq-ok _ _ client found;
                              served = client_check_sound env resolve req client w utf8 passed;
                              only_method = single_sound (m2m_methods tenant) config only;
                              scopes = scopes;
                            }
