-- ===== src/Refresh/Gate.antt =====
-- What a refresh request must show before the token is consumed. About
-- packages/openauth/src/domain/refresh.ts.
use openauth.Prelude.{
  ◌<◌, String, true, Option, none, some, List, [], ◌∷◌, ◌≡◌, refl, arith, eq_iff, includes, All,
  words,
}
use openauth.Types.Error.{ok}
use openauth.Types.Tenant.{
  TenantConfig, ClientConfig, ClientType, public, confidential, find_client,
}
use openauth.Types.Token.{RefreshTokenPayload}
use openauth.Crypto.{Platform, IsUtf8}
use openauth.ClientAuth.Laws.{IsAuthentic, verify_client_credentials_iff}
use openauth.TokenStore.{StoredRefresh}
use openauth.World.{Env, World}
use openauth.Refresh.{
  RefreshGrantRequest, all_granted, validate_requested_scopes, binding_check, anonymous_check,
  owner_check, presenting_check, gate_checks,
}

-- Without a `client_id` only a public client's token is refreshed; with one, it must be the token's
-- client, authenticated.
abbrev pub IsOwner : Platform → ClientType → String → Option String → Option String → Type 0
IsOwner platform type owner secret none = type ≡ public
IsOwner platform type owner secret (some id) = (id ≡ owner) × IsAuthentic platform type secret

-- A bound token goes only with a proof of its key.
abbrev pub IsBound : Option String → Option String → Type 0
IsBound none presented = Unit
IsBound (some jkt) presented = presented ≡ some jkt

-- The scopes asked for are among those granted.
abbrev pub IsNarrowing : Option String → List String → Type 0
IsNarrowing none granted = Unit
IsNarrowing (some requested) granted = All (λ s. includes granted s ≡ true) (words requested)

pub record IsAcceptable (env : Env) (req : RefreshGrantRequest) (w : World)
    (payload : RefreshTokenPayload) (tenant : TenantConfig) : Type 0 where
  pub client : ClientConfig
  pub stored : StoredRefresh
  pub known : w.tokens.refresh req.refresh_token ≡ some stored
  pub carries : stored.payload ≡ payload
  pub live : env.now < payload.expires_at
  pub configured : env.config payload.tenant_id ≡ ok tenant
  pub registered : find_client tenant payload.client_id ≡ some client
  pub owner : IsOwner env.platform client.type payload.client_id req.client_secret req.client_id
  pub bound : IsBound payload.dpop_jkt req.dpop_jkt
  pub narrowing : IsNarrowing req.scope payload.scopes

all_granted_sound :
    (granted asked : List String)
    → all_granted granted asked ≡ none
    → All (λ s. includes granted s ≡ true) asked
unfolding all_granted
all_granted_sound granted [] h = tt
all_granted_sound granted (s ∷ rest) h =
    (ground arith, all_granted_sound granted rest (ground arith))

validate_requested_scopes_sound :
    (scope : Option String) (granted : List String)
    → validate_requested_scopes scope granted ≡ none
    → IsNarrowing scope granted
unfolding validate_requested_scopes
validate_requested_scopes_sound none granted h = tt
validate_requested_scopes_sound (some asked) granted h = all_granted_sound granted (words asked) h

binding_check_sound :
    (jkt presented : Option String) → binding_check jkt presented ≡ none → IsBound jkt presented
unfolding binding_check
binding_check_sound none presented h = tt
binding_check_sound (some jkt) none h = absurd (cc)
binding_check_sound (some jkt) (some p) h = ground (arith, eq_iff p jkt)

anonymous_check_sound : (t : ClientType) → anonymous_check t ≡ none → t ≡ public
anonymous_check_sound public h = refl
anonymous_check_sound (confidential secret_hash pkce) h = absurd (cc)

module _ (env : Env) (utf8 : IsUtf8 env.platform) where
  presenting_check_sound :
      (found : Option ClientConfig) (client : ClientConfig) (id owner : String)
      (secret : Option String)
      → (id ≡ owner → found ≡ some client)
      → presenting_check env found id secret owner ≡ none
      → (id ≡ owner) × IsAuthentic env.platform client.type secret
  unfolding presenting_check
  presenting_check_sound none client id owner secret same h = absurd (cc)
  presenting_check_sound (some presenting) client id owner secret same h =
      let e : id ≡ owner = ground (arith, eq_iff id owner) in
      let c : presenting ≡ client = ground (arith, same e) in
      (
        e,
        (verify_client_credentials_iff env.platform client secret utf8).0 (rw (← c) (ground arith)),
      )

  owner_check_sound :
      (req : RefreshGrantRequest) (tenant : TenantConfig) (client : ClientConfig)
      (presented : Option String) (owner : String)
      → find_client tenant owner ≡ some client
      → owner_check env tenant client presented req.client_secret owner ≡ none
      → IsOwner env.platform client.type owner req.client_secret presented
  unfolding owner_check
  owner_check_sound req tenant client none owner found h = anonymous_check_sound client.type h
  owner_check_sound req tenant client (some id) owner found h =
      presenting_check_sound (find_client tenant id) client id owner req.client_secret
        (λ e. rw e found) h

  pub gate_checks_sound :
      (req : RefreshGrantRequest) (p : RefreshTokenPayload) (tenant : TenantConfig)
      (client : ClientConfig) (w : World)
      → find_client tenant p.client_id ≡ some client
      → (gate_checks env req p tenant client w).0 ≡ ok tt
      → IsOwner env.platform client.type p.client_id req.client_secret req.client_id
        × IsBound p.dpop_jkt req.dpop_jkt
        × IsNarrowing req.scope p.scopes
  unfolding gate_checks
  gate_checks_sound req p tenant client w found h = (
    owner_check_sound req tenant client req.client_id p.client_id found (ground arith),
    binding_check_sound p.dpop_jkt req.dpop_jkt (ground arith),
    validate_requested_scopes_sound req.scope p.scopes (ground arith),
  )
