-- ===== src/Par/Laws.antt =====
-- What is pushed, and that it can be fetched once. About packages/openauth/src/domain/par.ts.
use openauth.Prelude.{
  ℕ, ◌+◌, ◌<◌, [], ◌∷◌, keep, String, not, Option, none, some, List, ◌==◌, ◌<>◌, ◌≡◌, ◌≢◌, refl,
  arith, eq_iff, eq_refl,
}
use openauth.Types.Error.{ok, err, or_fail, or_fail-eq-ok}
use openauth.Types.Effect.{◌>>◌, lift, after_bind}
use openauth.Types.Tenant.{
  ClientConfig, ClientType, public, confidential, TenantConfig, find_client,
}
use openauth.Types.Flow.{ParRecord}
use openauth.ClientAuth.Laws.{IsAuthentic, verify_client_credentials_iff}
use openauth.Crypto.{Platform, IsUtf8}
use openauth.SessionStore.{SessionStore, save_par, consume_par, consumed_entry}
use openauth.Par.{
  par_uri_prefix, ParRequest, ParResponse, param, set_param, unknown_client, credentials_for,
  par_check, par_ttl, pushed, push_params, push_authorization_request,
}

-- What the store answers for the request URI from now on.
pub record IsFetchable (now : ℕ) (ttl : ℕ) (record_of : ParRecord) (uri : String) (s : SessionStore)
    : Type 0 where
  pub first : (t : ℕ) → t < now + ttl → (consume_par t uri s).0 ≡ ok record_of
  pub second :
      (t later : ℕ)
      → (consume_par later uri (consume_par t uri s).1).0 ≡ err (consumed_entry "par" uri)

-- Why a request was taken, and what is kept of it.
pub record IsPushed (platform : Platform) (now : ℕ) (suffix : String) (ttl_ms : Option ℕ)
    (req : ParRequest) (tenant : TenantConfig) (s' : SessionStore) (r : ParResponse) : Type 0 where
  pub client : ClientConfig
  pub registered : find_client tenant req.client_id ≡ some client
  pub authentic : IsAuthentic platform client.type req.client_secret
  pub not_nested : param "request_uri" req.params ≡ none
  pub names : r.request_uri ≡ par_uri_prefix <> suffix
  pub fetchable :
      IsFetchable now
        (par_ttl platform now suffix ttl_ms)
        (pushed platform now suffix ttl_ms req)
        r.request_uri
        s'
  pub owner : param "client_id" (pushed platform now suffix ttl_ms req).params ≡ some req.client_id
  pub kept :
      (k : String)
      → "client_id" ≢ k
      → param k (pushed platform now suffix ttl_ms req).params ≡ param k req.params

param-keep :
    (key k : String) (params : List (String × String))
    → key ≢ k
    → param k (keep (λ e. not (e.0 == key)) params) ≡ param k params
unfolding param
param-keep key k [] ne = refl
param-keep key k ((j, v) ∷ rest) ne =
    let h = param-keep key k rest ne in ground (arith, eq_iff j k, eq_iff j key)

param-set_param :
    (key value k : String) (params : List (String × String))
    → key ≢ k
    → param k (set_param key value params) ≡ param k params
unfolding param set_param
param-set_param key value k params ne =
    let h = param-keep key k params ne in ground (arith, eq_iff key k)

param-set_param_self :
    (key value : String) (params : List (String × String))
    → param key (set_param key value params) ≡ some value
unfolding param set_param
param-set_param_self key value params = rw eq_refl

credentials_for_sound :
    (platform : Platform) (client : ClientConfig) (t : ClientType) (secret : Option String)
    → IsUtf8 platform
    → client.type ≡ t
    → credentials_for platform client t secret ≡ none
    → IsAuthentic platform client.type secret
unfolding credentials_for
credentials_for_sound platform client (confidential h p) secret u e k =
    (verify_client_credentials_iff platform client secret u).0 k
credentials_for_sound platform client public none u e k = rw e refl
credentials_for_sound platform client public (some s) u e k = absurd (cc)

module _ (platform : Platform) (now : ℕ) (suffix : String) (ttl_ms : Option ℕ) (req : ParRequest)
    (tenant : TenantConfig) where
  push_params-IsFetchable :
      (s : SessionStore) (r : ParResponse)
      → (push_params platform now suffix ttl_ms req s).0 ≡ ok r
      → (r.request_uri ≡ par_uri_prefix <> suffix)
        × IsFetchable now
            (par_ttl platform now suffix ttl_ms)
            (pushed platform now suffix ttl_ms req)
            (par_uri_prefix <> suffix)
            (push_params platform now suffix ttl_ms req s).1
  unfolding push_params save_par consume_par
  push_params-IsFetchable s r h = (
    ground arith,
    record {
      first = λ t k. ground (arith, eq_refl (par_uri_prefix <> suffix));
      second = λ t later. ground (arith, eq_refl (par_uri_prefix <> suffix));
    },
  )

  par_check_sound :
      (client : ClientConfig) (s : SessionStore)
      → IsUtf8 platform
      → (par_check platform req client s).0 ≡ ok tt
      → IsAuthentic platform client.type req.client_secret × (param "request_uri" req.params ≡ none)
  unfolding par_check
  par_check_sound client s utf8 h = (
    credentials_for_sound platform client client.type req.client_secret utf8 refl (ground arith),
    ground arith,
  )

  -- Over an encoding that keeps the laws of UTF-8, when a pushed request is taken, the client is
  -- registered and authenticated, the request nests no request_uri, the stored parameters are
  -- those that were sent with the client's own client_id, and the request URI fetches them once
  -- before its lifetime is over and never again.
  pub push_authorization_request-IsPushed :
      (s : SessionStore) (r : ParResponse)
      → IsUtf8 platform
      → (push_authorization_request platform now suffix ttl_ms req tenant s).0 ≡ ok r
      → IsPushed platform now suffix ttl_ms req tenant
          (push_authorization_request platform now suffix ttl_ms req tenant s).1
          r
  unfolding push_authorization_request
  push_authorization_request-IsPushed s r utf8 h =
      let P = λ (s' : SessionStore). IsPushed platform now suffix ttl_ms req tenant s' r in
      after_bind P
        (lift (or_fail (unknown_client req.client_id) (find_client tenant req.client_id)))
        (λ client. par_check platform req client >> push_params platform now suffix ttl_ms req) s r
        h
        λ client found h1.
          after_bind P (par_check platform req client)
            (λ _. push_params platform now suffix ttl_ms req) s r h1
            λ done passed h2.
              let s1 : SessionStore = (par_check platform req client s).1 in
              let (named, fetchable) = push_params-IsFetchable s1 r h2 in
              let (authentic, free) = par_check_sound client s utf8 passed in
              record {
                client = client;
                registered = or_fail-eq-ok _ _ client found;
                authentic = authentic;
                not_nested = free;
                names = named;
                fetchable = rw named fetchable;
                owner = param-set_param_self "client_id" req.client_id req.params;
                kept = λ k ne. param-set_param "client_id" req.client_id k req.params ne;
              }
