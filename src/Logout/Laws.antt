-- ===== src/Logout/Laws.antt =====
-- Where a logout sends the user, and what it revokes. About packages/openauth/src/domain/logout.ts.
use openauth.Prelude.{
  String, true, false, Option, none, some, List, ◌⊎◌, inl, inr, ◌==◌, ◌≡◌, ◌≢◌, ◌∙◌, refl, sym, ap,
  arith, eq_iff, includes, if◌then◌else◌, Option-cases, Bool-cases,
}
use mathlib.Core.Path.{subst}
use openauth.Types.Error.{ok, err, and_then-eq-ok, passed, Result-cases}
use openauth.Types.Effect.{lift, bind-eq-ok, after_bind}
use openauth.Types.Tenant.{ClientConfig, TenantConfig, find_client}
use openauth.Types.Method.{TenantContext}
use openauth.World.{Env, World, SigningKey}
use openauth.TokenStore.{StoredRefresh, refresh_unknown}
use openauth.Refresh.{RefreshGrantRequest, refresh_tokens}
use openauth.Revoke.{revoke_all_for_subject}
use openauth.Revoke.Laws.{refresh_tokens-unknown, revoked_rows}
use openauth.Logout.{
  RedirectUrl, EndSessionRequest, EndSessionOutput, redirect, Hint, presented_hint, logout_check,
  revoke_hinted, end_session, agreement, resolved_client_id, resolve_client, redirect_check, answer,
  hint_of,
}

-- What the request's hint tells: nothing where it has none, or an empty one, and otherwise the subject
-- and the audience of an id_token that verifies under the signing keys and the issuer.
pub data IsPresented (env : Env) (req : EndSessionRequest) : Hint → Type 0 where
  absent :
      req.id_token_hint ≡ none → IsPresented env req (record { subject = none; audience = none })
  blank :
      req.id_token_hint ≡ some "" → IsPresented env req (record { subject = none; audience = none })
  valid :
      (token : String) (keys : List SigningKey) (subject audience : String)
      → req.id_token_hint ≡ some token
      → env.keys.signing_keys ≡ ok keys
      → env.jose.verify_id_token token keys
          (if env.issuer_url == "" then none else some env.issuer_url)
        ≡ inr (subject, audience)
      → IsPresented env req (record { subject = some subject; audience = some audience })

-- `url` is the registered URI that the request asked for, of the client that it identified.
pub record IsRedirected (redirect_url : RedirectUrl) (req : EndSessionRequest)
    (tenant : TenantContext) (hint : Hint) (url : String) : Type 0 where
  pub uri : String
  pub id : String
  pub client : ClientConfig
  pub asked : req.post_logout_redirect_uri ≡ some uri
  pub identified : (elim req.client_id [ none ↦ hint.audience | some i ↦ some i ]) ≡ some id
  -- a hint's audience is that client
  pub agreed : (audience : String) → hint.audience ≡ some audience → audience ≢ "" → id ≡ audience
  pub known : find_client tenant.config id ≡ some client
  pub registered : includes client.post_logout_redirect_uris uri ≡ true
  pub built : redirect_url uri req.state ≡ some url

resolved_client_id_lem :
    (o audience : Option String)
    → resolved_client_id o audience ≡ (elim o [ none ↦ audience | some i ↦ some i ])
resolved_client_id_lem none audience = refl
resolved_client_id_lem (some i) audience = refl

resolve_client_sound :
    (tenant : TenantConfig) (o : Option String) (client : ClientConfig)
    → resolve_client tenant o ≡ ok (some client)
    → (id : String) × (o ≡ some id) × ((id == "") ≡ false) × (find_client tenant id ≡ some client)
resolve_client_sound tenant none client h = absurd (cc)
resolve_client_sound tenant (some id) client h = (id, refl, ground arith, ground arith)

answer_sound :
    (redirect_url : RedirectUrl) (o state subject : Option String) (url : String)
    → answer redirect_url o state subject ≡ ok (redirect url)
    → (uri : String) × (o ≡ some uri) × ((uri == "") ≡ false) × (redirect_url uri state ≡ some url)
answer_sound redirect_url none state subject url h = absurd (cc)
answer_sound redirect_url (some uri) state subject url h = (uri, refl, ground arith, ground arith)

redirect_check_sound :
    (uri : String) (o : Option ClientConfig)
    → (uri == "") ≡ false
    → passed (redirect_check (some uri) o) ≡ ok tt
    → (client : ClientConfig) × (o ≡ some client)
      × (includes client.post_logout_redirect_uris uri ≡ true)
redirect_check_sound uri none ne h = absurd (ground arith)
redirect_check_sound uri (some client) ne h = (client, refl, ground arith)

agreement_sound :
    (o : Option String) (id audience : String)
    → passed (agreement o (some audience)) ≡ ok tt
    → resolved_client_id o (some audience) ≡ some id
    → (id == "") ≡ false
    → audience ≢ ""
    → id ≡ audience
agreement_sound none id audience h r ne full = ground arith
agreement_sound (some i) id audience h r ne full =
    ground (arith, eq_iff i audience, eq_iff audience "")

module _ (env : Env) (redirect_url : RedirectUrl) (req : EndSessionRequest)
    (tenant : TenantContext) where
  hint_of_sound :
      (token : String) (keys : List SigningKey) (v : String ⊎ (String × String)) (hint : Hint)
      → req.id_token_hint ≡ some token
      → env.keys.signing_keys ≡ ok keys
      → env.jose.verify_id_token token keys
          (if env.issuer_url == "" then none else some env.issuer_url)
        ≡ v
      → hint_of v ≡ ok hint
      → IsPresented env req hint
  hint_of_sound token keys (inl reason) hint e k v h = absurd (cc)
  hint_of_sound token keys (inr (subject, audience)) hint e k v h =
      subst (IsPresented env req) (ground arith) (valid token keys subject audience e k v)

  presented_hint-IsPresented :
      (hint : Hint)
      → presented_hint env redirect_url req tenant ≡ ok hint
      → IsPresented env req hint
  unfolding presented_hint
  presented_hint-IsPresented hint h = elim (Option-cases req.id_token_hint) [
    | inl e ↦ subst (IsPresented env req) (ground arith) (absent e)
    | inr (token, e) ↦ elim (Bool-cases (token == "")) [
      | inl b ↦
          subst (IsPresented env req) (ground arith) (blank (e ∙ ap some ((eq_iff token "").0 b)))
      | inr b ↦ elim (Result-cases env.keys.signing_keys) [
        | inl (keys, k) ↦ hint_of_sound token keys _ hint e k refl (ground arith)
        | inr (x, k) ↦ absurd (ground arith)
      ]
    ]
  ]

  -- What the checks before a redirect establish.
  logout_check_sound :
      (hint : Hint)
      → logout_check env redirect_url req tenant ≡ ok hint
      → (found : Option ClientConfig) × (presented_hint env redirect_url req tenant ≡ ok hint)
        × (passed (agreement req.client_id hint.audience) ≡ ok tt)
        × (resolve_client tenant.config (resolved_client_id req.client_id hint.audience) ≡ ok found)
        × (passed (redirect_check req.post_logout_redirect_uri found) ≡ ok tt)
  unfolding logout_check
  logout_check_sound hint h =
      let (x, is_presented, h1) =
        and_then-eq-ok (presented_hint env redirect_url req tenant) _ hint h in
      let (u, agrees, h2) =
        and_then-eq-ok (passed (agreement req.client_id x.audience)) _ hint h1 in
      let (found, resolves, h3) =
        and_then-eq-ok (resolve_client tenant.config (resolved_client_id req.client_id x.audience))
          _ hint h2 in
      let (v, allows, h4) =
        and_then-eq-ok (passed (redirect_check req.post_logout_redirect_uri found)) _ hint h3 in
      let same : x ≡ hint = ground arith in
      (found, cc, rw (← same) agrees, rw (← same) resolves, allows)

  checked-IsRedirected :
      (hint : Hint) (found : Option ClientConfig) (uri url : String)
      → passed (agreement req.client_id hint.audience) ≡ ok tt
      → resolve_client tenant.config (resolved_client_id req.client_id hint.audience) ≡ ok found
      → passed (redirect_check req.post_logout_redirect_uri found) ≡ ok tt
      → req.post_logout_redirect_uri ≡ some uri
      → (uri == "") ≡ false
      → redirect_url uri req.state ≡ some url
      → IsRedirected redirect_url req tenant hint url
  checked-IsRedirected hint found uri url agrees resolves allows asked ne built =
      let (client, is_found, registered) =
        redirect_check_sound uri found ne (rw (← asked) allows) in
      let (id, identified, full, known) =
        resolve_client_sound tenant.config (resolved_client_id req.client_id hint.audience) client
          (rw (← is_found) resolves) in
      record {
        uri = uri;
        id = id;
        client = client;
        asked = asked;
        identified = sym (resolved_client_id_lem req.client_id hint.audience) ∙ identified;
        agreed = λ audience e some_text.
            agreement_sound req.client_id id audience (rw (← e) agrees) (rw (← e) identified) full
              some_text;
        known = known;
        registered = registered;
        built = built;
      }

  -- When endSession answers with a redirect, the request's hint, if it has one that is not empty,
  -- verified under the signing keys and the issuer, and the URL is built from the requested URI
  -- and state, a URI that is registered for logouts of the known client that the client_id, or
  -- else the hint's audience, names; a non-empty audience of the hint is that client.
  pub end_session-IsRedirected :
      (w : World) (url : String)
      → (end_session env redirect_url req tenant w).0 ≡ ok (redirect url)
      → (hint : Hint) × IsPresented env req hint × IsRedirected redirect_url req tenant hint url
  unfolding end_session
  end_session-IsRedirected w url h =
      let (hint, checked, rest) =
        bind-eq-ok (lift (logout_check env redirect_url req tenant)) _ w (redirect url) h in
      let (u, revoked, rest2) =
        bind-eq-ok (revoke_hinted env redirect_url req tenant hint.subject) _ w (redirect url)
          rest in
      let (uri, asked, ne, built) =
        answer_sound redirect_url req.post_logout_redirect_uri req.state hint.subject url rest2 in
      let (found, presented, agrees, resolves, allows) = logout_check_sound hint checked in
      (
        hint,
        presented_hint-IsPresented hint presented,
        checked-IsRedirected hint found uri url agrees resolves allows asked ne built,
      )

  -- What revokeAllForSubject leaves is what endSession leaves of the token store.
  end_session-tokens :
      (w : World) (out : EndSessionOutput) (hint : Hint) (subject : String)
      → (end_session env redirect_url req tenant w).0 ≡ ok out
      → presented_hint env redirect_url req tenant ≡ ok hint
      → hint.subject ≡ some subject
      → subject ≢ ""
      → (end_session env redirect_url req tenant w).1.tokens
        ≡ (revoke_all_for_subject env tenant.id subject w).1.tokens
  unfolding end_session revoke_hinted revoke_all_for_subject
  end_session-tokens w out hint subject h p s full =
      after_bind
        (λ (w1 : World). w1.tokens ≡ (revoke_all_for_subject env tenant.id subject w).1.tokens)
        (lift (logout_check env redirect_url req tenant)) _ w out h
        (λ x checked rest.
          let (found, presented, agrees, resolves, allows) = logout_check_sound x checked in
          let same : x ≡ hint = ground arith in
          let named : x.subject ≡ some subject = cc in rw named (ground (arith, eq_iff subject "")))

  -- After endSession succeeded with a verified hint that names a subject, a stored refresh token
  -- of that subject in that tenant is unknown to every later refresh, and a token of another
  -- subject is as it was.
  pub refresh_tokens-end_session :
      (w : World) (out : EndSessionOutput) (hint : Hint) (subject : String) (later : Env)
      (asked : RefreshGrantRequest) (stored : StoredRefresh) (other : String) (kept : StoredRefresh)
      → (end_session env redirect_url req tenant w).0 ≡ ok out
      → presented_hint env redirect_url req tenant ≡ ok hint
      → hint.subject ≡ some subject
      → subject ≢ ""
      → w.tokens.refresh asked.refresh_token ≡ some stored
      → stored.payload.tenant_id ≡ tenant.id
      → stored.payload.subject_id ≡ subject
      → w.tokens.refresh other ≡ some kept
      → kept.payload.subject_id ≢ subject
      → let w1 = (end_session env redirect_url req tenant w).1 in
        (refresh_tokens later asked w1 ≡ (err refresh_unknown, w1))
        × (w1.tokens.refresh other ≡ some kept)
  refresh_tokens-end_session w out hint subject later asked stored other kept h p s full held t own
        k ne =
      let w1 = (end_session env redirect_url req tenant w).1 in
      let revoked = end_session-tokens w out hint subject h p s full in
      let (gone, stays) =
        revoked_rows env w asked.refresh_token stored tenant.id subject other kept held t own k
          ne in
      (refresh_tokens-unknown later asked w1 (rw revoked gone), rw revoked stays)
