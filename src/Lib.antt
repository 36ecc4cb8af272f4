-- ===== src/Lib.antt =====
-- The flow and token core of openauth, an OAuth 2.1 and OpenID Connect identity provider for many
-- tenants. /authorize (domain/authorize.ts) checks a relying party's request, saves a flow in the session
-- store and hands a signed state to the authentication method that is to be used. The user comes back
-- through the upstream provider's callback (domain/callback.ts) or through a route of the method
-- (domain/method-route.ts). A flow that ends in success is consumed, and its snapshot is saved,
-- encrypted, as an authorization code in the token store. A client redeems the code at the token endpoint
-- (domain/token.ts), which authenticates the client, checks redirect URI, PKCE and DPoP, asks the host for
-- the subject of the user, and mints an access token, a refresh token and an id_token. Refresh tokens
-- rotate (domain/refresh.ts), are revoked (domain/revoke.ts), and a resource server asks about access
-- tokens by introspection (domain/introspect.ts).
--
-- Paths below are under packages/openauth/src.
-- - Prelude: library names passed on; the list, map and string functions of JavaScript that are used.
-- - Types: types/error.ts and result.ts (Error), tenant.ts and the config port (Tenant), token.ts and the
--   claims of subject.ts and authorization.ts (Token), flow.ts and the records of the session port
--   (Flow), method.ts (Method), ports/audit-log.ts (Audit), JSON values (Json).
--   Types.Effect has requests with state: a function from the state to a result and the new state, so
--   that what was written before a failure stays written. `await` is sequencing.
-- - TokenStore: adapters/memory/token-store.ts. Each method is one turn of the event loop and one
--   function; `Map` is a function from keys to optional rows. Codes, Refresh, Revocation and Jtis have
--   laws of the methods, Runs every sequence of calls.
-- - SessionStore: adapters/memory/session-store.ts in the same way. Ideal is its specification, Refines
--   compares the two over sequences of calls, Once counts what is consumed.
-- - StateEnvelope: domain/state-envelope.ts. Mount: domain/mount.ts, and normalizePath of callback.ts.
-- - Crypto, ClientAuth, Pkce, Subject, IdToken: domain/crypto.ts (the comparison), client-auth.ts,
--   pkce.ts, subject.ts and id-token.ts.
-- - World: what a request is given, as the record Env (platform, jose, keys, configuration, host, clock,
--   the random values it draws), and the state behind the ports, as the record World.
-- - MethodCache: domain/method-cache.ts; its two maps are part of the World. MethodDispatch:
--   domain/method-dispatch.ts. A handler is the tree of the calls that it makes of its scratch store, so
--   that running it terminates; what else it does to the outside is not seen.
-- - Flow: what authorize.ts, callback.ts and method-route.ts share: the deps of a request, the snapshot of
--   a flow and the code that it is saved under; RoundTrip goes on to the exchange of that code.
-- - Authorize, Callback, MethodRoute, Par: domain/authorize.ts, callback.ts, method-route.ts, par.ts.
-- - Token: domain/token.ts: SubjectId (deriveSubjectId), Mint (mintTokens), Exchange (exchangeCode and
--   saveEncryptedCode).
-- - Refresh, Revoke, Logout, ClientCredentials, Dpop, Introspect, Userinfo: domain/refresh.ts, revoke.ts,
--   logout.ts (the end of a session, which revokes what the subject of a hint holds),
--   client-credentials.ts (a grant without a user, for an access token only), dpop.ts, introspect.ts and
--   userinfo.ts (what the bearer of an access token is told of its subject).
-- - TokenExchange: domain/token-exchange.ts, an access token of one tenant for tokens of another.
-- - Scim.Filter: domain/scim/filter.ts. Scan has its passes over the text and its regular expressions,
--   Terms the filters of types/scim.ts; Print writes filters, for the round trip.
-- - CodeMethod: methods/code.ts, the method that sends a code and asks for it back. Codes has the codes,
--   Destination where they go, State what the flow keeps; a handler takes the random bytes of its request
--   and says what the hook that delivers is called with. Pages: ui/forms.ts, the forms it renders.
-- - Tests: concrete inputs that satisfy the hypotheses of the theorems.
--
-- Web Crypto, jose and the host's callbacks are parameters (Platform, Jose, DpopJose, Host); where they
-- throw they answer `none`, `false` or the thrown text. In the flow modules a promise that is rejected
-- is the error `rejected_promise`. URL parsing, base64url, HMAC and JSON are parameters there
-- (ParseUrl, RedirectUrl, StateCrypto, Request), and the session store has all of its optional
-- operations. The theorems that compare secrets assume of the text encoder that it makes bytes and is
-- injective (IsUtf8). domain/jwt.ts, a layer over jose, is part of the parameter Jose. A request reads its
-- clock once, and its times and lifetimes are natural numbers; a number of JSON that is no natural number
-- is not modelled. Strings are lists of code points. Every loop is structural recursion; `decimal` prints
-- at most 20 digits, more than a safe integer has, and `to_decimal` divides by ten on fuel above the
-- number, which is more than the number of its digits.
--
-- Not modelled: of the flow, the resolution of the tenant, which the HTTP layer does before, and the
-- anonymous public routes of a method with upstream logout; the remaining endpoints (registration,
-- discovery), SCIM but for its filters, the HTTP layer, the authentication methods but for the magic
-- codes, the adapters for outside stores, the picker of methods and the relying party's client.
pub mod Prelude
pub mod Types
pub mod TokenStore
pub mod SessionStore
pub mod StateEnvelope
pub mod Crypto
pub mod ClientAuth
pub mod Pkce
pub mod Subject
pub mod IdToken
pub mod World
pub mod MethodCache
pub mod Mount
pub mod MethodDispatch
pub mod Token
pub mod TokenExchange
pub mod Refresh
pub mod Revoke
pub mod ClientCredentials
pub mod Flow
pub mod Authorize
pub mod Callback
pub mod CodeMethod
pub mod Logout
pub mod Pages
pub mod Par
pub mod Scim
pub mod MethodRoute
pub mod Dpop
pub mod Userinfo
pub mod Introspect
pub mod Tests
