-- ===== src/MethodCache.antt =====
-- packages/openauth/src/domain/method-cache.ts: methods are built from their configuration once, and
-- kept by tenant and method id.
pub mod Stores
pub mod Laws
pub mod Failed
use openauth.Prelude.{
  String, Bool, true, false, not, ◌&&◌, ◌||◌, Option, none, some, List, [], ◌∷◌, ◌==◌, ◌<>◌,
  is_some, find, if◌then◌else◌, Dict, put, remove, remove_keys, starts_with,
}
use openauth.Types.Error.{AuthError, Result, ok, err, or_fail, method_not_found, internal_error}
use openauth.Types.Effect.{Exec, pure, fail, lift, attempt, require, ◌>>=◌, ◌>>◌}
use openauth.Types.Json.{Json}
use openauth.Types.Tenant.{MethodConfig, TenantConfig}
use openauth.Types.Audit.{unknown_method_kind, invalid_method_config, factory_id_mismatch}
use openauth.Types.Method.{AuthMethod, Parsed, issues, valid, Factory}
use openauth.World.{Env, Methods, World, safe_audit}

abbrev pub cache_key : String → String → String
cache_key tenant_id method_id = tenant_id <> ("\0" <> method_id)

-- The texts of the errors.
abbrev pub not_found : String → MethodConfig → AuthError
not_found text cfg = method_not_found text (some cfg.id) (some cfg.kind)

unfoldable pub known_disabled : String → AuthError
known_disabled id =
    method_not_found ("method \"" <> (id <> "\" is disabled or has invalid config")) (some id) none

unfoldable pub not_configured : String → AuthError
not_configured id = method_not_found ("method \"" <> (id <> "\" not configured")) (some id) none

unfoldable pub not_enabled : String → AuthError
not_enabled id = method_not_found ("method \"" <> (id <> "\" is disabled")) (some id) none

unfoldable pub no_factory : MethodConfig → AuthError
no_factory cfg = not_found ("no factory registered for kind \"" <> (cfg.kind <> "\"")) cfg

unfoldable pub invalid_config : MethodConfig → AuthError
invalid_config cfg =
    not_found ("invalid method config for \"" <> (cfg.id <> ("\" (kind \"" <> (cfg.kind <> "\")"))))
      cfg

unfoldable pub build_threw : MethodConfig → AuthError
build_threw cfg =
    internal_error
      ("factory \"" <> (cfg.kind <> ("\" build threw for instance \"" <> (cfg.id <> "\""))))

unfoldable pub id_mismatch : MethodConfig → AuthMethod → AuthError
id_mismatch cfg m = internal_error (
    "factory \""
    <> (cfg.kind
        <> ("\" returned AuthMethod with id/kind "
            <> (m.id <> ("/" <> (m.kind <> ("; expected " <> (cfg.id <> ("/" <> cfg.kind)))))))))

-- `factories[cfg.kind]`, and the rest of the surroundings.
module _ (env : Env) (factories : String → Option Factory) where
  -- `{ id, kind }` must be those that were asked for
  checked_method : String → MethodConfig → AuthMethod → Exec World AuthMethod
  checked_method tenant_id cfg m = if m.id == cfg.id && m.kind == cfg.kind then pure m else do
    safe_audit (factory_id_mismatch tenant_id cfg.id cfg.kind m.kind env.now)
    fail (id_mismatch cfg m)

  build_parsed : String → MethodConfig → Factory → Parsed → Exec World AuthMethod
  unfolding checked_method
  build_parsed tenant_id cfg factory (issues path) = do
    safe_audit (invalid_method_config tenant_id cfg.id cfg.kind path env.now)
    fail (invalid_config cfg)
  build_parsed tenant_id cfg factory (valid value) = do
    m ← lift (or_fail (build_threw cfg) (factory.build cfg.id cfg.kind tenant_id value))
    checked_method tenant_id cfg m

  build_with : String → MethodConfig → Option Factory → Exec World AuthMethod
  unfolding build_parsed
  build_with tenant_id cfg none = do
    safe_audit (unknown_method_kind tenant_id cfg.id cfg.kind env.now)
    fail (no_factory cfg)
  build_with tenant_id cfg (some factory) =
      build_parsed tenant_id cfg factory (factory.validate cfg.config)

  unfoldable pub build_method : String → MethodConfig → Exec World AuthMethod
  unfolding build_with
  build_method tenant_id cfg = build_with tenant_id cfg (factories cfg.kind)

  -- `this.#cache.set(…)` or `this.#disabled.add(…)`
  abbrev pub remember : String → Result AuthMethod → World → Result AuthMethod × World
  remember key (ok m) w =
      (ok m, record w { methods = record (w.methods) { cache = put w.methods.cache key m } })
  remember key (err e) w = (
    err e,
    record w { methods = record (w.methods) { disabled = put w.methods.disabled key tt } },
  )

  unfoldable pub build_and_remember : String → String → MethodConfig → Exec World AuthMethod
  build_and_remember key tenant_id cfg w =
      remember key (build_method tenant_id cfg w).0 (build_method tenant_id cfg w).1

  -- Not in the cache, and not known to be disabled.
  unfoldable pub resolve_anew : TenantConfig → String → Exec World AuthMethod
  resolve_anew tenant method_id = do
    cfg ← lift (or_fail (not_configured method_id) (find (λ m. m.id == method_id) tenant.methods))
    require cfg.enabled (not_enabled method_id)
    build_and_remember (cache_key tenant.id method_id) tenant.id cfg

  -- What the cache and the set of disabled instances say.
  looked_up : Option AuthMethod → Option (Unit {0}) → TenantConfig → String → Exec World AuthMethod
  looked_up (some hit) d tenant method_id = pure hit
  looked_up none (some d) tenant method_id = fail (known_disabled method_id)
  looked_up none none tenant method_id = resolve_anew tenant method_id

  unfoldable pub resolve : TenantConfig → String → Exec World AuthMethod
  unfolding looked_up
  resolve tenant method_id w =
      let key = cache_key tenant.id method_id in
      looked_up (w.methods.cache key) (w.methods.disabled key) tenant method_id w

  and_available : Exec World (List AuthMethod) → Result AuthMethod → Exec World (List AuthMethod)
  and_available rest (err e) = rest
  and_available rest (ok m) = do ms ← rest; pure (m ∷ ms)

  -- `listAvailable`
  unfoldable pub list_available : TenantConfig → List MethodConfig → Exec World (List AuthMethod)
  unfolding and_available
  list_available tenant [] = pure []
  list_available tenant (cfg ∷ cfgs) =
      let rest = list_available tenant cfgs in
      if cfg.enabled then attempt (resolve tenant cfg.id) >>= and_available rest else rest

unfoldable pub invalidate : String → Option String → Methods → Methods
invalidate tenant_id (some method_id) s = record {
  cache = remove s.cache (cache_key tenant_id method_id);
  disabled = remove s.disabled (cache_key tenant_id method_id);
}
invalidate tenant_id none s = record {
  cache = remove_keys s.cache (starts_with (tenant_id <> "\0"));
  disabled = remove_keys s.disabled (starts_with (tenant_id <> "\0"));
}
