-- ===== src/MethodCache/Stores.antt =====
-- What resolving a method leaves alone: all that audits, and entries of the cache, do not change. About packages/openauth/src/domain/method-cache.ts.
use openauth.Prelude.{String, Bool-cases, inl, inr, Option, none, some, ◌==◌, ◌&&◌, ◌≡◌, refl}
use openauth.Types.Error.{Result, ok, err}
use openauth.Types.Effect.Keeps.{Keeps, Keeps-pure, Keeps-fail, keeps_rules}
use openauth.Types.Tenant.{MethodConfig, TenantConfig}
use openauth.Types.Audit.{AuditEvent}
use openauth.Types.Method.{AuthMethod, Parsed, issues, valid, Factory}
use openauth.World.{Env, World, safe_audit}
use openauth.MethodCache.{
  cache_key, checked_method, build_parsed, build_with, build_method, remember, build_and_remember,
  resolve_anew, resolve, looked_up,
}

module _ (env : Env) (factories : String → Option Factory) (P : World → Type 0)
    (audits : (e : AuditEvent) → Keeps P (safe_audit e)) where
  Kept-checked_method :
      (tenant_id : String) (cfg : MethodConfig) (m : AuthMethod)
      → Keeps P (checked_method env factories tenant_id cfg m)
  unfolding checked_method
  Kept-checked_method tenant_id cfg m = elim (Bool-cases (m.id == cfg.id && m.kind == cfg.kind)) [
    | inl e ↦ rw e (Keeps-pure m)
    | inr e ↦ rw e (search (keeps_rules, audits) depth 9)
  ]

  Kept-build_parsed :
      (tenant_id : String) (cfg : MethodConfig) (factory : Factory) (p : Parsed)
      → Keeps P (build_parsed env factories tenant_id cfg factory p)
  unfolding build_parsed
  Kept-build_parsed tenant_id cfg factory (issues path) = search (keeps_rules, audits) depth 9
  Kept-build_parsed tenant_id cfg factory (valid value) =
      search (keeps_rules, Kept-checked_method) depth 9

  Kept-build_with :
      (tenant_id : String) (cfg : MethodConfig) (f : Option Factory)
      → Keeps P (build_with env factories tenant_id cfg f)
  unfolding build_with
  Kept-build_with tenant_id cfg none = search (keeps_rules, audits) depth 9
  Kept-build_with tenant_id cfg (some f) = Kept-build_parsed tenant_id cfg f (f.validate cfg.config)

  pub Kept-build_method :
      (tenant_id : String) (cfg : MethodConfig) → Keeps P (build_method env factories tenant_id cfg)
  unfolding build_method
  Kept-build_method tenant_id cfg = Kept-build_with tenant_id cfg (factories cfg.kind)

module _ (env : Env) (factories : String → Option Factory) (P : World → Type 0)
    (audits : (e : AuditEvent) → Keeps P (safe_audit e))
    (remembers : (key : String) (r : Result AuthMethod) (v : World)
      → P v
      → P (remember env factories key r v).1) where
  Kept-build_and_remember :
      (key tenant_id : String) (cfg : MethodConfig)
      → Keeps P (build_and_remember env factories key tenant_id cfg)
  unfolding build_and_remember
  Kept-build_and_remember key tenant_id cfg = record {
    at = λ v h.
        remembers key (build_method env factories tenant_id cfg v).0
          (build_method env factories tenant_id cfg v).1
          ((Kept-build_method env factories P audits tenant_id cfg).at v h);
  }

  Kept-resolve_anew :
      (tenant : TenantConfig) (method_id : String)
      → Keeps P (resolve_anew env factories tenant method_id)
  unfolding resolve_anew
  Kept-resolve_anew tenant method_id = search (keeps_rules, Kept-build_and_remember) depth 9

  Kept-looked_up :
      (hit : Option AuthMethod) (d : Option (Unit {0})) (tenant : TenantConfig) (method_id : String)
      → Keeps P (looked_up env factories hit d tenant method_id)
  unfolding looked_up
  Kept-looked_up (some hit) d tenant method_id = Keeps-pure hit
  Kept-looked_up none (some d) tenant method_id = Keeps-fail _
  Kept-looked_up none none tenant method_id = Kept-resolve_anew tenant method_id

  pub Kept-resolve :
      (tenant : TenantConfig) (method_id : String)
      → Keeps P (resolve env factories tenant method_id)
  unfolding resolve
  Kept-resolve tenant method_id = record {
    at = λ v h.
        let key = cache_key tenant.id method_id in
        (Kept-looked_up (v.methods.cache key) (v.methods.disabled key) tenant method_id).at v h;
  }

module _ (env : Env) (factories : String → Option Factory) where
  remember-sessions :
      (w : World) (key : String) (r : Result AuthMethod) (v : World)
      → v.sessions ≡ w.sessions
      → (remember env factories key r v).1.sessions ≡ w.sessions
  remember-sessions w key (ok m) v h = h
  remember-sessions w key (err e) v h = h

  pub resolve-sessions :
      (tenant : TenantConfig) (method_id : String) (w : World)
      → (resolve env factories tenant method_id w).1.sessions ≡ w.sessions
  resolve-sessions tenant method_id w =
      (Kept-resolve env factories (λ (v : World). v.sessions ≡ w.sessions)
          (λ e. record { at = λ s h. h }) (remember-sessions w) tenant method_id).at
        w refl
