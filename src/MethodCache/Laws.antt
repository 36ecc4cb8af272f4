-- ===== src/MethodCache/Laws.antt =====
-- What the cache holds, and what it remembers of failures. About
-- packages/openauth/src/domain/method-cache.ts.
use mathlib.Core.Path.{subst}
use openauth.Prelude.{
  String, true, Option, none, some, ◌==◌, ◌≡◌, refl, sym, ap, ◌∙◌, arith, eq_iff, find, find_sound,
  put_self,
}
use openauth.Types.Error.{Result, ok, err, or_fail, or_fail-eq-ok}
use openauth.Types.Effect.{◌>>◌, lift, require, after_bind, bind-eq-ok}
use openauth.Types.Tenant.{MethodConfig, TenantConfig}
use openauth.Types.Method.{AuthMethod, Parsed, issues, valid, Factory}
use openauth.World.{Env, World}
use openauth.MethodCache.{
  cache_key, not_configured, not_enabled, build_threw, checked_method, build_parsed, build_with,
  build_method, remember, build_and_remember, resolve_anew, looked_up, resolve,
}

module _ (env : Env) (factories : String → Option Factory) where
  -- A method that was built has the id and the kind of its configuration.
  abbrev IsFor : MethodConfig → AuthMethod → Type 0
  IsFor cfg m = (m.id ≡ cfg.id) × (m.kind ≡ cfg.kind)

  checked_method_sound :
      (tenant_id : String) (cfg : MethodConfig) (a m : AuthMethod) (w : World)
      → (checked_method env factories tenant_id cfg a w).0 ≡ ok m
      → IsFor cfg m
  unfolding checked_method
  checked_method_sound tenant_id cfg a m w h =
      let same : a ≡ m = ground arith in
      subst (IsFor cfg) same
        (ground (arith, eq_iff a.id cfg.id), ground (arith, eq_iff a.kind cfg.kind))

  build_parsed_sound :
      (tenant_id : String) (cfg : MethodConfig) (f : Factory) (p : Parsed) (m : AuthMethod)
      (w : World)
      → (build_parsed env factories tenant_id cfg f p w).0 ≡ ok m
      → IsFor cfg m
  unfolding build_parsed
  build_parsed_sound tenant_id cfg f (issues path) m w h = absurd (cc)
  build_parsed_sound tenant_id cfg f (valid value) m w h =
      let (a, built, h1) =
        bind-eq-ok (lift (or_fail (build_threw cfg) (f.build cfg.id cfg.kind tenant_id value)))
          (checked_method env factories tenant_id cfg) w m h in
      checked_method_sound tenant_id cfg a m w h1

  build_with_sound :
      (tenant_id : String) (cfg : MethodConfig) (f : Option Factory) (m : AuthMethod) (w : World)
      → (build_with env factories tenant_id cfg f w).0 ≡ ok m
      → IsFor cfg m
  unfolding build_with
  build_with_sound tenant_id cfg none m w h = absurd (cc)
  build_with_sound tenant_id cfg (some f) m w h =
      build_parsed_sound tenant_id cfg f (f.validate cfg.config) m w h

  build_method_sound :
      (tenant_id : String) (cfg : MethodConfig) (m : AuthMethod) (w : World)
      → (build_method env factories tenant_id cfg w).0 ≡ ok m
      → IsFor cfg m
  unfolding build_method
  build_method_sound tenant_id cfg m w h = build_with_sound tenant_id cfg (factories cfg.kind) m w h

  remember-hit :
      (key : String) (r : Result AuthMethod) (w : World) (m : AuthMethod)
      → (remember env factories key r w).0 ≡ ok m
      → ((remember env factories key r w).1.methods.cache key ≡ some m) × (r ≡ ok m)
  remember-hit key (ok a) w m h =
      let same : a ≡ m = ground arith in (put_self w.methods.cache key a ∙ ap some same, ap ok same)
  remember-hit key (err e) w m h = absurd (cc)

  build_and_remember-hit :
      (key tenant_id : String) (cfg : MethodConfig) (m : AuthMethod) (w : World)
      → (build_and_remember env factories key tenant_id cfg w).0 ≡ ok m
      → ((build_and_remember env factories key tenant_id cfg w).1.methods.cache key ≡ some m)
        × ((build_method env factories tenant_id cfg w).0 ≡ ok m)
  unfolding build_and_remember
  build_and_remember-hit key tenant_id cfg m w h =
      remember-hit key (build_method env factories tenant_id cfg w).0
        (build_method env factories tenant_id cfg w).1 m h

  -- From the configuration, where the cache has nothing.
  pub record IsConfigured (tenant : TenantConfig) (method_id : String) (m : AuthMethod)
      : Type 0 where
    pub cfg : MethodConfig
    pub configured : find (λ c. c.id == method_id) tenant.methods ≡ some cfg
    pub enabled : cfg.enabled ≡ true
    pub id : m.id ≡ method_id
    pub kind : m.kind ≡ cfg.kind

  resolve_anew_sound :
      (tenant : TenantConfig) (method_id : String) (m : AuthMethod) (w : World)
      → (resolve_anew env factories tenant method_id w).0 ≡ ok m
      → IsConfigured tenant method_id m
        × ((resolve_anew env factories tenant method_id w).1.methods.cache
              (cache_key tenant.id method_id)
            ≡ some m)
  unfolding resolve_anew
  resolve_anew_sound tenant method_id m w h =
      let key = cache_key tenant.id method_id in
      let P = λ (w' : World). IsConfigured tenant method_id m × (w'.methods.cache key ≡ some m) in
      after_bind P
        (lift (or_fail (not_configured method_id) (find (λ c. c.id == method_id) tenant.methods)))
        (λ cfg.
          require cfg.enabled (not_enabled method_id)
          >> build_and_remember env factories key tenant.id cfg)
        w m h
        λ cfg found h1.
          after_bind P (require cfg.enabled (not_enabled method_id))
            (λ _. build_and_remember env factories key tenant.id cfg) w m h1
            λ done passed h2.
              let w1 : World = (require {S = World} cfg.enabled (not_enabled method_id) w).1 in
              let (kept, built) = build_and_remember-hit key tenant.id cfg m w1 h2 in
              let (id, kind) = build_method_sound tenant.id cfg m (w1) built in
              let in_config = or_fail-eq-ok _ _ cfg found in
              (
                record {
                  cfg = cfg;
                  configured = in_config;
                  enabled = ground arith;
                  id =
                      id
                      ∙ (eq_iff cfg.id method_id).0 (
                          find_sound (λ (c : MethodConfig). c.id == method_id) tenant.methods cfg
                            in_config);
                  kind = kind;
                },
                kept,
              )

  looked_up_sound :
      (hit : Option AuthMethod) (d : Option (Unit {0})) (tenant : TenantConfig) (method_id : String)
      (m : AuthMethod) (w : World)
      → hit ≡ w.methods.cache (cache_key tenant.id method_id)
      → (looked_up env factories hit d tenant method_id w).0 ≡ ok m
      → (looked_up env factories hit d tenant method_id w).1.methods.cache
          (cache_key tenant.id method_id)
        ≡ some m
  unfolding looked_up
  looked_up_sound (some a) d tenant method_id m w e h = sym e ∙ ground arith
  looked_up_sound none (some x) tenant method_id m w e h = absurd (cc)
  looked_up_sound none none tenant method_id m w e h = (resolve_anew_sound tenant method_id m w h).1

  looked_up-hit :
      (hit : Option AuthMethod) (d : Option (Unit {0})) (tenant : TenantConfig) (method_id : String)
      (m : AuthMethod) (w : World)
      → hit ≡ some m
      → looked_up env factories hit d tenant method_id w ≡ (ok m, w)
  unfolding looked_up
  looked_up-hit none d tenant method_id m w e = absurd (cc)
  looked_up-hit (some a) d tenant method_id m w e = ground arith

  -- A method that was resolved is resolved again as itself, with no change, for any configuration
  -- of the tenant with that id.
  pub resolve-resolve :
      (tenant later : TenantConfig) (method_id : String) (m : AuthMethod) (w : World)
      → later.id ≡ tenant.id
      → (resolve env factories tenant method_id w).0 ≡ ok m
      → resolve env factories later method_id (resolve env factories tenant method_id w).1
        ≡ (ok m, (resolve env factories tenant method_id w).1)
  unfolding resolve
  resolve-resolve tenant later method_id m w e h =
      let key = cache_key tenant.id method_id in
      let w1 : World =
        (looked_up env factories (w.methods.cache key) (w.methods.disabled key) tenant method_id
          w).1 in
      let kept =
        looked_up_sound (w.methods.cache key) (w.methods.disabled key) tenant method_id m w refl
          h in
      looked_up-hit (w1.methods.cache (cache_key later.id method_id))
        (w1.methods.disabled (cache_key later.id method_id)) later method_id m w1
        (ap (λ i. w1.methods.cache (cache_key i method_id)) e ∙ kept)

  looked_up-IsConfigured :
      (hit : Option AuthMethod) (d : Option (Unit {0})) (tenant : TenantConfig) (method_id : String)
      (m : AuthMethod) (w : World)
      → hit ≡ none
      → (looked_up env factories hit d tenant method_id w).0 ≡ ok m
      → IsConfigured tenant method_id m
  unfolding looked_up
  looked_up-IsConfigured (some a) d tenant method_id m w e h = absurd (cc)
  looked_up-IsConfigured none (some x) tenant method_id m w e h = absurd (cc)
  looked_up-IsConfigured none none tenant method_id m w e h =
      (resolve_anew_sound tenant method_id m w h).0

  -- A method that is resolved where the cache has nothing for it is configured for the tenant
  -- under that id and enabled, and has the id asked for and the kind of its configuration.
  pub resolve-IsConfigured :
      (tenant : TenantConfig) (method_id : String) (m : AuthMethod) (w : World)
      → w.methods.cache (cache_key tenant.id method_id) ≡ none
      → (resolve env factories tenant method_id w).0 ≡ ok m
      → IsConfigured tenant method_id m
  unfolding resolve
  resolve-IsConfigured tenant method_id m w e h =
      looked_up-IsConfigured (w.methods.cache (cache_key tenant.id method_id))
        (w.methods.disabled (cache_key tenant.id method_id)) tenant method_id m w e h
