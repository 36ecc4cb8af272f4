-- ===== src/MethodCache/Failed.antt =====
-- What is remembered of a method that could not be built, and for how long. About
-- packages/openauth/src/domain/method-cache.ts.
use Prim.Native.String.append
use text.Mathlib.TextLemmas.{append_assoc}
use openauth.Prelude.{
  String, Bool, true, false, Option, none, some, ◌<>◌, ◌==◌, ◌≡◌, refl, sym, ap, ◌∙◌, arith, find,
  put_self, starts_with,
}
use openauth.Types.Error.{AuthError, Result, ok, err}
use openauth.Types.Effect.{Exec, require, ◌>>◌}
use openauth.MethodCache.Stores.{Kept-build_method}
use openauth.Types.Tenant.{MethodConfig, TenantConfig}
use openauth.Types.Method.{AuthMethod, Factory}
use openauth.World.{Env, Methods, World}
use openauth.MethodCache.{
  cache_key, not_enabled, known_disabled, build_method, remember, build_and_remember, resolve_anew,
  looked_up, resolve, invalidate,
}

starts_with-append : (p s : String) → starts_with p (p <> s) ≡ true
unfolding starts_with
starts_with-append String.[] s = refl
starts_with-append (String.◌∷◌ c p) s =
    let rest = starts_with-append p s in rw append.cons (ground (arith, rest))

starts_with-cache_key :
    (tenant_id method_id : String)
    → starts_with (tenant_id <> "\0") (cache_key tenant_id method_id) ≡ true
starts_with-cache_key tenant_id method_id =
    ap (starts_with (tenant_id <> "\0")) (sym (append_assoc tenant_id "\0" method_id))
    ∙ starts_with-append (tenant_id <> "\0") method_id

passed :
    (b : Bool) (e : AuthError) (m : Exec World AuthMethod) (w : World)
    → b ≡ true
    → (require b e >> m) w ≡ m w
passed true e m w h = refl
passed false e m w h = absurd (cc)

module _ (env : Env) (factories : String → Option Factory) (tenant : TenantConfig)
    (method_id : String) where
  looked_up-anew :
      (hit : Option AuthMethod) (d : Option (Unit {0})) (w : World)
      → hit ≡ none
      → d ≡ none
      → looked_up env factories hit d tenant method_id w
        ≡ resolve_anew env factories tenant method_id w
  unfolding looked_up
  looked_up-anew none none w h k = refl
  looked_up-anew none (some x) w h k = absurd (cc)
  looked_up-anew (some a) d w h k = absurd (cc)

  -- After invalidate for a whole tenant, a method of that tenant is resolved anew.
  pub resolve-invalidate :
      (w : World)
      → let fresh : World = record w { methods = invalidate tenant.id none w.methods } in
        resolve env factories tenant method_id fresh
        ≡ resolve_anew env factories tenant method_id fresh
  unfolding resolve invalidate
  resolve-invalidate w =
      let fresh : World = record w { methods = invalidate tenant.id none w.methods } in
      let key = cache_key tenant.id method_id in
      let under = starts_with-cache_key tenant.id method_id in
      looked_up-anew (fresh.methods.cache key) (fresh.methods.disabled key) fresh (rw under refl)
        (rw under refl)

  remember-failed :
      (key : String) (r : Result AuthMethod) (e : AuthError) (w : World)
      → r ≡ err e
      → ((remember env factories key r w).0 ≡ err e)
        × ((remember env factories key r w).1.methods.disabled key ≡ some tt)
        × ((remember env factories key r w).1.methods.cache ≡ w.methods.cache)
  remember-failed key (ok a) e w h = absurd (cc)
  remember-failed key (err f) e w h = (ground arith, put_self w.methods.disabled key tt, refl)

  looked_up-disabled :
      (hit : Option AuthMethod) (d : Option (Unit {0})) (later : TenantConfig) (w : World)
      → hit ≡ none
      → d ≡ some tt
      → looked_up env factories hit d later method_id w ≡ (err (known_disabled method_id), w)
  unfolding looked_up
  looked_up-disabled none none later w h k = absurd (cc)
  looked_up-disabled none (some x) later w h k = refl
  looked_up-disabled (some a) d later w h k = absurd (cc)

  resolve_anew-failed :
      (cfg : MethodConfig) (e : AuthError) (w : World)
      → find (λ c. c.id == method_id) tenant.methods ≡ some cfg
      → cfg.enabled ≡ true
      → (build_method env factories tenant.id cfg w).0 ≡ err e
      → resolve_anew env factories tenant method_id w
        ≡ remember env factories
            (cache_key tenant.id method_id)
            (build_method env factories tenant.id cfg w).0
            (build_method env factories tenant.id cfg w).1
  unfolding resolve_anew build_and_remember
  resolve_anew-failed cfg e w found enabled failed =
      rw (resolve_anew, found)
        (passed cfg.enabled (not_enabled method_id)
          (build_and_remember env factories (cache_key tenant.id method_id) tenant.id cfg) w
          enabled)

  build_method-methods :
      (cfg : MethodConfig) (w : World)
      → (build_method env factories tenant.id cfg w).1.methods ≡ w.methods
  build_method-methods cfg w =
      (Kept-build_method env factories (λ v. v.methods ≡ w.methods) (λ e. record { at = λ s h. h })
          tenant.id cfg).at
        w refl

  -- When a configured, enabled method that the cache knows nothing of cannot be built, for
  -- whatever reason, that error is returned once, and the next resolution for the tenant and id
  -- answers that the method is disabled or has an invalid config, with no new attempt, whatever
  -- the configuration is by then.
  pub resolve-failed :
      (later : TenantConfig) (cfg : MethodConfig) (e : AuthError) (w : World)
      → w.methods.cache (cache_key tenant.id method_id) ≡ none
      → w.methods.disabled (cache_key tenant.id method_id) ≡ none
      → find (λ c. c.id == method_id) tenant.methods ≡ some cfg
      → cfg.enabled ≡ true
      → (build_method env factories tenant.id cfg w).0 ≡ err e
      → later.id ≡ tenant.id
      → ((resolve env factories tenant method_id w).0 ≡ err e)
        × ((resolve env factories later method_id (resolve env factories tenant method_id w).1).0
            ≡ err (known_disabled method_id))
  unfolding resolve
  resolve-failed later cfg e w cold fresh found enabled failed same =
      let key = cache_key tenant.id method_id in
      let run = (build_method env factories tenant.id cfg w).1 in
      let first =
        looked_up-anew (w.methods.cache key) (w.methods.disabled key) w cold fresh
        ∙ resolve_anew-failed cfg e w found enabled failed in
      let (is_err, marked, kept) =
        remember-failed key (build_method env factories tenant.id cfg w).0 e run failed in
      let w1 : World = (resolve env factories tenant method_id w).1 in
      let state : w1
          ≡ (remember env factories key (build_method env factories tenant.id cfg w).0 run).1 =
        ap (λ (x : Result AuthMethod × World). x.1) first in
      let k = cache_key later.id method_id in
      let k_same : k ≡ key = ap (λ i. cache_key i method_id) same in
      (
        ap (λ (x : Result AuthMethod × World). x.0) first ∙ is_err,
        ap (λ (x : Result AuthMethod × World). x.0)
            (looked_up-disabled (w1.methods.cache k) (w1.methods.disabled k) later w1
              (ap (λ i. w1.methods.cache i) k_same
                ∙ ap (λ (v : World). v.methods.cache key) state
                ∙ (λ i. kept i key)
                ∙ ap (λ (m : Methods). m.cache key) (build_method-methods cfg w)
                ∙ cold)
              (ap (λ i. w1.methods.disabled i) k_same
                ∙ ap (λ (v : World). v.methods.disabled key) state
                ∙ marked)),
      )
