-- ===== src/Types/Effect/Keeps.antt =====
-- What a request leaves as it was, whether it succeeds or fails: one rule for each way to build
-- one. About packages/openauth/src/types.
use openauth.Prelude.{Bool, true, false, none, some}
use openauth.Types.Error.{AuthError, Result, ok, err, Check}
use openauth.Types.Effect.{Exec, pure, fail, lift, require, check, continue, ◌>>=◌}

-- A predicate that `m` keeps.
pub record Keeps {S A : Type 0} (P : S → Type 0) (m : Exec S A) : Type 0 where
  pub at : (s : S) → P s → P (m s).1

module _ {S : Type 0} {P : S → Type 0} where
  pub Keeps-lift : {A : Type 0} (r : Result A) → Keeps P (lift r)
  Keeps-lift r = record { at = λ s h. h }

  pub Keeps-pure : {A : Type 0} (a : A) → Keeps P (pure a)
  Keeps-pure a = record { at = λ s h. h }

  pub Keeps-fail : {A : Type 0} (e : AuthError) → Keeps P (fail {A = A} e)
  Keeps-fail e = record { at = λ s h. h }

  pub Keeps-require : (b : Bool) (e : AuthError) → Keeps P (require b e)
  Keeps-require true e = record { at = λ s h. h }
  Keeps-require false e = record { at = λ s h. h }

  pub Keeps-check : (c : Check) → Keeps P (check c)
  Keeps-check none = record { at = λ s h. h }
  Keeps-check (some e) = record { at = λ s h. h }

  pub Keeps-continue :
      {A B : Type 0} (r : Result A) (f : A → Exec S B) (s : S)
      → P s
      → ((a : A) → Keeps P (f a))
      → P (continue r f s).1
  Keeps-continue (ok a) f s h kf = (kf a).at s h
  Keeps-continue (err e) f s h kf = h

  pub Keeps-bind :
      {A B : Type 0} (m : Exec S A) (f : A → Exec S B)
      → Keeps P m
      → ((a : A) → Keeps P (f a))
      → Keeps P (m >>= f)
  Keeps-bind m f km kf = record { at = λ s h. Keeps-continue (m s).0 f (m s).1 (km.at s h) kf }

pub ruleset keeps_rules =
    (Keeps-lift, Keeps-pure, Keeps-fail, Keeps-require, Keeps-check, Keeps-bind)
