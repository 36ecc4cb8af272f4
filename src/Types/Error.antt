-- ===== src/Types/Error.antt =====
-- packages/openauth/src/types/error.ts and result.ts. A `cause`, which is only logged, is left out.
use openauth.Prelude.{String, Option, none, some, ◌≡◌, refl, arith}

pub record ReuseSignal : Type 0 where
  pub family : String
  pub tenant_id : String
  pub subject_id : String

-- Each variant has its `description`; `invalid_request` has its `field` too, and so on.
pub data AuthError : Type 0 where
  invalid_request : String → Option String → AuthError
  invalid_client : String → AuthError
  invalid_grant : String → Option ReuseSignal → AuthError
  unauthorized_client : String → AuthError
  unsupported_grant_type : String → AuthError
  invalid_scope : String → AuthError
  access_denied : String → AuthError
  unknown_state : String → AuthError
  server_error : String → AuthError
  tenant_not_found : String → String → AuthError
  invalid_target : String → AuthError
  method_not_found : String → Option String → Option String → AuthError
  internal_error : String → AuthError
  conflict : String → Option String → AuthError
  invalid_dpop_proof : String → Option String → AuthError

-- `error.description`
abbrev pub description : AuthError → String
description (invalid_request d f) = d
description (invalid_client d) = d
description (invalid_grant d s) = d
description (unauthorized_client d) = d
description (unsupported_grant_type d) = d
description (invalid_scope d) = d
description (access_denied d) = d
description (unknown_state d) = d
description (server_error d) = d
description (tenant_not_found d t) = d
description (invalid_target d) = d
description (method_not_found d i k) = d
description (internal_error d) = d
description (conflict d a) = d
description (invalid_dpop_proof d j) = d

pub data Result {ℓ} (A : Type ℓ) : Type ℓ where
  ok : A → Result A
  err : AuthError → Result A

-- `if (!x) return err(e)`
abbrev pub or_fail {ℓ} : {A : Type ℓ} → AuthError → Option A → Result A
or_fail e none = err e
or_fail e (Option.some a) = ok a

-- The functions that return `AuthError | null`: `null` is success.
abbrev pub Check : Type 0
Check = Option AuthError

-- `if (e) return err(e)`
abbrev pub passed : Check → Result (Unit {0})
passed none = ok tt
passed (some e) = err e

pub Result-cases {ℓ} :
    {A : Type ℓ} (r : Result A)
    → openauth.Prelude.◌⊎◌ ((a : A) × (r ≡ ok a)) ((e : AuthError) × (r ≡ err e))
Result-cases (ok a) = openauth.Prelude.inl (a, refl)
Result-cases (err e) = openauth.Prelude.inr (e, refl)

pub or_fail-eq-ok :
    {A : Type 0} (e : AuthError) (o : Option A) (a : A) → or_fail e o ≡ ok a → o ≡ some a
or_fail-eq-ok e none a h = cc
or_fail-eq-ok e (some b) a h = ground arith

-- `if (isErr(r)) return err(r.error)`, in code that only computes
abbrev pub and_then : {A B : Type 0} → Result A → (A → Result B) → Result B
and_then (ok a) f = f a
and_then (err e) f = err e

-- A computation that succeeds has passed through its first step.
pub after_and_then :
    {A B : Type 0} (P : Type 0) (r : Result A) (f : A → Result B) (b : B)
    → and_then r f ≡ ok b
    → ((a : A) → r ≡ ok a → f a ≡ ok b → P)
    → P
after_and_then P (ok a) f b h k = k a refl h
after_and_then P (err e) f b h k = absurd (cc)

pub and_then-eq-ok :
    {A B : Type 0} (r : Result A) (f : A → Result B) (b : B)
    → and_then r f ≡ ok b
    → (a : A) × (r ≡ ok a) × (f a ≡ ok b)
and_then-eq-ok (ok a) f b h = (a, refl, h)
and_then-eq-ok (err e) f b h = absurd (cc)
