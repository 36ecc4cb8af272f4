-- ===== src/Types/Effect.antt =====
-- Requests that read and write stores and may fail: what was written before a failure stays
-- written, so the state comes back beside the error too. Promises are sequenced by `await`, as by
-- `do` here. About packages/openauth/src/types.
pub mod Keeps
use openauth.Prelude.{Bool, true, false, none, some, ◌≡◌, refl, arith}
use openauth.Types.Error.{AuthError, Result, ok, err, Check}

abbrev pub Exec {ℓ} : Type ℓ → Type ℓ → Type ℓ
Exec S A = S → Result A × S

module _ {ℓ} {S A : Type ℓ} where
  -- `return ok(a)`
  abbrev pub pure : A → Exec S A
  pure a s = (ok a, s)

  -- `return err(e)`
  abbrev pub fail : AuthError → Exec S A
  fail e s = (err e, s)

  abbrev pub lift : Result A → Exec S A
  lift r s = (r, s)

  -- A result whose failure the caller looks at: `if (isErr(r)) … else …`
  abbrev pub attempt : Exec S A → Exec S (Result A)
  attempt m s = (ok (m s).0, (m s).1)

module _ {ℓ} {S A B : Type ℓ} where
  abbrev pub continue : Result A → (A → Exec S B) → Exec S B
  continue (ok a) f s = f a s
  continue (err e) f s = (err e, s)

  infixl 5 ◌>>=◌ ◌>>◌
  abbrev pub ◌>>=◌ : Exec S A → (A → Exec S B) → Exec S B
  ◌>>=◌ m f s = continue (m s).0 f (m s).1

  abbrev pub ◌>>◌ : Exec S A → Exec S B → Exec S B
  m >> n = m >>= λ _. n

  continue-eq-ok :
      (r : Result A) (f : A → Exec S B) (s : S) (b : B)
      → (continue r f s).0 ≡ ok b
      → (a : A) × (r ≡ ok a) × ((f a s).0 ≡ ok b)
  continue-eq-ok (ok a) f s b h = (a, refl, h)
  continue-eq-ok (err e) f s b h = cc

  -- A request that succeeds has passed through its first step.
  pub bind-eq-ok :
      (m : Exec S A) (f : A → Exec S B) (s : S) (b : B)
      → ((m >>= f) s).0 ≡ ok b
      → (a : A) × ((m s).0 ≡ ok a) × ((f a (m s).1).0 ≡ ok b)
  bind-eq-ok m f s b h = continue-eq-ok (m s).0 f (m s).1 b h

  continue-ok :
      (r : Result A) (f : A → Exec S B) (s : S) (a : A) → r ≡ ok a → continue r f s ≡ f a s
  continue-ok (ok b) f s a h = ground arith
  continue-ok (err e) f s a h = absurd (cc)

  -- A first step that succeeds hands its result on.
  pub bind-ok :
      (m : Exec S A) (f : A → Exec S B) (s : S) (a : A) → (m s).0 ≡ ok a → (m >>= f) s ≡ f a (m s).1
  bind-ok m f s a h = continue-ok (m s).0 f (m s).1 a h

  continue-err :
      (r : Result A) (f : A → Exec S B) (s : S) (e : AuthError)
      → r ≡ err e
      → (continue r f s).0 ≡ err e
  continue-err (ok a) f s e h = absurd (cc)
  continue-err (err d) f s e h = cc

  -- A request whose first step fails, fails.
  pub bind-err :
      (m : Exec S A) (f : A → Exec S B) (s : S) (e : AuthError)
      → (m s).0 ≡ err e
      → ((m >>= f) s).0 ≡ err e
  bind-err m f s e h = continue-err (m s).0 f (m s).1 e h

  after_continue :
      (P : S → Type ℓ) (r : Result A) (f : A → Exec S B) (s : S) (b : B)
      → (continue r f s).0 ≡ ok b
      → ((a : A) → r ≡ ok a → (f a s).0 ≡ ok b → P (f a s).1)
      → P (continue r f s).1
  after_continue P (ok a) f s b h k = k a refl h
  after_continue P (err e) f s b h k = absurd (cc)

  -- To prove something of the state that a successful request leaves, prove it of what the rest of
  -- the request leaves.
  pub after_bind :
      (P : S → Type ℓ) (m : Exec S A) (f : A → Exec S B) (s : S) (b : B)
      → ((m >>= f) s).0 ≡ ok b
      → ((a : A) → (m s).0 ≡ ok a → (f a (m s).1).0 ≡ ok b → P (f a (m s).1).1)
      → P ((m >>= f) s).1
  after_bind P m f s b h k = after_continue P (m s).0 f (m s).1 b h k

-- `if (!test) return err(e)`
abbrev pub require {ℓ} : {S : Type ℓ} → Bool → AuthError → S → Result (Unit {ℓ}) × S
require true e s = (ok tt, s)
require false e s = (err e, s)

-- `const e = check(…); if (e) return err(e)`
abbrev pub check {ℓ} : {S : Type ℓ} → Check → S → Result (Unit {ℓ}) × S
check none s = (ok tt, s)
check (some e) s = (err e, s)

-- A request that succeeds has passed its test.
pub after_require :
    {S B : Type 0} (test : Bool) (e : AuthError) (n : Exec S B) (s : S) (b : B)
    → ((require test e >> n) s).0 ≡ ok b
    → (test ≡ true) × ((n s).0 ≡ ok b)
after_require true e n s b h = (refl, h)
after_require false e n s b h = absurd (cc)

-- To prove something of the state that a request leaves after a check, prove it of the rest.
pub after_check :
    {S B : Type 0} (P : S → Type 0) (c : Check) (n : Exec S B) (s : S) (b : B)
    → ((check c >> n) s).0 ≡ ok b
    → (c ≡ none → (n s).0 ≡ ok b → P (n s).1)
    → P ((check c >> n) s).1
after_check P none n s b h k = k refl h
after_check P (some e) n s b h k = absurd (cc)
