-- ===== src/Crypto/TimingSafe.antt =====
-- The constant-time comparison decides equality. About packages/openauth/src/domain/crypto.ts.
use Prim.Native.Nat.{bit_or, bit_xor}
use openauth.Prelude.{
  ℕ, zero, suc, ◌≤◌, String, Bool, true, not, ◌&&◌, List, [], ◌∷◌, length, eqb, ltb, All, ◌≡◌, refl,
  ap, arith, ◌↔◌, if◌then◌else◌, Bool-cases, inl, inr,
}
use openauth.Crypto.{
  Platform, IsByte, IsUtf8, differences, timing_safe_equal, timing_safe_equal_str,
}

-- The test holds for 0 to n.
holds_to : (ℕ → Bool) → ℕ → Bool
holds_to test zero = test 0
holds_to test (suc n) = holds_to test n && test (suc n)

holds_to_sound : (test : ℕ → Bool) (n k : ℕ) → k ≤ n → holds_to test n ≡ true → test k ≡ true
unfolding holds_to
holds_to_sound test zero zero le h = h
holds_to_sound test zero (suc k) le h = absurd (omega arith)
holds_to_sound test (suc n) k le h = ground (arith, holds_to_sound test n k)

-- The test holds for every two bytes.
on_bytes : (ℕ → ℕ → Bool) → Bool
on_bytes test = holds_to (λ a. holds_to (test a) 255) 255

on_bytes_sound :
    (test : ℕ → ℕ → Bool) (a b : ℕ) → on_bytes test ≡ true → IsByte a → IsByte b → test a b ≡ true
unfolding on_bytes
on_bytes_sound test a b h ha hb =
    holds_to_sound (test a) 255 b (omega arith)
      (holds_to_sound (λ x. holds_to (test x) 255) 255 a (omega arith) h)

abbrev bit_facts : ℕ → ℕ → Bool
bit_facts a b =
    ltb (bit_xor a b) 256
    && ltb (bit_or a b) 256
    && (if eqb a b then eqb (bit_xor a b) 0 else not (eqb (bit_xor a b) 0))
    && (if eqb (bit_or a b) 0 then eqb a 0 && eqb b 0 else not (eqb a 0 && eqb b 0))

bit_table : on_bytes bit_facts ≡ true
unfolding on_bytes holds_to
bit_table = refl

facts : (a b : ℕ) → IsByte a → IsByte b → bit_facts a b ≡ true
facts a b = on_bytes_sound bit_facts a b bit_table

bit_or-bit_xor-IsByte :
    (d x y : ℕ) → IsByte d → IsByte x → IsByte y → IsByte (bit_or d (bit_xor x y))
bit_or-bit_xor-IsByte d x y hd hx hy = ground (arith, facts x y hx hy, facts d (bit_xor x y) hd)

bit_or-bit_xor_zero :
    (d x y : ℕ)
    → IsByte d
    → IsByte x
    → IsByte y
    → (bit_or d (bit_xor x y) ≡ 0) ↔ ((d ≡ 0) × (x ≡ y))
bit_or-bit_xor_zero d x y hd hx hy = (
  λ e. ground (arith, facts x y hx hy, facts d (bit_xor x y) hd),
  λ e. ground (arith, facts x y hx hy, facts d (bit_xor x y) hd),
)

cons_iff :
    (d x y n : ℕ) (xs ys : List ℕ)
    → (n ≡ 0) ↔ ((d ≡ 0) × (x ≡ y))
    → {m : ℕ} → (m ≡ 0) ↔ ((n ≡ 0) × (xs ≡ ys))
    → (m ≡ 0) ↔ ((d ≡ 0) × (x ∷ xs ≡ y ∷ ys))
cons_iff d x y n xs ys h k =
    (λ e. ground (arith, h.0 (k.0 e).0, (k.0 e).1), λ e. k.1 (h.1 (ground arith), ground arith))

-- Once a difference is found it stays.
differences-zero :
    (d : ℕ) (xs ys : List ℕ)
    → IsByte d
    → All IsByte xs
    → All IsByte ys
    → length xs ≡ length ys
    → (differences d xs ys ≡ 0) ↔ ((d ≡ 0) × (xs ≡ ys))
unfolding differences
differences-zero d [] [] hd hx hy e = (λ h. (h, refl), λ h. h.0)
differences-zero d [] (y ∷ ys) hd hx hy e = absurd (omega arith)
differences-zero d (x ∷ xs) [] hd hx hy e = absurd (omega arith)
differences-zero d (x ∷ xs) (y ∷ ys) hd hx hy e =
    cons_iff d x y (bit_or d (bit_xor x y)) xs ys (bit_or-bit_xor_zero d x y hd hx.0 hy.0) (
      differences-zero (bit_or d (bit_xor x y)) xs ys (bit_or-bit_xor-IsByte d x y hd hx.0 hy.0)
        hx.1 hy.1 (omega arith))

timing_safe_equal_iff :
    (a b : List ℕ) → All IsByte a → All IsByte b → (timing_safe_equal a b ≡ true) ↔ (a ≡ b)
unfolding timing_safe_equal
timing_safe_equal_iff a b ha hb = elim (Bool-cases (eqb (length a) (length b))) [
  | inl same ↦
      let h = differences-zero 0 a b (omega arith) ha hb (ground arith) in
      (λ e. (h.0 (ground arith)).1, λ e. rw same (ground (arith, h.1 (refl, e))))
  | inr other ↦ (λ e. ground arith, λ e. ground (arith, ap length e))
]

-- Over an encoding that keeps the laws of UTF-8, timingSafeEqualStr answers true exactly for equal
-- texts.
pub timing_safe_equal_str_iff :
    (platform : Platform) (a b : String)
    → IsUtf8 platform
    → (timing_safe_equal_str platform a b ≡ true) ↔ (a ≡ b)
unfolding timing_safe_equal_str
timing_safe_equal_str_iff platform a b u =
    let h = timing_safe_equal_iff _ _ (u.bytes a) (u.bytes b) in
    (λ e. u.injective a b (h.0 e), λ e. h.1 (ap platform.utf8_encode e))
