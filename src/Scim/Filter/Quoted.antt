-- ===== src/Scim/Filter/Quoted.antt =====
-- What the scans make of a quoted value. About packages/openauth/src/domain/scim/filter.ts.
use openauth.Prelude.{
  ℕ, zero, String, Bool, true, false, ◌||◌, List, ◌∷◌, ◌≡◌, refl, arith, ap, eqb, if◌then◌else◌,
  lacks, is_space, lower_is, Bool-cases, inl, inr,
}
use Prim.Native.Char.{Char, code}
use text.Mathlib.TextEquality.{Char-path}
use openauth.Scim.Filter.Scan.{
  is_empty, trim_back, mask_from, has_or, not_from, split_and, ends_quote, drop_last, unescape,
  starts_with_code,
}
use openauth.Scim.Filter.Print.{escape_onto, last_code}

-- `trim` leaves `t` of `s`, which is not empty.
abbrev pub Trims : String → String → Type 0
Trims s t = (trim_back s ≡ t) × (is_empty t ≡ false)

pub Trims-cons : (c : Char) (s t : String) → Trims s t → Trims (String.◌∷◌ c s) (String.◌∷◌ c t)
unfolding trim_back
Trims-cons c s t h = (ground arith, refl)

pub Trims-escape_onto : (v s t : String) → Trims s t → Trims (escape_onto v s) (escape_onto v t)
unfolding escape_onto
Trims-escape_onto String.[] s t h = h
Trims-escape_onto (String.◌∷◌ c v) s t h =
    let rest = Trims-escape_onto v s t h in
    elim (Bool-cases (eqb (code c) 34 || eqb (code c) 92)) [
      | inl e ↦ rw e (Trims-cons "\\" _ _ (Trims-cons c _ _ rest))
      | inr e ↦ rw e (Trims-cons c _ _ rest)
    ]

-- as many spaces as the escaped text has characters
pub blank_onto : String → String → String
blank_onto String.[] rest = rest
blank_onto (String.◌∷◌ c s) rest =
    let more = blank_onto s rest in
    if eqb (code c) 34 || eqb (code c) 92
    then String.◌∷◌ " " (String.◌∷◌ " " more)
    else String.◌∷◌ " " more

pub mask_from-escape_onto :
    (before : ℕ) (v rest : String)
    → mask_from before true (escape_onto v rest)
      ≡ blank_onto v (mask_from (last_code before v) true rest)
unfolding mask_from escape_onto blank_onto
mask_from-escape_onto before String.[] rest = refl
mask_from-escape_onto before (String.◌∷◌ c v) rest =
    ground (arith, mask_from-escape_onto (code c) v rest)

-- The parser's tests of the structure pass over the masked text.
abbrev pub Clean : String → Type 0
Clean m =
    (lacks 40 m ≡ true) × (lacks 41 m ≡ true) × (has_or m ≡ false) × (not_from false m ≡ false)

-- The text begins with a quote or a space.
abbrev pub quiet : String → Bool
quiet s = starts_with_code 34 s || starts_with_code 32 s

blank_onto-quiet : (v r : String) → quiet r ≡ true → quiet (blank_onto v r) ≡ true
unfolding blank_onto
blank_onto-quiet String.[] r h = h
blank_onto-quiet (String.◌∷◌ c v) r h = ground arith

not_from-quiet : (b : Bool) (r : String) → quiet r ≡ true → not_from b r ≡ not_from false r
unfolding not_from lower_is
not_from-quiet false r h = refl
not_from-quiet true String.[] h = refl
not_from-quiet true (String.◌∷◌ c r) h = ground arith

Clean-space : (r : String) → quiet r ≡ true → Clean r → Clean (String.◌∷◌ " " r)
unfolding has_or not_from lower_is is_space
Clean-space String.[] q h = (refl, refl, refl, refl)
Clean-space (String.◌∷◌ c r) q h =
    (h.0, h.1, ground arith, ground (arith, not_from-quiet true (String.◌∷◌ c r) q))

pub Clean-blank_onto : (v r : String) → quiet r ≡ true → Clean r → Clean (blank_onto v r)
unfolding blank_onto
Clean-blank_onto String.[] r q h = h
Clean-blank_onto (String.◌∷◌ c v) r q h =
    let rest = Clean-space (blank_onto v r) (blank_onto-quiet v r q) (Clean-blank_onto v r q h) in
    elim (Bool-cases (eqb (code c) 34 || eqb (code c) 92)) [
      | inl e ↦ rw e (Clean-space _ refl rest)
      | inr e ↦ rw e rest
    ]

pub split_and-escape_onto :
    (before o k : ℕ) (v rest w : String) (ws : List String)
    → split_and zero (last_code before v) true o k rest ≡ w ∷ ws
    → split_and zero before true o k (escape_onto v rest) ≡ escape_onto v w ∷ ws
unfolding split_and escape_onto
split_and-escape_onto before o k String.[] rest w ws h = h
split_and-escape_onto before o k (String.◌∷◌ c v) rest w ws h =
    ground (arith, split_and-escape_onto (code c) o k v rest w ws h)

-- What `parseTerm` takes out of a quoted value.
escape_some : (v : String) → is_empty (escape_onto v "\"") ≡ false
unfolding escape_onto
escape_some String.[] = refl
escape_some (String.◌∷◌ c v) = ground arith

pub ends_quote-escape_onto : (v : String) → ends_quote (escape_onto v "\"") ≡ true
unfolding ends_quote escape_onto
ends_quote-escape_onto String.[] = refl
ends_quote-escape_onto (String.◌∷◌ c v) = ground (arith, ends_quote-escape_onto v, escape_some v)

pub drop_last-escape_onto : (v : String) → drop_last (escape_onto v "\"") ≡ escape_onto v ""
unfolding drop_last escape_onto
drop_last-escape_onto String.[] = refl
drop_last-escape_onto (String.◌∷◌ c v) = ground (arith, drop_last-escape_onto v, escape_some v)

-- each backslash twice
double : String → String
double String.[] = ""
double (String.◌∷◌ c s) =
    let rest = double s in
    if eqb (code c) 92 then String.◌∷◌ "\\" (String.◌∷◌ c rest) else String.◌∷◌ c rest

unescape-pending :
    (v : String)
    → unescape 34 true (escape_onto v "") ≡ String.◌∷◌ "\\" (unescape 34 false (escape_onto v ""))
unfolding unescape escape_onto
unescape-pending String.[] = refl
unescape-pending (String.◌∷◌ c v) = ground arith

unescape-quotes : (v : String) → unescape 34 false (escape_onto v "") ≡ double v
unfolding unescape escape_onto double
unescape-quotes String.[] = refl
unescape-quotes (String.◌∷◌ c v) =
    let rest = unescape-quotes v in
    elim (Bool-cases (eqb (code c) 92)) [
      | inr e ↦ ground arith
      | inl e ↦
          let same : c ≡ "\\" = Char-path c "\\" (ground arith) in
          rw same (ap (String.◌∷◌ "\\") (rw (← rest) (unescape-pending v)))
    ]

unescape-double : (v : String) → unescape 92 false (double v) ≡ v
unfolding unescape double
unescape-double String.[] = refl
unescape-double (String.◌∷◌ c v) = ground (arith, unescape-double v)

pub unescape-escape_onto :
    (v : String) → unescape 92 false (unescape 34 false (escape_onto v "")) ≡ v
unescape-escape_onto v = rw (unescape-quotes v) (unescape-double v)
