-- ===== src/Scim/Filter/RoundTrip.antt =====
-- A filter that is written out is parsed as itself. About packages/openauth/src/domain/scim/filter.ts.
use openauth.Prelude.{
  push_first, ℕ, zero, String, Bool, true, false, some, List, [], ◌∷◌, ◌≡◌, ◌⊎◌, refl, arith, ap,
  ◌∙◌, eqb, is_space, lower_is, lower_eq, Bool-cases, inl, inr, length, ltb,
}
use openauth.Scim.Filter.Terms.{
  ScimFilterAttribute, id, user_name, external_id, active, emails_value, display_name, FilterValue,
  text, boolean, ScimFilter, eq, and, attribute_name,
}
use openauth.Scim.Filter.Scan.{
  is_empty, trim, trim_start, trim_back, find_operator, operator_at, mask_from, mask_quoted, has_or,
  has_not, not_from, split_and, normalize_complex_path,
}
use openauth.Scim.Filter.Print.{
  print_filter, is_supported, first_closes, onto, escape_onto, value_onto, term_onto, fits,
  last_code, closes,
}
use openauth.Scim.Filter.Quoted.{
  Trims, Trims-cons, Trims-escape_onto, mask_from-escape_onto, Clean, quiet, Clean-blank_onto,
  split_and-escape_onto, ends_quote-escape_onto, drop_last-escape_onto, unescape-escape_onto,
}
use openauth.Scim.Filter.{
  ok, then_with, attribute_of, value_of, parse_found, parse_term, split_top_level_and, parse_parts,
  parse_input, parse_scim_filter,
}

Trims-onto : (p s t : String) → Trims s t → Trims (onto p s) (onto p t)
Trims-onto String.[] s t h = h
Trims-onto (String.◌∷◌ c p) s t h = Trims-cons c _ _ (Trims-onto p s t h)

-- White space after a value is trimmed.
Trims-value_onto :
    (v : FilterValue) (k : String) → trim_back k ≡ "" → Trims (value_onto v k) (value_onto v "")
unfolding trim_back
Trims-value_onto (text v) k h =
    Trims-cons "\"" (escape_onto v (String.◌∷◌ "\"" k)) (escape_onto v "\"")
      (Trims-escape_onto v (String.◌∷◌ "\"" k) "\"" (rw h refl, refl))
Trims-value_onto (boolean true) k h = Trims-onto "tru" (String.◌∷◌ "e" k) "e" (rw h refl, refl)
Trims-value_onto (boolean false) k h = Trims-onto "fals" (String.◌∷◌ "e" k) "e" (rw h refl, refl)

trim_start-value_onto :
    (v : FilterValue) (k : String) → trim_start (value_onto v k) ≡ value_onto v k
unfolding trim_start
trim_start-value_onto (text v) k = refl
trim_start-value_onto (boolean true) k = refl
trim_start-value_onto (boolean false) k = refl

trim_start-term_onto :
    (a : ScimFilterAttribute) (v : FilterValue) (k : String)
    → trim_start (term_onto a v k) ≡ term_onto a v k
unfolding trim_start term_onto
trim_start-term_onto id v k = refl
trim_start-term_onto user_name v k = refl
trim_start-term_onto external_id v k = refl
trim_start-term_onto active v k = refl
trim_start-term_onto emails_value v k = refl
trim_start-term_onto display_name v k = refl

trim-term_onto :
    (a : ScimFilterAttribute) (v : FilterValue) (k : String)
    → trim_back k ≡ ""
    → trim (term_onto a v k) ≡ term_onto a v ""
unfolding trim term_onto
trim-term_onto a v k h =
    rw (trim_start-term_onto a v k)
      (Trims-onto (attribute_name a) (onto " eq " (value_onto v k)) (onto " eq " (value_onto v ""))
        (Trims-onto " eq " (value_onto v k) (value_onto v "") (Trims-value_onto v k h))).0

found_at :
    (a : ScimFilterAttribute) (rest : String)
    → find_operator (onto (attribute_name a) (onto " eq " rest))
      ≡ some (record { attr = attribute_name a; op = "eq"; value = trim_start rest })
unfolding find_operator operator_at
found_at id rest = refl
found_at user_name rest = refl
found_at external_id rest = refl
found_at active rest = refl
found_at emails_value rest = refl
found_at display_name rest = refl

attribute_of-name :
    (a : ScimFilterAttribute) → attribute_of (normalize_complex_path (attribute_name a)) ≡ some a
unfolding attribute_of normalize_complex_path
attribute_of-name id = refl
attribute_of-name user_name = refl
attribute_of-name external_id = refl
attribute_of-name active = refl
attribute_of-name emails_value = refl
attribute_of-name display_name = refl

trim-value_onto : (v : FilterValue) → trim (value_onto v "") ≡ value_onto v ""
unfolding trim
trim-value_onto v = rw (trim_start-value_onto v "") (Trims-value_onto v "" refl).0

value_of-value_onto :
    (a : ScimFilterAttribute) (v : FilterValue)
    → fits a v ≡ true
    → value_of a (value_onto v "") ≡ ok v
unfolding value_of lower_eq
value_of-value_onto active (text v) h = absurd (cc)
value_of-value_onto active (boolean true) h = refl
value_of-value_onto active (boolean false) h = refl
value_of-value_onto id (boolean b) h = absurd (cc)
value_of-value_onto user_name (boolean b) h = absurd (cc)
value_of-value_onto external_id (boolean b) h = absurd (cc)
value_of-value_onto emails_value (boolean b) h = absurd (cc)
value_of-value_onto display_name (boolean b) h = absurd (cc)
value_of-value_onto id (text v) h =
    rw (ends_quote-escape_onto v, drop_last-escape_onto v, unescape-escape_onto v) (ground arith)
value_of-value_onto user_name (text v) h =
    rw (ends_quote-escape_onto v, drop_last-escape_onto v, unescape-escape_onto v) (ground arith)
value_of-value_onto external_id (text v) h =
    rw (ends_quote-escape_onto v, drop_last-escape_onto v, unescape-escape_onto v) (ground arith)
value_of-value_onto emails_value (text v) h =
    rw (ends_quote-escape_onto v, drop_last-escape_onto v, unescape-escape_onto v) (ground arith)
value_of-value_onto display_name (text v) h =
    rw (ends_quote-escape_onto v, drop_last-escape_onto v, unescape-escape_onto v) (ground arith)

-- The closing quote is read as one, or nothing follows it.
abbrev Ends : FilterValue → String → Type 0
Ends v k = (closes v ≡ true) ⊎ (k ≡ "")

read_as_one : (t k : String) → Ends (text t) k → (eqb (last_code 34 t) 92 ≡ false) ⊎ (k ≡ "")
read_as_one t k (inl e) = inl (ground arith)
read_as_one t k (inr e) = inr e

closing_Clean :
    (l : ℕ) (k : String)
    → ((eqb l 92 ≡ false) ⊎ (k ≡ ""))
    → ((m : ℕ) → Clean (mask_from m false k))
    → (quiet (mask_from l true (String.◌∷◌ "\"" k)) ≡ true)
      × Clean (mask_from l true (String.◌∷◌ "\"" k))
unfolding mask_from has_or not_from lower_is is_space
closing_Clean l k (inl e) more = rw e (refl, more 34)
closing_Clean l k (inr e) more = elim (Bool-cases (eqb l 92)) [
  | inl b ↦ rw (e, b) (refl, (refl, refl, refl, refl))
  | inr b ↦ rw (e, b) (refl, (refl, refl, refl, refl))
]

text_Clean :
    (w k : String)
    → Ends (text w) k
    → ((m : ℕ) → Clean (mask_from m false k))
    → Clean (mask_from 34 true (escape_onto w (String.◌∷◌ "\"" k)))
text_Clean w k ends more =
    let (quiet_rest, rest) = closing_Clean (last_code 34 w) k (read_as_one w k ends) more in
    rw (mask_from-escape_onto 34 w (String.◌∷◌ "\"" k))
      (Clean-blank_onto w (mask_from (last_code 34 w) true (String.◌∷◌ "\"" k)) quiet_rest rest)

-- The masked term has nothing that the tests of the structure look for, if what follows has not.
term_Clean :
    (a : ScimFilterAttribute) (v : FilterValue) (before : ℕ) (k : String)
    → fits a v ≡ true
    → Ends v k
    → ((m : ℕ) → Clean (mask_from m false k))
    → Clean (mask_from before false (term_onto a v k))
unfolding mask_from term_onto has_or not_from lower_is is_space
term_Clean active (text w) before k f ends more = absurd (cc)
term_Clean active (boolean true) before k f ends more = more 101
term_Clean active (boolean false) before k f ends more = more 101
term_Clean id (boolean b) before k f ends more = absurd (cc)
term_Clean user_name (boolean b) before k f ends more = absurd (cc)
term_Clean external_id (boolean b) before k f ends more = absurd (cc)
term_Clean emails_value (boolean b) before k f ends more = absurd (cc)
term_Clean display_name (boolean b) before k f ends more = absurd (cc)
term_Clean id (text w) before k f ends more = text_Clean w k ends more
term_Clean user_name (text w) before k f ends more = text_Clean w k ends more
term_Clean external_id (text w) before k f ends more = text_Clean w k ends more
term_Clean emails_value (text w) before k f ends more = text_Clean w k ends more
term_Clean display_name (text w) before k f ends more = text_Clean w k ends more

nothing_Clean : (m : ℕ) → Clean (mask_from m false "")
unfolding mask_from has_or not_from
nothing_Clean m = (refl, refl, refl, refl)

and_Clean :
    (a : ScimFilterAttribute) (v : FilterValue) (before : ℕ)
    → fits a v ≡ true
    → Clean (mask_from before false (onto " and " (term_onto a v "")))
unfolding mask_from term_onto has_or not_from lower_is is_space
and_Clean id v before f = term_Clean id v 32 "" f (inr refl) nothing_Clean
and_Clean user_name v before f = term_Clean user_name v 32 "" f (inr refl) nothing_Clean
and_Clean external_id v before f = term_Clean external_id v 32 "" f (inr refl) nothing_Clean
and_Clean active v before f = term_Clean active v 32 "" f (inr refl) nothing_Clean
and_Clean emails_value v before f = term_Clean emails_value v 32 "" f (inr refl) nothing_Clean
and_Clean display_name v before f = term_Clean display_name v 32 "" f (inr refl) nothing_Clean

-- Splitting, past the closing quote.
closing_split :
    (l : ℕ) (k w : String) (ws : List String)
    → ((eqb l 92 ≡ false) ⊎ (k ≡ ""))
    → ((m : ℕ) → split_and zero m false 0 0 k ≡ w ∷ ws)
    → split_and zero l true 0 0 (String.◌∷◌ "\"" k) ≡ String.◌∷◌ "\"" w ∷ ws
unfolding split_and
closing_split l k w ws (inl e) more = ground (arith, more 34)
closing_split l k w ws (inr e) more =
    let empty : "" ∷ [] ≡ w ∷ ws = rw (← more 0) (rw e refl) in
    elim (Bool-cases (eqb l 92)) [
      | inl b ↦ rw (e, b) (ap (push_first "\"") empty)
      | inr b ↦ rw (e, b) (ap (push_first "\"") empty)
    ]

text_split :
    (t k w : String) (ws : List String)
    → Ends (text t) k
    → ((m : ℕ) → split_and zero m false 0 0 k ≡ w ∷ ws)
    → split_and zero 34 true 0 0 (escape_onto t (String.◌∷◌ "\"" k))
      ≡ escape_onto t (String.◌∷◌ "\"" w) ∷ ws
text_split t k w ws ends more =
    split_and-escape_onto 34 0 0 t (String.◌∷◌ "\"" k) (String.◌∷◌ "\"" w) ws
      (closing_split (last_code 34 t) k w ws (read_as_one t k ends) more)

term_split :
    (a : ScimFilterAttribute) (v : FilterValue) (k w : String) (ws : List String)
    → fits a v ≡ true
    → Ends v k
    → ((m : ℕ) → split_and zero m false 0 0 k ≡ w ∷ ws)
    → split_and zero 32 false 0 0 (term_onto a v k) ≡ term_onto a v w ∷ ws
unfolding split_and term_onto lower_is
term_split active (text t) k w ws f ends more = absurd (cc)
term_split active (boolean true) k w ws f ends more = rw (more 101) refl
term_split active (boolean false) k w ws f ends more = rw (more 101) refl
term_split id (boolean b) k w ws f ends more = absurd (cc)
term_split user_name (boolean b) k w ws f ends more = absurd (cc)
term_split external_id (boolean b) k w ws f ends more = absurd (cc)
term_split emails_value (boolean b) k w ws f ends more = absurd (cc)
term_split display_name (boolean b) k w ws f ends more = absurd (cc)
term_split id (text t) k w ws f ends more = rw (text_split t k w ws ends more) refl
term_split user_name (text t) k w ws f ends more = rw (text_split t k w ws ends more) refl
term_split external_id (text t) k w ws f ends more = rw (text_split t k w ws ends more) refl
term_split emails_value (text t) k w ws f ends more = rw (text_split t k w ws ends more) refl
term_split display_name (text t) k w ws f ends more = rw (text_split t k w ws ends more) refl

has_not-term :
    (a : ScimFilterAttribute) (v : FilterValue) (k : String)
    → not_from true (mask_quoted (term_onto a v k)) ≡ not_from false (mask_quoted (term_onto a v k))
unfolding mask_quoted term_onto not_from lower_is is_space
has_not-term id v k = refl
has_not-term user_name v k = refl
has_not-term external_id v k = refl
has_not-term active v k = refl
has_not-term emails_value v k = refl
has_not-term display_name v k = refl

term-some :
    (a : ScimFilterAttribute) (v : FilterValue) (k : String) → is_empty (term_onto a v k) ≡ false
unfolding term_onto
term-some id v k = refl
term-some user_name v k = refl
term-some external_id v k = refl
term-some active v k = refl
term-some emails_value v k = refl
term-some display_name v k = refl

Trims-value_rest :
    (v : FilterValue) (k : String) → Trims k k → Trims (value_onto v k) (value_onto v k)
Trims-value_rest (text v) k h =
    let r = String.◌∷◌ "\"" k in
    Trims-cons "\"" (escape_onto v r) (escape_onto v r)
      (Trims-escape_onto v r r (Trims-cons "\"" k k h))
Trims-value_rest (boolean true) k h = Trims-onto "true" k k h
Trims-value_rest (boolean false) k h = Trims-onto "false" k k h

trim-term_rest :
    (a : ScimFilterAttribute) (v : FilterValue) (k : String)
    → Trims k k
    → trim (term_onto a v k) ≡ term_onto a v k
unfolding trim term_onto
trim-term_rest a v k h =
    let value = value_onto v k in
    rw (trim_start-term_onto a v k)
      (Trims-onto (attribute_name a) (onto " eq " value) (onto " eq " value)
        (Trims-onto " eq " value value (Trims-value_rest v k h))).0

-- A term, and a term after `and`.
Trims-term :
    (a : ScimFilterAttribute) (v : FilterValue) → Trims (term_onto a v "") (term_onto a v "")
unfolding term_onto trim_back
Trims-term a v =
    let value = value_onto v "" in
    Trims-onto (attribute_name a) (onto " eq " value) (onto " eq " value)
      (Trims-onto " eq " value value (Trims-value_onto v "" refl))

single_split :
    (a : ScimFilterAttribute) (v : FilterValue)
    → fits a v ≡ true
    → split_top_level_and (term_onto a v "") ≡ term_onto a v "" ∷ []
unfolding split_top_level_and split_and trim_back
single_split a v f =
    rw
      (
        term_split a v "" "" [] f (inr refl) (λ m. refl),
        trim-term_onto a v "" refl,
        term-some a v "",
      )
      refl

and_split :
    (b : ScimFilterAttribute) (u : FilterValue) (m : ℕ)
    → fits b u ≡ true
    → split_and zero m false 0 0 (onto " and " (term_onto b u ""))
      ≡ " " ∷ String.◌∷◌ " " (term_onto b u "") ∷ []
unfolding split_and lower_is
and_split b u m g =
    let last = term_split b u "" "" [] g (inr refl) (λ k. refl) in
    elim (Bool-cases (eqb m 32)) [ inl e ↦ rw (e, last) refl | inr e ↦ rw (e, last) refl ]

trim-space :
    (b : ScimFilterAttribute) (u : FilterValue)
    → trim (String.◌∷◌ " " (term_onto b u "")) ≡ term_onto b u ""
unfolding trim trim_start
trim-space b u = trim-term_onto b u "" refl

pair_split :
    (a b : ScimFilterAttribute) (v u : FilterValue)
    → fits a v ≡ true
    → closes v ≡ true
    → fits b u ≡ true
    → split_top_level_and (term_onto a v (onto " and " (term_onto b u "")))
      ≡ term_onto a v "" ∷ term_onto b u "" ∷ []
unfolding split_top_level_and trim_back
pair_split a b v u f c g =
    let k = onto " and " (term_onto b u "") in
    let parts =
      term_split a v k " " (String.◌∷◌ " " (term_onto b u "") ∷ []) f (inl c)
        (λ m. and_split b u m g) in
    rw (parts, trim-term_onto a v " " refl, trim-space b u, term-some a v "", term-some b u "") refl

module _ (allowed : ScimFilterAttribute → Bool) where
  parse_term-term_onto :
      (a : ScimFilterAttribute) (v : FilterValue) (raw : String)
      → allowed a ≡ true
      → fits a v ≡ true
      → trim raw ≡ term_onto a v ""
      → parse_term allowed raw ≡ ok (eq a v)
  unfolding parse_term parse_found term_onto lower_eq
  parse_term-term_onto a v raw h f e = ground (
    arith,
    found_at a (value_onto v ""),
    attribute_of-name a,
    trim_start-value_onto v "",
    trim-value_onto v,
    value_of-value_onto a v f,
  )

  -- The parser's way for masked text that is clean.
  parse-Clean :
      (raw input : String) (parts : List String)
      → trim raw ≡ input
      → is_empty input ≡ false
      → Clean (mask_quoted input)
      → not_from true (mask_quoted input) ≡ false
      → split_top_level_and input ≡ parts
      → ltb 2 (length parts) ≡ false
      → parse_scim_filter allowed (some raw)
        ≡ then_with (parse_parts allowed parts) (λ f. ok (some f))
  unfolding parse_scim_filter parse_input has_not
  parse-Clean raw input parts t e (l40, l41, no_or, no_not) n p l =
      rw (t, e, l40, l41, p, l, no_or, n) refl

  parse_single :
      (a : ScimFilterAttribute) (v : FilterValue)
      → allowed a ≡ true
      → fits a v ≡ true
      → parse_scim_filter allowed (some (term_onto a v "")) ≡ ok (some (eq a v))
  unfolding parse_parts mask_quoted trim_back
  parse_single a v h f =
      let s = term_onto a v "" in
      let clean = term_Clean a v 32 "" f (inr refl) nothing_Clean in
      rw
        (parse-Clean s s (s ∷ []) (trim-term_onto a v "" refl) (term-some a v "") clean
          (has_not-term a v "" ∙ clean.3) (single_split a v f) refl)
        (rw (parse_term-term_onto a v s h f (trim-term_onto a v "" refl)) refl)

  parse_pair :
      (a b : ScimFilterAttribute) (v u : FilterValue)
      → allowed a ≡ true
      → fits a v ≡ true
      → closes v ≡ true
      → allowed b ≡ true
      → fits b u ≡ true
      → parse_scim_filter allowed (some (term_onto a v (onto " and " (term_onto b u ""))))
        ≡ ok (some (and (eq a v) (eq b u)))
  unfolding parse_parts mask_quoted trim_back
  parse_pair a b v u h f c h' g =
      let k = onto " and " (term_onto b u "") in
      let s = term_onto a v k in
      let clean = term_Clean a v 32 k f (inl c) (λ m. and_Clean b u m g) in
      rw
        (parse-Clean s s (term_onto a v "" ∷ term_onto b u "" ∷ [])
          (trim-term_rest a v k
            (Trims-onto " and " (term_onto b u "") (term_onto b u "") (Trims-term b u)))
          (term-some a v k) clean (has_not-term a v k ∙ clean.3) (pair_split a b v u f c g) refl)
        (rw
          (
            parse_term-term_onto a v (term_onto a v "") h f (trim-term_onto a v "" refl),
            parse_term-term_onto b u (term_onto b u "") h' g (trim-term_onto b u "" refl),
          )
          refl)

  -- A filter of one term, or of two terms joined by `and`, over filterable attributes with values
  -- of their types, is parsed as itself when it is written out with JSON's escapes for quotes and
  -- backslashes, whatever else its values contain, if the first of two values does not end in a
  -- backslash.
  pub parse_scim_filter-print_filter :
      (f : ScimFilter)
      → is_supported allowed f ≡ true
      → first_closes f ≡ true
      → parse_scim_filter allowed (print_filter f) ≡ ok (some f)
  parse_scim_filter-print_filter (eq a v) h c = parse_single a v (ground arith) (ground arith)
  parse_scim_filter-print_filter (and (eq a v) (eq b u)) h c =
      parse_pair a b v u (ground arith) (ground arith) c (ground arith) (ground arith)
  parse_scim_filter-print_filter (and (eq a v) (and l r)) h c = absurd (cc)
  parse_scim_filter-print_filter (and (and l r) f) h c = absurd (cc)
