-- ===== src/Scim/Filter/Supported.antt =====
-- What is let through. About packages/openauth/src/domain/scim/filter.ts.
use openauth.Prelude.{
  String, Bool, true, Option, none, some, List, [], ◌∷◌, ◌≡◌, refl, arith, lower_eq, Bool-cases,
  Option-cases, inl, inr,
}
use openauth.Scim.Filter.Terms.{
  ScimFilterAttribute, id, user_name, external_id, active, emails_value, display_name, FilterValue,
  ScimFilter, eq, and,
}
use openauth.Scim.Filter.Scan.{is_empty, trim, find_operator, FoundOperator, normalize_complex_path}
use openauth.Scim.Filter.Print.{fits, is_supported}
use openauth.Scim.Filter.{
  FilterResult, ok, err, throws, then_with, attribute_of, filterable, value_of, parse_found,
  parse_term, split_top_level_and, parse_parts, parse_input, parse_scim_filter,
}

then_with-eq-ok :
    {A B : Type 0} (r : FilterResult A) (f : A → FilterResult B) (b : B)
    → then_with r f ≡ ok b
    → (a : A) × (r ≡ ok a) × (f a ≡ ok b)
then_with-eq-ok (ok a) f b h = (a, refl, h)
then_with-eq-ok (err e) f b h = absurd (cc)
then_with-eq-ok throws f b h = absurd (cc)

value_of_sound :
    (a : ScimFilterAttribute) (s : String) (v : FilterValue) → value_of a s ≡ ok v → fits a v ≡ true
unfolding value_of
value_of_sound active s v h = ground arith
value_of_sound id s v h = ground arith
value_of_sound user_name s v h = ground arith
value_of_sound external_id s v h = ground arith
value_of_sound emails_value s v h = ground arith
value_of_sound display_name s v h = ground arith

module _ (allowed : ScimFilterAttribute → Bool) where
  -- A term of an attribute that is filterable, with a value of its type.
  record IsTerm (f : ScimFilter) : Type 0 where
    attribute : ScimFilterAttribute
    value : FilterValue
    shape : f ≡ eq attribute value
    allows : allowed attribute ≡ true
    typed : fits attribute value ≡ true

  filterable_sound :
      (o : Option ScimFilterAttribute) (a : ScimFilterAttribute)
      → filterable allowed o ≡ some a
      → allowed a ≡ true
  filterable_sound none a h = absurd (cc)
  filterable_sound (some b) a h = elim (Bool-cases (allowed b)) [
    | inl e ↦ let same : b ≡ a = ground arith in rw (← same) e
    | inr e ↦ absurd (ground arith)
  ]

  parse_found_sound :
      (found : FoundOperator) (f : ScimFilter) → parse_found allowed found ≡ ok f → IsTerm f
  unfolding parse_found
  parse_found_sound found f h = elim (Bool-cases (lower_eq "eq" found.op)) [
    | inr e ↦ absurd (ground arith)
    | inl e ↦
        elim (Option-cases
          (filterable allowed (attribute_of (normalize_complex_path found.attr)))) [
            | inl n ↦ absurd (ground arith)
            | inr (a, k) ↦
                let (v, taken, shape) =
                  then_with-eq-ok (value_of a (trim found.value)) (λ value. ok (eq a value)) f
                    (ground arith) in
                record {
                  attribute = a;
                  value = v;
                  shape = ground arith;
                  allows = filterable_sound (attribute_of (normalize_complex_path found.attr)) a k;
                  typed = value_of_sound a (trim found.value) v taken;
                }
          ]
  ]

  parse_term_sound : (raw : String) (f : ScimFilter) → parse_term allowed raw ≡ ok f → IsTerm f
  unfolding parse_term
  parse_term_sound raw f h = elim (Option-cases (find_operator (trim raw))) [
    | inl n ↦ absurd (ground arith)
    | inr (found, k) ↦ parse_found_sound found f (ground arith)
  ]

  IsTerm-is_supported : (f : ScimFilter) → IsTerm f → is_supported allowed f ≡ true
  IsTerm-is_supported f t = rw t.shape (ground arith)

  pair_supported : (f g : ScimFilter) → IsTerm f → IsTerm g → is_supported allowed (and f g) ≡ true
  pair_supported f g t u = rw (t.shape, u.shape) (ground arith)

  parse_parts_sound :
      (parts : List String) (f : ScimFilter)
      → parse_parts allowed parts ≡ ok f
      → is_supported allowed f ≡ true
  unfolding parse_parts
  parse_parts_sound [] f h = absurd (cc)
  parse_parts_sound (p ∷ []) f h = IsTerm-is_supported f (parse_term_sound p f h)
  parse_parts_sound (p ∷ q ∷ more) f h =
      let (l, left, h1) = then_with-eq-ok (parse_term allowed p) _ f h in
      let (r, right, h2) = then_with-eq-ok (parse_term allowed q) _ f h1 in
      let same : and l r ≡ f = ground arith in
      rw (← same) (pair_supported l r (parse_term_sound p l left) (parse_term_sound q r right))

  -- What parseScimFilter accepts is one term or two terms joined by `and`, each over a filterable
  -- attribute, with a Boolean for active and a text that is not empty for every other.
  pub parse_scim_filter-is_supported :
      (raw : String) (f : ScimFilter)
      → parse_scim_filter allowed (some raw) ≡ ok (some f)
      → is_supported allowed f ≡ true
  unfolding parse_scim_filter parse_input
  parse_scim_filter-is_supported raw f h = elim (Bool-cases (is_empty (trim raw))) [
    | inl e ↦ absurd (ground arith)
    | inr e ↦
        let (g, parsed, h1) =
          then_with-eq-ok (parse_input allowed (trim raw)) (λ g. ok (some g)) (some f)
            (ground arith) in
        let same : g ≡ f = ground arith in
        let parts : parse_parts allowed (split_top_level_and (trim raw)) ≡ ok g = ground arith in
        rw (← same) (parse_parts_sound (split_top_level_and (trim raw)) g parts)
  ]
