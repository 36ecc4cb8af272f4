-- ===== src/Scim/Filter.antt =====
-- packages/openauth/src/domain/scim/filter.ts, the parser of SCIM filters, over code points: every
-- character that it tests for is ASCII.
pub mod Scan
pub mod Terms
pub mod Print
pub mod Quoted
pub mod RoundTrip
pub mod Supported
use openauth.Prelude.{
  ℕ, String, Bool, true, false, not, ◌&&◌, ◌||◌, Option, none, some, List, [], ◌∷◌, ◌==◌, ◌<>◌,
  if◌then◌else◌, keep, map, length, ltb, lacks, lower_eq,
}
use openauth.Scim.Filter.Terms.{
  ScimFilterAttribute, id, user_name, external_id, active, emails_value, display_name, FilterValue,
  text, boolean, ScimFilter, eq, and, attribute_name,
}
use openauth.Scim.Filter.Scan.{
  is_empty, trim, operator_at, FoundOperator, find_operator, mask_quoted, has_or, has_not,
  split_and, normalize_complex_path, starts_quote, ends_quote, drop_last, unescape, drop_first,
}

-- A `Result`, or a TypeError that is thrown.
pub data FilterResult (A : Type 0) : Type 0 where
  ok : A → FilterResult A
  err : String → FilterResult A
  throws : FilterResult A

abbrev pub then_with : {A B : Type 0} → FilterResult A → (A → FilterResult B) → FilterResult B
then_with (ok a) f = f a
then_with (err e) f = err e
then_with throws f = throws

abbrev pub supported_filter_help : String
supported_filter_help =
    "supported filters are: userName eq \"…\", externalId eq \"…\", id eq \"…\", "
    <> ("active eq true|false, emails[type eq \"…\"].value eq \"…\", and two of "
        <> "those joined by \"and\"")

-- the `Set`s of filterable attributes, as their `has`
abbrev pub user_filter_attributes : ScimFilterAttribute → Bool
user_filter_attributes display_name = false
user_filter_attributes id = true
user_filter_attributes user_name = true
user_filter_attributes external_id = true
user_filter_attributes active = true
user_filter_attributes emails_value = true

abbrev pub group_filter_attributes : ScimFilterAttribute → Bool
group_filter_attributes id = true
group_filter_attributes display_name = true
group_filter_attributes external_id = true
group_filter_attributes user_name = false
group_filter_attributes active = false
group_filter_attributes emails_value = false

-- `ATTRIBUTES[key.toLowerCase()]`; what the literal inherits under other keys is in no set
unfoldable pub attribute_of : String → Option ScimFilterAttribute
unfolding lower_eq
attribute_of key =
    if lower_eq "id" key
    then some id
    else if lower_eq "username" key
    then some user_name
    else if lower_eq "externalid" key
    then some external_id
    else if lower_eq "active" key
    then some active
    else if lower_eq "emails.value" key
    then some emails_value
    else if lower_eq "displayname" key
    then some display_name
    else none

abbrev pub with_help : String → String
with_help detail = detail <> (". " <> supported_filter_help)

boolean_value : String → FilterResult FilterValue
boolean_value value =
    if lower_eq "true" value
    then ok (boolean true)
    else if lower_eq "false" value
    then ok (boolean false)
    else err ("\"active\" must be compared to true or false, got " <> value)

-- A quoted string; `length < 2` is a lone quote here.
text_value : ScimFilterAttribute → String → FilterResult FilterValue
text_value attribute value =
    if starts_quote value && ends_quote (drop_first value)
    then (let unquoted = unescape 92 false (unescape 34 false (drop_last (drop_first value))) in
        if is_empty unquoted
        then err ("value for \"" <> (attribute_name attribute <> "\" must not be empty"))
        else ok (text unquoted))
    else err (
        "value for \""
        <> (attribute_name attribute <> ("\" must be a quoted string, got " <> value)))

unfoldable pub value_of : ScimFilterAttribute → String → FilterResult FilterValue
unfolding boolean_value text_value
value_of active value = boolean_value value
value_of id value = text_value id value
value_of user_name value = text_value user_name value
value_of external_id value = text_value external_id value
value_of emails_value value = text_value emails_value value
value_of display_name value = text_value display_name value

-- `attribute && allowed.has(attribute) ? attribute : undefined`
abbrev pub filterable :
    (ScimFilterAttribute → Bool) → Option ScimFilterAttribute → Option ScimFilterAttribute
filterable allowed none = none
filterable allowed (some a) = if allowed a then some a else none

-- What follows the look for the operator.
unfoldable pub parse_found : (ScimFilterAttribute → Bool) → FoundOperator → FilterResult ScimFilter
unfolding attribute_of value_of
parse_found allowed found =
    if not (lower_eq "eq" found.op)
    then err (with_help ("operator \"" <> (found.op <> "\" is not supported; only \"eq\" is")))
    else elim (filterable allowed (attribute_of (normalize_complex_path found.attr))) [
      | none ↦ err (with_help ("attribute \"" <> (trim found.attr <> "\" is not filterable")))
      | some attribute ↦
          then_with (value_of attribute (trim found.value)) (λ value. ok (eq attribute value))
    ]

unfoldable pub parse_term : (ScimFilterAttribute → Bool) → String → FilterResult ScimFilter
unfolding parse_found
parse_term allowed raw = elim (find_operator (trim raw)) [
  | none ↦ err (with_help ("could not parse filter term \"" <> (trim raw <> "\"")))
  | some found ↦ parse_found allowed found
]

unfoldable pub split_top_level_and : String → List String
split_top_level_and input = keep (λ p. not (is_empty p)) (map trim (split_and 0 32 false 0 0 input))

-- `parseTerm(undefined, …)` throws.
unfoldable pub parse_parts : (ScimFilterAttribute → Bool) → List String → FilterResult ScimFilter
parse_parts allowed [] = throws
parse_parts allowed (first ∷ []) = parse_term allowed first
parse_parts allowed (first ∷ second ∷ more) =
    then_with (parse_term allowed first)
      λ left. then_with (parse_term allowed second) λ right. ok (and left right)

-- The checks of structure, in their order, then the terms.
unfoldable pub parse_input : (ScimFilterAttribute → Bool) → String → FilterResult ScimFilter
unfolding split_top_level_and
parse_input allowed input =
    let masked = mask_quoted input in
    let parts = split_top_level_and input in
    if not (lacks 40 masked) || not (lacks 41 masked)
    then err (with_help "grouped expressions are not supported")
    else if ltb 2 (length parts)
    then err (with_help "at most two terms joined by \"and\" are supported")
    else if has_or masked
    then err (with_help "\"or\" is not supported")
    else if has_not masked
    then err (with_help "\"not\" is not supported")
    else parse_parts allowed parts

unfoldable pub parse_scim_filter :
    (ScimFilterAttribute → Bool) → Option String → FilterResult (Option ScimFilter)
parse_scim_filter allowed none = ok none
parse_scim_filter allowed (some raw) =
    if is_empty (trim raw)
    then ok none
    else then_with (parse_input allowed (trim raw)) (λ f. ok (some f))
