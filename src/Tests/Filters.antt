-- ===== src/Tests/Filters.antt =====
-- Witnesses for packages/openauth/src/domain/scim/filter.ts.
use openauth.Prelude.{String, true, some, ◌≡◌, refl}
use openauth.Scim.Filter.{
  ok, throws, parse_scim_filter, user_filter_attributes, parse_input, parse_parts, parse_term,
}
use openauth.Scim.Filter.Terms.{ScimFilter, eq, and, user_name, active, emails_value, text, boolean}
use openauth.Scim.Filter.Print.{print_filter, is_supported}
use openauth.Scim.Filter.RoundTrip.{parse_scim_filter-print_filter}
use openauth.Scim.Filter.Supported.{parse_scim_filter-is_supported}
use openauth.Scim.Filter.Scan.{
  trim, find_operator, operator_at, mask_quoted, has_or, has_not, split_and, normalize_complex_path,
  ends_quote, drop_last, unescape,
}

abbrev two_terms : ScimFilter
two_terms = and (eq user_name (text "a \"quoted\" (or) \\ name")) (eq active (boolean true))

parse_scim_filter-print_filter_example :
    parse_scim_filter user_filter_attributes (print_filter two_terms) ≡ ok (some two_terms)
parse_scim_filter-print_filter_example =
    parse_scim_filter-print_filter user_filter_attributes two_terms refl refl

-- Entra's shape, with an `and` in the value
abbrev entra : String
entra = "emails[type eq \"work\"].value EQ \"a and (b)\" AND active eq True "

abbrev entra_filter : ScimFilter
entra_filter = and (eq emails_value (text "a and (b)")) (eq active (boolean true))

entra_parsed : parse_scim_filter user_filter_attributes (some entra) ≡ ok (some entra_filter)
unfolding parse_scim_filter parse_input parse_parts parse_term find_operator operator_at mask_quoted
    has_or has_not trim split_and normalize_complex_path ends_quote unescape drop_last
entra_parsed = refl

parse_scim_filter-is_supported_example : is_supported user_filter_attributes entra_filter ≡ true
parse_scim_filter-is_supported_example =
    parse_scim_filter-is_supported user_filter_attributes entra entra_filter entra_parsed

-- A value that ends in a backslash swallows the second term.
swallowed :
    parse_scim_filter user_filter_attributes (some "userName eq \"a\\\\\" and externalId eq \"b\"")
    ≡ ok (some (eq user_name (text "a\\\" and externalId eq \"b")))
unfolding parse_scim_filter parse_input parse_parts parse_term find_operator operator_at mask_quoted
    has_or has_not trim split_and normalize_complex_path ends_quote unescape drop_last
swallowed = refl

lone_and : parse_scim_filter user_filter_attributes (some "and") ≡ throws
unfolding parse_scim_filter parse_input parse_parts mask_quoted has_or has_not trim split_and
lone_and = refl
