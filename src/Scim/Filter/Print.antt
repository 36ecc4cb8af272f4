-- ===== src/Scim/Filter/Print.antt =====
-- Filters as a client writes them: what the parser of packages/openauth/src/domain/scim/filter.ts is
-- compared with. Each function puts a text before a given rest.
use openauth.Prelude.{
  ℕ, String, Bool, true, false, not, ◌&&◌, ◌||◌, Option, none, some, eqb, if◌then◌else◌,
}
use Prim.Native.Char.{Char, code}
use openauth.Scim.Filter.Scan.{is_empty}
use openauth.Scim.Filter.Terms.{
  ScimFilterAttribute, id, user_name, external_id, active, emails_value, display_name, FilterValue,
  text, boolean, ScimFilter, eq, and, attribute_name,
}

abbrev pub onto : String → String → String
onto String.[] rest = rest
onto (String.◌∷◌ c s) rest = String.◌∷◌ c (onto s rest)

-- the escapes of JSON for quotes and backslashes
abbrev pub escape_char : Char → String → String
escape_char c rest =
    if eqb (code c) 34 || eqb (code c) 92
    then String.◌∷◌ "\\" (String.◌∷◌ c rest)
    else String.◌∷◌ c rest

unfoldable pub escape_onto : String → String → String
escape_onto String.[] rest = rest
escape_onto (String.◌∷◌ c s) rest = let more = escape_onto s rest in escape_char c more

abbrev pub value_onto : FilterValue → String → String
value_onto (text v) rest = String.◌∷◌ "\"" (escape_onto v (String.◌∷◌ "\"" rest))
value_onto (boolean true) rest = onto "true" rest
value_onto (boolean false) rest = onto "false" rest

unfoldable pub term_onto : ScimFilterAttribute → FilterValue → String → String
term_onto a v rest = onto (attribute_name a) (onto " eq " (value_onto v rest))

-- The value is of the attribute's type, and not empty.
abbrev pub fits : ScimFilterAttribute → FilterValue → Bool
fits active (text v) = false
fits active (boolean b) = true
fits id (text v) = not (is_empty v)
fits id (boolean b) = false
fits user_name (text v) = not (is_empty v)
fits user_name (boolean b) = false
fits external_id (text v) = not (is_empty v)
fits external_id (boolean b) = false
fits emails_value (text v) = not (is_empty v)
fits emails_value (boolean b) = false
fits display_name (text v) = not (is_empty v)
fits display_name (boolean b) = false

-- the code of the last character, or that before the text
abbrev pub last_code : ℕ → String → ℕ
last_code before String.[] = before
last_code before (String.◌∷◌ c s) = last_code (code c) s

-- The closing quote of the value is read as one: the value does not end in a backslash.
abbrev pub closes : FilterValue → Bool
closes (text v) = not (eqb (last_code 34 v) 92)
closes (boolean b) = true

-- The two forms that the parser has: a term, or two joined by `and`.
abbrev pub print_filter : ScimFilter → Option String
print_filter (eq a v) = some (term_onto a v "")
print_filter (and (eq a v) (eq b u)) = some (term_onto a v (onto " and " (term_onto b u "")))
print_filter (and (eq a v) (and l r)) = none
print_filter (and (and l r) f) = none

module _ (allowed : ScimFilterAttribute → Bool) where
  -- Every attribute is filterable and compared with a value of its type.
  abbrev pub is_supported : ScimFilter → Bool
  is_supported (eq a v) = allowed a && fits a v
  is_supported (and (eq a v) (eq b u)) = (allowed a && fits a v) && (allowed b && fits b u)
  is_supported (and (eq a v) (and l r)) = false
  is_supported (and (and l r) f) = false

-- The value of the first of two terms does not end in a backslash.
abbrev pub first_closes : ScimFilter → Bool
first_closes (eq a v) = true
first_closes (and (eq a v) f) = closes v
first_closes (and (and l r) f) = true
