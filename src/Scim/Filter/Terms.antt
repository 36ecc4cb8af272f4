-- ===== src/Scim/Filter/Terms.antt =====
-- The parsed filters of packages/openauth/src/types/scim.ts.
use openauth.Prelude.{String, Bool}

pub data ScimFilterAttribute : Type 0 where
  id user_name external_id active emails_value display_name : ScimFilterAttribute

pub data FilterValue : Type 0 where
  text : String → FilterValue
  boolean : Bool → FilterValue

-- `op: "eq"` and `op: "and"`
pub data ScimFilter : Type 0 where
  eq : ScimFilterAttribute → FilterValue → ScimFilter
  and : ScimFilter → ScimFilter → ScimFilter

-- The attribute as the literals of its type are spelled.
abbrev pub attribute_name : ScimFilterAttribute → String
attribute_name id = "id"
attribute_name user_name = "userName"
attribute_name external_id = "externalId"
attribute_name active = "active"
attribute_name emails_value = "emails.value"
attribute_name display_name = "displayName"
