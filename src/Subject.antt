-- ===== src/Subject.antt =====
-- packages/openauth/src/domain/subject.ts. The host's schemas (Standard Schema validators) are
-- parameters: a validator returns the parsed properties, or the issue paths joined.
use openauth.Prelude.{
  String, Option, none, some, List, [], ◌∷◌, ◌==◌, map, join, if◌then◌else◌, ◌<>◌, ◌≡◌, refl, arith,
}
use openauth.Types.Error.{AuthError, server_error}
use openauth.Types.Json.{Json}
use openauth.Types.Token.{SubjectClaim}

pub data Validation : Type 0 where
  -- the `path` of each issue, its segments as texts
  issues : List (List String) → Validation
  value : Json → Validation

-- `IdPOptions.subjects`, in the order of its keys
abbrev pub SubjectSchema : Type 0
SubjectSchema = List (String × (Json → Validation))

pub data Reason : Type 0 where
  unknown_type invalid_properties : Reason

pub record SubjectClaimRejection : Type 0 where
  pub reason : Reason
  pub subject_type : String
  pub detail : String

pub data Validated : Type 0 where
  accepted : SubjectClaim → Validated
  rejected : AuthError → SubjectClaimRejection → Validated

-- `subjectType ? subjects[subjectType] : undefined`, looked up among the schema's own keys
unfoldable pub schema_for : String → SubjectSchema → Option (Json → Validation)
schema_for t [] = none
schema_for t ((k, v) ∷ rest) =
    if t == "" then none else if k == t then some v else schema_for t rest

abbrev or_default : String → String → String
or_default d s = if s == "" then d else s

abbrev type_not_declared : String → AuthError
type_not_declared t =
    server_error
      ("success() returned subject type \"" <> t <> "\", which is not declared in `subjects`")

abbrev properties_violate : String → AuthError
properties_violate t =
    server_error ("success() returned properties that violate the \"" <> t <> "\" schema")

validated : SubjectClaim → Validation → Validated
validated claim (issues paths) = rejected (properties_violate claim.type) (record {
  reason = invalid_properties;
  subject_type = claim.type;
  detail = or_default "(root)" (join ", " (map (λ p. or_default "(root)" (join "." p)) paths));
})
validated claim (value parsed) = accepted (record { type = claim.type; properties = parsed })

checked : SubjectSchema → SubjectClaim → Option (Json → Validation) → Validated
checked subjects claim none = rejected (type_not_declared claim.type) (record {
  reason = unknown_type;
  subject_type = claim.type;
  detail = "declared: " <> or_default "(none)" (join ", " (map (λ s. s.0) subjects));
})
checked subjects claim (some validate) = validated claim (validate claim.properties)

unfoldable pub validate_subject_claim : SubjectSchema → SubjectClaim → Validated
unfolding checked validated
validate_subject_claim subjects claim = checked subjects claim (schema_for claim.type subjects)

validated_sound :
    (claim parsed : SubjectClaim) (v : Validation)
    → validated claim v ≡ accepted parsed
    → (v ≡ value parsed.properties) × (parsed.type ≡ claim.type)
unfolding validated
validated_sound claim parsed (issues paths) e = cc
validated_sound claim parsed (value p) e = (ground arith, ground arith)

-- A claim is accepted only by the schema declared for its type, keeps its type, and carries the
-- properties as that schema parsed them.
pub validate_subject_claim_sound :
    (subjects : SubjectSchema) (claim parsed : SubjectClaim)
    → validate_subject_claim subjects claim ≡ accepted parsed
    → (schema : Json → Validation) × (schema_for claim.type subjects ≡ some schema)
      × (schema claim.properties ≡ value parsed.properties)
      × (parsed.type ≡ claim.type)
unfolding validate_subject_claim
validate_subject_claim_sound subjects claim parsed h =
    by_schema (schema_for claim.type subjects) refl h
  where
    by_schema :
        (o : Option (Json → Validation))
        → schema_for claim.type subjects ≡ o
        → checked subjects claim o ≡ accepted parsed
        → (schema : Json → Validation) × (schema_for claim.type subjects ≡ some schema)
          × (schema claim.properties ≡ value parsed.properties)
          × (parsed.type ≡ claim.type)
    by_schema none k e = absurd (cc)
    by_schema (some schema) k e =
        let (a, b) = validated_sound claim parsed (schema claim.properties) e in (schema, k, a, b)
