-- ===== src/IdToken/Scoped.antt =====
-- Which properties of the subject a scope lets out. About packages/openauth/src/domain/id-token.ts.
use openauth.Prelude.{
  String, Bool, true, false, ◌||◌, none, List, [], ◌∷◌, ◌++◌, ◌==◌, ◌≡◌, refl, arith, eq_iff,
  if◌then◌else◌, includes,
}
use openauth.Types.Json.{Fields, obj, get_field}
use openauth.IdToken.{
  Mappings, claims_of, add_all, grant_scopes, pick, mappings_with, pick_scoped_claims, claim_of,
  scope_to_claims,
}

includes-append :
    (xs : List String) (c s : String) → includes (xs ++ c ∷ []) s ≡ (includes xs s || c == s)
includes-append [] c s = ground arith
includes-append (x ∷ xs) c s = ground (arith, includes-append xs c s)

includes-add_all :
    (granted cs : List String) (s : String)
    → includes (add_all granted cs) s ≡ (includes granted s || includes cs s)
unfolding add_all
includes-add_all granted [] s = ground arith
includes-add_all granted (c ∷ cs) s = ground (
  arith,
  includes-add_all granted cs s,
  includes-add_all (granted ++ c ∷ []) cs s,
  includes-append granted c s,
  eq_iff c s,
)

-- Whether one of the scopes grants the name.
unfoldable pub granted_by : Mappings → List String → String → Bool
granted_by mappings [] s = false
granted_by mappings (scope ∷ scopes) s =
    includes (claims_of scope mappings) s || granted_by mappings scopes s

includes-grant_scopes :
    (mappings : Mappings) (granted scopes : List String) (s : String)
    → includes (grant_scopes mappings granted scopes) s
      ≡ (includes granted s || granted_by mappings scopes s)
unfolding grant_scopes granted_by
includes-grant_scopes mappings granted [] s = ground arith
includes-grant_scopes mappings granted (scope ∷ scopes) s = ground (
  arith,
  includes-grant_scopes mappings (add_all granted (claims_of scope mappings)) scopes s,
  includes-add_all granted (claims_of scope mappings) s,
)

claim_of-pick :
    (props : Fields) (keys : List String) (s : String)
    → claim_of s (pick props keys) ≡ (if includes keys s then get_field s props else none)
unfolding pick claim_of
claim_of-pick props [] s = refl
claim_of-pick props (key ∷ keys) s = ground (arith, claim_of-pick props keys s, eq_iff key s)

-- PickScopedClaims lets a property out exactly when a granted scope names it, by the standard
-- table first, or it was asked for by name.
pub pick_scoped_claims_lem :
    (kind : String) (props : Fields) (scopes extra : List String) (custom : Mappings) (s : String)
    → claim_of s
        (pick_scoped_claims (record { type = kind; properties = obj props }) scopes extra custom)
      ≡ (if granted_by (mappings_with custom) scopes s || includes extra s
          then get_field s props
          else none)
unfolding pick_scoped_claims
pick_scoped_claims_lem kind props scopes extra custom s = ground (
  arith,
  claim_of-pick props (add_all (grant_scopes (mappings_with custom) [] scopes) extra) s,
  includes-add_all (grant_scopes (mappings_with custom) [] scopes) extra s,
  includes-grant_scopes (mappings_with custom) [] scopes s,
)

-- Whatever the host's own mappings are, each of the four standard scopes keeps its standard
-- claims.
pub claims_of-standard :
    (custom : Mappings) (scope : String)
    → includes ("profile" ∷ "email" ∷ "phone" ∷ "address" ∷ []) scope ≡ true
    → claims_of scope (mappings_with custom) ≡ claims_of scope scope_to_claims
unfolding claims_of
claims_of-standard custom scope h = ground arith
