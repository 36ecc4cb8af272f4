-- ===== src/StateEnvelope.antt =====
-- packages/openauth/src/domain/state-envelope.ts: the signed `state` that a flow carries through the
-- upstream provider. Web Crypto, jose's base64url and JSON are parameters, over any type of byte
-- arrays.
pub mod Laws
use Prim.Native.Char.{Char, code}
use Prim.Native.String
use openauth.Prelude.{
  lower_is, lower_starts, String, Bool, true, false, not, ◌||◌, ◌&&◌, ◌+◌, eqb, leb, Option, none,
  some, List, [], ◌∷◌, ◌==◌, ◌≡◌, ◌≢◌, ◌<>◌, if◌then◌else◌, get_or_else, find, split, lacks,
}
use openauth.Types.Error.{AuthError, Result, ok, err, or_fail, and_then, unknown_state}
use openauth.Types.Json.{Json, str, obj, field, end, get_field, Fields}
use openauth.Types.Method.{Request}

pub record StateEnvelope : Type 0 where
  pub tenant_id : String
  pub flow_id : String
  pub nonce : String
  pub kid : String

pub record StateKey (Bytes : Type 0) : Type 0 where
  pub kid : String
  pub key : Bytes

pub record StateKeyRing (Bytes : Type 0) : Type 0 where
  pub active : StateKey Bytes
  pub verify : List (StateKey Bytes)

-- What the runtime offers; `none` where it throws.
pub record StateCrypto (Bytes : Type 0) : Type 0 where
  pub b64_encode : Bytes → String
  pub b64_decode : String → Option Bytes
  -- `utf8.encode(JSON.stringify(value))` and `JSON.parse(utf8.decode(bytes))`
  pub stringify : Json → Bytes
  pub parse : Bytes → Option Json
  -- the key, then the message, with the signature between them in `hmac_verify`
  pub hmac_sign : Bytes → Bytes → Bytes
  pub hmac_verify : Bytes → Bytes → Bytes → Bool

-- the object that `canonicalize` prints
unfoldable pub envelope_object : StateEnvelope → Json
envelope_object e = obj (
    field "tenantId" (str e.tenant_id)
      (field "flowId" (str e.flow_id) (field "nonce" (str e.nonce) (field "kid" (str e.kid) end))))

string_at : String → Fields → Option String
string_at k fs = elim (get_field k fs) [ some (str s) ↦ some s | _ ↦ none ]

-- `isEnvelopeShape`, with the four fields that it finds
four : Option String → Option String → Option String → Option String → Option StateEnvelope
four (some t) (some f) (some n) (some k) =
    some (record { tenant_id = t; flow_id = f; nonce = n; kid = k })
four _ _ _ _ = none

unfoldable pub envelope_shape : Json → Option StateEnvelope
unfolding string_at four
envelope_shape (obj fs) =
    four (string_at "tenantId" fs) (string_at "flowId" fs) (string_at "nonce" fs)
      (string_at "kid" fs)
envelope_shape _ = none

-- The two parts of a text with exactly one dot, neither of them empty.
two_parts : List String → Result (String × String)
two_parts (h ∷ s ∷ []) =
    if h == "" || s == "" then err (unknown_state "malformed state") else ok (h, s)
two_parts _ = err (unknown_state "malformed state")

unfoldable pub state_parts : String → Result (String × String)
unfolding two_parts
state_parts state = two_parts (split 46 state)

unfoldable pub unknown_kid : String → AuthError
unknown_kid kid = unknown_state ("unknown state kid \"" <> kid <> "\"")

module _ {Bytes : Type 0} (crypto : StateCrypto Bytes) (ring : StateKeyRing Bytes) where
  unfoldable pub find_key : String → Option (StateKey Bytes)
  find_key kid = find (λ k. k.kid == kid) ring.verify

  unfoldable pub mint_state_envelope : String → String → String → String
  mint_state_envelope tenant_id flow_id nonce =
      let payload = crypto.stringify (
        envelope_object (record {
          tenant_id = tenant_id;
          flow_id = flow_id;
          nonce = nonce;
          kid = ring.active.kid;
        })) in
      crypto.b64_encode payload
      <> ("." <> crypto.b64_encode (crypto.hmac_sign ring.active.key payload))

  decoded : String → Result Bytes
  decoded s = or_fail (unknown_state "malformed state encoding") (crypto.b64_decode s)

  -- From the envelope that the payload claims to be, by its key and its signature.
  unfoldable pub authenticated : Bytes → Bytes → StateEnvelope → Result StateEnvelope
  unfolding find_key
  authenticated payload sig parsed =
      and_then (or_fail (unknown_kid parsed.kid) (find_key parsed.kid)) λ candidate.
        if crypto.hmac_verify candidate.key sig payload
        then if parsed.kid == candidate.kid
          then ok parsed
          else err (unknown_state "state kid drift")
        else err (unknown_state "state signature mismatch")

  unfoldable pub parsed_envelope : Bytes → Result StateEnvelope
  parsed_envelope payload =
      and_then (or_fail (unknown_state "malformed state payload") (crypto.parse payload))
        λ parsed. or_fail (unknown_state "state payload missing fields") (envelope_shape parsed)

  unfoldable pub verify_state_envelope : String → Result StateEnvelope
  unfolding decoded
  verify_state_envelope state = and_then (state_parts state) λ parts.
      and_then (decoded parts.0) λ payload.
        and_then (decoded parts.1)
          λ sig. and_then (parsed_envelope payload) λ parsed. authenticated payload sig parsed

-- What is documented of the runtime: each encoding can be undone, base64url has no dot and loses no
-- bytes, and a signature of HMAC verifies and is not empty.
pub record IsStateCrypto {Bytes : Type 0} (crypto : StateCrypto Bytes) : Type 0 where
  pub decode_encode : (b : Bytes) → crypto.b64_decode (crypto.b64_encode b) ≡ some b
  pub encode_dotless : (b : Bytes) → lacks 46 (crypto.b64_encode b) ≡ true
  pub parse_stringify :
      (e : StateEnvelope)
      → crypto.parse (crypto.stringify (envelope_object e)) ≡ some (envelope_object e)
  pub stringify_some :
      (e : StateEnvelope) → crypto.b64_encode (crypto.stringify (envelope_object e)) ≢ ""
  pub sign_some : (k b : Bytes) → crypto.b64_encode (crypto.hmac_sign k b) ≢ ""
  pub verify_sign : (k b : Bytes) → crypto.hmac_verify k (crypto.hmac_sign k b) b ≡ true

-- `s.toLowerCase().includes(p)`, with `p` as in `lower_starts`
unfoldable pub lower_includes : String → String → Bool
unfolding lower_starts
lower_includes p String.[] = false
lower_includes p (String.◌∷◌ c s) =
    let rest = lower_includes p s in if lower_starts p (String.◌∷◌ c s) then true else rest

-- `v && v.length > 0 ? v : null`
abbrev pub present_text : Option String → Option String
present_text none = none
present_text (some v) = if v == "" then none else some v

-- `form.get("state") ?? form.get("RelayState")`, of a body that could be read
state_of_form : Option (String → Option String) → Option String
state_of_form none = none
state_of_form (some get) = elim (get "state") [
  | some v ↦ present_text (some v)
  | none ↦ present_text (get "RelayState")
]

state_of_body : Request → Option String
unfolding state_of_form
state_of_body req =
    if not (req.method == "POST")
    then none
    else if lower_includes "application/x-www-form-urlencoded" (get_or_else req.content_type "")
    then state_of_form req.form
    else none

unfoldable pub extract_callback_state : Request → Option String
unfolding state_of_body
extract_callback_state req = elim (present_text (req.query "state")) [
  | some s ↦ some s
  | none ↦ state_of_body req
]
