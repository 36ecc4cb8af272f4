-- ===== src/StateEnvelope/Laws.antt =====
-- Minting and verifying `state`. About packages/openauth/src/domain/state-envelope.ts.
use openauth.Prelude.{
  String, true, some, List, [], ◌∷◌, ◌==◌, ◌≡◌, ◌≢◌, ◌<>◌, find_sound, split, lacks, split-lacks,
  split-append, arith, eq_iff, eq_refl, refl, ◌∙◌, ap,
}
use openauth.Types.Error.{ok, or_fail, after_and_then, or_fail-eq-ok, unknown_state}
use openauth.Types.Json.{Json, get_field}
use openauth.StateEnvelope.{
  two_parts, StateEnvelope, StateKey, StateKeyRing, StateCrypto, IsStateCrypto, envelope_object,
  envelope_shape, state_parts, unknown_kid, find_key, mint_state_envelope, decoded, authenticated,
  parsed_envelope, verify_state_envelope,
}

pub envelope_shape-envelope_object :
    (e : StateEnvelope) → envelope_shape (envelope_object e) ≡ some e
unfolding envelope_shape envelope_object get_field
envelope_shape-envelope_object e = refl

module _ {Bytes : Type 0} (crypto : StateCrypto Bytes) where
  find_key_sound :
      (ring : StateKeyRing Bytes) (kid : String) (key : StateKey Bytes)
      → find_key crypto ring kid ≡ some key
      → key.kid ≡ kid
  unfolding find_key
  find_key_sound ring kid key h =
      (eq_iff key.kid kid).0 (find_sound (λ (k : StateKey Bytes). k.kid == kid) ring.verify key h)

  state_parts_mint :
      (payload sig : String)
      → lacks 46 payload ≡ true
      → lacks 46 sig ≡ true
      → payload ≢ ""
      → sig ≢ ""
      → state_parts (payload <> ("." <> sig)) ≡ ok (payload, sig)
  unfolding state_parts
  state_parts_mint payload sig h k p q =
      rw (split-append payload sig h, split-lacks 46 sig k)
        (ground (arith, eq_iff payload "", eq_iff sig ""))

  parsed_envelope-stringify :
      (e : StateEnvelope) (ring : StateKeyRing Bytes)
      → IsStateCrypto crypto
      → parsed_envelope crypto ring (crypto.stringify (envelope_object e)) ≡ ok e
  unfolding parsed_envelope
  parsed_envelope-stringify e ring c = rw (c.parse_stringify e, envelope_shape-envelope_object e)

  authenticated-hmac_sign :
      (later : StateKeyRing Bytes) (key : StateKey Bytes) (payload : Bytes) (e : StateEnvelope)
      → IsStateCrypto crypto
      → find_key crypto later e.kid ≡ some key
      → authenticated crypto later payload (crypto.hmac_sign key.key payload) e ≡ ok e
  unfolding authenticated
  authenticated-hmac_sign later key payload e c h =
      ground (arith, c.verify_sign key.key payload, find_key_sound later e.kid key h, eq_refl e.kid)

  -- Where the runtime's encodings can be undone, base64url has no dot and HMAC verifies what it
  -- signed, a minted state verifies under any key ring that finds the minting key by its kid, and
  -- gives back the tenant, flow, nonce and kid.
  pub verify_state_envelope-mint_state_envelope :
      (ring later : StateKeyRing Bytes) (tenant_id flow_id nonce : String)
      → IsStateCrypto crypto
      → find_key crypto later ring.active.kid ≡ some ring.active
      → verify_state_envelope crypto later (mint_state_envelope crypto ring tenant_id flow_id nonce)
        ≡ ok (record {
          tenant_id = tenant_id;
          flow_id = flow_id;
          nonce = nonce;
          kid = ring.active.kid;
        })
  unfolding verify_state_envelope mint_state_envelope
  verify_state_envelope-mint_state_envelope ring later tenant_id flow_id nonce c h =
      let e : StateEnvelope = record {
        tenant_id = tenant_id;
        flow_id = flow_id;
        nonce = nonce;
        kid = ring.active.kid;
      } in
      let payload = crypto.stringify (envelope_object e) in
      let sig = crypto.hmac_sign ring.active.key payload in
      rw
        (
          state_parts_mint (crypto.b64_encode payload) (crypto.b64_encode sig)
              (c.encode_dotless payload) (c.encode_dotless sig) (c.stringify_some e)
              (c.sign_some ring.active.key payload),
          c.decode_encode payload,
          c.decode_encode sig,
          parsed_envelope-stringify e later c,
        )
        (authenticated-hmac_sign later ring.active payload e c h)

-- Why a state was accepted.
pub record IsVerified {Bytes : Type 0} (crypto : StateCrypto Bytes) (ring : StateKeyRing Bytes)
    (state : String) (e : StateEnvelope) : Type 0 where
  pub parts : String × String
  pub payload : Bytes
  pub signature : Bytes
  pub value : Json
  pub key : StateKey Bytes
  pub is_split : split 46 state ≡ parts.0 ∷ parts.1 ∷ []
  pub payload_part : crypto.b64_decode parts.0 ≡ some payload
  pub signature_part : crypto.b64_decode parts.1 ≡ some signature
  pub parsed : crypto.parse payload ≡ some value
  pub shaped : envelope_shape value ≡ some e
  pub known : find_key crypto ring e.kid ≡ some key
  pub same_kid : key.kid ≡ e.kid
  pub signed : crypto.hmac_verify key.key signature payload ≡ true

two_parts_sound : (l : List String) (p : String × String) → two_parts l ≡ ok p → l ≡ p.0 ∷ p.1 ∷ []
unfolding two_parts
two_parts_sound [] p h = absurd (cc)
two_parts_sound (a ∷ []) p h = absurd (cc)
two_parts_sound (a ∷ b ∷ []) p h = ground arith
two_parts_sound (a ∷ b ∷ c ∷ l) p h = absurd (cc)

module _ {Bytes : Type 0} (crypto : StateCrypto Bytes) (ring : StateKeyRing Bytes) where
  authenticated_sound :
      (payload sig : Bytes) (parsed e : StateEnvelope)
      → authenticated crypto ring payload sig parsed ≡ ok e
      → (key : StateKey Bytes) × (find_key crypto ring parsed.kid ≡ some key)
        × (crypto.hmac_verify key.key sig payload ≡ true)
        × (parsed ≡ e)
  unfolding authenticated
  authenticated_sound payload sig parsed e h =
      after_and_then _ (or_fail (unknown_kid parsed.kid) (find_key crypto ring parsed.kid)) _ e h
        λ key found h1. (key, or_fail-eq-ok _ _ key found, ground arith, ground arith)

  -- A state that verifies has exactly two parts around its dot, the first decodes to a payload
  -- that parses to the envelope's four fields, and the second decodes to a signature of that
  -- payload under the ring's key with the envelope's kid.
  pub verify_state_envelope-IsVerified :
      (state : String) (e : StateEnvelope)
      → verify_state_envelope crypto ring state ≡ ok e
      → IsVerified crypto ring state e
  unfolding verify_state_envelope parsed_envelope state_parts decoded
  verify_state_envelope-IsVerified state e h =
      after_and_then _ (state_parts state) _ e h λ parts split1 h1.
        after_and_then _ (decoded crypto ring parts.0) _ e h1 λ payload d1 h2.
          after_and_then _ (decoded crypto ring parts.1) _ e h2 λ sig d2 h3.
            after_and_then _ (parsed_envelope crypto ring payload) _ e h3 λ parsed d3 h4.
              after_and_then _
                (or_fail (unknown_state "malformed state payload") (crypto.parse payload)) _ parsed
                d3
                λ value d4 d5.
                  let (key, found, signed, same) = authenticated_sound payload sig parsed e h4 in
                  let known : find_key crypto ring e.kid ≡ some key = rw (← same) found in
                  record {
                    parts = parts;
                    payload = payload;
                    signature = sig;
                    value = value;
                    key = key;
                    is_split = two_parts_sound (split 46 state) parts split1;
                    payload_part = or_fail-eq-ok _ _ payload d1;
                    signature_part = or_fail-eq-ok _ _ sig d2;
                    parsed = or_fail-eq-ok _ _ value d4;
                    shaped = or_fail-eq-ok _ _ parsed d5 ∙ ap some same;
                    known = known;
                    same_kid = find_key_sound crypto ring e.kid key known;
                    signed = signed;
                  }
