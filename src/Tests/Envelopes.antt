-- ===== src/Tests/Envelopes.antt =====
-- A toy of what packages/openauth/src/domain/state-envelope.ts takes from the runtime, for which its
-- documented laws hold: bytes are texts, dots are escaped, and a signature is the key before the
-- message.
use Prim.Native.Char.{Char, code}
use openauth.Prelude.{
  String, Bool, true, false, Option, none, some, [], ◌∷◌, ◌==◌, ◌<>◌, ◌≡◌, ◌≢◌, refl, arith, eqb,
  eq_refl, lacks, if◌then◌else◌,
}
use text.Mathlib.TextEquality.{Char-path}
use openauth.StateEnvelope.Laws.{envelope_shape-envelope_object}
use openauth.Types.Json.{Json}
use openauth.StateEnvelope.{
  StateEnvelope, StateKeyRing, StateCrypto, IsStateCrypto, envelope_object, envelope_shape,
}

unfoldable pub escape : String → String
escape String.[] = ""
escape (String.◌∷◌ c s) =
    let rest = escape s in
    if eqb (code c) b'.'
    then String.◌∷◌ "e" (String.◌∷◌ "1" rest)
    else if eqb (code c) b'e'
    then String.◌∷◌ "e" (String.◌∷◌ "2" rest)
    else String.◌∷◌ c rest

-- the flag is set after an "e"
unfoldable pub unescape : Bool → String → String
unescape b String.[] = ""
unescape true (String.◌∷◌ c s) =
    String.◌∷◌ (if eqb (code c) b'1' then "." else "e") (unescape false s)
unescape false (String.◌∷◌ c s) =
    let rest = unescape false s in
    let after = unescape true s in if eqb (code c) b'e' then after else String.◌∷◌ c rest

-- a text before the rest, each of its characters marked
unfoldable pub marked : String → String → String
marked String.[] rest = String.◌∷◌ ";" rest
marked (String.◌∷◌ c s) rest = String.◌∷◌ "x" (String.◌∷◌ c (marked s rest))

-- the flag is set after a mark
unfoldable pub read : Bool → String → String × String
read b String.[] = ("", "")
read true (String.◌∷◌ c s) = let r = read false s in (String.◌∷◌ c r.0, r.1)
read false (String.◌∷◌ c s) = let r = read true s in if eqb (code c) b'x' then r else ("", s)

printed : Option StateEnvelope → String
printed none = ""
printed (some e) = marked e.tenant_id (marked e.flow_id (marked e.nonce (marked e.kid "")))

unfoldable pub parsed : String → Option Json
parsed s =
    let t = read false s in
    let f = read false t.1 in
    let n = read false f.1 in
    let k = read false n.1 in
    some (envelope_object (record { tenant_id = t.0; flow_id = f.0; nonce = n.0; kid = k.0 }))

unfoldable pub stringified : Json → String
unfolding printed
stringified j = printed (envelope_shape j)

abbrev pub crypto : StateCrypto String
crypto = record {
  b64_encode = escape;
  b64_decode = λ s. some (unescape false s);
  stringify = stringified;
  parse = parsed;
  hmac_sign = λ k b. String.◌∷◌ "m" (k <> b);
  hmac_verify = λ k s b. s == String.◌∷◌ "m" (k <> b);
}

abbrev pub state_keys : StateKeyRing String
state_keys = record {
  active = record { kid = "k1"; key = "secret" };
  verify = record { kid = "k1"; key = "secret" } ∷ [];
}

cons_lem : (c d : Char) (s t : String) → c ≡ d → s ≡ t → String.◌∷◌ c s ≡ String.◌∷◌ d t
cons_lem c d s t h k i = String.◌∷◌ (h i) (k i)

unescape_step :
    (c : Char) (rest s : String) (dot e : Bool)
    → unescape false rest ≡ s
    → eqb (code c) b'.' ≡ dot
    → eqb (code c) b'e' ≡ e
    → unescape false (
        if dot
        then String.◌∷◌ "e" (String.◌∷◌ "1" rest)
        else if e
        then String.◌∷◌ "e" (String.◌∷◌ "2" rest)
        else String.◌∷◌ c rest)
      ≡ String.◌∷◌ c s
unfolding unescape
unescape_step c rest s true e h d k = cons_lem "." c _ s (Char-path "." c (ground arith)) h
unescape_step c rest s false true h d k = cons_lem "e" c _ s (Char-path "e" c (ground arith)) h
unescape_step c rest s false false h d k = rw (k, h) refl

unescape-escape : (s : String) → unescape false (escape s) ≡ s
unfolding escape unescape
unescape-escape String.[] = refl
unescape-escape (String.◌∷◌ c s) =
    unescape_step c (escape s) s (eqb (code c) b'.') (eqb (code c) b'e') (unescape-escape s) refl
      refl

escape-lacks : (s : String) → lacks 46 (escape s) ≡ true
unfolding escape
escape-lacks String.[] = refl
escape-lacks (String.◌∷◌ c s) = let h = escape-lacks s in ground arith

escape_step-some :
    (c : Char) (rest : String) (dot e : Bool)
    → (if dot
        then String.◌∷◌ "e" (String.◌∷◌ "1" rest)
        else if e
        then String.◌∷◌ "e" (String.◌∷◌ "2" rest)
        else String.◌∷◌ c rest)
      ≢ ""
escape_step-some c rest true e h = cc
escape_step-some c rest false true h = cc
escape_step-some c rest false false h = cc

escape-some : (c : Char) (s : String) → escape (String.◌∷◌ c s) ≢ ""
unfolding escape
escape-some c s h = escape_step-some c (escape s) (eqb (code c) b'.') (eqb (code c) b'e') h

read-marked : (s rest : String) → read false (marked s rest) ≡ (s, rest)
unfolding read marked
read-marked String.[] rest = refl
read-marked (String.◌∷◌ c s) rest = rw (read-marked s rest) refl

marked-some : (s rest : String) → escape (marked s rest) ≢ ""
unfolding marked
marked-some String.[] rest = escape-some ";" rest
marked-some (String.◌∷◌ c s) rest = escape-some "x" (String.◌∷◌ c (marked s rest))

parsed-stringified :
    (e : StateEnvelope) → parsed (stringified (envelope_object e)) ≡ some (envelope_object e)
unfolding parsed stringified printed
parsed-stringified e =
    rw
      (
        envelope_shape-envelope_object e,
        read-marked e.tenant_id (marked e.flow_id (marked e.nonce (marked e.kid ""))),
        read-marked e.flow_id (marked e.nonce (marked e.kid "")),
        read-marked e.nonce (marked e.kid ""),
        read-marked e.kid "",
      )
      refl

stringified-some : (e : StateEnvelope) → escape (stringified (envelope_object e)) ≢ ""
unfolding stringified printed
stringified-some e =
    rw (envelope_shape-envelope_object e)
      (marked-some e.tenant_id (marked e.flow_id (marked e.nonce (marked e.kid ""))))

pub crypto-IsStateCrypto : IsStateCrypto crypto
crypto-IsStateCrypto = record {
  decode_encode = λ b i. some (unescape-escape b i);
  encode_dotless = escape-lacks;
  parse_stringify = parsed-stringified;
  stringify_some = stringified-some;
  sign_some = λ k b. escape-some "m" (k <> b);
  verify_sign = λ k b. eq_refl (String.◌∷◌ "m" (k <> b));
}
