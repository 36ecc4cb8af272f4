-- ===== src/Flow/RoundTrip.antt =====
-- From the code that a flow is given to its exchange: /token works on the payload that was issued. About
-- packages/openauth/src/domain/authorize.ts, callback.ts and token.ts.
use openauth.Prelude.{ℕ, ◌+◌, ◌<◌, String, some, ◌≡◌, ap, ◌∙◌, arith, remove}
use openauth.Types.Error.{Result, ok, or_fail}
use openauth.Types.Effect.{◌>>=◌, bind-ok, lift}
use openauth.Types.Token.{CodePayload}
use openauth.TokenStore.{TokenStore, StoredCode, auth_code_ttl_ms, consume_code}
use openauth.World.{EncryptionKey, Env, World, with_tokens}
use openauth.Token.Exchange.{
  TokenAuthCodeRequest, usable, decrypted, exchange_payload, exchange_code,
}
use openauth.Flow.{IssuedCode, issue_code}
use openauth.Flow.Issued.{issue_code-IsIssued}

-- What the later request's keys decrypt is what the earlier one's key encrypted.
abbrev pub IsDecryptable : Env → Env → CodePayload → Type 0
IsDecryptable env later p =
    (k : EncryptionKey) (c : String)
    → env.keys.current_encryption_key ≡ ok k
    → env.jose.encrypt_payload p k ≡ some c
    → later.jose.decrypt_payload c (λ kid. usable (later.keys.get_encryption_key kid)) ≡ some p

consume_code-row :
    (now : ℕ) (code : String) (row : StoredCode) (s : TokenStore)
    → s.codes code ≡ some row
    → now < row.expires_at
    → consume_code now code s ≡ (ok row.ciphertext, record s { codes = remove s.codes code })
unfolding consume_code
consume_code-row now code row s e h = ground arith

module _ (env later : Env) (payload : CodePayload) (flow_id : String) where
  -- Where the later request's keys decrypt what the earlier request's key encrypted of this
  -- payload, a code that was issued for a payload and is presented less than 60 seconds later is
  -- exchanged exactly as that payload, in the state with the code consumed.
  pub exchange_code-issue_code :
      (w : World) (r : IssuedCode) (req : TokenAuthCodeRequest)
      → IsDecryptable env later payload
      → (issue_code env payload flow_id w).0 ≡ ok r
      → req.code ≡ r.code
      → later.now < env.now + auth_code_ttl_ms
      → exchange_code later req (issue_code env payload flow_id w).1
        ≡ exchange_payload later req payload
            (with_tokens (consume_code later.now req.code) (issue_code env payload flow_id w).1).1
  unfolding exchange_code decrypted
  exchange_code-issue_code w r req dec h code live =
      let issued = issue_code-IsIssued env payload flow_id w r h in
      let w1 : World = (issue_code env payload flow_id w).1 in
      let row : StoredCode = record {
        ciphertext = issued.ciphertext;
        expires_at = env.now + auth_code_ttl_ms;
      } in
      let stored : w1.tokens.codes req.code ≡ some row =
        ap (λ i. w1.tokens.codes i) (code ∙ issued.code) ∙ issued.stored in
      let taken =
        ap (λ (x : Result String × TokenStore). x.0)
          (consume_code-row later.now req.code row w1.tokens stored live) in
      let opened : decrypted later issued.ciphertext ≡ ok payload =
        ap (or_fail _) (dec issued.key issued.ciphertext issued.current issued.encrypted) in
      let w2 : World = (with_tokens (consume_code later.now req.code) w1).1 in
      bind-ok (with_tokens (consume_code later.now req.code))
        (λ c. lift (decrypted later c) >>= exchange_payload later req) w1 issued.ciphertext taken
      ∙ bind-ok (lift (decrypted later issued.ciphertext)) (exchange_payload later req) w2 payload
          opened
