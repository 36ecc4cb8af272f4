-- ===== src/CodeMethod/Delivered.antt =====
-- Who gets in with packages/openauth/src/methods/code.ts: whoever gives the code that was delivered,
-- for the destination that it was delivered to.
use openauth.Prelude.{
  ℕ, ◌<◌, String, true, Option, none, some, List, ◌≡◌, refl, ap, ◌∙◌, arith, leb, Bool-cases,
  Option-cases, if◌then◌else◌, inl, inr,
}
use mathlib.Core.Path.{subst}
use openauth.Types.Json.{Json}
use openauth.Types.Method.{
  MethodContext, MethodResult, Rendered, challenge, success, UnsolicitedBinding,
}
use openauth.Crypto.{IsUtf8}
use openauth.Crypto.TimingSafe.{timing_safe_equal_str_iff}
use openauth.CodeMethod.{
  CodeEnv, CodeConfig, Delivery, max_attempts, destination_kind, generate_code, filled, safe_form,
  handle_send, refuse_destination, code_sent, sent_state, delivery, handle_verify, verify_with,
  verify_form_of, verify_code, code_matches,
}
use openauth.CodeMethod.Destination.{validate_destination}
use openauth.CodeMethod.State.{CodeState, state_json, state_of_json}
use openauth.CodeMethod.Attempts.{
  state_of_json-state_json, with_state, handed_on, after_verifies, wrong_guesses,
  after_verifies-Follows,
}

-- the field of a form that could be read
abbrev pub field_of : String → Option (String → Option String) → Option String
field_of k none = none
field_of k (some get) = filled (get k)

module _ (host : CodeEnv) (method_id : String) (config : CodeConfig) where
  -- What a send hands to the hook, and keeps.
  pub record IsSent (ctx : MethodContext) (draw : ℕ) (d : Delivery) (r : MethodResult)
      : Type 0 where
    pub asked : field_of "destination" (safe_form ctx.request) ≡ some d.destination
    pub valid : validate_destination d.destination (destination_kind config) ≡ true
    pub drawn : d.code ≡ generate_code host config draw
    pub tenant : d.tenant_id ≡ ctx.tenant.id
    pub view : Rendered
    pub kept : r ≡ challenge view (some (state_json (sent_state host method_id config d)))

  -- A code is redeemed: it was submitted, it is the one of the state, and the attempts were not used up.
  pub record IsRedeemed (ctx : MethodContext) (s : CodeState) (subject : String) : Type 0 where
    pub same : subject ≡ s.destination
    pub left : s.attempts < max_attempts config
    pub submitted : String
    pub given : field_of "code" (safe_form ctx.request) ≡ some submitted
    pub hashed : host.platform.sha256_b64 submitted ≡ s.code_hash

  verify_code-IsRedeemed :
      (ctx : MethodContext) (s : CodeState) (submitted subject : String) (properties : Json)
      (binding : Option UnsolicitedBinding)
      → IsUtf8 host.platform
      → s.attempts < max_attempts config
      → field_of "code" (safe_form ctx.request) ≡ some submitted
      → verify_code host method_id config ctx s submitted ≡ success subject properties binding
      → IsRedeemed ctx s subject
  unfolding verify_code code_matches
  verify_code-IsRedeemed ctx s submitted subject properties binding u left given h =
      elim (Bool-cases (code_matches host method_id config s submitted)) [
        | inl e ↦ record {
          same = ground arith;
          left = left;
          submitted = submitted;
          given = given;
          hashed = (timing_safe_equal_str_iff host.platform _ _ u).0 e;
        }
        | inr e ↦ absurd (ground arith)
      ]

  verify_form_of-IsRedeemed :
      (ctx : MethodContext) (s : CodeState) (form : Option (String → Option String))
      (subject : String) (properties : Json) (binding : Option UnsolicitedBinding)
      → IsUtf8 host.platform
      → s.attempts < max_attempts config
      → safe_form ctx.request ≡ form
      → verify_form_of host method_id config ctx s form ≡ some (success subject properties binding)
      → IsRedeemed ctx s subject
  unfolding verify_form_of
  verify_form_of-IsRedeemed ctx s none subject properties binding u left e h = absurd (ground arith)
  verify_form_of-IsRedeemed ctx s (some get) subject properties binding u left e h =
      elim (Option-cases (filled (get "code"))) [
        | inl n ↦ absurd (ground arith)
        | inr (submitted, n) ↦
            verify_code-IsRedeemed ctx s submitted subject properties binding u left (rw e n)
              (ground arith)
      ]

  verify_with-IsRedeemed :
      (ctx : MethodContext) (s : CodeState) (subject : String) (properties : Json)
      (binding : Option UnsolicitedBinding)
      → IsUtf8 host.platform
      → verify_with host method_id config ctx (some s) ≡ some (success subject properties binding)
      → IsRedeemed ctx s subject
  unfolding verify_with
  verify_with-IsRedeemed ctx s subject properties binding u h =
      elim (Bool-cases (leb (max_attempts config) s.attempts)) [
        | inl e ↦ absurd (ground arith)
        | inr e ↦
            verify_form_of-IsRedeemed ctx s (safe_form ctx.request) subject properties binding u
              (ground arith) refl (ground arith)
      ]

  handle_verify-IsRedeemed :
      (ctx : MethodContext) (s : CodeState) (j : Json) (subject : String) (properties : Json)
      (binding : Option UnsolicitedBinding)
      → IsUtf8 host.platform
      → j ≡ state_json s
      → handle_verify host method_id config (with_state ctx j)
        ≡ some (success subject properties binding)
      → IsRedeemed ctx s subject
  unfolding handle_verify
  handle_verify-IsRedeemed ctx s j subject properties binding u held h =
      let read : state_of_json j ≡ some s = ap state_of_json held ∙ state_of_json-state_json s in
      let r =
        verify_with-IsRedeemed (with_state ctx j) s subject properties binding u (rw read at h) in
      record {
        same = r.same;
        left = r.left;
        submitted = r.submitted;
        given = r.given;
        hashed = r.hashed;
      }

  code_sent-IsSent :
      (ctx : MethodContext) (draw : ℕ) (destination : String) (d : Delivery) (r : MethodResult)
      → field_of "destination" (safe_form ctx.request) ≡ some destination
      → validate_destination destination (destination_kind config) ≡ true
      → code_sent host method_id config ctx (delivery host method_id config ctx draw destination)
        ≡ (some d, r)
      → IsSent ctx draw d r
  unfolding code_sent delivery
  code_sent-IsSent ctx draw destination d r asked valid h =
      let d0 = delivery host method_id config ctx draw destination in
      let same : d0 ≡ d = ground arith in
      let here : IsSent ctx draw d0 (code_sent host method_id config ctx d0).1 = record {
        asked = asked;
        valid = valid;
        drawn = refl;
        tenant = refl;
        view = _;
        kept = refl;
      } in
      subst (λ (x : MethodResult). IsSent ctx draw d x) (ap (λ a. a.1) h)
        (subst (λ (x : Delivery). IsSent ctx draw x (code_sent host method_id config ctx d0).1) same
          here)

  send_form-IsSent :
      (ctx : MethodContext) (draw : ℕ) (destination : String) (d : Delivery) (r : MethodResult)
      → field_of "destination" (safe_form ctx.request) ≡ some destination
      → (if validate_destination destination (destination_kind config)
          then some (
              code_sent host method_id config ctx
                (delivery host method_id config ctx draw destination))
          else some (none, refuse_destination host method_id config ctx))
        ≡ some (some d, r)
      → IsSent ctx draw d r
  send_form-IsSent ctx draw destination d r asked h =
      elim (Bool-cases (validate_destination destination (destination_kind config))) [
        | inl e ↦ code_sent-IsSent ctx draw destination d r asked e (ground arith)
        | inr e ↦ absurd (ground arith)
      ]

  handle_send-IsSent :
      (ctx : MethodContext) (draw : ℕ) (d : Delivery) (r : MethodResult)
      → handle_send host method_id config ctx draw ≡ some (some d, r)
      → IsSent ctx draw d r
  unfolding handle_send
  handle_send-IsSent ctx draw d r h = elim (Option-cases (safe_form ctx.request)) [
    | inl e ↦ absurd (ground arith)
    | inr (get, e) ↦ elim (Option-cases (filled (get "destination"))) [
      | inl n ↦ absurd (ground arith)
      | inr (destination, n) ↦ send_form-IsSent ctx draw destination d r (rw e n) (ground arith)
    ]
  ]

  -- A success after a send, whatever was tried before it.
  pub record IsDelivered (ctx redeemed : MethodContext) (draw guesses : ℕ) (d : Delivery)
      (subject : String) : Type 0 where
    pub asked : field_of "destination" (safe_form ctx.request) ≡ some d.destination
    pub valid : validate_destination d.destination (destination_kind config) ≡ true
    pub drawn : d.code ≡ generate_code host config draw
    pub same : subject ≡ d.destination
    pub submitted : String
    pub given : field_of "code" (safe_form redeemed.request) ≡ some submitted
    pub hashed : host.platform.sha256_b64 submitted ≡ host.platform.sha256_b64 d.code
    pub left : guesses < max_attempts config

  -- Over an encoding that keeps the laws of UTF-8, when a send delivered a code and a verify after
  -- it succeeds, whatever verifies came between, the subject is the destination of the send, which
  -- is a valid one that the form named, the submitted code has the hash of the delivered code,
  -- which the generator made, and fewer codes than the configured attempts were refused in
  -- between.
  pub handle_verify-IsDelivered :
      (sending redeeming : MethodContext) (cs : List MethodContext) (draw : ℕ) (d : Delivery)
      (r : MethodResult) (subject : String) (properties : Json)
      (binding : Option UnsolicitedBinding)
      → IsUtf8 host.platform
      → handle_send host method_id config sending draw ≡ some (some d, r)
      → handle_verify host method_id config (
          with_state redeeming
            (after_verifies host method_id config cs (handed_on sending.method_state (some r))))
        ≡ some (success subject properties binding)
      → IsDelivered sending redeeming draw
          (wrong_guesses host method_id config cs (handed_on sending.method_state (some r)))
          d
          subject
  unfolding sent_state
  handle_verify-IsDelivered sending redeeming cs draw d r subject properties binding u sends h =
      let begun = handle_send-IsSent sending draw d r sends in
      let kept : handed_on sending.method_state (some r)
          ≡ state_json (sent_state host method_id config d) =
        ap (λ (x : MethodResult). handed_on sending.method_state (some x)) begun.kept in
      let run =
        after_verifies-Follows host method_id config cs (sent_state host method_id config d) in
      let redeemed =
        handle_verify-IsRedeemed redeeming run.next
          (after_verifies host method_id config cs (handed_on sending.method_state (some r)))
          subject properties binding u
          (ap (after_verifies host method_id config cs) kept ∙ run.held) h in
      record {
        asked = begun.asked;
        valid = begun.valid;
        drawn = begun.drawn;
        same = redeemed.same ∙ run.same_destination;
        submitted = redeemed.submitted;
        given = redeemed.given;
        hashed = redeemed.hashed ∙ run.same_hash;
        left = rw kept (omega (arith, run.counted, redeemed.left));
      }
