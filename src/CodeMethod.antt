-- ===== src/CodeMethod.antt =====
-- packages/openauth/src/methods/code.ts: the method that sends a code and asks for it back.
pub mod Codes
pub mod State
pub mod Destination
pub mod Attempts
pub mod Delivered
pub mod Digits
use openauth.Prelude.{
  ℕ, ◌+◌, String, Bool, true, false, Option, none, some, List, [], ◌∷◌, ◌<>◌, ◌==◌, leb,
  if◌then◌else◌, get_or_else, lower_starts,
}
use openauth.Types.Error.{invalid_request}
use openauth.Types.Json.{Json, str, obj, end, field}
use openauth.Types.Tenant.{MethodType}
use openauth.Types.Method.{
  Request, MethodContext, MethodResult, challenge, success, denied, error, Handling, returns,
  AuthMethod,
}
use openauth.Crypto.{Platform, timing_safe_equal_str}
use openauth.Mount.{ParseUrl, mounted_path}
use openauth.Pages.{FormField, FormOptions, render_form}
use openauth.CodeMethod.Codes.{default_code}
use openauth.CodeMethod.State.{CodeState, state_json, state_of_json}
use openauth.CodeMethod.Destination.{
  DestinationKind, email, destination_field, validate_destination,
}

-- `CodeConfig`, with `titles` flattened
pub record CodeConfig : Type 0 where
  pub code_length : Option ℕ
  pub max_attempts : Option ℕ
  pub destination_kind : Option DestinationKind
  pub title_request : Option String
  pub title_verify : Option String

-- What the hook is called with.
pub record Delivery : Type 0 where
  pub destination : String
  pub code : String
  pub tenant_id : String

-- What the runtime and the host offer: `new Response(body, { status, headers })` with the content type
-- of a page, and `opts.generateCode` over the random bytes that it draws.
pub record CodeEnv : Type 0 where
  pub platform : Platform
  pub parse_url : ParseUrl
  pub html_response : String → ℕ → String
  pub generate_code : Option (ℕ → String)

abbrev pub code_field : List FormField
code_field =
    (record {
      name = "code";
      label = "Code";
      type = none;
      value = none;
      required = true;
      autocomplete = some "one-time-code";
      inputmode = some "numeric";
    })
    ∷ []

-- The body's entries; `none` where it cannot be read, and the handler throws.
unfoldable pub safe_form : Request → Option (String → Option String)
unfolding lower_starts
safe_form req =
    if lower_starts "application/x-www-form-urlencoded" (get_or_else req.content_type "")
    then req.entries
    else some (λ k. none)

-- `z.string().min(1)`
abbrev pub filled : Option String → Option String
filled none = none
filled (some s) = if s == "" then none else some s

-- `config.maxAttempts ?? 5` and its like
abbrev pub max_attempts : CodeConfig → ℕ
max_attempts config = get_or_else config.max_attempts 5

abbrev pub destination_kind : CodeConfig → DestinationKind
destination_kind config = get_or_else config.destination_kind email

abbrev pub title_request : CodeConfig → String
title_request config = get_or_else config.title_request "Sign in"

abbrev pub title_verify : CodeConfig → String
title_verify config = get_or_else config.title_verify "Enter your code"

-- `customGenerator ?? (() => defaultCode(codeLength))`, over the bytes drawn
unfoldable pub generate_code : CodeEnv → CodeConfig → ℕ → String
generate_code host config draw = elim host.generate_code [
  | some custom ↦ custom draw
  | none ↦ default_code (get_or_else config.code_length 6) draw
]

module _ (host : CodeEnv) (method_id : String) (config : CodeConfig) where
  -- `{ kind: "challenge", response: htmlResponse(renderForm(form), status), saveMethodState }`
  abbrev pub form_page : FormOptions → ℕ → Option Json → MethodResult
  form_page form status state =
      challenge
        (record {
          response = host.html_response (render_form form) status;
          set_cookies = [];
          cache = none;
        })
        state

  form_action : MethodContext → String → String
  form_action ctx route =
      mounted_path host.parse_url ctx.issuer_url ("/m/" <> (method_id <> ("/" <> route)))

  -- The form that asks for the destination.
  unfoldable pub request_form : MethodContext → Option String → FormOptions
  unfolding form_action
  request_form ctx failure = record {
    title = title_request config;
    action = form_action ctx "send";
    fields = destination_field (destination_kind config);
    submit = "Send code";
    error = failure;
    hidden = [];
  }

  -- The form that asks for the code.
  unfoldable pub verify_form : MethodContext → Option String → List (String × String) → FormOptions
  unfolding form_action
  verify_form ctx failure hidden = record {
    title = title_verify config;
    action = form_action ctx "verify";
    fields = code_field;
    submit = "Verify";
    error = failure;
    hidden = hidden;
  }

  handle_authorize : MethodContext → Option MethodResult
  unfolding request_form
  handle_authorize ctx = some (form_page (request_form ctx none) 200 none)

  unfoldable pub refuse_destination : MethodContext → MethodResult
  unfolding request_form
  refuse_destination ctx =
      form_page (request_form ctx (some "Please enter a valid destination.")) 400 none

  -- The state of a code that was delivered.
  unfoldable pub sent_state : Delivery → CodeState
  sent_state d = record {
    destination = d.destination;
    code_hash = host.platform.sha256_b64 d.code;
    attempts = 0;
    error = none;
  }

  -- what the hook is called with, at these random bytes
  unfoldable pub delivery : MethodContext → ℕ → String → Delivery
  unfolding generate_code
  delivery ctx draw destination = record {
    destination = destination;
    code = generate_code host config draw;
    tenant_id = ctx.tenant.id;
  }

  -- Whether the hook throws makes no difference.
  unfoldable pub code_sent : MethodContext → Delivery → Option Delivery × MethodResult
  unfolding verify_form sent_state
  code_sent ctx d = (
    some d,
    form_page (verify_form ctx none (("destination", d.destination) ∷ [])) 200
        (some (state_json (sent_state d))),
  )

  -- the call of the hook, if there is one, and the result
  unfoldable pub handle_send : MethodContext → ℕ → Option (Option Delivery × MethodResult)
  unfolding safe_form refuse_destination validate_destination code_sent delivery
  handle_send ctx draw = elim (safe_form ctx.request) [
    | none ↦ none
    | some get ↦ elim (filled (get "destination")) [
      | none ↦ some (none, refuse_destination ctx)
      | some destination ↦
          if validate_destination destination (destination_kind config)
          then some (code_sent ctx (delivery ctx draw destination))
          else some (none, refuse_destination ctx)
    ]
  ]

  unfoldable pub verify_error : MethodContext → CodeState → String → MethodResult
  unfolding verify_form
  verify_error ctx next failure =
      form_page (verify_form ctx (some failure) []) 400
        (some (state_json (record next { error = some failure })))

  -- `hash(code)` against the state's, in constant time
  unfoldable pub code_matches : CodeState → String → Bool
  code_matches state submitted =
      timing_safe_equal_str host.platform (host.platform.sha256_b64 submitted) state.code_hash

  unfoldable pub verify_code : MethodContext → CodeState → String → MethodResult
  unfolding verify_error code_matches
  verify_code ctx state submitted =
      if code_matches state submitted
      then success state.destination (obj (field "destination" (str state.destination) end)) none
      else verify_error ctx (record state { attempts = state.attempts + 1 })
          "Incorrect code. Please try again."

  unfoldable pub verify_form_of :
      MethodContext → CodeState → Option (String → Option String) → Option MethodResult
  unfolding verify_error verify_code
  verify_form_of ctx state none = none
  verify_form_of ctx state (some get) = elim (filled (get "code")) [
    | none ↦ some (verify_error ctx state "Please enter the code.")
    | some submitted ↦ some (verify_code ctx state submitted)
  ]

  unfoldable pub verify_with : MethodContext → Option CodeState → Option MethodResult
  unfolding verify_form_of safe_form
  verify_with ctx none = some (error (invalid_request "verify without prior /send" none))
  verify_with ctx (some state) =
      if leb (max_attempts config) state.attempts
      then some (denied "too_many_attempts" [])
      else verify_form_of ctx state (safe_form ctx.request)

  unfoldable pub handle_verify : MethodContext → Option MethodResult
  unfolding verify_with state_of_json
  handle_verify ctx = verify_with ctx (state_of_json ctx.method_state)

  abbrev result_of : Option (Option Delivery × MethodResult) → Option MethodResult
  result_of none = none
  result_of (some a) = some a.1

  unfoldable pub code_routes : ℕ → String → Option (MethodContext → Handling)
  unfolding handle_authorize handle_send handle_verify
  code_routes draw route =
      if route == "GET /authorize"
      then some (λ ctx. returns (handle_authorize ctx))
      else if route == "POST /send"
      then some (λ ctx. returns (result_of (handle_send ctx draw)))
      else if route == "POST /verify"
      then some (λ ctx. returns (handle_verify ctx))
      else none

  -- The method that `build` makes, at the random bytes that are drawn during a request.
  unfoldable pub code_method : ℕ → AuthMethod
  unfolding code_routes
  code_method draw = record {
    id = method_id;
    kind = "code";
    type = MethodType.code;
    routes = code_routes draw;
    unsolicited_callback = false;
  }
