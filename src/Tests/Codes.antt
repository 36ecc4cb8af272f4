-- ===== src/Tests/Codes.antt =====
-- Witnesses for packages/openauth/src/methods/code.ts and packages/openauth/src/ui/forms.ts.
use openauth.Prelude.{
  ◌+◌, ◌≤◌, String, true, none, some, [], ◌∷◌, ◌==◌, if◌then◌else◌, ◌≡◌, refl, arith, lacks,
  utf16_length,
}
use openauth.Types.Json.{null, str, obj, end, field}
use openauth.Types.Method.{MethodContext, MethodResult, denied}
use openauth.CodeMethod.{CodeEnv, CodeConfig, Delivery, handle_send, handle_verify, code_sent}
use openauth.CodeMethod.Codes.{default_code}
use openauth.CodeMethod.State.{CodeState, state_json}
use openauth.CodeMethod.Digits.{Prints, default_code-Prints}
use openauth.CodeMethod.Attempts.{
  with_state, handed_on, wrong_guesses, after_verifies, wrong_guesses-le,
}
use openauth.CodeMethod.Delivered.{IsDelivered, handle_verify-IsDelivered}
use openauth.Pages.{escape_html}
use openauth.Pages.Escaped.{unescape_html, less_than, escape_html_lem}
use openauth.Tests.Platforms.{platform, platform-IsUtf8}
use openauth.Tests.Flows.{context, deps, no_cookies, request_to}

abbrev host : CodeEnv
host = record {
  platform = platform;
  parse_url = deps.parse_url;
  html_response = λ body status. body;
  generate_code = none;
}

abbrev config : CodeConfig
config = record {
  code_length = none;
  max_attempts = some 2;
  destination_kind = none;
  title_request = none;
  title_verify = none;
}

abbrev posted : String → String → MethodContext
posted name value = record {
  request = record (request_to "/m/mail/verify" "") {
    method = "POST";
    content_type = some "application/x-www-form-urlencoded";
    entries = some (λ k. if k == name then some value else none);
  };
  issuer_url = "https://id.example";
  sub_path = "/verify";
  tenant = context;
  flow = none;
  method_state = null;
  cookies = no_cookies;
  dispatch = none;
}

abbrev mailed : Delivery
mailed = record { destination = "ann@example.org"; code = "000042"; tenant_id = "acme" }

abbrev begun : CodeState
begun = record { destination = "ann@example.org"; code_hash = "000042"; attempts = 0; error = none }

default_code-Prints_example : Prints (default_code 6 4294967295) 6 967295
unfolding openauth.CodeMethod.Codes.power_of_ten
default_code-Prints_example = default_code-Prints 6 4294967295 (omega arith)

default_code_runs : default_code 6 4294967295 ≡ "967295"
unfolding default_code openauth.CodeMethod.Codes.power_of_ten openauth.Prelude.Decimal.to_decimal
    openauth.CodeMethod.Codes.pad_start utf16_length
default_code_runs = refl

wrong_guesses-le_example :
    0
      + wrong_guesses host "mail" config
          (posted "code" "1" ∷ posted "code" "2" ∷ posted "code" "3" ∷ [])
          (state_json begun)
    ≤ 2
wrong_guesses-le_example =
    wrong_guesses-le host "mail" config
      (posted "code" "1" ∷ posted "code" "2" ∷ posted "code" "3" ∷ []) begun (omega arith)

abbrev first_send : MethodContext
first_send = posted "destination" "ann@example.org"

abbrev send_result : MethodResult
send_result = (code_sent host "mail" config first_send mailed).1

first_send_runs : handle_send host "mail" config first_send 42 ≡ some (some mailed, send_result)
unfolding handle_send openauth.Prelude.split default_code utf16_length
first_send_runs = refl

handle_verify-IsDelivered_example :
    IsDelivered host "mail" config first_send
      (posted "code" "000042")
      42
      (wrong_guesses host "mail" config
        (posted "code" "1" ∷ [])
        (handed_on null (some send_result)))
      mailed
      "ann@example.org"
unfolding handle_verify code_sent after_verifies state_json openauth.Crypto.timing_safe_equal_str
    openauth.Tests.Platforms.encode
handle_verify-IsDelivered_example =
    handle_verify-IsDelivered host "mail" config first_send (posted "code" "000042")
      (posted "code" "1" ∷ []) 42 mailed send_result "ann@example.org"
      (obj (field "destination" (str "ann@example.org") end)) none platform-IsUtf8 first_send_runs
      refl

-- A send starts over, also where a verify was just denied: the counter is that of the last code.
sends_again :
    (handle_verify host "mail" config (
        with_state (posted "code" "9") (
          after_verifies host "mail" config
            (posted "code" "1" ∷ posted "code" "2" ∷ [])
            (state_json begun)))
      ≡ some (denied "too_many_attempts" []))
    × (handle_send host "mail" config
          (with_state first_send (
            after_verifies host "mail" config
              (posted "code" "1" ∷ posted "code" "2" ∷ [])
              (state_json begun)))
          42
        ≡ some (some mailed, send_result))
    × (handed_on null (some send_result) ≡ state_json begun)
unfolding handle_verify code_sent after_verifies state_json openauth.Crypto.timing_safe_equal_str
    openauth.Tests.Platforms.encode handle_send openauth.Prelude.split default_code utf16_length
sends_again = (refl, refl, refl)

escape_html_lem_example :
    (lacks 60 (escape_html "<b title='&'>") ≡ true)
    × (unescape_html (escape_html "<b title='&'>") ≡ "<b title='&'>")
escape_html_lem_example = escape_html_lem 60 "<b title='&'>" less_than

escape_html_runs : escape_html "<&>" ≡ "&lt;&amp;&gt;"
unfolding escape_html
escape_html_runs = refl
