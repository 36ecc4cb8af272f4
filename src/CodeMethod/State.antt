-- ===== src/CodeMethod/State.antt =====
-- The state of packages/openauth/src/methods/code.ts: a code that was sent, by its hash.
use openauth.Prelude.{ℕ, String, Option, none, some}
use openauth.Types.Json.{Json, num, str, obj, Fields, end, field, get_field}

pub record CodeState : Type 0 where
  pub destination : String
  pub code_hash : String
  pub attempts : ℕ
  pub error : Option String

-- The state as the flow's record keeps it.
unfoldable pub state_json : CodeState → Json
state_json s =
    let last : Fields = elim s.error [ none ↦ end | some e ↦ field "error" (str e) end ] in
    obj (
      field "destination" (str s.destination)
        (field "codeHash" (str s.code_hash) (field "attempts" (num s.attempts) last)))

abbrev text_of : Option Json → Option String
text_of (some (str s)) = some s
text_of _ = none

abbrev state_of_parts :
    Option String → Option String → Option Json → Option String → Option CodeState
state_of_parts (some d) (some h) (some (num n)) e =
    some (record { destination = d; code_hash = h; attempts = n; error = e })
state_of_parts _ _ _ _ = none

-- `ctx.methodState`, `null` as `none`; a value that is not a state of this method, which the type of
-- the context excludes, is `none` too.
unfoldable pub state_of_json : Json → Option CodeState
unfolding get_field
state_of_json (obj fs) =
    state_of_parts (text_of (get_field "destination" fs)) (text_of (get_field "codeHash" fs))
      (get_field "attempts" fs) (text_of (get_field "error" fs))
state_of_json _ = none
