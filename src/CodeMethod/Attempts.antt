-- ===== src/CodeMethod/Attempts.antt =====
-- How often packages/openauth/src/methods/code.ts lets a code be guessed: a flow's verifies, each with
-- the state that the one before left.
use openauth.Prelude.{
  ℕ, ◌+◌, ◌≤◌, String, true, false, Option, none, some, List, [], ◌∷◌, ◌==◌, leb, if◌then◌else◌,
  ◌≡◌, refl, ◌∙◌, arith, Bool-cases, inl, inr,
}
use openauth.Types.Json.{Json, get_field}
use openauth.Types.Method.{MethodContext, MethodResult, challenge, denied}
use openauth.CodeMethod.{
  CodeEnv, CodeConfig, max_attempts, filled, safe_form, handle_verify, verify_with, verify_form_of,
  verify_code, verify_error, code_matches,
}
use openauth.CodeMethod.State.{CodeState, state_json, state_of_json}

-- A state is read back as it was kept.
pub state_of_json-state_json : (s : CodeState) → state_of_json (state_json s) ≡ some s
unfolding state_of_json state_json get_field
state_of_json-state_json s =
    elim s.error
      as (λ e.
        state_of_json (state_json (record s { error = e })) ≡ some (record s { error = e })) [
          | none ↦ refl
          | some e ↦ refl
        ]

-- What the flow's record holds after a result.
abbrev pub handed_on : Json → Option MethodResult → Json
handed_on j (some (challenge r (some s))) = s
handed_on j _ = j

abbrev refused_code : Option CodeState → ℕ
refused_code none = 0
refused_code (some s) = elim s.error [
  | none ↦ 0
  | some e ↦ if e == "Incorrect code. Please try again." then 1 else 0
]

-- 1 for a result that refuses a code
abbrev pub wrong : Option MethodResult → ℕ
wrong (some (challenge r (some s))) = refused_code (state_of_json s)
wrong _ = 0

abbrev pub with_state : MethodContext → Json → MethodContext
with_state ctx j = record ctx { method_state = j }

module _ (host : CodeEnv) (method_id : String) (config : CodeConfig) where
  unfoldable pub after_verifies : List MethodContext → Json → Json
  after_verifies [] j = j
  after_verifies (c ∷ cs) j =
      after_verifies cs (handed_on j (handle_verify host method_id config (with_state c j)))

  unfoldable pub wrong_guesses : List MethodContext → Json → ℕ
  wrong_guesses [] j = 0
  wrong_guesses (c ∷ cs) j =
      let r = handle_verify host method_id config (with_state c j) in
      wrong r + wrong_guesses cs (handed_on j r)

  -- What a verify does to the state: it counts a refused code, and keeps the rest.
  pub record Follows (s : CodeState) (j : Json) (guesses : ℕ) : Type 0 where
    pub next : CodeState
    pub held : j ≡ state_json next
    pub counted : next.attempts ≡ s.attempts + guesses
    pub same_destination : next.destination ≡ s.destination
    pub same_hash : next.code_hash ≡ s.code_hash
    pub bounded : s.attempts ≤ max_attempts config → next.attempts ≤ max_attempts config

  stays : (s : CodeState) → Follows s (state_json s) 0
  stays s = record {
    next = s;
    held = refl;
    counted = omega arith;
    same_destination = refl;
    same_hash = refl;
    bounded = λ h. h;
  }

  StepOf : CodeState → Option MethodResult → Type 0
  StepOf s r = Follows s (handed_on (state_json s) r) (wrong r)

  verify_error-Follows :
      (ctx : MethodContext) (s : CodeState)
      → StepOf s (some (verify_error host method_id config ctx s "Please enter the code."))
  unfolding StepOf verify_error
  verify_error-Follows ctx s =
      rw (state_of_json-state_json (record s { error = some "Please enter the code." })) (record {
        next = record s { error = some "Please enter the code." };
        held = refl;
        counted = omega arith;
        same_destination = refl;
        same_hash = refl;
        bounded = λ h. h;
      })

  refused-Follows :
      (ctx : MethodContext) (s : CodeState)
      → leb (max_attempts config) s.attempts ≡ false
      → StepOf s (
          some (
            verify_error host method_id config ctx
              (record s { attempts = s.attempts + 1 })
              "Incorrect code. Please try again."))
  unfolding StepOf verify_error
  refused-Follows ctx s h =
      let next : CodeState = record s {
        attempts = s.attempts + 1;
        error = some "Incorrect code. Please try again.";
      } in
      rw (state_of_json-state_json next) (record {
        next = next;
        held = refl;
        counted = omega arith;
        same_destination = refl;
        same_hash = refl;
        bounded = λ b. ground arith;
      })

  verify_code-Follows :
      (ctx : MethodContext) (s : CodeState) (submitted : String)
      → leb (max_attempts config) s.attempts ≡ false
      → StepOf s (some (verify_code host method_id config ctx s submitted))
  unfolding StepOf verify_code
  verify_code-Follows ctx s submitted h =
      elim (Bool-cases (code_matches host method_id config s submitted)) [
        | inl e ↦ rw e (stays s)
        | inr e ↦ rw e (refused-Follows ctx s h)
      ]

  verify_form_of-Follows :
      (ctx : MethodContext) (s : CodeState) (form : Option (String → Option String))
      → leb (max_attempts config) s.attempts ≡ false
      → StepOf s (verify_form_of host method_id config ctx s form)
  unfolding StepOf verify_form_of
  verify_form_of-Follows ctx s none h = stays s
  verify_form_of-Follows ctx s (some get) h = submitted_or_not (filled (get "code"))
    where
      submitted_or_not :
          (submitted : Option String)
          → StepOf s (elim submitted [
            | none ↦ some (verify_error host method_id config ctx s "Please enter the code.")
            | some c ↦ some (verify_code host method_id config ctx s c)
          ])
      submitted_or_not none = verify_error-Follows ctx s
      submitted_or_not (some c) = verify_code-Follows ctx s c h

  -- Whatever is submitted, a verify of a state ends so.
  verify_with-Follows :
      (ctx : MethodContext) (s : CodeState)
      → StepOf s (verify_with host method_id config ctx (some s))
  unfolding StepOf verify_with
  verify_with-Follows ctx s = elim (Bool-cases (leb (max_attempts config) s.attempts)) [
    | inl e ↦ rw e (stays s)
    | inr e ↦ rw e (verify_form_of-Follows ctx s (safe_form ctx.request) e)
  ]

  handle_verify-Follows :
      (ctx : MethodContext) (s : CodeState)
      → StepOf s (handle_verify host method_id config (with_state ctx (state_json s)))
  unfolding handle_verify
  handle_verify-Follows ctx s =
      rw (state_of_json-state_json s) (verify_with-Follows (with_state ctx (state_json s)) s)

  pub after_verifies-Follows :
      (cs : List MethodContext) (s : CodeState)
      → Follows s (after_verifies cs (state_json s)) (wrong_guesses cs (state_json s))
  unfolding StepOf after_verifies wrong_guesses
  after_verifies-Follows [] s = stays s
  after_verifies-Follows (c ∷ cs) s =
      let one = handle_verify-Follows c s in
      let rest = after_verifies-Follows cs one.next in
      rw one.held (record {
        next = rest.next;
        held = rest.held;
        counted = omega (arith, one.counted, rest.counted);
        same_destination = rest.same_destination ∙ one.same_destination;
        same_hash = rest.same_hash ∙ one.same_hash;
        bounded = λ b. rest.bounded (one.bounded b);
      })

  -- From a state whose counter is within the configured attempts, however many verifies follow
  -- each other, each with the state that the one before saved, the counter and the number of codes
  -- that are told to be incorrect are together at most the configured attempts.
  pub wrong_guesses-le :
      (cs : List MethodContext) (s : CodeState)
      → s.attempts ≤ max_attempts config
      → s.attempts + wrong_guesses cs (state_json s) ≤ max_attempts config
  wrong_guesses-le cs s h =
      let run = after_verifies-Follows cs s in omega (arith, run.counted, run.bounded h)

  -- Once the refused codes have used up the attempts, every verify is denied, whatever it submits.
  pub handle_verify-denied :
      (cs : List MethodContext) (ctx : MethodContext) (s : CodeState)
      → s.attempts + wrong_guesses cs (state_json s) ≡ max_attempts config
      → handle_verify host method_id config (with_state ctx (after_verifies cs (state_json s)))
        ≡ some (denied "too_many_attempts" [])
  unfolding handle_verify verify_with
  handle_verify-denied cs ctx s h =
      let run = after_verifies-Follows cs s in
      let full : leb (max_attempts config) run.next.attempts ≡ true = ground (arith, run.counted) in
      rw run.held (rw (state_of_json-state_json run.next) (rw full refl))
