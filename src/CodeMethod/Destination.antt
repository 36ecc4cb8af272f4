-- ===== src/CodeMethod/Destination.antt =====
-- Where packages/openauth/src/methods/code.ts sends its codes to.
use openauth.Prelude.{
  ℕ, ◌-◌, String, Bool, true, false, not, ◌&&◌, ◌||◌, none, some, List, [], ◌∷◌, ◌==◌, eqb, leb,
  is_space, split,
}
use Prim.Native.Char.{Char, code}
use openauth.Pages.{FormField}

pub data DestinationKind : Type 0 where
  email tel any : DestinationKind

-- no character of `\s`
no_space : String → Bool
unfolding is_space
no_space String.[] = true
no_space (String.◌∷◌ c s) = not (is_space c) && no_space s

-- a dot that is not the last character
inner_dot : String → Bool
inner_dot String.[] = false
inner_dot (String.◌∷◌ c s) = (eqb (code c) 46 && not (s == "")) || inner_dot s

-- `[^\s@]+\.[^\s@]+`, of a text without spaces and without `@`
is_domain : String → Bool
unfolding inner_dot
is_domain String.[] = false
is_domain (String.◌∷◌ c s) = inner_dot s

address_parts : List String → Bool
unfolding is_domain
address_parts (local ∷ domain ∷ []) = not (local == "") && is_domain domain
address_parts _ = false

-- `/^[^\s@]+@[^\s@]+\.[^\s@]+$/`
unfoldable pub is_email : String → Bool
unfolding no_space address_parts
is_email s = no_space s && address_parts (split 64 s)

is_digit : Char → Bool
is_digit c = leb 48 (code c) && leb (code c) 57

-- `[\d\s\-()]`
is_phone_char : Char → Bool
unfolding is_digit is_space
is_phone_char c = is_digit c || is_space c || eqb (code c) 45 || eqb (code c) 40 || eqb (code c) 41

-- at least so many characters, all of them of the class
phone_tail : ℕ → String → Bool
unfolding is_phone_char
phone_tail n String.[] = eqb n 0
phone_tail n (String.◌∷◌ c s) = is_phone_char c && phone_tail (n - 1) s

-- `/^[+\d][\d\s\-()]{6,}$/`
unfoldable pub is_phone : String → Bool
unfolding phone_tail is_digit
is_phone String.[] = false
is_phone (String.◌∷◌ c s) = (eqb (code c) 43 || is_digit c) && phone_tail 6 s

unfoldable pub validate_destination : String → DestinationKind → Bool
unfolding is_email is_phone
validate_destination s email = not (s == "") && is_email s
validate_destination s tel = not (s == "") && is_phone s
validate_destination s any = not (s == "")

abbrev pub destination_field : DestinationKind → List FormField
destination_field email =
    (record {
      name = "destination";
      label = "Email";
      type = some "email";
      value = none;
      required = true;
      autocomplete = some "email";
      inputmode = none;
    })
    ∷ []
destination_field tel =
    (record {
      name = "destination";
      label = "Phone";
      type = some "tel";
      value = none;
      required = true;
      autocomplete = some "tel";
      inputmode = none;
    })
    ∷ []
destination_field any =
    (record {
      name = "destination";
      label = "Destination";
      type = some "text";
      value = none;
      required = true;
      autocomplete = none;
      inputmode = none;
    })
    ∷ []
