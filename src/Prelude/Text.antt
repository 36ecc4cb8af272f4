-- ===== src/Prelude/Text.antt =====
-- The string functions of JavaScript that the program uses, over code points.
use Prim.Native.Nat.{ℕ, zero, suc, ◌+◌}
use Prim.Native.Char.{Char, code}
use Prim.Native.String
use Prim.Native.String.append
use Prim.Native.String.{String, [], ◌∷◌}
use text.Mathlib.Text.{◌==◌}
use mathlib.Core.Path.{◌≡◌, refl}
use mathlib.Core.Bool.{Bool, true, false, not, ◌||◌, ◌&&◌}
use mathlib.Core.List.{List, [], ◌∷◌}
use openauth.Prelude.Tests.{ltb, leb, eqb, if◌then◌else◌, ◌<>◌, Bool-cases}
use mathlib.Core.Logic.{inl, inr}
use native.Mathlib.Omega.{arith}
use openauth.Prelude.Lists.{keep, All}

-- `s.length`: UTF-16 code units
unfoldable pub utf16_length : String → ℕ
utf16_length String.[] = 0
utf16_length (String.◌∷◌ c s) = (if ltb (code c) 0x10000 then 1 else 2) + utf16_length s

-- the characters that `trim` removes
unfoldable pub is_space : Char → Bool
is_space c =
    (leb 9 (code c) && leb (code c) 13)
    || eqb (code c) 32
    || eqb (code c) 0xa0
    || eqb (code c) 0x1680
    || (leb 0x2000 (code c) && leb (code c) 0x200a)
    || eqb (code c) 0x2028
    || eqb (code c) 0x2029
    || eqb (code c) 0x202f
    || eqb (code c) 0x205f
    || eqb (code c) 0x3000
    || eqb (code c) 0xfeff

-- `s.trim() === ""`
unfoldable pub is_blank : String → Bool
unfolding is_space
is_blank String.[] = true
is_blank (String.◌∷◌ c s) = is_space c && is_blank s

abbrev pub push_first : Char → List String → List String
push_first c [] = (String.◌∷◌ c "") ∷ []
push_first c (w ∷ ws) = (String.◌∷◌ c w) ∷ ws

-- `s.split(d)` for a delimiter of one character
unfoldable pub split : ℕ → String → List String
split d String.[] = "" ∷ []
split d (String.◌∷◌ c s) =
    let rest = split d s in if eqb (code c) d then "" ∷ rest else push_first c rest

-- no character of the text is the one with this code
abbrev pub lacks : ℕ → String → Bool
lacks d String.[] = true
lacks d (String.◌∷◌ c s) = if eqb (code c) d then false else lacks d s

pub split-lacks : (d : ℕ) (s : String) → lacks d s ≡ true → split d s ≡ s ∷ []
unfolding split
split-lacks d String.[] h = refl
split-lacks d (String.◌∷◌ c s) h = ground (arith, split-lacks d s (ground arith))

split_at :
    (d : ℕ) (c : Char) (h s : String)
    → code c ≡ d
    → lacks d h ≡ true
    → split d (h <> String.◌∷◌ c s) ≡ h ∷ split d s
unfolding split
split_at d c String.[] s e k = rw append.nil (ground arith)
split_at d c (String.◌∷◌ b t) s e k =
    let rest = split_at d c t s e (ground arith) in rw append.cons (ground (arith, rest))

pub split-append : (h s : String) → lacks 46 h ≡ true → split 46 (h <> ("." <> s)) ≡ h ∷ split 46 s
split-append h s k = rw (append.cons, append.nil) (split_at 46 "." h s refl k)

pub split-append_colon :
    (h s : String) → lacks 58 h ≡ true → split 58 (h <> (":" <> s)) ≡ h ∷ split 58 s
split-append_colon h s k = rw (append.cons, append.nil) (split_at 58 ":" h s refl k)

push_first-lacks :
    (d : ℕ) (c : Char) (ws : List String)
    → eqb (code c) d ≡ false
    → All (λ w. lacks d w ≡ true) ws
    → All (λ w. lacks d w ≡ true) (push_first c ws)
push_first-lacks d c [] e h = (rw e refl, tt)
push_first-lacks d c (w ∷ ws) e h = (rw e h.0, h.1)

pub split-lacks-All : (d : ℕ) (s : String) → All (λ w. lacks d w ≡ true) (split d s)
unfolding split
split-lacks-All d String.[] = (refl, tt)
split-lacks-All d (String.◌∷◌ c s) =
    let rest = split-lacks-All d s in
    elim (Bool-cases (eqb (code c) d)) [
      | inl e ↦ rw e (refl, rest)
      | inr e ↦ rw e (push_first-lacks d c (split d s) e rest)
    ]

-- `s.split(" ").filter(Boolean)`
unfoldable pub words : String → List String
unfolding split
words s = keep (λ w. not (w == "")) (split 32 s)

-- `s.startsWith(p)`
unfoldable pub starts_with : String → String → Bool
starts_with String.[] s = true
starts_with (String.◌∷◌ c p) String.[] = false
starts_with (String.◌∷◌ c p) (String.◌∷◌ d s) =
    let rest = starts_with p s in if eqb (code c) (code d) then rest else false

-- `s.split(d).filter(Boolean)`
unfoldable pub segments : ℕ → String → List String
unfolding split
segments d s = keep (λ w. not (w == "")) (split d s)

-- `s.replace(/d+$/, "")`, for a delimiter of one character
unfoldable pub trim_end : ℕ → String → String
trim_end d String.[] = ""
trim_end d (String.◌∷◌ c s) =
    let rest = trim_end d s in if rest == "" && eqb (code c) d then "" else String.◌∷◌ c rest

-- `list.join(d)`
unfoldable pub join : String → List String → String
join d [] = ""
join d (w ∷ []) = w
join d (w ∷ v ∷ ws) = String.◌++◌ w (String.◌++◌ d (join d (v ∷ ws)))

-- `s.slice(0, n)`, of a text whose characters are single UTF-16 units
unfoldable pub take_chars : ℕ → String → String
take_chars zero s = ""
take_chars (suc n) String.[] = ""
take_chars (suc n) (String.◌∷◌ c s) = String.◌∷◌ c (take_chars n s)

-- The small letter `d` is what `c` lower-cases to.
unfoldable pub lower_is : Char → Char → Bool
lower_is c d =
    if eqb (code c) (code d)
    then true
    else leb 65 (code c) && leb (code c) 90 && eqb (code c + 32) (code d)

-- `s.toLowerCase() === p`, for a text `p` that only ASCII lower-cases to
unfoldable pub lower_eq : String → String → Bool
unfolding lower_is
lower_eq String.[] String.[] = true
lower_eq String.[] (String.◌∷◌ d s) = false
lower_eq (String.◌∷◌ c p) String.[] = false
lower_eq (String.◌∷◌ c p) (String.◌∷◌ d s) =
    let rest = lower_eq p s in if lower_is d c then rest else false

-- `s.toLowerCase().startsWith(p)`, for a text `p` of small letters that no other character
-- lower-cases to
unfoldable pub lower_starts : String → String → Bool
unfolding lower_is
lower_starts String.[] s = true
lower_starts (String.◌∷◌ c p) String.[] = false
lower_starts (String.◌∷◌ c p) (String.◌∷◌ d s) =
    let rest = lower_starts p s in if lower_is d c then rest else false
