-- ===== src/Pages/Escaped.antt =====
-- The escaping of packages/openauth/src/ui/forms.ts: what it makes can stand in a text or between
-- quotes, and an HTML reader reads the text back.
use openauth.Prelude.{
  ℕ, String, true, false, Option, none, some, ◌<>◌, ◌==◌, eqb, if◌then◌else◌, ◌≡◌, refl, ap, sym,
  ◌∙◌, arith, lacks, Bool-cases, inl, inr,
}
use Prim.Native.Char.{Char, code}
use Prim.Native.String.append
use text.Mathlib.TextEquality.{Char-path}
use mathlib.Core.Path.{subst}
use openauth.Pages.{escaped, escape_html}

-- An HTML reader over the five references of the escaping: within a reference it holds the text that
-- followed `&`.
abbrev reference : String → String
reference r =
    if r == "amp"
    then "&"
    else if r == "lt"
    then "<"
    else if r == "gt"
    then ">"
    else if r == "quot"
    then "\""
    else if r == "#39"
    then "'"
    else "&" <> (r <> ";")

read_html : Option String → String → String
read_html none String.[] = ""
read_html (some r) String.[] = "&" <> r
read_html none (String.◌∷◌ c s) =
    let named = read_html (some "") s in
    let plain = read_html none s in if eqb (code c) 38 then named else String.◌∷◌ c plain
read_html (some r) (String.◌∷◌ c s) =
    let done = read_html none s in
    let more = read_html (some (r <> String.◌∷◌ c "")) s in
    if eqb (code c) 59 then reference r <> done else more

unfoldable pub unescape_html : String → String
unfolding read_html
unescape_html s = read_html none s

lacks-append :
    (d : ℕ) (s t : String) → lacks d s ≡ true → lacks d t ≡ true → lacks d (s <> t) ≡ true
lacks-append d String.[] t h k = rw append.nil k
lacks-append d (String.◌∷◌ c s) t h k =
    let rest = lacks-append d s t (ground arith) k in rw append.cons (ground (arith, rest))

-- What a character is escaped to: the five references, and itself otherwise.
data EscapesTo : Char → String → Type 0 where
  ampersand : EscapesTo "&" "&amp;"
  less : EscapesTo "<" "&lt;"
  greater : EscapesTo ">" "&gt;"
  quote : EscapesTo "\"" "&quot;"
  apostrophe : EscapesTo "'" "&#39;"
  itself :
      (c : Char)
      → eqb (code c) 38 ≡ false
      → eqb (code c) 60 ≡ false
      → eqb (code c) 62 ≡ false
      → eqb (code c) 34 ≡ false
      → eqb (code c) 39 ≡ false
      → EscapesTo c (String.◌∷◌ c "")

at_char : (c d : Char) (s : String) → eqb (code c) (code d) ≡ true → EscapesTo d s → EscapesTo c s
at_char c d s e h = subst (λ (x : Char). EscapesTo x s) (sym (Char-path c d (ground arith))) h

escaped-EscapesTo : (c : Char) → EscapesTo c (escaped c)
escaped-EscapesTo c = elim (Bool-cases (eqb (code c) 38)) [
  | inl e ↦ rw e (at_char c "&" _ e ampersand)
  | inr n1 ↦ elim (Bool-cases (eqb (code c) 60)) [
    | inl e ↦ rw (n1, e) (at_char c "<" _ e less)
    | inr n2 ↦ elim (Bool-cases (eqb (code c) 62)) [
      | inl e ↦ rw (n1, n2, e) (at_char c ">" _ e greater)
      | inr n3 ↦ elim (Bool-cases (eqb (code c) 34)) [
        | inl e ↦ rw (n1, n2, n3, e) (at_char c "\"" _ e quote)
        | inr n4 ↦ elim (Bool-cases (eqb (code c) 39)) [
          | inl e ↦ rw (n1, n2, n3, n4, e) (at_char c "'" _ e apostrophe)
          | inr n5 ↦ rw (n1, n2, n3, n4, n5) (itself c n1 n2 n3 n4 n5)
        ]
      ]
    ]
  ]
]

-- The characters that end a text or a value.
pub data IsClosing : ℕ → Type 0 where
  less_than : IsClosing 60
  greater_than : IsClosing 62
  double_quote : IsClosing 34
  single_quote : IsClosing 39

closing :
    (d : ℕ) (s : String)
    → IsClosing d
    → lacks 60 s ≡ true
    → lacks 62 s ≡ true
    → lacks 34 s ≡ true
    → lacks 39 s ≡ true
    → lacks d s ≡ true
closing d s less_than a b c e = a
closing d s greater_than a b c e = b
closing d s double_quote a b c e = c
closing d s single_quote a b c e = e

EscapesTo-lacks : (d : ℕ) (c : Char) (s : String) → IsClosing d → EscapesTo c s → lacks d s ≡ true
EscapesTo-lacks d c s k ampersand = closing d "&amp;" k refl refl refl refl
EscapesTo-lacks d c s k less = closing d "&lt;" k refl refl refl refl
EscapesTo-lacks d c s k greater = closing d "&gt;" k refl refl refl refl
EscapesTo-lacks d c s k quote = closing d "&quot;" k refl refl refl refl
EscapesTo-lacks d c s k apostrophe = closing d "&#39;" k refl refl refl refl
EscapesTo-lacks d c s k (itself _ n1 n2 n3 n4 n5) =
    closing d (String.◌∷◌ c "") k (rw n2 refl) (rw n3 refl) (rw n4 refl) (rw n5 refl)

onto : String → String → String
onto String.[] t = t
onto (String.◌∷◌ c s) t = String.◌∷◌ c (onto s t)

append-onto : (s t : String) → s <> t ≡ onto s t
unfolding onto
append-onto String.[] t = rw append.nil refl
append-onto (String.◌∷◌ c s) t = rw append.cons (ap (String.◌∷◌ c) (append-onto s t))

EscapesTo-read :
    (c : Char) (s t : String)
    → EscapesTo c s
    → read_html none (s <> t) ≡ String.◌∷◌ c (read_html none t)
unfolding read_html onto
EscapesTo-read c s t ampersand = rw (append-onto "&amp;" t) (append-onto "&" (read_html none t))
EscapesTo-read c s t less = rw (append-onto "&lt;" t) (append-onto "<" (read_html none t))
EscapesTo-read c s t greater = rw (append-onto "&gt;" t) (append-onto ">" (read_html none t))
EscapesTo-read c s t quote = rw (append-onto "&quot;" t) (append-onto "\"" (read_html none t))
EscapesTo-read c s t apostrophe = rw (append-onto "&#39;" t) (append-onto "'" (read_html none t))
EscapesTo-read c s t (itself _ n1 n2 n3 n4 n5) = rw append.cons (rw (append.nil, n1) refl)

escape_html-IsClosing : (d : ℕ) (s : String) → IsClosing d → lacks d (escape_html s) ≡ true
unfolding escape_html
escape_html-IsClosing d String.[] k = refl
escape_html-IsClosing d (String.◌∷◌ c s) k =
    lacks-append d (escaped c) (escape_html s) (EscapesTo-lacks d c _ k (escaped-EscapesTo c))
      (escape_html-IsClosing d s k)

unescape_html-escape_html : (s : String) → unescape_html (escape_html s) ≡ s
unfolding escape_html unescape_html
unescape_html-escape_html String.[] = refl
unescape_html-escape_html (String.◌∷◌ c s) =
    EscapesTo-read c (escaped c) (escape_html s) (escaped-EscapesTo c)
    ∙ ap (String.◌∷◌ c) (unescape_html-escape_html s)

-- An escaped text has none of the characters <, >, " and ', and a reader of the five HTML
-- references reads it back as the text.
pub escape_html_lem :
    (d : ℕ) (s : String)
    → IsClosing d
    → (lacks d (escape_html s) ≡ true) × (unescape_html (escape_html s) ≡ s)
escape_html_lem d s k = (escape_html-IsClosing d s k, unescape_html-escape_html s)
