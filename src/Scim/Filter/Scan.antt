-- ===== src/Scim/Filter/Scan.antt =====
-- The scans of packages/openauth/src/domain/scim/filter.ts: one pass each over the text, with the
-- code of the character before (a space before the first one, where the code reads `undefined`).
-- `depth` is kept as the numbers of opened and of closed brackets, of which it is the difference.
use openauth.Prelude.{
  ℕ, zero, suc, ◌+◌, String, Bool, true, false, not, ◌&&◌, ◌||◌, Option, none, some, List, [], ◌∷◌,
  ◌<>◌, eqb, leb, if◌then◌else◌, is_space, lower_is, push_first,
}
use Prim.Native.Char.{Char, code}

-- `s.length === 0`
abbrev pub is_empty : String → Bool
is_empty String.[] = true
is_empty (String.◌∷◌ c s) = false

-- `s.trim()`
unfoldable pub trim_start : String → String
unfolding is_space
trim_start String.[] = ""
trim_start (String.◌∷◌ c s) = let rest = trim_start s in if is_space c then rest else String.◌∷◌ c s

unfoldable pub trim_back : String → String
unfolding is_space
trim_back String.[] = ""
trim_back (String.◌∷◌ c s) =
    let rest = trim_back s in if is_empty rest && is_space c then "" else String.◌∷◌ c rest

unfoldable pub trim : String → String
unfolding trim_start trim_back
trim s = trim_back (trim_start s)

-- `[A-Za-z]`
is_latin : Char → Bool
is_latin c = (leb 65 (code c) && leb (code c) 90) || (leb 97 (code c) && leb (code c) 122)

-- The longest run of letters, and what follows it.
unfoldable pub letters : String → String
unfolding is_latin
letters String.[] = ""
letters (String.◌∷◌ c s) = let rest = letters s in if is_latin c then String.◌∷◌ c rest else ""

unfoldable pub after_letters : String → String
unfolding is_latin
after_letters String.[] = ""
after_letters (String.◌∷◌ c s) =
    let rest = after_letters s in if is_latin c then rest else String.◌∷◌ c s

abbrev pub drop_first : String → String
drop_first String.[] = ""
drop_first (String.◌∷◌ c s) = s

abbrev pub starts_with_code : ℕ → String → Bool
starts_with_code d String.[] = false
starts_with_code d (String.◌∷◌ c s) = eqb (code c) d

-- `(?:\s+|$)`
abbrev at_gap : String → Bool
at_gap String.[] = true
at_gap (String.◌∷◌ c s) = is_space c

-- two or three characters
abbrev is_short : String → Bool
is_short String.[] = false
is_short (String.◌∷◌ a String.[]) = false
is_short (String.◌∷◌ a (String.◌∷◌ b s)) = is_empty s || is_empty (drop_first s)

pub record FoundOperator : Type 0 where
  pub attr : String
  pub op : String
  pub value : String

-- `/^\s+([A-Za-z]{2,3})(?:\s+|$)/`, at a text that begins with a space: the letters are not followed
-- by a letter, so they are a whole run.
unfoldable pub operator_at : String → Option FoundOperator
unfolding letters after_letters trim_start
operator_at s =
    let rest = trim_start s in
    if is_short (letters rest) && at_gap (after_letters rest)
    then some (record { attr = ""; op = letters rest; value = trim_start (after_letters rest) })
    else none

abbrev pub pushed_attr : Char → Option FoundOperator → Option FoundOperator
pushed_attr c none = none
pushed_attr c (some f) = some (record f { attr = String.◌∷◌ c f.attr })

-- `ch === '"' && term[i - 1] !== "\\"`
abbrev pub toggles : ℕ → Char → Bool
toggles before c = eqb (code c) 34 && not (eqb before 92)

-- `inQuotes`, `depth++` and `depth--` after a character
abbrev pub quotes_after : ℕ → Bool → Char → Bool
quotes_after before q c = if toggles before c then not q else q

abbrev pub opened_after : ℕ → Bool → ℕ → Char → ℕ
opened_after before q n c = if not (toggles before c) && not q && eqb (code c) 91 then n + 1 else n

abbrev pub closed_after : ℕ → Bool → ℕ → Char → ℕ
closed_after before q n c = if not (toggles before c) && not q && eqb (code c) 93 then n + 1 else n

-- Neither a quote nor within quotes nor a bracket, at depth 0.
abbrev pub is_plain : ℕ → Bool → ℕ → ℕ → Char → Bool
is_plain before q opened closed c =
    not (toggles before c)
    && (not q && (not (eqb (code c) 91) && (not (eqb (code c) 93) && eqb opened closed)))

find_from : ℕ → Bool → ℕ → ℕ → String → Option FoundOperator
unfolding operator_at
find_from before q opened closed String.[] = none
find_from before q opened closed (String.◌∷◌ c s) =
    let later = pushed_attr c (
      find_from (code c) (quotes_after before q c) (opened_after before q opened c)
        (closed_after before q closed c) s) in
    if is_plain before q opened closed c && eqb (code c) 32
    then elim (operator_at (String.◌∷◌ c s)) [ some f ↦ some f | none ↦ later ]
    else later

unfoldable pub find_operator : String → Option FoundOperator
unfolding find_from
find_operator term = find_from 32 false 0 0 term

unfoldable pub mask_from : ℕ → Bool → String → String
mask_from before q String.[] = ""
mask_from before q (String.◌∷◌ c s) =
    let rest = mask_from (code c) (quotes_after before q c) s in
    if not (toggles before c) && q then String.◌∷◌ " " rest else String.◌∷◌ c rest

unfoldable pub mask_quoted : String → String
unfolding mask_from
mask_quoted input = mask_from 32 false input

-- The text begins so, up to the case of letters, and `\s` follows.
abbrev pub word_then_space : String → String → Bool
word_then_space String.[] s = if is_empty s then false else at_gap s
word_then_space (String.◌∷◌ c p) String.[] = false
word_then_space (String.◌∷◌ c p) (String.◌∷◌ d s) =
    let rest = word_then_space p s in if lower_is d c then rest else false

-- `/\sor\s/i`
unfoldable pub has_or : String → Bool
unfolding is_space lower_is
has_or String.[] = false
has_or (String.◌∷◌ c s) =
    let rest = has_or s in if is_space c && word_then_space "or" s then true else rest

-- `/(^|\s)not\s/i`, after a start or a `\s`
unfoldable pub not_from : Bool → String → Bool
unfolding is_space lower_is
not_from at_start String.[] = false
not_from at_start (String.◌∷◌ c s) =
    let rest = not_from (is_space c) s in
    if at_start && word_then_space "not" (String.◌∷◌ c s) then true else rest

unfoldable pub has_not : String → Bool
unfolding not_from
has_not s = not_from true s

-- `after === " " || after === undefined`
abbrev at_blank : String → Bool
at_blank String.[] = true
at_blank (String.◌∷◌ c s) = eqb (code c) 32

-- The text begins so, up to the case of letters, and then has its end or a space.
abbrev pub then_blank : String → String → Bool
then_blank String.[] s = at_blank s
then_blank (String.◌∷◌ d p) String.[] = false
then_blank (String.◌∷◌ d p) (String.◌∷◌ c s) =
    let rest = then_blank p s in if lower_is c d then rest else false

-- `i += 2` leaves two characters to skip.
unfoldable pub split_and : ℕ → ℕ → Bool → ℕ → ℕ → String → List String
unfolding lower_is
split_and skip before q opened closed String.[] = "" ∷ []
split_and (suc skip) before q opened closed (String.◌∷◌ c s) =
    split_and skip (code c) q opened closed s
split_and zero before q opened closed (String.◌∷◌ c s) =
    let cut =
      is_plain before q opened closed c && (eqb before 32 && then_blank "and" (String.◌∷◌ c s)) in
    let rest =
      split_and (if cut then 2 else 0) (code c) (quotes_after before q c)
        (opened_after before q opened c) (closed_after before q closed c) s in
    if cut then "" ∷ rest else push_first c rest

-- `[^\]]*` and what follows it
after_qualifier : String → String
after_qualifier String.[] = ""
after_qualifier (String.◌∷◌ c s) =
    let rest = after_qualifier s in if eqb (code c) 93 then String.◌∷◌ c s else rest

-- `/^([A-Za-z]+)\[[^\]]*\]\.([A-Za-z]+)$/`
unfoldable pub normalize_complex_path : String → String
unfolding after_qualifier letters after_letters trim
normalize_complex_path raw =
    let path = trim raw in
    let tail = after_letters path in
    let close = after_qualifier tail in
    let sub = drop_first (drop_first close) in
    if not (is_empty (letters path))
      && (starts_with_code 91 tail
          && (starts_with_code 93 close
              && (starts_with_code 46 (drop_first close)
                  && (not (is_empty (letters sub)) && is_empty (after_letters sub)))))
    then letters path <> ("." <> letters sub)
    else path

-- `value.startsWith('"')`, `value.endsWith('"')`, `value.slice(…, -1)`
abbrev pub starts_quote : String → Bool
starts_quote s = starts_with_code 34 s

unfoldable pub ends_quote : String → Bool
ends_quote String.[] = false
ends_quote (String.◌∷◌ c s) =
    let rest = ends_quote s in if is_empty s then eqb (code c) 34 else rest

unfoldable pub drop_last : String → String
drop_last String.[] = ""
drop_last (String.◌∷◌ c s) = let rest = drop_last s in if is_empty s then "" else String.◌∷◌ c rest

-- `s.replace(/\\d/g, "d")`; the flag says that a backslash has been read and not yet put out.
unfoldable pub unescape : ℕ → Bool → String → String
unescape d false String.[] = ""
unescape d true String.[] = "\\"
unescape d false (String.◌∷◌ c s) =
    let rest = unescape d (eqb (code c) 92) s in if eqb (code c) 92 then rest else String.◌∷◌ c rest
unescape d true (String.◌∷◌ c s) =
    let rest = unescape d (eqb (code c) 92 && not (eqb d 92)) s in
    if eqb (code c) d
    then String.◌∷◌ c rest
    else if eqb (code c) 92
    then String.◌∷◌ "\\" rest
    else String.◌∷◌ "\\" (String.◌∷◌ c rest)
