-- ===== src/Token/SubjectId.antt =====
-- `deriveSubjectId` and `canonicalize` of packages/openauth/src/domain/token.ts
pub mod Reordering
use Prim.Native.Char.{code}
use openauth.Prelude.{
  ℕ, ◌+◌, ◌-◌, ◌/◌, ◌%◌, String, Bool, true, false, Option, none, some, List, [], ◌∷◌, map, ltb,
  eqb, if◌then◌else◌, ◌<>◌, join, take_chars, get_or_else,
}
use openauth.Types.Json.{Json, null, bool, num, str, arr, obj, Fields, end, field}
use openauth.Types.Token.{SubjectClaim}
use openauth.Crypto.{Platform}

-- The UTF-16 code units of a text, by which `sort` orders keys.
unfoldable pub units : String → List ℕ
units String.[] = []
units (String.◌∷◌ c s) =
    if ltb (code c) 0x10000
    then code c ∷ units s
    else (0xd800 + (code c - 0x10000) / 1024) ∷ (0xdc00 + (code c - 0x10000) % 1024) ∷ units s

unfoldable pub units_le : List ℕ → List ℕ → Bool
units_le [] ys = true
units_le (x ∷ xs) [] = false
units_le (x ∷ xs) (y ∷ ys) =
    let rest = units_le xs ys in if ltb x y then true else if eqb x y then rest else false

-- a key and the canonical text of its value
abbrev pub Entry : Type 0
Entry = String × String

-- `Object.keys(obj).sort()`, each key with its value
unfoldable pub insert : Entry → List Entry → List Entry
insert e [] = e ∷ []
insert e (f ∷ fs) =
    let rest = insert e fs in if units_le (units e.0) (units f.0) then e ∷ f ∷ fs else f ∷ rest

module _ (stringify : Json → String) where
  abbrev shown : Entry → String
  shown e = stringify (str e.0) <> ":" <> e.1

  mutual
    -- A nested array keeps the order of the keys of the objects in it.
    pub canonicalize : Json → String
    canonicalize (obj fs) = "{" <> join "," (map shown (sorted_entries fs)) <> "}"
    canonicalize null = stringify null
    canonicalize (bool b) = stringify (bool b)
    canonicalize (num n) = stringify (num n)
    canonicalize (str s) = stringify (str s)
    canonicalize (arr xs) = stringify (arr xs)

    pub sorted_entries : Fields → List Entry
    sorted_entries end = []
    sorted_entries (field k v fs) = insert (k, canonicalize v) (sorted_entries fs)

abbrev nul : String
nul = "\0"

-- With a sector the id is pairwise, without one it is public.
seed : Option String → String → String → String
seed none kind identity = kind <> nul <> identity
seed (some sector) kind identity = sector <> nul <> kind <> nul <> identity

unfoldable pub derive_subject_id :
    (Json → String) → Platform → SubjectClaim → Option String → Option String → String
unfolding canonicalize seed
derive_subject_id stringify platform claim sector_identifier subject_key = take_chars 22 (
    platform.sha256_b64 (
      seed sector_identifier claim.type
        (get_or_else subject_key (canonicalize stringify claim.properties))))
