-- ===== src/Token/SubjectId/Reordering.antt =====
-- The subject id does not depend on the order of keys. About packages/openauth/src/domain/token.ts.
use openauth.Prelude.{
  ℕ, String, true, false, Option, List, [], ◌∷◌, ◌≡◌, ◌≢◌, refl, ap, arith, get_or_else, take_chars,
  ◌∙◌,
}
use openauth.Types.Json.{Json, obj, Fields, end, field}
use openauth.Crypto.{Platform}
use openauth.Token.SubjectId.{
  units, units_le, Entry, insert, canonicalize, sorted_entries, seed, derive_subject_id,
}

units_le-total : (xs ys : List ℕ) → units_le xs ys ≡ false → units_le ys xs ≡ true
unfolding units_le
units_le-total [] ys h = cc
units_le-total (x ∷ xs) [] h = refl
units_le-total (x ∷ xs) (y ∷ ys) h = ground (arith, units_le-total xs ys)

units_le_trans :
    (xs ys zs : List ℕ) → units_le xs ys ≡ true → units_le ys zs ≡ true → units_le xs zs ≡ true
unfolding units_le
units_le_trans [] ys zs h k = refl
units_le_trans (x ∷ xs) [] zs h k = cc
units_le_trans (x ∷ xs) (y ∷ ys) [] h k = cc
units_le_trans (x ∷ xs) (y ∷ ys) (z ∷ zs) h k = ground (arith, units_le_trans xs ys zs)

units_le-antisym : (xs ys : List ℕ) → units_le xs ys ≡ true → units_le ys xs ≡ true → xs ≡ ys
unfolding units_le
units_le-antisym [] [] h k = refl
units_le-antisym [] (y ∷ ys) h k = cc
units_le-antisym (x ∷ xs) [] h k = cc
units_le-antisym (x ∷ xs) (y ∷ ys) h k = ground (arith, units_le-antisym xs ys)

insert_comm :
    (a b : Entry) (es : List Entry)
    → units a.0 ≢ units b.0
    → insert a (insert b es) ≡ insert b (insert a es)
unfolding insert
insert_comm a b [] ne =
    ground (arith, units_le-total (units a.0) (units b.0), units_le-antisym (units a.0) (units b.0))
insert_comm a b (e ∷ es) ne = ground (
  arith,
  insert_comm a b es ne,
  units_le-total (units a.0) (units b.0),
  units_le-total (units a.0) (units e.0),
  units_le-total (units b.0) (units e.0),
  units_le-antisym (units a.0) (units b.0),
  units_le_trans (units a.0) (units b.0) (units e.0),
  units_le_trans (units b.0) (units a.0) (units e.0),
)

-- Two objects that differ only in the order of keys, at the top and in objects nested in one another.
-- Keys are compared as the texts that they are in JavaScript, by their code units.
mutual
  pub data Reordered : Json → Json → Type 0 where
    same : {v : Json} → Reordered v v
    object : {fs gs : Fields} → ReorderedFields fs gs → Reordered (obj fs) (obj gs)

  pub data ReorderedFields : Fields → Fields → Type 0 where
    ended : ReorderedFields end end
    kept :
        {k : String} {v w : Json} {fs gs : Fields}
        → Reordered v w
        → ReorderedFields fs gs
        → ReorderedFields (field k v fs) (field k w gs)
    swapped :
        {k j : String} {v w : Json} {fs : Fields}
        → units k ≢ units j
        → ReorderedFields (field k v (field j w fs)) (field j w (field k v fs))
    chained :
        {fs gs hs : Fields} → ReorderedFields fs gs → ReorderedFields gs hs → ReorderedFields fs hs

mutual
  unfolding canonicalize sorted_entries

  canonicalize-Reordered :
      {v w : Json} (stringify : Json → String)
      → Reordered v w
      → canonicalize stringify v ≡ canonicalize stringify w
  canonicalize-Reordered stringify same = refl
  canonicalize-Reordered stringify (object r) = rw (sorted_entries-Reordered stringify r)

  sorted_entries-Reordered :
      {fs gs : Fields} (stringify : Json → String)
      → ReorderedFields fs gs
      → sorted_entries stringify fs ≡ sorted_entries stringify gs
  sorted_entries-Reordered stringify ended = refl
  sorted_entries-Reordered stringify (kept r rs) =
      rw (canonicalize-Reordered stringify r, sorted_entries-Reordered stringify rs)
  sorted_entries-Reordered stringify (swapped ne) = insert_comm _ _ _ ne
  sorted_entries-Reordered stringify (chained r s) =
      sorted_entries-Reordered stringify r ∙ sorted_entries-Reordered stringify s

-- Claims whose properties differ only in the order of keys, in objects nested in objects, have the
-- same subject id.
pub derive_subject_id-Reordered :
    (stringify : Json → String) (platform : Platform) (kind : String) (v w : Json)
    (sector key : Option String)
    → Reordered v w
    → derive_subject_id stringify platform (record { type = kind; properties = v }) sector key
      ≡ derive_subject_id stringify platform (record { type = kind; properties = w }) sector key
unfolding derive_subject_id
derive_subject_id-Reordered stringify platform kind v w sector key r =
    ap (λ c. take_chars 22 (platform.sha256_b64 (seed sector kind (get_or_else key c))))
      (canonicalize-Reordered stringify r)
