-- ===== src/Prelude/Maps.antt =====
-- A JavaScript `Map` with string keys. The program never observes the order of entries.
use Prim.Native.String.{String}
use mathlib.Core.Path.{◌≡◌}
use mathlib.Core.Bool.{Bool}
use mathlib.Core.Option.{Option, none, some}
use text.Mathlib.Text.{◌==◌}
use text.Mathlib.TextPositions.{eq_refl}
use openauth.Prelude.Tests.{if◌then◌else◌}

abbrev pub Dict {ℓ} : Type ℓ → Type ℓ
Dict V = String → Option V

module _ {ℓ} {V : Type ℓ} where
  abbrev pub empty : Dict V
  empty k = none

  -- `map.set(key, value)`
  abbrev pub put : Dict V → String → V → Dict V
  put m k v j = if k == j then some v else m j

  -- `map.delete(key)`
  abbrev pub remove : Dict V → String → Dict V
  remove m k j = if k == j then none else m j

  -- `for (const [k, v] of map) if (test(v)) map.delete(k)`
  abbrev pub remove_where : Dict V → (V → Bool) → Dict V
  remove_where m p j = elim (m j) [ none ↦ none | some v ↦ if p v then none else some v ]

  -- the entries under the keys that pass the test are deleted
  abbrev pub remove_keys : Dict V → (String → Bool) → Dict V
  remove_keys m p j = if p j then none else m j

  pub put_self : (m : Dict V) (k : String) (v : V) → put m k v k ≡ some v
  put_self m k v = rw eq_refl

  pub remove_self : (m : Dict V) (k : String) → remove m k k ≡ none
  remove_self m k = rw eq_refl
