-- ===== src/Types/Json.antt =====
-- Values of unknown type: what `JSON.parse` returns. About packages/openauth/src/types.
use openauth.Prelude.{ℕ, String, Bool, Option, none, some, ◌==◌, if◌then◌else◌}

mutual
  pub data Json : Type 0 where
    null : Json
    bool : Bool → Json
    -- numbers other than the naturals are not modelled
    num : ℕ → Json
    str : String → Json
    arr : Items → Json
    obj : Fields → Json

  pub data Items : Type 0 where
    nil : Items
    cons : Json → Items → Items

  pub data Fields : Type 0 where
    end : Fields
    field : String → Json → Fields → Fields

-- `record[key]`; `undefined` is `none`
unfoldable pub get_field : String → Fields → Option Json
get_field k end = none
get_field k (field j v fs) = if j == k then some v else get_field k fs
