-- ===== src/Mount.antt =====
-- packages/openauth/src/domain/mount.ts: the URLs that the library emits, under the path that it is
-- mounted at. `new URL` is a parameter.
pub mod Laws
use openauth.Prelude.{
  String, Option, none, some, List, [], ◌∷◌, ◌<>◌, get_or_else, segments, join, trim_end,
}

pub record Url : Type 0 where
  pub protocol : String
  pub host : String
  pub pathname : String

-- `new URL`; `none` where it throws
abbrev pub ParseUrl : Type 0
ParseUrl = String → Option Url

unfoldable pub mount_of : List String → String
mount_of [] = ""
mount_of (s ∷ ss) = "/" <> join "/" (s ∷ ss)

module _ (parse_url : ParseUrl) where
  unfoldable pub mount_path : String → String
  mount_path issuer_url = elim (parse_url issuer_url) [
    | none ↦ ""
    | some url ↦ mount_of (segments 47 url.pathname)
  ]

  unfoldable pub mounted_path : String → String → String
  mounted_path issuer_url path = mount_path issuer_url <> path

pub record CallbackTarget : Type 0 where
  pub url : String
  pub host : String
  pub path : String

module _ (parse_url : ParseUrl) where
  target : String → String → Option String → Url → CallbackTarget
  target issuer_url method_id callback_host issuer =
      let host = get_or_else callback_host issuer.host in
      let path = "/cb/" <> method_id in
      record {
        url = issuer.protocol <> ("//" <> (host <> (mount_path parse_url issuer_url <> path)));
        host = host;
        path = path;
      }

  -- `none` where the issuer's URL does not parse: the function throws
  unfoldable pub callback_target : String → String → Option String → Option CallbackTarget
  unfolding target
  callback_target issuer_url method_id callback_host = elim (parse_url issuer_url) [
    | none ↦ none
    | some issuer ↦ some (target issuer_url method_id callback_host issuer)
  ]

-- Of domain/callback.ts: `p.replace(/\/+$/, "")`
unfoldable pub normalize_path : String → String
normalize_path p = trim_end 47 p
