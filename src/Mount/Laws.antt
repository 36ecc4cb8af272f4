-- ===== src/Mount/Laws.antt =====
-- The form of the mount path. About packages/openauth/src/domain/mount.ts.
use Prim.Native.Char.{code}
use Prim.Native.String.append
use openauth.Prelude.{
  ℕ, String, true, false, not, List, [], ◌∷◌, ◌==◌, ◌<>◌, ◌≡◌, ◌≢◌, refl, arith, eq_iff, All,
  Bool-cases, Option-cases, inl, inr, split-lacks-All, keep, split, segments, join, trim_end, lacks,
}
use openauth.Mount.{ParseUrl, mount_of, mount_path, normalize_path}

trim_end-lacks : (d : ℕ) (w : String) → lacks d w ≡ true → trim_end d w ≡ w
unfolding trim_end
trim_end-lacks d String.[] h = refl
trim_end-lacks d (String.◌∷◌ c s) h = ground (arith, trim_end-lacks d s (ground arith))

cons_some : (c : Prim.Native.Char.Char) (s : String) → String.◌∷◌ c s ≢ ""
cons_some c s h = cc

append_some : (a b : String) → b ≢ "" → a <> b ≢ ""
append_some String.[] b h = rw append.nil h
append_some (String.◌∷◌ c s) b h = rw append.cons (cons_some c (s <> b))

trim_end-append : (d : ℕ) (a b : String) → trim_end d b ≡ b → b ≢ "" → trim_end d (a <> b) ≡ a <> b
unfolding trim_end
trim_end-append d String.[] b h k = rw append.nil h
trim_end-append d (String.◌∷◌ c s) b h k =
    let rest = trim_end-append d s b h k in
    let more = append_some s b k in rw append.cons (ground (arith, rest, eq_iff (s <> b) ""))

abbrev IsSegment : String → Type 0
IsSegment w = (lacks 47 w ≡ true) × (w ≢ "")

not_empty : (w : String) → (w == "") ≡ false → w ≢ ""
not_empty w e h = ground (arith, eq_iff w "")

keep_segments :
    (ws : List String)
    → All (λ w. lacks 47 w ≡ true) ws
    → All IsSegment (keep (λ w. not (w == "")) ws)
keep_segments [] h = tt
keep_segments (w ∷ ws) h =
    let rest = keep_segments ws h.1 in
    elim (Bool-cases (w == "")) [ inl e ↦ rw e rest | inr e ↦ rw e ((h.0, not_empty w e), rest) ]

-- Each part of a path between its slashes.
segments-IsSegment : (s : String) → All IsSegment (segments 47 s)
unfolding segments
segments-IsSegment s = keep_segments (split 47 s) (split-lacks-All 47 s)

join-trim :
    (w : String) (ws : List String)
    → All IsSegment (w ∷ ws)
    → (trim_end 47 (join "/" (w ∷ ws)) ≡ join "/" (w ∷ ws)) × (join "/" (w ∷ ws) ≢ "")
unfolding join
join-trim w [] h = (trim_end-lacks 47 w h.0.0, h.0.1)
join-trim w (v ∷ vs) h =
    let (same, full) = join-trim v vs h.1 in
    let more = append_some "/" (join "/" (v ∷ vs)) full in
    (
      trim_end-append 47 w ("/" <> join "/" (v ∷ vs))
          (trim_end-append 47 "/" (join "/" (v ∷ vs)) same full) more,
      append_some w ("/" <> join "/" (v ∷ vs)) more,
    )

mount_of-normal : (ws : List String) → All IsSegment ws → normalize_path (mount_of ws) ≡ mount_of ws
unfolding normalize_path mount_of trim_end
mount_of-normal [] h = refl
mount_of-normal (w ∷ ws) h =
    let (same, more) = join-trim w ws h in trim_end-append 47 "/" (join "/" (w ∷ ws)) same more

-- For every issuer URL, what mountPath answers is left as it is by normalizePath, which
-- handleCallback compares callback paths by.
pub normalize_path-mount_path :
    (parse_url : ParseUrl) (issuer_url : String)
    → normalize_path (mount_path parse_url issuer_url) ≡ mount_path parse_url issuer_url
unfolding mount_path mount_of
normalize_path-mount_path parse_url issuer_url = elim (Option-cases (parse_url issuer_url)) [
  | inl e ↦ rw (mount_path, e) (mount_of-normal [] tt)
  | inr (url, e) ↦
      rw (mount_path, e)
        (mount_of-normal (segments 47 url.pathname) (segments-IsSegment url.pathname))
]
