-- ===== src/Tests/Logouts.antt =====
-- Witnesses for packages/openauth/src/domain/logout.ts, over a toy URL that glues the state on.
use openauth.Prelude.{String, none, some, ◌<>◌, ◌≡◌, ◌≢◌, refl, arith, eq_iff, ◌==◌, if◌then◌else◌}
use openauth.Types.Error.{ok, err}
use openauth.TokenStore.{revoke_by_subject, StoredRefresh, refresh_unknown}
use openauth.World.{World}
use openauth.Revoke.{revoke_all_for_subject}
use openauth.Refresh.{refresh_tokens}
use openauth.Logout.{
  RedirectUrl, EndSessionRequest, Hint, redirect, presented_hint, logout_check, revoke_hinted,
  end_session,
}
use openauth.Logout.Laws.{
  IsPresented, IsRedirected, end_session-IsRedirected, refresh_tokens-end_session,
}
use openauth.Tests.Fixtures.{env, world, used_row, refresh_row}
use openauth.Tests.Flows.{context}
use openauth.Tests.Refreshes.{request}

abbrev redirect_url : RedirectUrl
redirect_url uri none = some uri
redirect_url uri (some state) = some (uri <> "?state=" <> state)

abbrev bye : EndSessionRequest
bye = record {
  id_token_hint = some "hint";
  client_id = some "spa";
  post_logout_redirect_uri = some "https://spa.example/bye";
  state = some "s1";
}

abbrev hint : Hint
hint = record { subject = some "user:u1"; audience = some "spa" }

hint_verifies : presented_hint env redirect_url bye context ≡ ok hint
unfolding presented_hint
hint_verifies = refl

abbrev sent : String
sent = "https://spa.example/bye?state=s1"

-- the tokens of two subjects
abbrev other_row : StoredRefresh
other_row = record { payload = record refresh_row { subject_id = "user:u9" }; consumed_at = none }

abbrev mixed_world : World
mixed_world = record world {
  tokens = record world.tokens {
    refresh = λ r. if r == "r1" then some used_row else if r == "r9" then some other_row else none;
  };
}

subject_is_not_other : ◌≢◌ {A = String} "user:u9" "user:u1"
subject_is_not_other h = ground (arith, eq_iff "user:u9" "user:u1")

sent_back : (end_session env redirect_url bye context mixed_world).0 ≡ ok (redirect sent)
unfolding end_session logout_check presented_hint revoke_hinted revoke_all_for_subject
    revoke_by_subject
sent_back = refl

end_session-IsRedirected_example :
    (h : Hint) × IsPresented env bye h × IsRedirected redirect_url bye context h sent
end_session-IsRedirected_example =
    end_session-IsRedirected env redirect_url bye context mixed_world sent sent_back

subject_is_named : ◌≢◌ {A = String} "user:u1" ""
subject_is_named h = ground (arith, eq_iff "user:u1" "")

refresh_tokens-end_session_example :
    let w1 = (end_session env redirect_url bye context mixed_world).1 in
    (refresh_tokens env request w1 ≡ (err refresh_unknown, w1))
    × (w1.tokens.refresh "r9" ≡ some other_row)
refresh_tokens-end_session_example =
    refresh_tokens-end_session env redirect_url bye context mixed_world (redirect sent) hint
      "user:u1" env request used_row "r9" other_row sent_back hint_verifies refl subject_is_named
      refl refl refl refl subject_is_not_other
