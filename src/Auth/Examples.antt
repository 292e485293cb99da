-- ===== src/Auth/Examples.antt =====
-- Runs of the impersonation client against an OAuth service in memory, and the theorems at concrete
-- data.
use cluster_api_provider_clo.Prelude.{
  ℕ, ◌+◌, ◌*◌, ◌≡◌, refl, ◌<>◌, false, ◌&&◌, none, some, [], ◌∷◌, ◌==◌, if◌then◌else◌, ok, arith,
  pos, subst, sym, ap, ◌∙◌,
}
use cluster_api_provider_clo.Prelude.Dict.{lookup, insert}
use cluster_api_provider_clo.Auth.Types.{
  ImpersonationClient, CachedToken, OauthApi, form, impersonate_body, second, minute,
}
use cluster_api_provider_clo.Auth.{
  cache_key, is_expired, clear_user_token, get_impersonated_token, fetch_and_store,
  fetch_impersonated_token, get_service_account_token, get_rpt_token, impersonate_user, ask_sa,
  ask_rpt, exchange,
}
use cluster_api_provider_clo.Auth.Cache.{get_impersonated_token_twice}
use cluster_api_provider_clo.Auth.Isolation.{
  IsIssued, IsOwned, get_impersonated_token-IsIssued, get_impersonated_token-IsOwned,
  clear_user_token_others,
}

-- The service answers with the subject of the request as the token; the state is the time, and a
-- request takes a second.
abbrev service : OauthApi ℕ
service = record {
  new_request = λ request. ok tt;
  now = λ w. w;
  do_request = λ request w. (
    ok (record {
      status = 200;
      body =
          ok (elim request.body [
            | form fields ↦ "service"
            | impersonate_body email subject ↦ email
          ]);
    }),
    w + second,
  );
  decode_token = λ body. ok (record { access_token = "token of " <> body; expires_in = pos 900 });
}

abbrev client : ImpersonationClient
client = record {
  config = record {
    oauth_url = "https://oauth.example";
    client_id = "id";
    client_secret = "secret";
    token_expiry_buffer = 5 * minute;
    http_timeout = 30 * second;
  };
  sa_token = "";
  sa_token_expires_at = 0;
  rpt_token = "";
  rpt_token_expires_at = 0;
  token_cache = [];
}

client-IsOwned : IsOwned service client
unfolding lookup
client-IsOwned = record {
  of_key = λ key cached h. ground arith;
  without_colon = λ key cached h. ground arith;
  is_issued = λ key cached h. ground arith;
}

abbrev cached_token : CachedToken
cached_token = record {
  token = "token of a@b";
  expires_at = 903 * second;
  user_email = "a@b";
  region = "zrh";
}

-- The client after the first call for `a@b` at the time 0.
abbrev used : ImpersonationClient
used = (get_impersonated_token service "a@b" "zrh" (client, 0)).1.0

fetch_run : (get_impersonated_token service "a@b" "zrh" (client, 0)).0 ≡ ok "token of a@b"
unfolding get_impersonated_token fetch_and_store fetch_impersonated_token get_service_account_token
    get_rpt_token impersonate_user ask_sa ask_rpt exchange ◌==◌ lookup
fetch_run = refl

stored_run : lookup (cache_key "a@b" "zrh") used.token_cache ≡ some cached_token
unfolding get_impersonated_token fetch_and_store fetch_impersonated_token get_service_account_token
    get_rpt_token impersonate_user ask_sa ask_rpt exchange ◌==◌ insert lookup
stored_run = refl

stored_alive :
    (cached : CachedToken)
    → lookup (cache_key "a@b" "zrh") used.token_cache ≡ some cached
    → is_expired client.config.token_expiry_buffer cached (600 * second) ≡ false
stored_alive cached h =
    subst (λ t. is_expired (5 * minute) t (600 * second) ≡ false)
      (ap (λ o. elim o [ none ↦ cached | some t ↦ t ]) (sym stored_run ∙ h)) refl

get_impersonated_token_twice_example :
    get_impersonated_token service "a@b" "zrh" (used, 600 * second)
    ≡ (ok "token of a@b", (used, 600 * second))
get_impersonated_token_twice_example =
    get_impersonated_token_twice service "a@b" "zrh" "token of a@b" client 0 (600 * second)
      fetch_run stored_alive

abbrev holding : ImpersonationClient
holding = record client { token_cache = (cache_key "a@b" "zrh", cached_token) ∷ [] }

get_impersonated_token-IsIssued_example : IsIssued service "token of a@b" "a@b" "zrh"
get_impersonated_token-IsIssued_example =
    get_impersonated_token-IsIssued service "a@b" "zrh" "token of a@b" (client, 0) refl
      client-IsOwned fetch_run

get_impersonated_token-IsOwned_example :
    IsOwned service (get_impersonated_token service "a@b" "zrh" (client, 0)).1.0
get_impersonated_token-IsOwned_example =
    get_impersonated_token-IsOwned service "a@b" "zrh" (client, 0) refl client-IsOwned

clear_user_token_others_example :
    lookup (cache_key "c@d" "zrh") (clear_user_token "a@b" "zrh" holding).token_cache ≡ (
      if "a@b" == "c@d" && "zrh" == "zrh"
      then none
      else lookup (cache_key "c@d" "zrh") holding.token_cache)
clear_user_token_others_example = clear_user_token_others "a@b" "c@d" "zrh" "zrh" holding refl refl
