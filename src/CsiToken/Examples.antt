-- ===== src/CsiToken/Examples.antt =====
-- Runs of the token controller of the CSI driver on a tenant cluster in memory, and the theorems at
-- concrete data.
use cluster_api_provider_clo.Prelude.{
  ℕ, ◌*◌, ◌<>◌, Bool, true, false, Option, none, some, [], Action, ok, err, pos,
}
use cluster_api_provider_clo.Auth.Types.{
  ImpersonationClient, OauthApi, form, impersonate_body, second, minute,
}
use cluster_api_provider_clo.CsiToken.{TokenConfig, TokenSecret, TenantApi, missing}

-- The state is the secret, if there is one.
abbrev tenant : TenantApi (Option TokenSecret)
tenant = record {
  get_namespace = λ held. (err missing, held);
  create_namespace = λ labels held. (ok tt, held);
  get_secret = λ held. (elim held [ none ↦ err missing | some secret ↦ ok secret ], held);
  create_secret = λ sent held. (ok tt, some sent);
  update_secret = λ sent held. (ok tt, some sent);
}

abbrev service : OauthApi (Option TokenSecret)
service = record {
  new_request = λ request. ok tt;
  now = λ held. 0;
  do_request = λ request held. (
    ok (record {
      status = 200;
      body =
          ok (elim request.body [
            | form fields ↦ "service"
            | impersonate_body email subject ↦ email
          ]);
    }),
    held,
  );
  decode_token = λ body. ok (record { access_token = "token of " <> body; expires_in = pos 900 });
}

abbrev config : TokenConfig
config = record { user_email = "a@b"; region = "zrh"; cluster_name = "prod"; enabled = true }

abbrev client : ImpersonationClient
client = record {
  config = record {
    oauth_url = "https://oauth.example";
    client_id = "id";
    client_secret = "secret";
    token_expiry_buffer = 5 * minute;
    http_timeout = 30 * second;
  };
  sa_token = "";
  sa_token_expires_at = 0;
  rpt_token = "";
  rpt_token_expires_at = 0;
  token_cache = [];
}

abbrev is_done : Option TokenSecret → Bool
is_done held = false

abbrev await : ℕ → Action (Option TokenSecret) (Unit {0}) (Unit {0})
await backoff held = (ok tt, held)
