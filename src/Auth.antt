-- ===== src/Auth.antt =====
-- pkg/auth/impersonation.go: the client that gets tokens for users and keeps them.
pub mod Types
pub mod Cache
pub mod Isolation
mod Examples
use cluster_api_provider_clo.Prelude.{
  ℕ, ◌+◌, ◌-◌, ◌*◌, String, ◌<>◌, Bool, true, false, not, ◌&&◌, Option, none, some, List, [], ◌∷◌,
  ltb, nat_eq, ◌==◌, decimal, ℤ, pos, negsuc, if◌then◌else◌, Action, Result, ok, err, ret, fail,
  map_err, outside, ◌>>=◌, ◌>>◌, guard,
}
use cluster_api_provider_clo.Prelude.Dict.{Dict, lookup, insert, delete}
use cluster_api_provider_clo.Auth.Types.{
  ImpersonationConfig, CachedToken, ImpersonationClient, Body, form, impersonate_body, Request,
  Response, TokenResponse, OauthApi, second, minute,
}

-- `IsExpired` at a time.
abbrev pub is_expired : ℕ → CachedToken → ℕ → Bool
is_expired buffer cached now = ltb cached.expires_at (now + buffer)

-- `token != "" && time.Now().Add(buffer).Before(expiresAt)`
abbrev pub is_fresh : ℕ → String → ℕ → ℕ → Bool
is_fresh buffer token expires_at now = not (token == "") && ltb (now + buffer) expires_at

-- `time.Now().Add(time.Duration(seconds) * time.Second)`
abbrev pub after_seconds : ℕ → ℤ → ℕ
after_seconds now (pos n) = now + n * second
after_seconds now (negsuc n) = now - (n + 1) * second

-- `fmt.Sprintf("%s:%s", userEmail, region)`
abbrev pub cache_key : String → String → String
cache_key user_email region = user_email <> (":" <> region)

-- `NewImpersonationClient`
unfoldable pub new_impersonation_client : ImpersonationConfig → Result String ImpersonationClient
new_impersonation_client config =
    if config.oauth_url == ""
    then err "OAuthURL is required"
    else if config.client_id == ""
    then err "ClientID is required"
    else if config.client_secret == ""
    then err "ClientSecret is required"
    else ok (record {
      config = record config {
        token_expiry_buffer =
            if nat_eq config.token_expiry_buffer 0 then 5 * minute else config.token_expiry_buffer;
        http_timeout = if nat_eq config.http_timeout 0 then 30 * second else config.http_timeout;
      };
      sa_token = "";
      sa_token_expires_at = 0;
      rpt_token = "";
      rpt_token_expires_at = 0;
      token_cache = [];
    })

-- `ClearCache`
abbrev pub clear_cache : ImpersonationClient → ImpersonationClient
clear_cache c = record c {
  sa_token = "";
  sa_token_expires_at = 0;
  rpt_token = "";
  rpt_token_expires_at = 0;
  token_cache = [];
}

-- `ClearUserToken`
unfoldable pub clear_user_token : String → String → ImpersonationClient → ImpersonationClient
unfolding delete
clear_user_token user_email region c = record c {
  token_cache = delete (cache_key user_email region) c.token_cache;
}

abbrev token_url : ImpersonationConfig → String
token_url config = config.oauth_url <> "/realms/cloudsigma/protocol/openid-connect/token"

module _ {W : Type 0} (api : OauthApi W) where
  -- A request and the reading of its answer, as all three steps do them.
  unfoldable pub exchange :
      {A : Type 0} → String → String → (String → Result String A) → Request → Action W String A
  unfolding decimal
  exchange failed unparsed decode request = do
    map_err (λ e. "failed to create request: " <> e) (λ w. (api.new_request request, w))
    response ← map_err (λ e. "failed to execute request: " <> e) (api.do_request request)
    body ← map_err (λ e. "failed to read response: " <> e) (λ w. (response.body, w))
    guard (nat_eq response.status 200)
        (failed <> (" with status " <> (decimal response.status <> (": " <> body))))
    map_err (λ e. unparsed <> (": " <> e)) (λ w. (decode body, w))

  -- The request of `getServiceAccountToken`.
  unfoldable pub ask_sa : ImpersonationConfig → Action W String TokenResponse
  unfolding exchange
  ask_sa config =
      exchange "token request failed" "failed to parse token response" api.decode_token (record {
        url = token_url config;
        authorization = none;
        body = form (
            ("grant_type", "client_credentials")
            ∷ ("client_id", config.client_id)
            ∷ ("client_secret", config.client_secret)
            ∷ []);
      })

  -- The request of `getRPTToken`.
  unfoldable pub ask_rpt : ImpersonationConfig → String → Action W String TokenResponse
  unfolding exchange
  ask_rpt config access_token =
      exchange "RPT token request failed" "failed to parse token response" api.decode_token
        (record {
          url = token_url config;
          authorization = some ("Bearer " <> access_token);
          body = form (
              ("grant_type", "urn:ietf:params:oauth:grant-type:uma-ticket")
              ∷ ("audience", "service_provider_api")
              ∷ []);
        })

  -- "Cache the token": the answer to `getServiceAccountToken`.
  abbrev pub keep_sa :
      ImpersonationClient
      → Result String TokenResponse × W
      → Result String String × (ImpersonationClient × W)
  keep_sa c (err e, w) = (err e, (c, w))
  keep_sa c (ok response, w) = (
    ok response.access_token,
    (
      record c {
        sa_token = response.access_token;
        sa_token_expires_at = after_seconds (api.now w) response.expires_in;
      },
      w,
    ),
  )

  -- `getServiceAccountToken`
  unfoldable pub get_service_account_token : Action (ImpersonationClient × W) String String
  get_service_account_token (c, w) =
      if is_fresh c.config.token_expiry_buffer c.sa_token c.sa_token_expires_at (api.now w)
      then (ok c.sa_token, (c, w))
      else keep_sa c (ask_sa c.config w)

  -- "Cache the token": the answer to `getRPTToken`.
  abbrev pub keep_rpt :
      ImpersonationClient
      → Result String TokenResponse × W
      → Result String String × (ImpersonationClient × W)
  keep_rpt c (err e, w) = (err e, (c, w))
  keep_rpt c (ok response, w) = (
    ok response.access_token,
    (
      record c {
        rpt_token = response.access_token;
        rpt_token_expires_at = after_seconds (api.now w) response.expires_in;
      },
      w,
    ),
  )

  -- `getRPTToken`
  unfoldable pub get_rpt_token : String → Action (ImpersonationClient × W) String String
  get_rpt_token access_token (c, w) =
      if is_fresh c.config.token_expiry_buffer c.rpt_token c.rpt_token_expires_at (api.now w)
      then (ok c.rpt_token, (c, w))
      else keep_rpt c (ask_rpt c.config access_token w)

  -- `impersonateUser`
  unfoldable pub impersonate_user : String → String → String → String → Action W String (String × ℕ)
  unfolding exchange
  impersonate_user rpt_token subject_token user_email region = do
    response ←
        exchange "impersonation request failed" "failed to parse impersonation response"
          api.decode_token
          (record {
            url =
                "https://direct."
                <> (region <> ".cloudsigma.com/service_provider/api/v1/user/impersonate");
            authorization = some ("Bearer " <> rpt_token);
            body = impersonate_body user_email subject_token;
          })
    guard (not (response.access_token == "")) "impersonation response missing access_token"
    λ w. (
      ok (
        response.access_token,
        elim response.expires_in [
          | pos ℕ.zero ↦ api.now w + 15 * minute
          | _ ↦ after_seconds (api.now w) response.expires_in
        ],
      ),
      w,
    )

  -- `fetchImpersonatedToken`
  unfoldable pub fetch_impersonated_token :
      String → String → Action (ImpersonationClient × W) String (String × ℕ)
  fetch_impersonated_token user_email region = do
    sa_token ← map_err (λ e. "failed to get service account token: " <> e) get_service_account_token
    rpt_token ← map_err (λ e. "failed to get RPT token: " <> e) (get_rpt_token sa_token)
    map_err (λ e. "failed to impersonate user " <> (user_email <> (": " <> e)))
        (outside (impersonate_user rpt_token sa_token user_email region))

  -- The part of `GetImpersonatedToken` that comes after the cache.
  unfoldable pub fetch_and_store : String → String → Action (ImpersonationClient × W) String String
  fetch_and_store user_email region s =
      let (fetched, (c, w)) = fetch_impersonated_token user_email region s in
      elim fetched [
        | err e ↦ (err e, (c, w))
        | ok (token, expires_at) ↦ (
          ok token,
          (
            record c {
              token_cache =
                  insert (cache_key user_email region)
                    (record {
                      token = token;
                      expires_at = expires_at;
                      user_email = user_email;
                      region = region;
                    })
                    c.token_cache;
            },
            w,
          ),
        )
      ]

  -- `GetImpersonatedToken`
  unfoldable pub get_impersonated_token :
      String → String → Action (ImpersonationClient × W) String String
  get_impersonated_token user_email region (c, w) =
      let fresh = fetch_and_store user_email region (c, w) in
      if user_email == ""
      then (err "userEmail is required for impersonation", (c, w))
      else if region == ""
      then (err "region is required for impersonation", (c, w))
      else elim (lookup (cache_key user_email region) c.token_cache) [
        | none ↦ fresh
        | some cached ↦
            if is_expired c.config.token_expiry_buffer cached (api.now w)
            then fresh
            else (ok cached.token, (c, w))
      ]
