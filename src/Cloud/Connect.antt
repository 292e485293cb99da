-- ===== src/Cloud/Connect.antt =====
-- pkg/cloud/client.go: a client for a user's account, by password or by impersonation.
use cluster_api_provider_clo.Prelude.{
  String, ◌<>◌, true, false, ◌||◌, Option, some, none, ◌==◌, if◌then◌else◌, Action, Result, ok, err,
  ret, fail, map_err, ◌>>=◌,
}
use cluster_api_provider_clo.CloudSdk.{SdkClient}
use cluster_api_provider_clo.GoError.{Error, sdk, plain, wrap}
use cluster_api_provider_clo.Auth.Types.{ImpersonationClient, OauthApi}
use cluster_api_provider_clo.Auth.{get_impersonated_token}
use cluster_api_provider_clo.Cloud.Types.{Client}

-- The credentials providers of the SDK.
pub data Credentials : Type 0 where
  username_password : String → String → Credentials
  token : String → Credentials

-- `""` is the region of Zurich.
abbrev pub region_or_zurich : String → String
region_or_zurich region = if region == "" then "zrh" else region

-- `VerifyConnection`
unfoldable pub verify_connection : {W : Type 0} → Client W → Action W Error (Unit {0})
verify_connection c =
    map_err (λ e. wrap "failed to verify CloudSigma connection" (sdk e)) c.sdk.get_profile

module _ {W : Type 0} (new_sdk : Credentials → String → SdkClient W) where
  -- `NewClient`
  unfoldable pub new_client : String → String → String → Result Error (Client W)
  new_client username password region =
      if username == "" || password == ""
      then err (plain "username and password are required")
      else ok (record {
        sdk = new_sdk (username_password username password) (region_or_zurich region);
        region = region_or_zurich region;
        username = username;
        password = password;
        api_endpoint = "https://" <> (region_or_zurich region <> ".cloudsigma.com/api/2.0");
        impersonated_user = "";
        use_impersonation = false;
        access_token = "";
      })

  -- The client that a token makes, at `direct.<region>`.
  abbrev pub impersonating : String → String → String → Client W
  impersonating user_email region access_token = record {
    sdk = new_sdk (token access_token) ("direct." <> region);
    region = region;
    username = "";
    password = "";
    api_endpoint = "https://direct." <> (region <> ".cloudsigma.com/api/2.0");
    impersonated_user = user_email;
    use_impersonation = true;
    access_token = access_token;
  }

  module _ (oauth : OauthApi W) where
    -- `NewClientWithImpersonation` for a client that is not nil.
    unfoldable pub connect : String → String → Action (ImpersonationClient × W) Error (Client W)
    connect user_email region =
        if user_email == ""
        then fail (plain "userEmail is required for impersonation")
        else map_err
            (λ e. wrap ("failed to get impersonated token for user " <> user_email) (plain e))
            (get_impersonated_token oauth user_email (region_or_zurich region))
          >>= (λ access_token.
              ret (impersonating user_email (region_or_zurich region) access_token))

    -- `NewClientWithImpersonation`; `none` is the nil client.
    unfoldable pub new_client_with_impersonation :
        String → String → Action (Option ImpersonationClient × W) Error (Client W)
    unfolding connect
    new_client_with_impersonation user_email region (none, w) =
        (err (plain "impersonationClient is required"), (none, w))
    new_client_with_impersonation user_email region (some impersonation, w) =
        let (connected, (impersonation', w')) = connect user_email region (impersonation, w) in
        (connected, (some impersonation', w'))

    -- "Recreate SDK client with new token"
    abbrev pub renew :
        Client W
        → Result String String × (ImpersonationClient × W)
        → Result Error (Unit {0}) × (Client W × (ImpersonationClient × W))
    renew c (err e, s) = (err (wrap "failed to refresh impersonated token" (plain e)), (c, s))
    renew c (ok access_token, s) = (
      ok tt,
      (
        record c {
          sdk = new_sdk (token access_token) ("direct." <> c.region);
          access_token = access_token;
        },
        s,
      ),
    )

    -- `RefreshImpersonatedToken`
    unfoldable pub refresh_impersonated_token :
        Action (Client W × (ImpersonationClient × W)) Error (Unit {0})
    refresh_impersonated_token (c, s) =
        if c.use_impersonation
        then renew c (get_impersonated_token oauth c.impersonated_user c.region s)
        else (ok tt, (c, s))
