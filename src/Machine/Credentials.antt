-- ===== src/Machine/Credentials.antt =====
-- Whose account the client of `getCloudClient` acts in.
use cluster_api_provider_clo.Prelude.{
  ◌≡◌, ◌≢◌, ◌⊎◌, ◌<>◌, ◌==◌, if◌then◌else◌, String, true, false, Option, some, none, ok,
}
use cluster_api_provider_clo.CloudSdk.{SdkClient}
use cluster_api_provider_clo.Auth.Types.{ImpersonationClient, OauthApi}
use cluster_api_provider_clo.Auth.{get_impersonated_token}
use cluster_api_provider_clo.Cloud.Types.{Client}
use cluster_api_provider_clo.Cloud.Connect.{Credentials, token, username_password}
use cluster_api_provider_clo.Machine.Types.{MachineApi, ReconcilerConfig}

module _ {W : Type 0} (kube : MachineApi W) (new_sdk : Credentials → String → SdkClient W)
    (oauth : OauthApi W) (config : ReconcilerConfig) where
  abbrev pub or_zurich : String → String
  or_zurich region = if region == "" then "zrh" else region

  -- The client acts for the user: the SDK client is made from the token that is given out for the user
  -- and the region in the state, at the direct endpoint of the region.
  abbrev pub ActsFor : String → String → ImpersonationClient × W → Client W → Type 0
  ActsFor user_email region s c =
      (user_email ≢ "")
      × (fresh : String) × ((get_impersonated_token oauth user_email (or_zurich region) s).0
          ≡ ok fresh)
      × (c.sdk ≡ new_sdk (token fresh) ("direct." <> or_zurich region))
      × (c.access_token ≡ fresh)
      × (c.use_impersonation ≡ true)
      × (c.impersonated_user ≡ user_email)

  -- The client acts with the credentials of the controller, which are enabled and set.
  abbrev pub IsLegacy : String → Client W → Type 0
  IsLegacy region c =
      (config.legacy_credentials_enabled ≡ true)
      × (config.cloud_sigma_username ≢ "")
      × (config.cloud_sigma_password ≢ "")
      × (c.sdk
          ≡ new_sdk (username_password config.cloud_sigma_username config.cloud_sigma_password)
              (or_zurich region))
      × (c.use_impersonation ≡ false)
      × (c.username ≡ config.cloud_sigma_username)
      × (c.password ≡ config.cloud_sigma_password)

  -- What a client says of the impersonation client, the user's email, the region and the state in
  -- which it was made.
  abbrev pub IsEntitled : Option ImpersonationClient → String → String → W → Client W → Type 0
  IsEntitled none user_email region w c = IsLegacy region c
  IsEntitled (some impersonation) user_email region w c =
      ActsFor user_email region (impersonation, w) c ⊎ ((user_email ≡ "") × IsLegacy region c)
