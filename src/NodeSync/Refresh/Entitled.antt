-- ===== src/NodeSync/Refresh/Entitled.antt =====
-- Whose credentials the syncs of the nodes use.
use cluster_api_provider_clo.Prelude.{
  ℕ, ◌≡◌, ◌≢◌, ok, if◌then◌else◌, String, ◌<>◌, Bool, true, false, not, Option, none, some, ◌==◌,
  arith,
}
use cluster_api_provider_clo.Prelude.Dict.{Dict}
use cluster_api_provider_clo.Auth.Types.{ImpersonationClient, OauthApi}
use cluster_api_provider_clo.Auth.{get_impersonated_token}
use cluster_api_provider_clo.Cloud.Connect.{token, username_password}
use cluster_api_provider_clo.NodeSync.Refresh.{NodeSettings, SdkAccount, NodeState}

abbrev state_of : Option ImpersonationClient → Option SdkAccount → Dict ℕ → NodeState
state_of impersonation account failures = record {
  impersonation_client = impersonation;
  cloudsigma_client = account;
  stale_node_failures = failures;
}

module _ {W : Type 0} (oauth : OauthApi W) (settings : NodeSettings) where
  abbrev pub wanted_region : String
  wanted_region = if settings.cloud_sigma_region == "" then "zrh" else settings.cloud_sigma_region

  -- A client with a token that was given out for the user and the region, at the direct endpoint.
  abbrev pub IsImpersonated : SdkAccount → Type 0
  IsImpersonated account =
      (fresh : String) × (impersonation : ImpersonationClient) × (w : W) × ((get_impersonated_token
          oauth settings.user_email wanted_region (impersonation, w)).0
        ≡ ok fresh)
      × (account ≡ record { credentials = token fresh; location = "direct." <> wanted_region })

  -- A client with the username and the password, which are enabled and set.
  abbrev pub IsLegacy : SdkAccount → Type 0
  IsLegacy account =
      (settings.legacy_credentials_enabled ≡ true)
      × (settings.cloud_sigma_username ≢ "")
      × (settings.cloud_sigma_password ≢ "")
      × (account ≡ record {
        credentials = username_password settings.cloud_sigma_username settings.cloud_sigma_password;
        location = wanted_region;
      })

  -- Impersonation is configured, and an email is set.
  abbrev pub is_configured : Option ImpersonationClient → Bool
  is_configured none = false
  is_configured (some impersonation) = not (settings.user_email == "")

  -- With impersonation the client has a token; else it has the legacy credentials, which are
  -- enabled and set.
  abbrev pub EntitledTo : Bool → Option SdkAccount → Type 0
  EntitledTo configured none = Unit
  EntitledTo true (some account) = IsImpersonated account
  EntitledTo false (some account) = IsLegacy account

  abbrev pub IsEntitled : NodeState → Type 0
  IsEntitled s = EntitledTo (is_configured s.impersonation_client) s.cloudsigma_client

  EntitledTo-not :
      (b : Bool) (account : Option SdkAccount)
      → b ≡ false
      → EntitledTo true account
      → EntitledTo (not b) account
  EntitledTo-not true account e h = absurd (ground (arith, e))
  EntitledTo-not false account e h = h
