-- ===== src/CsiToken/Secret.antt =====
-- What the CSI driver finds in its secret.
use cluster_api_provider_clo.Prelude.{◌≡◌, String, Option, some, none, Result, ok, err}
use cluster_api_provider_clo.Prelude.Dict.{lookup}
use cluster_api_provider_clo.Auth.Types.{ImpersonationClient, OauthApi}
use cluster_api_provider_clo.Auth.{get_impersonated_token}
use cluster_api_provider_clo.CsiToken.{TokenConfig, TokenSecret, TenantError, TenantApi}

-- A write that succeeds stores what was sent.
abbrev pub Stores : TokenSecret → Option TokenSecret → Result TenantError (Unit {0}) → Type 0
Stores sent after (ok _) = after ≡ some sent
Stores sent after (err e) = Unit

pub record IsLawful {W : Type 0} (tenant : TenantApi W) (secret : W → Option TokenSecret)
    : Type 0 where
  pub create_stores :
      (sent : TokenSecret) (w : W)
      → Stores sent (secret (tenant.create_secret sent w).1) (tenant.create_secret sent w).0
  pub update_stores :
      (sent : TokenSecret) (w : W)
      → Stores sent (secret (tenant.update_secret sent w).1) (tenant.update_secret sent w).0

-- The secret has the token, with what the CSI driver needs besides.
abbrev pub Carries : TokenConfig → String → Option TokenSecret → Type 0
Carries config token none = ⊥
Carries config token (some held) =
    (lookup "access_token" held.string_data ≡ some token)
    × (lookup "user_email" held.string_data ≡ some config.user_email)
    × (lookup "region" held.string_data ≡ some config.region)
    × (lookup "cluster_name" held.string_data ≡ some config.cluster_name)

module _ {W : Type 0} (tenant : TenantApi W) (oauth : OauthApi W) (config : TokenConfig)
    (secret : W → Option TokenSecret) (lawful : IsLawful tenant secret) where
  -- The secret has a token that was issued for the user and the region of the configuration.
  abbrev pub IsProvisioned : W → Type 0
  IsProvisioned w =
      (token : String) × (s : ImpersonationClient × W) × ((get_impersonated_token oauth
          config.user_email config.region s).0
        ≡ ok token)
      × Carries config token (secret w)
