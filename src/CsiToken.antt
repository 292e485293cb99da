-- ===== src/CsiToken.antt =====
-- ccm/controllers/csi_token_controller.go: the token of the CSI driver is kept in a secret of the
-- tenant cluster.
mod Examples
pub mod Secret
use cluster_api_provider_clo.Prelude.{
  ℕ, zero, suc, ◌*◌, String, ◌<>◌, Bool, true, false, Option, some, none, List, [], ◌∷◌, ltb, ◌==◌,
  if◌then◌else◌, Action, Result, ok, err, ret, fail, map_err, attempt, outside, ◌>>=◌, ◌>>◌,
}
use cluster_api_provider_clo.Prelude.Dict.{Dict}
use cluster_api_provider_clo.Auth.Types.{ImpersonationClient, OauthApi, second, minute}
use cluster_api_provider_clo.Auth.{get_impersonated_token}

abbrev pub initial_retry_interval : ℕ
initial_retry_interval = 5 * second

abbrev pub max_retry_interval : ℕ
max_retry_interval = 2 * minute

-- `CSITokenController`, less its clients.
pub record TokenConfig : Type 0 where
  pub user_email : String
  pub region : String
  pub cluster_name : String
  pub enabled : Bool

-- The secret, with the version that an update of a stored one carries, and the time of the
-- annotation `refreshed-at`.
pub record TokenSecret : Type 0 where
  pub string_data : Dict String
  pub labels : Dict String
  pub user_email : String
  pub region : String
  pub refreshed_at : ℕ
  pub version : String

pub data TenantError : Type 0 where
  missing already_exists other_failure : TenantError

-- The calls of the tenant cluster, for the namespace and the secret of the CSI driver.
pub record TenantApi (W : Type 0) : Type 0 where
  pub get_namespace : Action W TenantError (Unit {0})
  pub create_namespace : Dict String → Action W TenantError (Unit {0})
  pub get_secret : Action W TenantError TokenSecret
  pub create_secret : TokenSecret → Action W TenantError (Unit {0})
  pub update_secret : TokenSecret → Action W TenantError (Unit {0})

abbrev managed_by : Dict String
managed_by = ("app.kubernetes.io/managed-by", "cloudsigma-ccm") ∷ []

-- The secret for a token.
unfoldable pub secret_for : TokenConfig → String → ℕ → TokenSecret
secret_for config token now = record {
  string_data =
      ("access_token", token)
      ∷ ("region", config.region)
      ∷ ("user_email", config.user_email)
      ∷ ("cluster_name", config.cluster_name)
      ∷ [];
  labels =
      ("app.kubernetes.io/managed-by", "cloudsigma-ccm")
      ∷ ("app.kubernetes.io/component", "csi-credentials")
      ∷ [];
  user_email = config.user_email;
  region = config.region;
  refreshed_at = now;
  version = "";
}

-- "Exponential backoff with cap"
unfoldable pub next_backoff : ℕ → ℕ
next_backoff backoff =
    if ltb max_retry_interval (backoff * 2) then max_retry_interval else backoff * 2

-- `Start` up to its loop: whether the loop is started. `none` is the nil impersonation client.
unfoldable pub start : TokenConfig → Option ImpersonationClient → Result String Bool
start config impersonation =
    if config.enabled
    then elim impersonation [
      | none ↦ err "impersonation client required for CSI token provisioning"
      | some client ↦
          if config.user_email == ""
          then err "user email required for CSI token provisioning"
          else ok true
    ]
    else ok false

module _ {W : Type 0} (tenant : TenantApi W) (oauth : OauthApi W) (config : TokenConfig) where
  abbrev after_create_namespace : Result TenantError (Unit {0}) × W → Result String (Unit {0}) × W
  after_create_namespace (ok _, w) = (ok tt, w)
  after_create_namespace (err missing, w) = (err "failed to create namespace", w)
  after_create_namespace (err already_exists, w) = (ok tt, w)
  after_create_namespace (err other_failure, w) = (err "failed to create namespace", w)

  abbrev after_get_namespace : Result TenantError (Unit {0}) × W → Result String (Unit {0}) × W
  after_get_namespace (ok _, w) = (ok tt, w)
  after_get_namespace (err missing, w) =
      after_create_namespace (tenant.create_namespace managed_by w)
  after_get_namespace (err already_exists, w) = (err "failed to get namespace", w)
  after_get_namespace (err other_failure, w) = (err "failed to get namespace", w)

  -- `ensureNamespace`
  unfoldable pub ensure_namespace : Action W String (Unit {0})
  ensure_namespace w = after_get_namespace (tenant.get_namespace w)

  -- "Create or update secret", behind the read.
  abbrev pub put_secret :
      TokenSecret → Result TenantError TokenSecret × W → Result String (Unit {0}) × W
  put_secret secret (ok existing, w) =
      map_err (λ e. "failed to update CSI token secret")
        (tenant.update_secret (record secret { version = existing.version })) w
  put_secret secret (err missing, w) =
      map_err (λ e. "failed to create CSI token secret") (tenant.create_secret secret) w
  put_secret secret (err already_exists, w) = (err "failed to get existing secret", w)
  put_secret secret (err other_failure, w) = (err "failed to get existing secret", w)

  unfoldable pub store_token : String → Action W String (Unit {0})
  unfolding secret_for
  store_token token w = put_secret (secret_for config token (oauth.now w)) (tenant.get_secret w)

  -- `ensureCSIToken`
  unfoldable pub ensure_csi_token : Action (ImpersonationClient × W) String (Unit {0})
  unfolding ensure_namespace store_token
  ensure_csi_token = do
    map_err (λ e. "failed to ensure namespace: " <> e) (outside ensure_namespace)
    token ←
        map_err (λ e. "failed to get impersonated token: " <> e)
          (get_impersonated_token oauth config.user_email config.region)
    outside (store_token token)

  -- How `provisioningLoop` goes on to the refreshes, or ends.
  pub data Provisioning : Type 0 where
    provisioned cancelled out_of_rounds : Provisioning

  -- The loop of `provisioningLoop`, with the backoff that is next; `await` is the wait for it, and
  -- `is_done` the test of the context, which also ends the wait.
  unfoldable pub provision :
      (W → Bool)
      → (ℕ → Action W (Unit {0}) (Unit {0}))
      → ℕ
      → ℕ
      → ImpersonationClient × W
      → Provisioning × (ImpersonationClient × W)
  unfolding ensure_csi_token
  provision is_done await zero backoff s = (out_of_rounds, s)
  provision is_done await (suc rounds) backoff s = elim (is_done s.1) [
    | true ↦ (cancelled, s)
    | false ↦
        let (ensured, s') = ensure_csi_token s in
        elim ensured [
          | ok _ ↦ (provisioned, s')
          | err _ ↦
              let (waited, w) = await backoff s'.1 in
              elim waited [
                | err _ ↦ (cancelled, (s'.0, w))
                | ok _ ↦ provision is_done await rounds (next_backoff backoff) (s'.0, w)
              ]
        ]
  ]
