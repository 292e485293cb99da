-- ===== src/NodeSync/Refresh.antt =====
-- ccm/controllers/node_controller.go: the client of a sync, and the sync with it.
pub mod Entitled
use cluster_api_provider_clo.Prelude.{
  ℕ, zero, suc, String, ◌<>◌, Bool, true, false, not, ◌&&◌, Option, none, some, List, [], ◌∷◌, ◌==◌,
  if◌then◌else◌, Action, Result, ok, err,
}
use cluster_api_provider_clo.Prelude.Dict.{Dict}
use cluster_api_provider_clo.Auth.Types.{ImpersonationClient, OauthApi}
use cluster_api_provider_clo.Auth.{get_impersonated_token}
use cluster_api_provider_clo.Cloud.Connect.{Credentials, username_password, token, region_or_zurich}
use cluster_api_provider_clo.NodeSync.{KubeError, NodeApi, sync_nodes}

-- The settings of `NodeReconciler`.
pub record NodeSettings : Type 0 where
  pub cloud_sigma_region : String
  pub user_email : String
  pub legacy_credentials_enabled : Bool
  pub cloud_sigma_username : String
  pub cloud_sigma_password : String

-- An SDK client, by what it was made from.
pub record SdkAccount : Type 0 where
  pub credentials : Credentials
  pub location : String

-- The fields of `NodeReconciler` that change, and the impersonation client, if there is one.
pub record NodeState : Type 0 where
  pub impersonation_client : Option ImpersonationClient
  pub cloudsigma_client : Option SdkAccount
  pub stale_node_failures : Dict ℕ

module _ {W : Type 0} (oauth : OauthApi W) (settings : NodeSettings) where
  abbrev pub region : String
  region = region_or_zurich settings.cloud_sigma_region

  -- "Use impersonation (default) if configured and userEmail is set"
  unfoldable pub refresh_impersonated :
      ImpersonationClient → Action (NodeState × W) String (Unit {0})
  refresh_impersonated impersonation (s, w) =
      let (answer, (impersonation', w')) =
        get_impersonated_token oauth settings.user_email region (impersonation, w) in
      let s' : NodeState = record s { impersonation_client = some impersonation' } in
      elim answer [
        | err e ↦ (err ("failed to get impersonated token: " <> e), (s', w'))
        | ok fresh ↦ (
          ok tt,
          (
            record s' {
              cloudsigma_client =
                  some (record { credentials = token fresh; location = "direct." <> region });
            },
            w',
          ),
        )
      ]

  abbrev pub has_credentials : Bool
  has_credentials =
      settings.legacy_credentials_enabled
      && (not (settings.cloud_sigma_username == "") && not (settings.cloud_sigma_password == ""))

  abbrev pub legacy_account : SdkAccount
  legacy_account = record {
    credentials = username_password settings.cloud_sigma_username settings.cloud_sigma_password;
    location = region;
  }

  -- "Fallback to legacy credentials only if explicitly enabled"
  unfoldable pub refresh_legacy : NodeState → Result String (Unit {0}) × NodeState
  refresh_legacy s =
      if has_credentials
      then elim s.cloudsigma_client [
        | some account ↦ (ok tt, s)
        | none ↦ (ok tt, record s { cloudsigma_client = some legacy_account })
      ]
      else elim s.cloudsigma_client [
        | some account ↦ (ok tt, s)
        | none ↦ elim s.impersonation_client [
          | none ↦ (ok tt, s)
          | some impersonation ↦
              if settings.user_email == ""
              then (err "impersonation configured but userEmail not set", s)
              else (ok tt, s)
        ]
      ]

  -- `refreshCloudSigmaClient`
  unfoldable pub refresh_cloud_sigma_client : Action (NodeState × W) String (Unit {0})
  refresh_cloud_sigma_client (s, w) =
      let (answer, s') = refresh_legacy s in
      elim s.impersonation_client [
        | none ↦ (answer, (s', w))
        | some impersonation ↦
            if settings.user_email == ""
            then (answer, (s', w))
            else refresh_impersonated impersonation (s, w)
      ]

  module _ (api_of : Option SdkAccount → NodeApi W) where
    -- `syncNodes`: it goes on with the client there is when the refresh fails.
    unfoldable pub sync : Action (NodeState × W) KubeError (Unit {0})
    unfolding sync_nodes
    sync (s, w) =
        let (_, (s', w')) = refresh_cloud_sigma_client (s, w) in
        let (answer, (failures, w'')) =
          sync_nodes (api_of s'.cloudsigma_client) (s'.stale_node_failures, w') in
        (answer, (record s' { stale_node_failures = failures }, w''))

    -- The syncs of `syncLoop`, of which an error is logged.
    unfoldable pub sync_loop : ℕ → NodeState × W → NodeState × W
    sync_loop zero s = s
    sync_loop (suc rounds) s = sync_loop rounds (sync s).1
