-- ===== src/Machine/Reconcile.antt =====
-- controllers/cloudsigmamachine_controller.go: `Reconcile`, with the choice of the credentials.
use cluster_api_provider_clo.Prelude.{
  ℕ, String, Bool, true, false, not, ◌&&◌, Option, some, none, ◌==◌, if◌then◌else◌, Action, ok, err,
  ret, fail, map_err, attempt, outside, ◌>>=◌,
}
use cluster_api_provider_clo.Prelude.Dict.{lookup}
use cluster_api_provider_clo.CloudSdk.{SdkClient}
use cluster_api_provider_clo.GoError.{Error, plain}
use cluster_api_provider_clo.NodeSync.{conflict, not_found, other_error}
use cluster_api_provider_clo.Auth.Types.{ImpersonationClient, OauthApi}
use cluster_api_provider_clo.Cloud.Types.{Client, Timer, HttpApi}
use cluster_api_provider_clo.Cloud.Connect.{Credentials, new_client, new_client_with_impersonation}
use cluster_api_provider_clo.Machine.Types.{
  Machine, OwnerMachine, MachineCluster, MachineApi, ReconcilerConfig, LookupApi,
}
use cluster_api_provider_clo.Machine.Normal.{reconcile_normal}
use cluster_api_provider_clo.Machine.Delete.{reconcile_delete}

-- "Determine region - prefer cluster spec, fallback to controller default"
unfoldable pub region_of : ReconcilerConfig → Option MachineCluster → String
region_of config none = config.cloud_sigma_region
region_of config (some cluster) =
    if cluster.region == "" then config.cloud_sigma_region else cluster.region

abbrev pub has_credentials : ReconcilerConfig → Bool
has_credentials config =
    config.legacy_credentials_enabled
    && (not (config.cloud_sigma_username == "") && not (config.cloud_sigma_password == ""))

abbrev secret_namespace : MachineCluster → String → String
secret_namespace cluster namespace = if namespace == "" then cluster.namespace else namespace

module _ {W : Type 0} (kube : MachineApi W) (new_sdk : Credentials → String → SdkClient W)
    (oauth : OauthApi W) (config : ReconcilerConfig) where
  -- `getUserEmail`; the text is empty where there is none.
  unfoldable pub get_user_email : MachineCluster → W → String × W
  unfolding lookup
  get_user_email cluster w =
      if cluster.user_email == ""
      then elim cluster.user_ref [
        | none ↦ ("", w)
        | some (namespace, name) ↦
            let (answer, w') = kube.get_secret (secret_namespace cluster namespace) name w in
            elim answer [
              | err _ ↦ ("", w')
              | ok secret ↦ elim (lookup "userEmail" secret) [
                | none ↦ ("", w')
                | some email ↦ (email, w')
              ]
            ]
      ]
      else (cluster.user_email, w)

  unfoldable pub user_email_of : Option MachineCluster → W → String × W
  user_email_of none w = ("", w)
  user_email_of (some cluster) w = get_user_email cluster w

  -- `getCloudClient` behind the search for the user: the legacy credentials.
  unfoldable pub legacy_client :
      Bool → String → String → Action (Option ImpersonationClient × W) Error (Client W)
  unfolding new_client
  legacy_client is_impersonating user_email region s =
      if has_credentials config
      then (new_client new_sdk config.cloud_sigma_username config.cloud_sigma_password region, s)
      else if is_impersonating && user_email == ""
      then (
        err (
            plain
              "impersonation configured but userEmail not set in CloudSigmaCluster spec - ensure CloudSigmaCluster has spec.userEmail set"),
        s,
      )
      else (
        err (
            plain
              "no CloudSigma authentication available: impersonation requires userEmail in CloudSigmaCluster, legacy credentials not enabled"),
        s,
      )

  unfoldable pub client_for :
      String → String → Action (Option ImpersonationClient × W) Error (Client W)
  client_for user_email region (none, w) = legacy_client false user_email region (none, w)
  client_for user_email region (some impersonation, w) =
      if user_email == ""
      then legacy_client true user_email region (some impersonation, w)
      else new_client_with_impersonation new_sdk oauth user_email region (some impersonation, w)

  -- `getCloudClient`
  unfoldable pub get_cloud_client :
      Option MachineCluster → Action (Option ImpersonationClient × W) Error (Client W)
  unfolding region_of
  get_cloud_client cluster (impersonation, w) =
      let (user_email, w') = user_email_of cluster w in
      client_for user_email (region_of config cluster) (impersonation, w')

  module _ (lookups : LookupApi W) (timer : Timer W) (http : HttpApi W) (sleep : W → W) where
    -- "Handle deleted machines" and "Handle non-deleted machines"
    unfoldable pub reconcile_with : Client W → OwnerMachine → Machine → Action W Error ℕ
    reconcile_with c owner m w =
        let (deleted, (_, gone)) = reconcile_delete kube sleep c (m, w) in
        let (answer, (_, w')) = reconcile_normal kube timer http c owner (m, w) in
        if m.is_deleting then (elim deleted [ err e ↦ err e | ok _ ↦ ok 0 ], gone) else (answer, w')

    -- "Initialize the cloud client"; without one the machine is looked at again later.
    unfoldable pub reconcile_in :
        Option MachineCluster
        → OwnerMachine
        → Machine
        → Action (Option ImpersonationClient × W) Error ℕ
    unfolding reconcile_with
    reconcile_in cluster owner m s =
        let (connected, s') = get_cloud_client cluster s in
        elim connected [
          | ok c ↦ outside (reconcile_with c owner m) s'
          | err _ ↦
              if not (m.instance_id == "") && (m.ready && not m.is_deleting)
              then (ok 300, s')
              else (ok 30, s')
        ]

    unfoldable pub reconcile_owned :
        OwnerMachine → Machine → Action (Option ImpersonationClient × W) Error ℕ
    unfolding reconcile_in
    reconcile_owned owner m = do
      found ← attempt (outside (lookups.get_cluster owner))
      elim found [
        | err _ ↦ ret 0
        | ok (name, paused) ↦
            if paused
            then ret 0
            else attempt (outside (lookups.get_machine_cluster m.namespace name)) >>= (λ cluster.
              elim cluster [
                | err _ ↦ reconcile_in none owner m
                | ok present ↦ reconcile_in (some present) owner m
              ])
      ]

    -- `Reconcile`: the answer is `RequeueAfter` in seconds.
    unfoldable pub reconcile : Action (Option ImpersonationClient × W) Error ℕ
    unfolding reconcile_owned
    reconcile = do
      read ← attempt (outside lookups.get_machine)
      elim read [
        | err e ↦ elim e [
          | not_found ↦ ret 0
          | conflict ↦ fail (plain "failed to get machine")
          | other_error ↦ fail (plain "failed to get machine")
        ]
        | ok m ↦
            map_err (λ e. plain e) (outside (lookups.get_owner_machine m))
            >>= (λ owner. elim owner [ none ↦ ret 0 | some present ↦ reconcile_owned present m ])
      ]
