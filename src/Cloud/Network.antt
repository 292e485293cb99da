-- ===== src/Cloud/Network.antt =====
-- pkg/cloud/ips.go and pkg/cloud/vlans.go: IPs and VLANs of the account.
use cluster_api_provider_clo.Prelude.{
  String, Option, some, none, List, [], ◌∷◌, if◌then◌else◌, Action, ok, err, ret, fail, map_err,
  ◌>>=◌,
}
use cluster_api_provider_clo.CloudSdk.{Ip, Vlan}
use cluster_api_provider_clo.GoError.{Error, sdk, plain, wrap}
use cluster_api_provider_clo.Cloud.Types.{Client}
use cluster_api_provider_clo.Cloud.Drives.{has_status}

-- The first IP with no server.
unfoldable pub first_unassigned : List Ip → Option Ip
first_unassigned [] = none
first_unassigned (ip ∷ ips) = elim ip.server [ none ↦ some ip | some server ↦ first_unassigned ips ]

module _ {W : Type 0} (c : Client W) where
  -- `AllocatePublicIP`; the name is only logged.
  unfoldable pub allocate_public_ip : Action W Error Ip
  unfolding first_unassigned
  allocate_public_ip = do
    ips ← map_err (λ e. wrap "failed to list IPs" (sdk e)) c.sdk.ips.list
    elim (first_unassigned ips) [
      | some ip ↦ ret ip
      | none ↦ fail (plain "no available public IPs in pool")
    ]

  -- `GetIP`; an answer of nil is passed on.
  unfoldable pub get_ip : String → Action W Error (Option Ip)
  get_ip uuid = map_err (λ e. wrap "failed to get IP" (sdk e)) (c.sdk.ips.get uuid)

  -- `DeleteIP` does nothing.
  abbrev pub delete_ip : String → Action W Error (Unit {0})
  delete_ip uuid = ret tt

  -- `GetVLAN`
  unfoldable pub get_vlan : String → Action W Error (Option Vlan)
  get_vlan uuid w =
      let (answer, w') = c.sdk.vlans.get uuid w in
      elim answer [
        | ok vlan ↦ (ok (some vlan), w')
        | err e ↦
            if has_status 404 e
            then (ok none, w')
            else (err (wrap "failed to get VLAN" (sdk e)), w')
      ]

  -- `ListVLANs`
  unfoldable pub list_vlans : Action W Error (List Vlan)
  list_vlans = map_err (λ e. wrap "failed to list VLANs" (sdk e)) c.sdk.vlans.list

  -- `CreateVLAN` only refuses.
  abbrev pub create_vlan : Action W Error Vlan
  create_vlan = fail (
      plain
        "VLAN creation not supported via SDK - please create VLAN through CloudSigma UI and specify UUID")

  -- `DeleteVLAN` does nothing.
  abbrev pub delete_vlan : String → Action W Error (Unit {0})
  delete_vlan uuid = ret tt
