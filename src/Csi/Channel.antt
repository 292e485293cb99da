-- ===== src/Csi/Channel.antt =====
-- `findNextDeviceChannel` of csi/driver/controller.go.
pub mod FirstFree
use cluster_api_provider_clo.Prelude.{
  ℕ, zero, suc, ◌+◌, String, ◌<>◌, Option, none, some, List, [], ◌∷◌, map, contains, decimal,
  if◌then◌else◌,
}
use cluster_api_provider_clo.CloudSdk.{ServerDrive}

-- `fmt.Sprintf("%d:%d", controller, unit)`
unfoldable pub channel : ℕ → ℕ → String
unfolding decimal
channel controller unit = decimal controller <> (":" <> decimal unit)

-- `for unit := 0; unit < 3; unit++`, with the rounds left.
try_units : List String → ℕ → ℕ → ℕ → Option String
try_units used controller zero unit = none
try_units used controller (suc rounds) unit =
    let rest = try_units used controller rounds (unit + 1) in
    if contains used (channel controller unit) then rest else some (channel controller unit)

-- `for controller := 1; controller <= 202; controller++`, with the rounds left.
try_controllers : List String → ℕ → ℕ → Option String
try_controllers used zero controller = none
try_controllers used (suc rounds) controller =
    let rest = try_controllers used rounds (controller + 1) in
    elim (try_units used controller 3 0) [ some free ↦ some free | none ↦ rest ]

abbrev pub used_channels : List ServerDrive → List String
used_channels = map (λ d. d.dev_channel)

unfoldable pub find_next_device_channel : List ServerDrive → String
unfolding try_units try_controllers contains channel
find_next_device_channel drives =
    let used = used_channels drives in
    let first : String = "0:2" in
    let search = try_controllers used 202 1 in
    if contains used first then elim search [ some free ↦ free | none ↦ "202:2" ] else first
