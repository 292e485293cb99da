-- ===== src/Csi/Tagging.antt =====
-- csi/driver/tags.go: the tags by which drives are tracked. The code is that of pkg/cloud/tags.go
-- with other names.
use cluster_api_provider_clo.Prelude.{
  String, Bool, ◌||◌, none, some, List, ◌∷◌, ◌++◌, ◌==◌, starts_with,
}
use cluster_api_provider_clo.Tags.{named_tag, ensure_tags, untag_resource}
use cluster_api_provider_clo.Csi.Types.{Driver}

-- `isCSIManagedTag`
unfoldable pub is_csi_managed_tag : String → Bool
is_csi_managed_tag name =
    name == "managed-by:cloudsigma-csi"
    || (starts_with name "cluster:" || starts_with name "volume:")

unfoldable pub drive_tags : String → String → List String
unfolding named_tag
drive_tags cluster_name volume_name =
    "managed-by:cloudsigma-csi"
    ∷ (named_tag "cluster:" cluster_name ++ named_tag "volume:" volume_name)

-- `tagDrive`
unfoldable pub tag_drive : {W : Type 0} → Driver W → String → String → W → W
unfolding ensure_tags drive_tags
tag_drive d drive_uuid volume_name w = elim d.cloud_client [
  | none ↦ w
  | some client ↦ ensure_tags client.tags (drive_tags d.cluster_name volume_name) drive_uuid w
]

-- `untagDrive`
unfoldable pub untag_drive : {W : Type 0} → Driver W → String → W → W
unfolding untag_resource is_csi_managed_tag
untag_drive d drive_uuid w = elim d.cloud_client [
  | none ↦ w
  | some client ↦ untag_resource client.tags is_csi_managed_tag drive_uuid w
]
