-- ===== src/Csi/Examples.antt =====
-- Runs of the CSI driver over the cloud in memory, and the theorems at concrete data.
use cluster_api_provider_clo.Prelude.{
  contains_text, true, ◌≢◌, ltb, if◌then◌else◌, ◌*◌, ◌≡◌, ◌≤◌, ◌<◌, ◌⊎◌, refl, true, false, some,
  [], ◌∷◌, ◌==◌, ok, err, arith, contains,
}
use cluster_api_provider_clo.CloudSdk.{ServerDrive, drive_of_uuid}
use cluster_api_provider_clo.Csi.Types.{
  Driver, block, CreateVolumeRequest, Volume, out_of_range, status,
}
use cluster_api_provider_clo.Csi.Channel.{find_next_device_channel, used_channels}
use cluster_api_provider_clo.Csi.Channel.FirstFree.{
  all_slots, first_free, or_last, find_next_device_channel_free,
  find_next_device_channel-first_free,
}
use cluster_api_provider_clo.Csi.Memory.{Cloud, cloud, cloud-IsLawful_drives}
use cluster_api_provider_clo.Csi.Volume.{
  min_volume_size, max_volume_size, volume_size, create_volume, delete_volume, gib,
}
use cluster_api_provider_clo.Csi.Volume.Size.{range, volume_size_decides}
use cluster_api_provider_clo.Csi.Volume.Create.{create_volume_twice}
use cluster_api_provider_clo.Csi.Volume.Remove.{delete_volume_spares_mounted}
use cluster_api_provider_clo.Csi.Volume.Store.{drive_by_uuid}
use cluster_api_provider_clo.CloudSdk.{ApiError}
use cluster_api_provider_clo.Csi.Attach.{new_server_drive}

abbrev driver : Driver Cloud
driver = record {
  region = "zrh";
  cluster_name = "a";
  cloud_client = some cloud;
  controller_caps = [];
  volume_caps = 1 ∷ 2 ∷ [];
}

abbrev boot : ServerDrive
boot = new_server_drive "0:0" "root"

abbrev sample : Cloud
sample = record {
  drives =
      record (drive_of_uuid "v1") { name = "v1"; status = "mounted" }
      ∷ record (drive_of_uuid "v2") { name = "v2"; status = "unmounted" }
      ∷ [];
  servers = ("n1", boot ∷ new_server_drive "0:2" "v1" ∷ []) ∷ [];
}

abbrev request : CreateVolumeRequest
request = record {
  name = "pvc";
  volume_capabilities = record { access_type = some block; access_mode = 0 } ∷ [];
  capacity_range = range (2 * gib) 0;
  parameters = [];
}

abbrev volume : Volume
volume = record {
  volume_id = "pvc";
  capacity_bytes = 2 * gib;
  volume_context = [];
  topology = ("topology.cloudsigma.com/region", "zrh") ∷ [];
}

created : (create_volume driver request sample).0 ≡ ok volume
unfolding create_volume cloud ◌==◌
created = refl

-- The second data disk goes to the first unit of controller 1.
next_channel : find_next_device_channel (boot ∷ new_server_drive "0:2" "v1" ∷ []) ≡ "1:0"
unfolding find_next_device_channel ◌==◌
next_channel = refl

delete_v2 : (delete_volume driver "v2" sample).0 ≡ ok tt
unfolding delete_volume cloud ◌==◌
delete_v2 = refl

find_next_device_channel_free_example :
    (contains
        (used_channels (boot ∷ new_server_drive "0:2" "v1" ∷ []))
        (find_next_device_channel (boot ∷ new_server_drive "0:2" "v1" ∷ []))
      ≡ false)
    × (contains all_slots (find_next_device_channel (boot ∷ new_server_drive "0:2" "v1" ∷ []))
        ≡ true)
find_next_device_channel_free_example =
    find_next_device_channel_free (boot ∷ new_server_drive "0:2" "v1" ∷ []) (omega arith)

find_next_device_channel-first_free_example :
    find_next_device_channel (boot ∷ new_server_drive "0:2" "v1" ∷ [])
    ≡ or_last (first_free (used_channels (boot ∷ new_server_drive "0:2" "v1" ∷ [])) all_slots)
find_next_device_channel-first_free_example =
    find_next_device_channel-first_free (boot ∷ new_server_drive "0:2" "v1" ∷ [])

volume_size_decides_example :
    (((7 < 5) ⊎ (max_volume_size < 5)) × (volume_size (range 5 7) ≡ err (status out_of_range)))
    ⊎ ((5 ≤ 7)
        × (5 ≤ max_volume_size)
        × (volume_size (range 5 7) ≡ ok (if ltb 5 min_volume_size then min_volume_size else 5)))
volume_size_decides_example = volume_size_decides 5 7 (omega arith) (omega arith)

create_volume_twice_example :
    create_volume driver request (create_volume driver request sample).1
    ≡ (ok volume, (create_volume driver request sample).1)
unfolding cloud
create_volume_twice_example =
    create_volume_twice cloud (λ c. c.drives) cloud-IsLawful_drives driver refl request volume
      sample created refl

delete_volume_spares_mounted_example :
    ((delete_volume driver "v1" sample).1.drives ≡ sample.drives)
    × (((delete_volume driver "v1" sample).0 ≢ ok tt)
        ⊎ ((e : ApiError) × ((cloud.drives.get "v1" sample).0 ≡ err e)
            × ((contains_text e.message "404" ≡ true)
                ⊎ (contains_text e.message "not found" ≡ true))))
unfolding ◌==◌ drive_by_uuid
delete_volume_spares_mounted_example =
    delete_volume_spares_mounted cloud (λ c. c.drives) cloud-IsLawful_drives driver refl "v1" _
      sample refl refl
