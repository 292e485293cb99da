-- ===== src/Csi/Volume.antt =====
-- The volume calls of csi/driver/controller.go: CreateVolume, DeleteVolume, ControllerExpandVolume,
-- ValidateVolumeCapabilities, and the calls that are not implemented.
pub mod Store
pub mod Size
pub mod Create
pub mod Remove
use cluster_api_provider_clo.Prelude.{
  ℕ, ◌*◌, ◌<>◌, String, Bool, true, false, not, ◌&&◌, ◌||◌, Option, none, some, List, [], ◌∷◌, ltb,
  nat_eq, ◌==◌, contains_text, if◌then◌else◌, pos_part, Action, Result, ok, err, ret, fail, map_err,
  attempt, guard, ◌>>=◌, ◌>>◌,
}
use cluster_api_provider_clo.Prelude.Dict.{Dict, lookup}
use cluster_api_provider_clo.CloudSdk.{ApiError, Drive, DrivesApi, SdkClient, drive_of_uuid}
use cluster_api_provider_clo.Csi.Types.{
  Code, invalid_argument, internal, out_of_range, failed_precondition, not_found, unimplemented,
  Failure, status, panic, AccessType, block, mount, VolumeCapability, CapacityRange,
  CreateVolumeRequest, Volume, ExpandResponse, ControllerCapability, Driver,
}
use cluster_api_provider_clo.Csi.Tagging.{tag_drive, untag_drive}

abbrev pub gib : ℕ
gib = 1024 * 1024 * 1024

abbrev pub min_volume_size : ℕ
min_volume_size = gib

abbrev pub max_volume_size : ℕ
max_volume_size = 10 * 1024 * gib

abbrev pub default_volume_size : ℕ
default_volume_size = 10 * gib

abbrev pub topology_key : String
topology_key = "topology.cloudsigma.com/region"

abbrev pub storage_type_dssd : String
storage_type_dssd = "dssd"

contains_mode : List ℕ → ℕ → Bool
contains_mode [] mode = false
contains_mode (m ∷ modes) mode = nat_eq mode m || contains_mode modes mode

-- `isValidVolumeCapability`
unfoldable pub is_valid_volume_capability : List ℕ → VolumeCapability → Bool
unfolding contains_mode
is_valid_volume_capability volume_caps capability = elim capability.access_type [
  | none ↦ false
  | some t ↦ elim t [ block ↦ true | mount ↦ contains_mode volume_caps capability.access_mode ]
]

-- The loop over the capabilities of a request.
unfoldable pub all_valid : List ℕ → List VolumeCapability → Bool
unfolding is_valid_volume_capability
all_valid volume_caps [] = true
all_valid volume_caps (c ∷ cs) =
    is_valid_volume_capability volume_caps c && all_valid volume_caps cs

abbrev pub is_empty {ℓ} : {A : Type ℓ} → List A → Bool
is_empty [] = true
is_empty (x ∷ xs) = false

-- The size that is asked for: that of the request if it is positive, 10 GB if not.
abbrev pub requested_size : Option CapacityRange → ℕ
requested_size none = default_volume_size
requested_size (some range) =
    if ltb 0 (pos_part range.required_bytes)
    then pos_part range.required_bytes
    else default_volume_size

abbrev pub exceeds_limit : Option CapacityRange → ℕ → Bool
exceeds_limit none size = false
exceeds_limit (some range) size =
    ltb 0 (pos_part range.limit_bytes) && ltb (pos_part range.limit_bytes) size

-- "Determine volume size" of `CreateVolume`.
unfoldable pub volume_size : Option CapacityRange → Result Failure ℕ
volume_size range =
    let size = requested_size range in
    if exceeds_limit range size
    then err (status out_of_range)
    else let raised = if ltb size min_volume_size then min_volume_size else size in
      if ltb max_volume_size raised then err (status out_of_range) else ok raised

abbrev or_default : String → Option String → String
or_default d none = d
or_default d (some s) = s

unfoldable pub storage_type_of : Dict String → String
unfolding lookup
storage_type_of parameters = or_default storage_type_dssd (lookup "storageType" parameters)

unfoldable pub find_drive : String → List Drive → Option Drive
find_drive name [] = none
find_drive name (drive ∷ drives) = if drive.name == name then some drive else find_drive name drives

-- `findDriveByName`
unfoldable pub find_drive_by_name :
    {W : Type 0} → DrivesApi W → String → Action W ApiError (Option Drive)
unfolding find_drive
find_drive_by_name api name = do drives ← api.list; ret (find_drive name drives)

abbrev pub const_status : Code → ApiError → Failure
const_status code e = status code

-- The error of the SDK speaks of a missing object.
abbrev pub says_not_found : ApiError → Bool
says_not_found e = contains_text e.message "404" || contains_text e.message "not found"

abbrev pub from_result : {W E A : Type 0} → Result E A → Action W E A
from_result r w = (r, w)

abbrev pub first_drive : {W : Type 0} → List Drive → Action W Failure Drive
first_drive [] = fail (status internal)
first_drive (drive ∷ drives) = ret drive

-- The size and the body of the resize call of `ControllerExpandVolume`.
abbrev pub expand_size : CapacityRange → ℕ
expand_size range =
    let required = pos_part range.required_bytes in
    if ltb required min_volume_size then min_volume_size else required

abbrev pub expand_body : CapacityRange → Drive → Drive
expand_body range drive = record (drive_of_uuid "") {
  name = drive.name;
  media = drive.media;
  size = expand_size range;
}

module _ {W : Type 0} (d : Driver W) where
  abbrev pub require_client : Action W Failure (SdkClient W)
  require_client = elim d.cloud_client [ none ↦ fail (status internal) | some client ↦ ret client ]

  abbrev pub volume_response : CreateVolumeRequest → Drive → Volume
  volume_response req drive = record {
    volume_id = drive.uuid;
    capacity_bytes = drive.size;
    volume_context = req.parameters;
    topology = (topology_key, d.region) ∷ [];
  }

  abbrev pub new_drive : CreateVolumeRequest → ℕ → Drive
  new_drive req size = record (drive_of_uuid "") {
    name = req.name;
    size = size;
    storage_type = storage_type_of req.parameters;
    media = "disk";
  }

  -- `CreateVolume` from the call that makes the drive on.
  unfoldable pub create_drive : SdkClient W → CreateVolumeRequest → ℕ → Action W Failure Volume
  unfolding storage_type_of tag_drive
  create_drive client req size = do
    drives ← map_err (const_status internal) (client.drives.create (new_drive req size ∷ []))
    drive ← first_drive drives
    λ w. (ok (volume_response req drive), tag_drive d drive.uuid req.name w)

  -- `CreateVolume` with the drive of the name, if there is one.
  unfoldable pub create_or_reuse :
      SdkClient W → CreateVolumeRequest → ℕ → Option Drive → Action W Failure Volume
  unfolding create_drive
  create_or_reuse client req size (some drive) = ret (volume_response req drive)
  create_or_reuse client req size none = create_drive client req size

  -- `CreateVolume`
  unfoldable pub create_volume : CreateVolumeRequest → Action W Failure Volume
  unfolding all_valid volume_size find_drive_by_name create_or_reuse
  create_volume req = do
    guard (not (req.name == "")) (status invalid_argument)
    client ← require_client
    guard (not (is_empty req.volume_capabilities)) (status invalid_argument)
    guard (all_valid d.volume_caps req.volume_capabilities) (status invalid_argument)
    size ← from_result (volume_size req.capacity_range)
    existing ← map_err (const_status internal) (find_drive_by_name client.drives req.name)
    create_or_reuse client req size existing

  -- `DeleteVolume` of a drive that was found.
  unfoldable pub delete_found : SdkClient W → String → Drive → Action W Failure (Unit {0})
  unfolding untag_drive
  delete_found client volume_id drive =
      if drive.status == "mounted" then fail (status failed_precondition) else λ w.
      map_err (const_status internal) (client.drives.delete volume_id) (untag_drive d volume_id w)

  -- `DeleteVolume`
  unfoldable pub delete_volume : String → Action W Failure (Unit {0})
  unfolding delete_found contains_text
  delete_volume volume_id = do
    guard (not (volume_id == "")) (status invalid_argument)
    client ← require_client
    found ← attempt (client.drives.get volume_id)
    elim found [
      | err e ↦ if says_not_found e then ret tt else fail (status internal)
      | ok drive ↦ delete_found client volume_id drive
    ]

  -- `ControllerExpandVolume`; a request with no capacity range is dereferenced all the same.
  unfoldable pub controller_expand_volume :
      String → Option CapacityRange → Action W Failure ExpandResponse
  controller_expand_volume volume_id capacity_range = do
    guard (not (volume_id == "")) (status invalid_argument)
    client ← require_client
    elim capacity_range [
      | none ↦ fail panic
      | some range ↦ do
        drive ← map_err (const_status not_found) (client.drives.get volume_id)
        map_err (const_status internal) (client.drives.resize volume_id (expand_body range drive))
        ret (record { capacity_bytes = expand_size range; node_expansion_required = true })
    ]

  -- `ValidateVolumeCapabilities`: the capabilities that are confirmed, or none.
  unfoldable pub validate_volume_capabilities :
      String → List VolumeCapability → Action W Failure (Option (List VolumeCapability))
  unfolding all_valid
  validate_volume_capabilities volume_id capabilities = do
    guard (not (volume_id == "")) (status invalid_argument)
    guard (not (is_empty capabilities)) (status invalid_argument)
    elim d.cloud_client [
      | none ↦ ret tt
      | some client ↦ do map_err (const_status not_found) (client.drives.get volume_id); ret tt
    ]
    ret (if all_valid d.volume_caps capabilities then some capabilities else none)

  -- `ControllerGetCapabilities`
  unfoldable pub controller_get_capabilities : Action W Failure (List ControllerCapability)
  controller_get_capabilities = ret d.controller_caps

  -- `ListVolumes`, `GetCapacity`, `CreateSnapshot`, `DeleteSnapshot`, `ListSnapshots`,
  -- `ControllerGetVolume` and `ControllerModifyVolume`
  unfoldable pub not_implemented : {A : Type 0} → Action W Failure A
  not_implemented = fail (status unimplemented)
