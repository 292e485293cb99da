-- ===== src/LoadBalancer/IpTags.antt =====
-- The tags on IPs: getTaggedServiceIPs, isIPAvailable, ensureTagWithIP, cleanStaleTags,
-- tagIPInCloudSigma and untagIPInCloudSigma. Failures inside are logged and passed over.
use cluster_api_provider_clo.Prelude.{
  ℕ, String, ◌<>◌, Bool, false, not, ◌&&◌, ◌||◌, Option, none, some, List, [], ◌∷◌, ◌++◌, ltb, ◌==◌,
  starts_with, contains, if◌then◌else◌, Action, ok, ret, fail, attempt, ◌>>=◌, ◌>>◌,
}
use cluster_api_provider_clo.CloudSdk.{Tag}
use cluster_api_provider_clo.Tags.{find_tag, without}
use cluster_api_provider_clo.LoadBalancer.Types.{Environment}
use cluster_api_provider_clo.LoadBalancer.Pool.{replace_char}

-- `json.Unmarshal` whose error is not looked at: an answer that is no list of tags reads as none.
abbrev pub or_no_tags : Option (List Tag) → List Tag
or_no_tags none = []
or_no_tags (some tags) = tags

-- The name is that of a tag under the controller.
unfoldable pub is_ccm_managed_tag : String → Bool
is_ccm_managed_tag name =
    starts_with name "cluster:"
    || (starts_with name "service:" || name == "managed-by:cloudsigma-ccm")

-- The keys of the map of `getTaggedServiceIPs`: an IP is in it if a service tag lists it.
unfoldable pub has_service_tag : List Tag → String → Bool
unfolding contains
has_service_tag [] ip = false
has_service_tag (tag ∷ tags) ip =
    starts_with tag.name "service:" && contains tag.resources ip || has_service_tag tags ip

abbrev is_refused : ℕ → Bool
is_refused code = not (ltb code 400)

module _ {W : Type 0} (env : Environment W) where
  -- `isIPAvailable` with `getTaggedServiceIPs`
  unfoldable pub is_ip_available : String → Action W String Bool
  unfolding has_service_tag
  is_ip_available ip = do
    token ← env.get_token
    tags ← env.http.get_tags token
    ret (not (has_service_tag (or_no_tags tags) ip))

  -- The end of `ensureTagWithIP`: the tag of the name is not there, or is.
  put_ip : String → String → String → Option Tag → Action W String (Unit {0})
  put_ip token tag_name ip none = do
    code ← env.http.post_tag token tag_name (ip ∷ [])
    if is_refused code then fail "failed to create tag" else ret tt
  put_ip token tag_name ip (some tag) = if contains tag.resources ip then ret tt else do
    code ← env.http.put_tag token tag.uuid tag_name (tag.resources ++ (ip ∷ []))
    if is_refused code then fail "failed to update tag" else ret tt

  -- A tag with no UUID counts as absent.
  abbrev usable : Option Tag → Option Tag
  usable none = none
  usable (some tag) = if tag.uuid == "" then none else some tag

  -- `ensureTagWithIP`
  unfoldable pub ensure_tag_with_ip : String → String → String → Action W String (Unit {0})
  unfolding put_ip find_tag contains
  ensure_tag_with_ip token tag_name ip = do
    tags ← env.http.get_tags token
    put_ip token tag_name ip (usable (find_tag tag_name (or_no_tags tags)))

  -- One round of the loops of `cleanStaleTags` and `untagIPInCloudSigma`.
  remove_ip : (String → Bool) → String → String → Tag → W → W
  unfolding contains without
  remove_ip removes token ip tag w =
      if removes tag.name && contains tag.resources ip
      then (env.http.put_tag token tag.uuid tag.name (without ip tag.resources) w).1
      else w

  remove_ip_all : (String → Bool) → String → String → List Tag → W → W
  unfolding remove_ip
  remove_ip_all removes token ip [] w = w
  remove_ip_all removes token ip (tag ∷ tags) w =
      remove_ip_all removes token ip tags (remove_ip removes token ip tag w)

  -- The IP is taken off every tag whose name is in `removes`.
  remove_from_tags : (String → Bool) → String → String → Action W String (Unit {0})
  unfolding remove_ip_all
  remove_from_tags removes token ip = do
    tags ← env.http.get_tags token
    λ w. (ok tt, remove_ip_all removes token ip (or_no_tags tags) w)

  -- `cleanStaleTags`
  unfoldable pub clean_stale_tags : String → String → List String → Action W String (Unit {0})
  unfolding remove_from_tags is_ccm_managed_tag contains
  clean_stale_tags token ip desired =
      remove_from_tags (λ name. is_ccm_managed_tag name && not (contains desired name)) token ip

  ensure_ip_tags : String → List String → String → W → W
  unfolding ensure_tag_with_ip
  ensure_ip_tags token [] ip w = w
  ensure_ip_tags token (name ∷ names) ip w =
      ensure_ip_tags token names ip (ensure_tag_with_ip token name ip w).1

  abbrev pub desired_tags : String → String → List String
  desired_tags cluster_name service_name =
      ("cluster:" <> cluster_name)
      ∷ ("service:" <> replace_char "/" "-" service_name)
      ∷ "managed-by:cloudsigma-ccm"
      ∷ []

  -- `tagIPInCloudSigma`
  unfoldable pub tag_ip_in_cloud_sigma : String → String → String → Action W String (Unit {0})
  unfolding clean_stale_tags ensure_ip_tags replace_char
  tag_ip_in_cloud_sigma cluster_name ip service_name = do
    token ← env.get_token
    let desired = desired_tags cluster_name service_name
    attempt {F = String} (clean_stale_tags token ip desired)
    λ w. (ok tt, ensure_ip_tags token desired ip w)

  -- `untagIPInCloudSigma`
  unfoldable pub untag_ip_in_cloud_sigma : String → Action W String (Unit {0})
  unfolding remove_from_tags is_ccm_managed_tag
  untag_ip_in_cloud_sigma ip = do
    token ← env.get_token
    remove_from_tags is_ccm_managed_tag token ip
