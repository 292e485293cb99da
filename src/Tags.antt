-- ===== src/Tags.antt =====
-- pkg/cloud/tags.go: the tags by which servers are tracked.
pub mod Store
pub mod Untagging
pub mod Tagging
pub mod Frame
pub mod Memory
mod Examples
use cluster_api_provider_clo.Prelude.{
  String, ◌<>◌, Bool, true, false, ◌&&◌, ◌||◌, not, Option, none, some, List, [], ◌∷◌, ◌++◌, ◌==◌,
  starts_with, contains, if◌then◌else◌, Action, Result, ok, err, ret, map_err, ◌>>=◌, ◌>>◌,
}
use cluster_api_provider_clo.CloudSdk.{ApiError, Tag, TagsApi}
use cluster_api_provider_clo.GoError.{Error, sdk, wrap}

-- `isCAPCSManagedTag`
unfoldable pub is_capcs_managed_tag : String → Bool
is_capcs_managed_tag name =
    name == "managed-by:cloudsigma-capcs"
    || (starts_with name "cluster:" || starts_with name "pool:")

-- The first tag of the name, where the loop of `ensureTagWithResource` stops.
unfoldable pub find_tag : String → List Tag → Option Tag
find_tag name [] = none
find_tag name (tag ∷ tags) = if tag.name == name then some tag else find_tag name tags

-- The resources without `uuid`.
unfoldable pub without : String → List String → List String
without uuid [] = []
without uuid (r ∷ rs) = if r == uuid then without uuid rs else r ∷ without uuid rs

-- `&cloudsigma.Tag{Name: name, Resources: resources}`
abbrev pub tag_body : String → List String → Tag
tag_body name resources = record { uuid = ""; name = name; resources = resources }

module _ {W : Type 0} (api : TagsApi W) where
  -- `ensureTagWithResource` behind its search for the tag of the name.
  set_tag : String → String → Option Tag → Action W Error (Unit {0})
  set_tag tag_name resource (some tag) = if contains tag.resources resource then ret tt else do
    map_err (λ e. wrap ("failed to update tag " <> tag_name) (sdk e))
        (api.update tag.uuid (tag_body tag.name (tag.resources ++ (resource ∷ []))))
    ret tt
  set_tag tag_name resource none = do
    map_err (λ e. wrap ("failed to create tag " <> tag_name) (sdk e))
        (api.create (tag_body tag_name (resource ∷ []) ∷ []))
    ret tt

  -- `ensureTagWithResource`
  unfoldable pub ensure_tag_with_resource : String → String → Action W Error (Unit {0})
  unfolding set_tag find_tag contains
  ensure_tag_with_resource tag_name resource = do
    tags ← map_err (λ e. wrap "failed to list tags" (sdk e)) api.list
    set_tag tag_name resource (find_tag tag_name tags)

  -- The loop of `TagServer`: a tag that cannot be set is logged and passed over.
  unfoldable pub ensure_tags : List String → String → W → W
  unfolding ensure_tag_with_resource
  ensure_tags [] resource w = w
  ensure_tags (name ∷ names) resource w =
      ensure_tags names resource (ensure_tag_with_resource name resource w).1

  -- One round of the loop of `UntagServer`.
  unfoldable pub untag_one : (String → Bool) → String → Tag → W → W
  unfolding contains without
  untag_one managed uuid tag w =
      if managed tag.name && contains tag.resources uuid
      then (api.update tag.uuid (tag_body tag.name (without uuid tag.resources)) w).1
      else w

  unfoldable pub untag_all : (String → Bool) → String → List Tag → W → W
  unfolding untag_one
  untag_all managed uuid [] w = w
  untag_all managed uuid (tag ∷ tags) w = untag_all managed uuid tags (untag_one managed uuid tag w)

  -- `UntagServer` behind its check of the client; `managed` is the test of the tag's name.
  unfoldable pub untag_resource : (String → Bool) → String → W → W
  unfolding untag_all
  untag_resource managed uuid w =
      let (listed, w') = api.list w in
      elim listed [ err e ↦ w' | ok tags ↦ untag_all managed uuid tags w' ]

-- `cluster:<name>` and `pool:<name>` are left out where the name is empty.
unfoldable pub named_tag : String → String → List String
named_tag prefix name = if name == "" then [] else (prefix <> name) ∷ []

unfoldable pub server_tags : String → String → List String
unfolding named_tag
server_tags cluster_name pool_name =
    "managed-by:cloudsigma-capcs"
    ∷ (named_tag "cluster:" cluster_name ++ named_tag "pool:" pool_name)

-- `TagServer`; `none` is a client with no SDK.
unfoldable pub tag_server : {W : Type 0} → Option (TagsApi W) → String → String → String → W → W
unfolding ensure_tags server_tags
tag_server none server_uuid cluster_name pool_name w = w
tag_server (some api) server_uuid cluster_name pool_name w =
    ensure_tags api (server_tags cluster_name pool_name) server_uuid w

-- `UntagServer`
unfoldable pub untag_server : {W : Type 0} → Option (TagsApi W) → String → W → W
unfolding untag_resource is_capcs_managed_tag
untag_server none server_uuid w = w
untag_server (some api) server_uuid w = untag_resource api is_capcs_managed_tag server_uuid w
