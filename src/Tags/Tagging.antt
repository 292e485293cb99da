-- ===== src/Tags/Tagging.antt =====
-- `TagServer` puts every wanted tag on the server, once each, and leaves other tags alone.
use cluster_api_provider_clo.Prelude.{
  ◌≡◌, refl, ap, ◌∙◌, map, ◌<>◌, ◌≢◌, String, true, false, Option, some, none, List, [], ◌∷◌, ◌++◌,
  ◌==◌, ==_iff, contains, if◌then◌else◌, ok, arith,
}
use cluster_api_provider_clo.CloudSdk.{Tag, TagsApi}
use cluster_api_provider_clo.Tags.{
  find_tag, tag_body, set_tag, ensure_tag_with_resource, ensure_tags, named_tag, server_tags,
  tag_server,
}
use cluster_api_provider_clo.Tags.Store.{
  put_tag, put_tag-Apart, Apart, DistinctTags, IsLawful, IsReachable,
}

-- The name and the resources of a tag.
abbrev pub content : Tag → String × List String
content tag = (tag.name, tag.resources)

-- The resource is listed once more in the first entry of the name, unless it is there; a name that
-- is missing gets an entry at the end.
unfoldable pub add_member :
    String → String → List (String × List String) → List (String × List String)
add_member name resource [] = (name, resource ∷ []) ∷ []
add_member name resource ((first, resources) ∷ entries) =
    let later = add_member name resource entries in
    if first == name
    then (first, if contains resources resource then resources else resources ++ (resource ∷ []))
      ∷ entries
    else (first, resources) ∷ later

unfoldable pub add_members :
    List String → String → List (String × List String) → List (String × List String)
add_members [] resource entries = entries
add_members (name ∷ names) resource entries =
    add_members names resource (add_member name resource entries)

map-snoc :
    (tags : List Tag) (tag : Tag)
    → map content (tags ++ (tag ∷ [])) ≡ map content tags ++ (content tag ∷ [])
map-snoc [] tag = refl
map-snoc (t ∷ tags) tag = ap (λ xs. content t ∷ xs) (map-snoc tags tag)

add_member_missing :
    (name resource : String) (tags : List Tag)
    → find_tag name tags ≡ none
    → add_member name resource (map content tags) ≡ map content tags ++ ((name, resource ∷ []) ∷ [])
unfolding find_tag add_member
add_member_missing name resource [] h = refl
add_member_missing name resource (t ∷ tags) h =
    ground (arith, add_member_missing name resource tags)

add_member_listed :
    (name resource : String) (tags : List Tag) (tag : Tag)
    → find_tag name tags ≡ some tag
    → contains tag.resources resource ≡ true
    → add_member name resource (map content tags) ≡ map content tags
unfolding find_tag add_member
add_member_listed name resource [] tag h listed = cc
add_member_listed name resource (t ∷ tags) tag h listed =
    ground (arith, add_member_listed name resource tags tag)

find-Apart :
    (name uuid : String) (tags : List Tag) (tag : Tag)
    → Apart uuid tags
    → find_tag name tags ≡ some tag
    → tag.uuid ≢ uuid
unfolding find_tag
find-Apart name uuid [] tag h e = cc
find-Apart name uuid (t ∷ tags) tag h e = ground (arith, h.0, find-Apart name uuid tags tag h.1)

-- A PUT of the found tag with one resource more.
add_member-put_tag :
    (name resource : String) (tags : List Tag) (tag : Tag)
    → DistinctTags tags
    → find_tag name tags ≡ some tag
    → contains tag.resources resource ≡ false
    → map content (put_tag tag.uuid (tag_body tag.name (tag.resources ++ (resource ∷ []))) tags)
      ≡ add_member name resource (map content tags)
unfolding find_tag put_tag add_member
add_member-put_tag name resource [] tag d h missing = cc
add_member-put_tag name resource (t ∷ tags) tag d h missing =
    let body = tag_body tag.name (tag.resources ++ (resource ∷ [])) in
    ground (
      arith,
      ==_iff t.uuid tag.uuid,
      ==_iff t.uuid t.uuid,
      find-Apart name t.uuid tags tag d.0,
      put_tag-Apart t.uuid body tags d.0,
      add_member-put_tag name resource tags tag d.1,
    )

module _ {W : Type 0} (api : TagsApi W) (tags : W → List Tag) (lawful : IsLawful api tags)
    (name resource : String) where
  set_tag-add_member :
      (found : Option Tag) (w : W)
      → find_tag name (tags w) ≡ found
      → (set_tag api name resource found w).0 ≡ ok tt
      → map content (tags (set_tag api name resource found w).1)
        ≡ add_member name resource (map content (tags w))
  unfolding set_tag
  set_tag-add_member none w h done =
      let body = tag_body name (resource ∷ []) in
      let posted : Tag = record body { uuid = lawful.new_uuid body w } in
      ground (
        arith,
        lawful.create_posts body w,
        map-snoc (tags w) posted,
        add_member_missing name resource (tags w),
      )
  set_tag-add_member (some tag) w h done = ground (
    arith,
    lawful.update_puts tag.uuid (tag_body tag.name (tag.resources ++ (resource ∷ []))) w,
    add_member-put_tag name resource (tags w) tag (lawful.distinct w),
    add_member_listed name resource (tags w) tag,
  )

  -- Over a tags API that keeps the laws of Tags/Store: when `ensureTagWithResource` succeeds, the
  -- names and the resources of all tags are those from before, with the resource added at the end of
  -- the first tag of the name, unless that lists it already; if no tag has the name, a new tag stands
  -- last, which lists the resource only.
  pub ensure_tag_with_resource-add_member :
      (w : W)
      → (ensure_tag_with_resource api name resource w).0 ≡ ok tt
      → map content (tags (ensure_tag_with_resource api name resource w).1)
        ≡ add_member name resource (map content (tags w))
  unfolding ensure_tag_with_resource
  ensure_tag_with_resource-add_member w done = ground (
    arith,
    lawful.list_keeps w,
    lawful.list_reads w,
    set_tag-add_member (find_tag name (tags w)) (api.list w).1,
  )

module _ {W : Type 0} (api : TagsApi W) (tags : W → List Tag) (lawful : IsLawful api tags)
    (reachable : IsReachable api tags) (resource : String) where
  set_tag_succeeds :
      (name : String) (found : Option Tag) (w : W) → (set_tag api name resource found w).0 ≡ ok tt
  unfolding set_tag
  set_tag_succeeds name none w =
      ground (arith, reachable.create_succeeds (tag_body name (resource ∷ [])) w)
  set_tag_succeeds name (some tag) w = ground (
    arith,
    reachable.update_succeeds tag.uuid (tag_body tag.name (tag.resources ++ (resource ∷ []))) w,
  )

  ensure_tag_succeeds :
      (name : String) (w : W) → (ensure_tag_with_resource api name resource w).0 ≡ ok tt
  unfolding ensure_tag_with_resource
  ensure_tag_succeeds name w = ground (
    arith,
    reachable.list_succeeds w,
    set_tag_succeeds name (find_tag name (tags w)) (api.list w).1,
  )

  ensure_tags-add_members :
      (names : List String) (w : W)
      → map content (tags (ensure_tags api names resource w))
        ≡ add_members names resource (map content (tags w))
  unfolding ensure_tags add_members
  ensure_tags-add_members [] w = refl
  ensure_tags-add_members (name ∷ names) w =
      let w' = (ensure_tag_with_resource api name resource w).1 in
      ensure_tags-add_members names w'
      ∙ ap (add_members names resource) (
          ensure_tag_with_resource-add_member api tags lawful name resource w
            (ensure_tag_succeeds name w))

-- Over a tags API that keeps the laws of Tags/Store and of which no call fails, `TagServer` adds the
-- server to the managed-by tag and to those of the cluster and the pool, where their names are not
-- empty, once each: all names and resources are those from before, with the server at the end of the
-- first tag of each of these names, unless it is listed there already; a name without a tag gets one,
-- which lists the server only.
pub tag_server-add_members :
    {W : Type 0} (api : TagsApi W) (tags : W → List Tag)
    → IsLawful api tags
    → IsReachable api tags
    → (server_uuid cluster_name pool_name : String) (w : W)
    → map content (tags (tag_server (some api) server_uuid cluster_name pool_name w))
      ≡ add_members
          ("managed-by:cloudsigma-capcs"
            ∷ ((if cluster_name == "" then [] else ("cluster:" <> cluster_name) ∷ [])
                ++ (if pool_name == "" then [] else ("pool:" <> pool_name) ∷ [])))
          server_uuid
          (map content (tags w))
unfolding tag_server server_tags named_tag
tag_server-add_members api tags lawful reachable server_uuid cluster_name pool_name w =
    ensure_tags-add_members api tags lawful reachable server_uuid
      (server_tags cluster_name pool_name) w
