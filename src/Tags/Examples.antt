-- ===== src/Tags/Examples.antt =====
-- Runs over the tag service in memory, and the theorems at concrete data.
use cluster_api_provider_clo.Prelude.{
  ◌≡◌, refl, String, some, ok, List, [], ◌∷◌, map, ◌==◌, contains,
}
use cluster_api_provider_clo.Tags.{
  ensure_tag_with_resource, tag_server, untag_server, is_capcs_managed_tag,
}
use cluster_api_provider_clo.Tags.Memory.{
  Entry, tags_from, put_entry, post_entry, memory, memory-IsLawful, memory-IsReachable,
}
use cluster_api_provider_clo.Tags.Tagging.{
  content, add_member, add_members, tag_server-add_members, ensure_tag_with_resource-add_member,
}
use cluster_api_provider_clo.Tags.Untagging.{unmanaged_view, untag_server-unmanaged_view}

abbrev entry : String → List String → Entry
entry name resources = record { name = name; resources = resources }

abbrev some_entries : List Entry
some_entries = entry "cluster:a" ("s1" ∷ "s2" ∷ []) ∷ entry "team:b" ("s1" ∷ []) ∷ []

tagged_entries : List Entry
unfolding tag_server ◌==◌ put_entry post_entry
tagged_entries = tag_server (some memory) "s3" "a" "" some_entries

tagged_run :
    tagged_entries
    ≡ entry "cluster:a" ("s1" ∷ "s2" ∷ "s3" ∷ [])
      ∷ entry "team:b" ("s1" ∷ [])
      ∷ entry "managed-by:cloudsigma-capcs" ("s3" ∷ [])
      ∷ []
unfolding tagged_entries
tagged_run = refl

untagged_run :
    untag_server (some memory) "s1" some_entries
    ≡ entry "cluster:a" ("s2" ∷ []) ∷ entry "team:b" ("s1" ∷ []) ∷ []
unfolding untag_server ◌==◌ put_entry
untagged_run = refl

untag_server-unmanaged_view_example :
    map
      (unmanaged_view is_capcs_managed_tag)
      (tags_from 0 (untag_server (some memory) "s1" some_entries))
    ≡ map (unmanaged_view is_capcs_managed_tag) (tags_from 0 some_entries)
untag_server-unmanaged_view_example =
    untag_server-unmanaged_view memory (tags_from 0) memory-IsLawful "s1" some_entries

abbrev before : List (String × List String)
before = map content (tags_from 0 some_entries)

ensured : (ensure_tag_with_resource memory "team:b" "s9" some_entries).0 ≡ ok tt
unfolding ensure_tag_with_resource ◌==◌ put_entry post_entry contains
ensured = refl

ensure_tag_with_resource-add_member_example :
    map content (tags_from 0 (ensure_tag_with_resource memory "team:b" "s9" some_entries).1)
    ≡ add_member "team:b" "s9" before
ensure_tag_with_resource-add_member_example =
    ensure_tag_with_resource-add_member memory (tags_from 0) memory-IsLawful "team:b" "s9"
      some_entries ensured

tag_server-add_members_example :
    map content (tags_from 0 (tag_server (some memory) "s3" "a" "" some_entries))
    ≡ add_members ("managed-by:cloudsigma-capcs" ∷ "cluster:a" ∷ []) "s3" before
unfolding ◌==◌
tag_server-add_members_example =
    tag_server-add_members memory (tags_from 0) memory-IsLawful memory-IsReachable "s3" "a" ""
      some_entries
