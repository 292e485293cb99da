-- ===== src/Tags/Frame.antt =====
-- Whatever the tag calls leave alone, tagging and untagging leave alone.
use cluster_api_provider_clo.Prelude.{
  ◌≡◌, refl, ◌∙◌, String, Bool, Option, some, none, List, [], ◌∷◌, arith, Result-cases, inl, inr,
}
use cluster_api_provider_clo.CloudSdk.{Tag, TagsApi}
use cluster_api_provider_clo.Tags.{
  find_tag, set_tag, ensure_tag_with_resource, ensure_tags, untag_one, untag_all, untag_resource,
}

module _ {W V : Type 0} (api : TagsApi W) (view : W → V)
    (list_keeps : (w : W) → view (api.list w).1 ≡ view w)
    (update_keeps : (uuid : String) (body : Tag) (w : W) → view (api.update uuid body w).1 ≡ view w)
    (create_keeps : (bodies : List Tag) (w : W) → view (api.create bodies w).1 ≡ view w) where
  set_tag_keeps :
      (name uuid : String) (found : Option Tag) (w : W)
      → view (set_tag api name uuid found w).1 ≡ view w
  unfolding set_tag
  set_tag_keeps name uuid none w = grind (arith, create_keeps)
  set_tag_keeps name uuid (some tag) w = grind (arith, update_keeps)

  ensure_tag_keeps :
      (name uuid : String) (w : W) → view (ensure_tag_with_resource api name uuid w).1 ≡ view w
  unfolding ensure_tag_with_resource
  ensure_tag_keeps name uuid w = elim (Result-cases (api.list w).0) [
    | inl (tags, e) ↦
        ground (arith, e, list_keeps w, set_tag_keeps name uuid (find_tag name tags) (api.list w).1)
    | inr (failure, e) ↦ ground (arith, e, list_keeps w)
  ]

  pub ensure_tags_keeps :
      (names : List String) (uuid : String) (w : W) → view (ensure_tags api names uuid w) ≡ view w
  unfolding ensure_tags
  ensure_tags_keeps [] uuid w = refl
  ensure_tags_keeps (name ∷ names) uuid w =
      ensure_tags_keeps names uuid _ ∙ ensure_tag_keeps name uuid w

  untag_one_keeps :
      (managed : String → Bool) (uuid : String) (tag : Tag) (w : W)
      → view (untag_one api managed uuid tag w) ≡ view w
  unfolding untag_one
  untag_one_keeps managed uuid tag w = grind (arith, update_keeps)

  untag_all_keeps :
      (managed : String → Bool) (uuid : String) (tags : List Tag) (w : W)
      → view (untag_all api managed uuid tags w) ≡ view w
  unfolding untag_all
  untag_all_keeps managed uuid [] w = refl
  untag_all_keeps managed uuid (tag ∷ tags) w =
      untag_all_keeps managed uuid tags _ ∙ untag_one_keeps managed uuid tag w

  pub untag_resource_keeps :
      (managed : String → Bool) (uuid : String) (w : W)
      → view (untag_resource api managed uuid w) ≡ view w
  unfolding untag_resource
  untag_resource_keeps managed uuid w = elim (Result-cases (api.list w).0) [
    | inl (tags, e) ↦
        ground (arith, e, list_keeps w, untag_all_keeps managed uuid tags (api.list w).1)
    | inr (failure, e) ↦ ground (arith, e, list_keeps w)
  ]
