-- ===== src/Tags/Untagging.antt =====
-- `UntagServer` leaves no managed tag on the resource, and changes nothing else.
use cluster_api_provider_clo.Prelude.{
  ◌≡◌, refl, sym, ap, subst, ◌∙◌, String, Bool, false, some, List, [], ◌∷◌, ◌++◌, map, ==_iff,
  contains, if◌then◌else◌, arith, inl, inr, ◌⊎◌,
}
use mathlib.Core.List.{append_assoc, map-append}
use cluster_api_provider_clo.CloudSdk.{Tag, TagsApi}
use cluster_api_provider_clo.Tags.{
  without, tag_body, untag_one, untag_all, untag_resource, untag_server, is_capcs_managed_tag,
}
use cluster_api_provider_clo.Tags.Store.{put_tag, put_tag-Apart, Apart, DistinctTags, IsLawful}

-- The tag without the resource, if its name is managed.
abbrev pub stripped : (String → Bool) → String → Tag → Tag
stripped managed uuid tag =
    if managed tag.name then record tag { resources = without uuid tag.resources } else tag

pub contains-without : (uuid : String) (rs : List String) → contains (without uuid rs) uuid ≡ false
unfolding without contains
contains-without uuid [] = refl
contains-without uuid (r ∷ rs) = ground (arith, contains-without uuid rs)

put_tag-append :
    (uuid : String) (body : Tag) (done tags : List Tag)
    → put_tag uuid body (done ++ tags) ≡ put_tag uuid body done ++ put_tag uuid body tags
unfolding put_tag
put_tag-append uuid body [] tags = refl
put_tag-append uuid body (tag ∷ done) tags = ground (arith, put_tag-append uuid body done tags)

Apart-append : (uuid : String) (done tags : List Tag) → Apart uuid (done ++ tags) → Apart uuid tags
Apart-append uuid [] tags h = h
Apart-append uuid (d ∷ done) tags h = Apart-append uuid done tags h.1

-- The tag in the middle of a list is apart from those on both sides.
split-Apart :
    (done : List Tag) (tag : Tag) (tags : List Tag)
    → DistinctTags (done ++ (tag ∷ tags))
    → Apart tag.uuid done × Apart tag.uuid tags
split-Apart [] tag tags h = (tt, h.0)
split-Apart (d ∷ done) tag tags h =
    let rest = split-Apart done tag tags h.1 in
    (((λ e. (Apart-append d.uuid done (tag ∷ tags) h.0).0 (sym e)), rest.0), rest.1)

put_tag_middle :
    (body : Tag) (done : List Tag) (tag : Tag) (tags : List Tag)
    → DistinctTags (done ++ (tag ∷ tags))
    → put_tag tag.uuid body (done ++ (tag ∷ tags))
      ≡ done ++ (record body { uuid = tag.uuid } ∷ tags)
unfolding put_tag
put_tag_middle body done tag tags h =
    let apart = split-Apart done tag tags h in
    ground (
      arith,
      ==_iff tag.uuid tag.uuid,
      put_tag-append tag.uuid body done (tag ∷ tags),
      put_tag-Apart tag.uuid body done apart.0,
      put_tag-Apart tag.uuid body tags apart.1,
    )

-- What a tag is to those who do not manage it: the resources of a managed tag are left out.
abbrev pub unmanaged_view : (String → Bool) → Tag → Tag
unmanaged_view managed tag = if managed tag.name then record tag { resources = [] } else tag

module _ {W : Type 0} (api : TagsApi W) (tags : W → List Tag) (lawful : IsLawful api tags)
    (managed : String → Bool) (uuid : String) where
  untag_one_cases :
      (done : List Tag) (tag : Tag) (rest : List Tag) (w : W)
      → tags w ≡ done ++ (tag ∷ rest)
      → (tags (untag_one api managed uuid tag w) ≡ done ++ (tag ∷ rest))
        ⊎ (tags (untag_one api managed uuid tag w) ≡ done ++ (stripped managed uuid tag ∷ rest))
  unfolding untag_one
  untag_one_cases done tag rest w h = ground (
    arith,
    lawful.update_puts tag.uuid (tag_body tag.name (without uuid tag.resources)) w,
    put_tag_middle (tag_body tag.name (without uuid tag.resources)) done tag rest
        (subst DistinctTags h (lawful.distinct w)),
  )

  untag_all-unmanaged_view :
      (done rest : List Tag) (w : W)
      → tags w ≡ done ++ rest
      → map (unmanaged_view managed) (tags (untag_all api managed uuid rest w))
        ≡ map (unmanaged_view managed) (done ++ rest)
  unfolding untag_all
  untag_all-unmanaged_view done [] w h = ap (map (unmanaged_view managed)) h
  untag_all-unmanaged_view done (tag ∷ rest) w h = elim (untag_one_cases done tag rest w h) [
    | inl e ↦
        untag_all-unmanaged_view (done ++ (tag ∷ [])) rest _ (e ∙ sym (append_assoc done _ rest))
        ∙ ap (map (unmanaged_view managed)) (append_assoc done _ rest)
    | inr e ↦
        untag_all-unmanaged_view (done ++ (stripped managed uuid tag ∷ [])) rest _
          (e ∙ sym (append_assoc done _ rest))
        ∙ ap (map (unmanaged_view managed)) (append_assoc done _ rest)
        ∙ map-append _ done _
        ∙ ap (λ v. map (unmanaged_view managed) done ++ (v ∷ map (unmanaged_view managed) rest))
            same_view
        ∙ sym (map-append _ done _)
  ]
    where
      same_view : unmanaged_view managed (stripped managed uuid tag) ≡ unmanaged_view managed tag
      same_view = ground arith

-- Over a tags API that keeps the laws of Tags/Store.antt, and whatever calls fail on the way,
-- `UntagServer` adds and removes no tag, renames none, and leaves the resources of every tag alone
-- whose name is not one of its own.
pub untag_server-unmanaged_view :
    {W : Type 0} (api : TagsApi W) (tags : W → List Tag)
    → IsLawful api tags
    → (uuid : String) (w : W)
    → map (unmanaged_view is_capcs_managed_tag) (tags (untag_server (some api) uuid w))
      ≡ map (unmanaged_view is_capcs_managed_tag) (tags w)
unfolding untag_server untag_resource
untag_server-unmanaged_view api tags lawful uuid w = ground (
  arith,
  lawful.list_keeps w,
  lawful.list_reads w,
  untag_all-unmanaged_view api tags lawful is_capcs_managed_tag uuid [] (tags w) (api.list w).1
      (lawful.list_keeps w),
)
