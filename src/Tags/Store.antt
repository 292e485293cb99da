-- ===== src/Tags/Store.antt =====
-- What the tag calls of the service are relied on for, as laws over the tags that it holds.
use cluster_api_provider_clo.Prelude.{
  ◌≡◌, ◌≢◌, String, List, [], ◌∷◌, ◌++◌, ◌==◌, ==_iff, All, refl, arith, ◌++◌, if◌then◌else◌,
  Result, ok, err,
}
use cluster_api_provider_clo.CloudSdk.{ApiError, Tag, TagsApi}

-- A PUT gives the tag of that UUID the name and the resources of the body.
unfoldable pub put_tag : String → Tag → List Tag → List Tag
put_tag uuid body [] = []
put_tag uuid body (tag ∷ tags) =
    (if tag.uuid == uuid then record body { uuid = uuid } else tag) ∷ put_tag uuid body tags

abbrev pub Apart : String → List Tag → Type 0
Apart uuid = All (λ tag. tag.uuid ≢ uuid)

pub put_tag-Apart :
    (uuid : String) (body : Tag) (tags : List Tag) → Apart uuid tags → put_tag uuid body tags ≡ tags
unfolding put_tag
put_tag-Apart uuid body [] h = refl
put_tag-Apart uuid body (tag ∷ tags) h =
    ground (arith, ==_iff tag.uuid uuid, h.0, put_tag-Apart uuid body tags h.1)

-- No two tags share a UUID.
abbrev pub DistinctTags : List Tag → Type 0
DistinctTags [] = Unit
DistinctTags (tag ∷ tags) = Apart tag.uuid tags × DistinctTags tags

-- The tags after a PUT: changed if the call succeeded, as they were if it failed.
abbrev pub after_put : String → Tag → List Tag → Result ApiError Tag → List Tag
after_put uuid body tags (ok _) = put_tag uuid body tags
after_put uuid body tags (err _) = tags

-- A listing that succeeds shows the tags.
abbrev pub Reads : List Tag → Result ApiError (List Tag) → Type 0
Reads tags (ok found) = found ≡ tags
Reads tags (err _) = Unit

-- The tags after a POST: the new one stands last, under a UUID that the service gives.
abbrev pub after_post : String → Tag → List Tag → Result ApiError (List Tag) → List Tag
after_post uuid body tags (ok _) = tags ++ (record body { uuid = uuid } ∷ [])
after_post uuid body tags (err _) = tags

pub record IsLawful {W : Type 0} (api : TagsApi W) (tags : W → List Tag) : Type 0 where
  pub distinct : (w : W) → DistinctTags (tags w)
  pub list_keeps : (w : W) → tags (api.list w).1 ≡ tags w
  pub list_reads : (w : W) → Reads (tags w) (api.list w).0
  pub update_puts :
      (uuid : String) (body : Tag) (w : W)
      → tags (api.update uuid body w).1 ≡ after_put uuid body (tags w) (api.update uuid body w).0
  pub new_uuid : Tag → W → String
  pub create_posts :
      (body : Tag) (w : W)
      → tags (api.create (body ∷ []) w).1
        ≡ after_post (new_uuid body w) body (tags w) (api.create (body ∷ []) w).0

-- The calls that do not fail: a hypothesis of what is said about complete runs only.
pub record IsReachable {W : Type 0} (api : TagsApi W) (tags : W → List Tag) : Type 0 where
  pub list_succeeds : (w : W) → (api.list w).0 ≡ ok (tags w)
  pub update_succeeds :
      (uuid : String) (body : Tag) (w : W)
      → (answer : Tag) × ((api.update uuid body w).0 ≡ ok answer)
  pub create_succeeds :
      (body : Tag) (w : W) → (answer : List Tag) × ((api.create (body ∷ []) w).0 ≡ ok answer)
