-- ===== src/Tags/Memory.antt =====
-- A tag service in memory, which meets the laws: the UUID of a tag is its position, in unary.
use cluster_api_provider_clo.Prelude.{
  ℕ, zero, suc, ◌+◌, ◌<◌, ◌≡◌, refl, ap, String, List, [], ◌∷◌, ◌++◌, length, ◌==◌, ==_iff,
  if◌then◌else◌, ok, arith,
}
use cluster_api_provider_clo.CloudSdk.{Tag, TagsApi}
use cluster_api_provider_clo.Tags.Store.{put_tag, Apart, DistinctTags, IsLawful, IsReachable}

pub record Entry : Type 0 where
  pub name : String
  pub resources : List String

abbrev pub mark : ℕ → String
mark zero = String.[]
mark (suc n) = String.◌∷◌ "x" (mark n)

unary : String → ℕ
unary String.[] = 0
unary (String.◌∷◌ c s) = suc (unary s)

unary-mark : (n : ℕ) → unary (mark n) ≡ n
unfolding unary
unary-mark zero = refl
unary-mark (suc n) = ap suc (unary-mark n)

abbrev pub tags_from : ℕ → List Entry → List Tag
tags_from i [] = []
tags_from i (e ∷ es) =
    record { uuid = mark i; name = e.name; resources = e.resources } ∷ tags_from (suc i) es

unfoldable pub put_entry : ℕ → String → Tag → List Entry → List Entry
put_entry i uuid body [] = []
put_entry i uuid body (e ∷ es) =
    (if mark i == uuid then record { name = body.name; resources = body.resources } else e)
    ∷ put_entry (suc i) uuid body es

unfoldable pub post_entry : List Tag → List Entry → List Entry
post_entry [] es = es
post_entry (body ∷ bodies) es =
    post_entry bodies (es ++ (record { name = body.name; resources = body.resources } ∷ []))

abbrev pub memory : TagsApi (List Entry)
memory = record {
  list = λ es. (ok (tags_from 0 es), es);
  update = λ uuid body es. (ok body, put_entry 0 uuid body es);
  create = λ bodies es. (ok bodies, post_entry bodies es);
}

Apart-tags_from : (i j : ℕ) (es : List Entry) → i < j → Apart (mark i) (tags_from j es)
Apart-tags_from i j [] h = tt
Apart-tags_from i j (e ∷ es) h = (
  λ same. omega (arith, ap unary same, unary-mark i, unary-mark j),
  Apart-tags_from i (suc j) es (omega arith),
)

DistinctTags-tags_from : (i : ℕ) (es : List Entry) → DistinctTags (tags_from i es)
DistinctTags-tags_from i [] = tt
DistinctTags-tags_from i (e ∷ es) =
    (Apart-tags_from i (suc i) es (omega arith), DistinctTags-tags_from (suc i) es)

tags_from-put_entry :
    (i : ℕ) (uuid : String) (body : Tag) (es : List Entry)
    → tags_from i (put_entry i uuid body es) ≡ put_tag uuid body (tags_from i es)
unfolding put_entry put_tag
tags_from-put_entry i uuid body [] = refl
tags_from-put_entry i uuid body (e ∷ es) =
    ground (arith, ==_iff (mark i) uuid, tags_from-put_entry (suc i) uuid body es)

shift : (i n : ℕ) → suc i + n ≡ i + suc n
shift i n = omega arith

tags_from-append :
    (i : ℕ) (es : List Entry) (e : Entry)
    → tags_from i (es ++ (e ∷ []))
      ≡ tags_from i es
        ++ (record { uuid = mark (i + length es); name = e.name; resources = e.resources } ∷ [])
tags_from-append i [] e =
    ap (λ n. record { uuid = mark n; name = e.name; resources = e.resources } ∷ []) (omega arith)
tags_from-append i (d ∷ es) e = ground (arith, tags_from-append (suc i) es e, shift i (length es))

pub memory-IsLawful : IsLawful memory (tags_from 0)
unfolding post_entry
memory-IsLawful = record {
  distinct = DistinctTags-tags_from 0;
  list_keeps = λ es. refl;
  list_reads = λ es. refl;
  update_puts = tags_from-put_entry 0;
  new_uuid = λ body es. mark (0 + length es);
  create_posts =
      λ body es. tags_from-append 0 es (record { name = body.name; resources = body.resources });
}

pub memory-IsReachable : IsReachable memory (tags_from 0)
memory-IsReachable = record {
  list_succeeds = λ es. refl;
  update_succeeds = λ uuid body es. (body, refl);
  create_succeeds = λ body es. (body ∷ [], refl);
}
