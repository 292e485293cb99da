-- ===== src/Auth/Isolation.antt =====
-- No user gets the token of another: what is in the cache was issued for the user of its key.
use cluster_api_provider_clo.Prelude.{
  ℕ, ◌≡◌, sym, ap, subst, ◌∙◌, String, true, ◌&&◌, none, some, ◌==◌, ==_iff, if◌then◌else◌, Result,
  ok, arith, Result-cases, Bool-cases, inl, inr, ◌⊎◌, lacks, split_once, split_once-append,
}
use cluster_api_provider_clo.Prelude.Dict.{lookup, insert, lookup-insert, lookup-delete}
use cluster_api_provider_clo.Auth.Cache.{
  get_impersonated_token_cases, Keeps, fetch_impersonated_token-Keeps,
}
use cluster_api_provider_clo.Auth.Types.{ImpersonationClient, CachedToken, OauthApi}
use cluster_api_provider_clo.Auth.{
  cache_key, clear_user_token, get_service_account_token, get_rpt_token, impersonate_user,
  fetch_impersonated_token, fetch_and_store, get_impersonated_token,
}

-- A key tells its user and its region, when no address has a colon.
cache_key_injective :
    (user other region elsewhere : String)
    → lacks ":" user ≡ true
    → lacks ":" other ≡ true
    → cache_key user region ≡ cache_key other elsewhere
    → (user ≡ other) × (region ≡ elsewhere)
cache_key_injective user other region elsewhere h h' e = ground (
  arith,
  sym (split_once-append ":" user region h)
      ∙ ap (split_once ":") e
      ∙ split_once-append ":" other elsewhere h',
)

module _ {W : Type 0} (api : OauthApi W) where
  -- The impersonation API gave this token for this user in this region.
  pub record IsIssued (token user_email region : String) : Type 0 where
    pub rpt_token : String
    pub subject_token : String
    pub expires_at : ℕ
    pub when : W
    pub issued :
        (impersonate_user api rpt_token subject_token user_email region when).0
        ≡ ok (token, expires_at)

  -- What is in the cache was issued for the user and the region of its key.
  pub record IsOwned (c : ImpersonationClient) : Type 0 where
    pub of_key :
        (key : String) (cached : CachedToken)
        → lookup key c.token_cache ≡ some cached
        → key ≡ cache_key cached.user_email cached.region
    pub without_colon :
        (key : String) (cached : CachedToken)
        → lookup key c.token_cache ≡ some cached
        → lacks ":" cached.user_email ≡ true
    pub is_issued :
        (key : String) (cached : CachedToken)
        → lookup key c.token_cache ≡ some cached
        → IsIssued cached.token cached.user_email cached.region

  fetch_impersonated_token-IsIssued :
      (user_email region token : String) (expires_at : ℕ) (s : ImpersonationClient × W)
      → (fetch_impersonated_token api user_email region s).0 ≡ ok (token, expires_at)
      → IsIssued token user_email region
  unfolding fetch_impersonated_token
  fetch_impersonated_token-IsIssued user_email region token expires_at s h =
      elim (Result-cases (get_service_account_token api s).0) [
        | inr (e, failed) ↦ ground (arith, failed, h)
        | inl (sa_token, given) ↦
            elim (Result-cases (get_rpt_token api sa_token (get_service_account_token api s).1).0) [
              | inr (e, failed) ↦ ground (arith, given, failed, h)
              | inl (rpt_token, given') ↦ record {
                rpt_token = rpt_token;
                subject_token = sa_token;
                expires_at = expires_at;
                when = (get_rpt_token api sa_token (get_service_account_token api s).1).1.1;
                issued = ground (arith, given, given', h);
              }
            ]
      ]

  fetch_and_store-IsIssued :
      (user_email region token : String) (s : ImpersonationClient × W)
      → (fetch_and_store api user_email region s).0 ≡ ok token
      → IsIssued token user_email region
  unfolding fetch_and_store
  fetch_and_store-IsIssued user_email region token s h =
      elim (Result-cases (fetch_impersonated_token api user_email region s).0) [
        | inr (e, failed) ↦ ground (arith, failed, h)
        | inl ((t, expires_at), fetched) ↦
            fetch_impersonated_token-IsIssued user_email region token expires_at s
              (fetched ∙ ground (arith, fetched, h))
      ]

  IsOwned-of_Keeps : {c d : ImpersonationClient} → Keeps c d → IsOwned c → IsOwned d
  IsOwned-of_Keeps k v = record {
    of_key = λ key cached h. v.of_key key cached (ap (lookup key) (sym k.same_cache) ∙ h);
    without_colon =
        λ key cached h. v.without_colon key cached (ap (lookup key) (sym k.same_cache) ∙ h);
    is_issued = λ key cached h. v.is_issued key cached (ap (lookup key) (sym k.same_cache) ∙ h);
  }

  -- `c.tokenCache[cacheKey] = &CachedToken{…}`
  abbrev store : String → String → String → ℕ → ImpersonationClient → ImpersonationClient
  store user_email region token expires_at c = record c {
    token_cache =
        insert (cache_key user_email region)
          (record {
            token = token;
            expires_at = expires_at;
            user_email = user_email;
            region = region;
          })
          c.token_cache;
  }

  store_cases :
      (user_email region token : String) (expires_at : ℕ) (c : ImpersonationClient) (key : String)
      (cached : CachedToken)
      → lookup key (store user_email region token expires_at c).token_cache ≡ some cached
      → ((cache_key user_email region ≡ key)
          × (record {
            token = token;
            expires_at = expires_at;
            user_email = user_email;
            region = region;
          }
              ≡ cached))
        ⊎ (lookup key c.token_cache ≡ some cached)
  store_cases user_email region token expires_at c key cached h =
      elim (Bool-cases (cache_key user_email region == key)) [
        | inl same ↦ inl (
          (==_iff (cache_key user_email region) key).0 same,
          ground (
            arith,
            lookup-insert (cache_key user_email region) key
                (record {
                  token = token;
                  expires_at = expires_at;
                  user_email = user_email;
                  region = region;
                })
                c.token_cache,
            same,
            h,
          ),
        )
        | inr other ↦ inr (
            ground (
              arith,
              lookup-insert (cache_key user_email region) key
                  (record {
                    token = token;
                    expires_at = expires_at;
                    user_email = user_email;
                    region = region;
                  })
                  c.token_cache,
              other,
              h,
            ))
      ]

  store-IsOwned :
      (user_email region token : String) (expires_at : ℕ) (c : ImpersonationClient)
      → lacks ":" user_email ≡ true
      → IsIssued token user_email region
      → IsOwned c
      → IsOwned (store user_email region token expires_at c)
  store-IsOwned user_email region token expires_at c plain issued v = record {
    of_key = λ key cached h. elim (store_cases user_email region token expires_at c key cached h) [
      | inl (e, e') ↦ ground (arith, e, e')
      | inr kept ↦ v.of_key key cached kept
    ];
    without_colon = λ key cached h.
        elim (store_cases user_email region token expires_at c key cached h) [
          | inl (e, e') ↦ ground (arith, e, e', plain)
          | inr kept ↦ v.without_colon key cached kept
        ];
    is_issued = λ key cached h.
        elim (store_cases user_email region token expires_at c key cached h) [
          | inl (e, e') ↦
              subst (λ (t : CachedToken). IsIssued t.token t.user_email t.region) e' issued
          | inr kept ↦ v.is_issued key cached kept
        ];
  }

  fetch_and_store-IsOwned :
      (user_email region : String) (s : ImpersonationClient × W)
      → lacks ":" user_email ≡ true
      → IsOwned s.0
      → IsOwned (fetch_and_store api user_email region s).1.0
  unfolding fetch_and_store
  fetch_and_store-IsOwned user_email region s plain v =
      elim (Result-cases (fetch_impersonated_token api user_email region s).0) [
        | inr (e, failed) ↦
            subst IsOwned (ground (arith, failed))
              (IsOwned-of_Keeps (fetch_impersonated_token-Keeps api user_email region s) v)
        | inl ((t, expires_at), fetched) ↦ subst IsOwned (ground (arith, fetched)) (
            store-IsOwned user_email region t expires_at
              (fetch_impersonated_token api user_email region s).1.0 plain
              (fetch_impersonated_token-IsIssued user_email region t expires_at s fetched)
              (IsOwned-of_Keeps (fetch_impersonated_token-Keeps api user_email region s) v))
      ]

  -- The token for a user and a region was issued by the impersonation API for that user in that
  -- region, whether it comes from the cache or not, for an address without a colon and a cache
  -- whose tokens were issued for the users of their keys, with addresses without a colon.
  pub get_impersonated_token-IsIssued :
      (user_email region token : String) (s : ImpersonationClient × W)
      → lacks ":" user_email ≡ true
      → IsOwned s.0
      → (get_impersonated_token api user_email region s).0 ≡ ok token
      → IsIssued token user_email region
  get_impersonated_token-IsIssued user_email region token s plain v h =
      elim (get_impersonated_token_cases api user_email region token s h) [
        | inl fetched ↦
            fetch_and_store-IsIssued user_email region token s
              (ap (λ (r : Result String String × (ImpersonationClient × W)). r.0) (sym fetched) ∙ h)
        | inr (cached, (found, hit)) ↦
            let same =
              cache_key_injective user_email cached.user_email region cached.region plain
                (v.without_colon _ cached found) (v.of_key _ cached found) in
            subst (λ (t : String × (String × String)). IsIssued t.0 t.1.0 t.1.1)
              (ground (arith, same, hit, h)) (v.is_issued _ cached found)
      ]

  get_impersonated_token_client :
      (user_email region : String) (s : ImpersonationClient × W)
      → ((get_impersonated_token api user_email region s).1.0 ≡ s.0)
        ⊎ ((get_impersonated_token api user_email region s).1.0
            ≡ (fetch_and_store api user_email region s).1.0)
  unfolding get_impersonated_token
  get_impersonated_token_client user_email region s = ground arith

  -- Getting a token for an address without a colon, with success or not, keeps the cache such that
  -- every token in it was issued for the user and the region of its key.
  pub get_impersonated_token-IsOwned :
      (user_email region : String) (s : ImpersonationClient × W)
      → lacks ":" user_email ≡ true
      → IsOwned s.0
      → IsOwned (get_impersonated_token api user_email region s).1.0
  get_impersonated_token-IsOwned user_email region s plain v =
      elim (get_impersonated_token_client user_email region s) [
        | inl same ↦ subst IsOwned (sym same) v
        | inr stored ↦
            subst IsOwned (sym stored) (fetch_and_store-IsOwned user_email region s plain v)
      ]

  -- Clearing the token of a user keeps that too.
  clear_user_token-IsOwned :
      (user_email region : String) (c : ImpersonationClient)
      → IsOwned c
      → IsOwned (clear_user_token user_email region c)
  unfolding clear_user_token
  clear_user_token-IsOwned user_email region c v = record {
    of_key = λ key cached h.
        v.of_key key cached
          (ground (arith, h, lookup-delete (cache_key user_email region) key c.token_cache));
    without_colon = λ key cached h.
        v.without_colon key cached
          (ground (arith, h, lookup-delete (cache_key user_email region) key c.token_cache));
    is_issued = λ key cached h.
        v.is_issued key cached
          (ground (arith, h, lookup-delete (cache_key user_email region) key c.token_cache));
  }

-- Clearing the token of a user takes that user's token for the region off the cache, and no token
-- of another user or region, for addresses without a colon.
pub clear_user_token_others :
    (user other region elsewhere : String) (c : ImpersonationClient)
    → lacks ":" user ≡ true
    → lacks ":" other ≡ true
    → lookup (cache_key other elsewhere) (clear_user_token user region c).token_cache ≡ (
        if user == other && region == elsewhere
        then none
        else lookup (cache_key other elsewhere) c.token_cache)
unfolding clear_user_token
clear_user_token_others user other region elsewhere c h h' = ground (
  arith,
  lookup-delete (cache_key user region) (cache_key other elsewhere) c.token_cache,
  cache_key_injective user other region elsewhere h h',
  ==_iff user other,
  ==_iff region elsewhere,
  ==_iff (cache_key user region) (cache_key other elsewhere),
)
