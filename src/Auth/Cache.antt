-- ===== src/Auth/Cache.antt =====
-- When the cache of the impersonation client answers, and what it holds after a call.
use cluster_api_provider_clo.Prelude.{
  ℕ, ◌≡◌, refl, sym, ap, subst, ◌∙◌, ◌≢◌, String, false, some, ==_iff, Result, ok, err, arith,
  Result-cases, Bool-cases, if-elim, Option-cases, inl, inr, ◌⊎◌,
}
use cluster_api_provider_clo.Prelude.Dict.{lookup, lookup-insert}
use cluster_api_provider_clo.Auth.Types.{TokenResponse, ImpersonationClient, CachedToken, OauthApi}
use cluster_api_provider_clo.Auth.{
  keep_sa, keep_rpt, ask_sa, ask_rpt, is_fresh, is_expired, cache_key, get_service_account_token,
  get_rpt_token, fetch_impersonated_token, fetch_and_store, get_impersonated_token,
}

-- The cache of users and the configuration are the same.
pub record Keeps (c d : ImpersonationClient) : Type 0 where
  pub same_cache : d.token_cache ≡ c.token_cache
  pub same_config : d.config ≡ c.config

module _ {W : Type 0} (api : OauthApi W) where
  keep_sa-Keeps :
      (c : ImpersonationClient) (r : Result String TokenResponse × W)
      → Keeps c (keep_sa api c r).1.0
  keep_sa-Keeps c (ok response, w) = record { same_cache = refl; same_config = refl }
  keep_sa-Keeps c (err e, w) = record { same_cache = refl; same_config = refl }

  keep_rpt-Keeps :
      (c : ImpersonationClient) (r : Result String TokenResponse × W)
      → Keeps c (keep_rpt api c r).1.0
  keep_rpt-Keeps c (ok response, w) = record { same_cache = refl; same_config = refl }
  keep_rpt-Keeps c (err e, w) = record { same_cache = refl; same_config = refl }

  get_service_account_token-Keeps :
      (s : ImpersonationClient × W) → Keeps s.0 (get_service_account_token api s).1.0
  unfolding get_service_account_token
  get_service_account_token-Keeps (c, w) =
      if-elim (λ (r : Result String String × (ImpersonationClient × W)). Keeps c r.1.0)
        (is_fresh c.config.token_expiry_buffer c.sa_token c.sa_token_expires_at (api.now w))
        {yes_branch = (ok c.sa_token, (c, w))} (record { same_cache = refl; same_config = refl })
        (keep_sa-Keeps c (ask_sa api c.config w))

  get_rpt_token-Keeps :
      (access_token : String) (s : ImpersonationClient × W)
      → Keeps s.0 (get_rpt_token api access_token s).1.0
  unfolding get_rpt_token
  get_rpt_token-Keeps access_token (c, w) =
      if-elim (λ (r : Result String String × (ImpersonationClient × W)). Keeps c r.1.0)
        (is_fresh c.config.token_expiry_buffer c.rpt_token c.rpt_token_expires_at (api.now w))
        {yes_branch = (ok c.rpt_token, (c, w))} (record { same_cache = refl; same_config = refl })
        (keep_rpt-Keeps c (ask_rpt api c.config access_token w))

  both_steps-Keeps :
      (sa_token : String) (s : ImpersonationClient × W)
      → Keeps s.0 (get_rpt_token api sa_token (get_service_account_token api s).1).1.0
  both_steps-Keeps sa_token s = record {
    same_cache =
        Keeps.same_cache (get_rpt_token-Keeps sa_token (get_service_account_token api s).1)
        ∙ Keeps.same_cache (get_service_account_token-Keeps s);
    same_config =
        Keeps.same_config (get_rpt_token-Keeps sa_token (get_service_account_token api s).1)
        ∙ Keeps.same_config (get_service_account_token-Keeps s);
  }

  pub fetch_impersonated_token-Keeps :
      (user_email region : String) (s : ImpersonationClient × W)
      → Keeps s.0 (fetch_impersonated_token api user_email region s).1.0
  unfolding fetch_impersonated_token
  fetch_impersonated_token-Keeps user_email region s =
      elim (Result-cases (get_service_account_token api s).0) [
        | inr (e, failed) ↦
            subst (Keeps s.0) (ground (arith, failed)) (get_service_account_token-Keeps s)
        | inl (sa_token, given) ↦
            elim (Result-cases (get_rpt_token api sa_token (get_service_account_token api s).1).0) [
              | inr (e, failed) ↦
                  subst (Keeps s.0) (ground (arith, given, failed)) (both_steps-Keeps sa_token s)
              | inl (rpt_token, given') ↦
                  subst (Keeps s.0) (ground (arith, given, given')) (both_steps-Keeps sa_token s)
            ]
      ]

  -- A token in the cache that has not expired is given back, and nothing else happens.
  get_impersonated_token_hit :
      (user_email region : String) (cached : CachedToken) (c : ImpersonationClient) (w : W)
      → user_email ≢ ""
      → region ≢ ""
      → lookup (cache_key user_email region) c.token_cache ≡ some cached
      → is_expired c.config.token_expiry_buffer cached (api.now w) ≡ false
      → get_impersonated_token api user_email region (c, w) ≡ (ok cached.token, (c, w))
  unfolding get_impersonated_token
  get_impersonated_token_hit user_email region cached c w =
      ground (arith, ==_iff user_email "", ==_iff region "")

  -- What a call that gave a token leaves in the cache.
  record IsStored (user_email region token : String) (buffer : ℕ) (c : ImpersonationClient)
      : Type 0 where
    cached : CachedToken
    is_found : lookup (cache_key user_email region) c.token_cache ≡ some cached
    has_token : cached.token ≡ token
    same_buffer : c.config.token_expiry_buffer ≡ buffer

  fetch_and_store-IsStored :
      (user_email region token : String) (s : ImpersonationClient × W)
      → (fetch_and_store api user_email region s).0 ≡ ok token
      → IsStored user_email region token s.0.config.token_expiry_buffer
          (fetch_and_store api user_email region s).1.0
  unfolding fetch_and_store
  fetch_and_store-IsStored user_email region token s h =
      elim (Result-cases (fetch_impersonated_token api user_email region s).0) [
        | inr (e, failed) ↦ ground (arith, failed, h)
        | inl ((t, expires_at), fetched) ↦ record {
          cached = record {
            token = t;
            expires_at = expires_at;
            user_email = user_email;
            region = region;
          };
          is_found = ground (
            arith,
            fetched,
            lookup-insert (cache_key user_email region) (cache_key user_email region)
                (record {
                  token = t;
                  expires_at = expires_at;
                  user_email = user_email;
                  region = region;
                })
                (fetch_impersonated_token api user_email region s).1.0.token_cache,
            ==_iff (cache_key user_email region) (cache_key user_email region),
          );
          has_token = ground (arith, fetched, h);
          same_buffer = ground (
            arith,
            fetched,
            Keeps.same_config (fetch_impersonated_token-Keeps user_email region s),
          );
        }
      ]

  get_impersonated_token_given :
      (user_email region token : String) (s : ImpersonationClient × W)
      → (get_impersonated_token api user_email region s).0 ≡ ok token
      → (user_email ≢ "") × (region ≢ "")
  unfolding get_impersonated_token
  get_impersonated_token_given user_email region token s h =
      (ground (arith, ==_iff user_email ""), ground (arith, ==_iff region ""))

  -- A call that gave a token got it from the cache or from the three steps.
  pub get_impersonated_token_cases :
      (user_email region token : String) (s : ImpersonationClient × W)
      → (get_impersonated_token api user_email region s).0 ≡ ok token
      → (get_impersonated_token api user_email region s ≡ fetch_and_store api user_email region s)
        ⊎ ((cached : CachedToken) × ((lookup (cache_key user_email region) s.0.token_cache
                ≡ some cached)
              × (get_impersonated_token api user_email region s ≡ (ok cached.token, s))))
  unfolding get_impersonated_token
  get_impersonated_token_cases user_email region token s h =
      let given = get_impersonated_token_given user_email region token s h in
      elim (Option-cases (lookup (cache_key user_email region) s.0.token_cache)) [
        | inl missing ↦ inl (ground (arith, given, missing, ==_iff user_email "", ==_iff region ""))
        | inr (cached, found) ↦
            elim (Bool-cases (is_expired s.0.config.token_expiry_buffer cached (api.now s.1))) [
              | inl expired ↦
                  inl
                    (ground (arith, given, found, expired, ==_iff user_email "", ==_iff region ""))
              | inr alive ↦ inr (
                cached,
                (
                  found,
                  get_impersonated_token_hit user_email region cached s.0 s.1 given.0 given.1 found
                      alive,
                ),
              )
            ]
      ]

  get_impersonated_token-IsStored :
      (user_email region token : String) (s : ImpersonationClient × W)
      → (get_impersonated_token api user_email region s).0 ≡ ok token
      → IsStored user_email region token s.0.config.token_expiry_buffer
          (get_impersonated_token api user_email region s).1.0
  get_impersonated_token-IsStored user_email region token s h =
      elim (get_impersonated_token_cases user_email region token s h) [
        | inl fetched ↦
            subst (IsStored user_email region token s.0.config.token_expiry_buffer)
              (ap (λ (r : Result String String × (ImpersonationClient × W)). r.1.0) (sym fetched))
              (fetch_and_store-IsStored user_email region token s (
                ap (λ (r : Result String String × (ImpersonationClient × W)). r.0) (sym fetched)
                ∙ h))
        | inr (cached, (found, hit)) ↦
            subst (IsStored user_email region token s.0.config.token_expiry_buffer)
              (ap (λ (r : Result String String × (ImpersonationClient × W)). r.1.0) (sym hit))
              (record {
                cached = cached;
                is_found = found;
                has_token = ground (arith, hit, h);
                same_buffer = refl;
              })
      ]

  -- After a call that gave a token, a second call at a later state gives the same token and changes
  -- nothing, if the token that is in the cache then has not expired.
  pub get_impersonated_token_twice :
      (user_email region token : String) (c : ImpersonationClient) (w later : W)
      → (get_impersonated_token api user_email region (c, w)).0 ≡ ok token
      → ((cached : CachedToken)
          → lookup
              (cache_key user_email region)
              (get_impersonated_token api user_email region (c, w)).1.0.token_cache
            ≡ some cached
          → is_expired c.config.token_expiry_buffer cached (api.now later) ≡ false)
      → get_impersonated_token api user_email region
          ((get_impersonated_token api user_email region (c, w)).1.0, later)
        ≡ (ok token, ((get_impersonated_token api user_email region (c, w)).1.0, later))
  get_impersonated_token_twice user_email region token c w later h alive =
      let client = (get_impersonated_token api user_email region (c, w)).1.0 in
      let given = get_impersonated_token_given user_email region token (c, w) h in
      let stored = get_impersonated_token-IsStored user_email region token (c, w) h in
      get_impersonated_token_hit user_email region stored.cached client later given.0 given.1
        stored.is_found
        (ap (λ buffer. is_expired buffer stored.cached (api.now later)) stored.same_buffer
          ∙ alive stored.cached stored.is_found)
      ∙ ap (λ t. (ok t, (client, later))) stored.has_token
