-- ===== src/LoadBalancer/Reconcile/Allocation.antt =====
-- Which IP allocateIP gives to a service.
use cluster_api_provider_clo.Prelude.{
  ◌≡◌, refl, ap, subst, ◌∙◌, ◌≢◌, ◌&&◌, Option-cases, String, Option, some, none, All, starts_with,
  true, false, List, [], ◌∷◌, ==_iff, contains, ok, err, arith, Result-cases, Bool-cases, inl, inr,
}
use cluster_api_provider_clo.Prelude.Dict.{Dict, lookup}
use cluster_api_provider_clo.CloudSdk.{Tag}
use cluster_api_provider_clo.LoadBalancer.Types.{Service, Environment, Controller}
use cluster_api_provider_clo.LoadBalancer.Pool.{get_ip_pool_type, pool_of}
use cluster_api_provider_clo.LoadBalancer.IpTags.{is_ip_available, has_service_tag, or_no_tags}
use cluster_api_provider_clo.LoadBalancer.Reconcile.{is_assigned, allocate_loop, allocate_ip}

-- No tag whose name starts with "service:" lists the IP, if the answer was a list of tags.
abbrev pub Unlisted : String → Option (List Tag) → Type 0
Unlisted ip none = Unit
Unlisted ip (some tags) =
    All (λ tag. (starts_with tag.name "service:" && contains tag.resources ip) ≡ false) tags

-- What is known of an IP that was chosen: it is in the pool, assigned to no node, and in an answer to
-- the request for the tags no service tag listed it.
pub record IsChosen {W : Type 0} (env : Environment W) (assignments : Dict String)
    (pool : List String) (ip : String) : Type 0 where
  pub in_pool : contains pool ip ≡ true
  pub is_free : lookup ip assignments ≡ none
  pub token : String
  pub when : W
  pub answer : Option (List Tag)
  pub was_answered : (env.http.get_tags token when).0 ≡ ok answer
  pub was_unlisted : Unlisted ip answer

has_service_tag-Unlisted :
    (ip : String) (tags : List Tag) → has_service_tag tags ip ≡ false → Unlisted ip (some tags)
unfolding has_service_tag
has_service_tag-Unlisted ip [] h = tt
has_service_tag-Unlisted ip (tag ∷ tags) h =
    (ground (arith, h), has_service_tag-Unlisted ip tags (ground (arith, h)))

or_no_tags-Unlisted :
    (ip : String) (answer : Option (List Tag))
    → has_service_tag (or_no_tags answer) ip ≡ false
    → Unlisted ip answer
or_no_tags-Unlisted ip none h = tt
or_no_tags-Unlisted ip (some tags) h = has_service_tag-Unlisted ip tags h

module _ {W : Type 0} (env : Environment W) (assignments : Dict String) where
  weaken :
      (first : String) (pool : List String) (ip : String)
      → IsChosen env assignments pool ip
      → IsChosen env assignments (first ∷ pool) ip
  unfolding contains
  weaken first pool ip h = record {
    in_pool = ground (arith, h.in_pool);
    is_free = h.is_free;
    token = h.token;
    when = h.when;
    answer = h.answer;
    was_answered = h.was_answered;
    was_unlisted = h.was_unlisted;
  }

  IsChosen-first :
      (ip : String) (pool : List String) (w : W)
      → is_assigned assignments ip ≡ false
      → (is_ip_available env ip w).0 ≡ ok true
      → IsChosen env assignments (ip ∷ pool) ip
  unfolding contains is_ip_available
  IsChosen-first ip pool w free available = elim (Result-cases (env.get_token w).0) [
    | inr (e, failed) ↦ absurd (ground (arith, failed, available))
    | inl (token, done) ↦
        let w' = (env.get_token w).1 in
        elim (Result-cases (env.http.get_tags token w').0) [
          | inr (e, failed) ↦ absurd (ground (arith, done, failed, available))
          | inl (answer, answered) ↦ record {
            in_pool = ground (arith, ==_iff ip ip);
            is_free = elim (Option-cases (lookup ip assignments)) [
              | inl absent ↦ absent
              | inr (uuid, there) ↦ absurd (ground (arith, there, free))
            ];
            token = token;
            when = w';
            answer = answer;
            was_answered = answered;
            was_unlisted =
                or_no_tags-Unlisted ip answer (ground (arith, done, answered, available));
          }
        ]
  ]

  abbrev Chooses : List String → String × W → Type 0
  Chooses pool r = r.0 ≢ "" → IsChosen env assignments pool r.0

  allocate_loop-Chooses :
      (pool : List String) (w : W) → Chooses pool (allocate_loop env assignments pool w)
  unfolding allocate_loop
  allocate_loop-Chooses [] w = λ h. absurd (h refl)
  allocate_loop-Chooses (ip ∷ ips) w = elim (Bool-cases (is_assigned assignments ip)) [
    | inl taken ↦
        subst (Chooses (ip ∷ ips)) (skipped taken)
          (λ h. weaken ip ips _ (allocate_loop-Chooses ips w h))
    | inr free ↦ elim (Result-cases (is_ip_available env ip w).0) [
      | inr (failure, e) ↦
          subst (Chooses (ip ∷ ips)) (passed_over free failure e)
            (λ h. weaken ip ips _ (allocate_loop-Chooses ips (is_ip_available env ip w).1 h))
      | inl (available, e) ↦ elim (Bool-cases available) [
        | inl good ↦
            subst (Chooses (ip ∷ ips)) (picked free (e ∙ ap ok good))
              (λ h. IsChosen-first ip ips w free (e ∙ ap ok good))
        | inr bad ↦
            subst (Chooses (ip ∷ ips)) (refused free (e ∙ ap ok bad))
              (λ h. weaken ip ips _ (allocate_loop-Chooses ips (is_ip_available env ip w).1 h))
      ]
    ]
  ]
    where
      skipped :
          is_assigned assignments ip ≡ true
          → allocate_loop env assignments ips w ≡ allocate_loop env assignments (ip ∷ ips) w
      skipped taken = ground (arith, taken)

      passed_over :
          is_assigned assignments ip ≡ false
          → (failure : String) → (is_ip_available env ip w).0 ≡ err failure
          → allocate_loop env assignments ips (is_ip_available env ip w).1
            ≡ allocate_loop env assignments (ip ∷ ips) w
      passed_over free failure e = ground (arith, free, e)

      picked :
          is_assigned assignments ip ≡ false
          → (is_ip_available env ip w).0 ≡ ok true
          → (ip, (is_ip_available env ip w).1) ≡ allocate_loop env assignments (ip ∷ ips) w
      picked free e = ground (arith, free, e)

      refused :
          is_assigned assignments ip ≡ false
          → (is_ip_available env ip w).0 ≡ ok false
          → allocate_loop env assignments ips (is_ip_available env ip w).1
            ≡ allocate_loop env assignments (ip ∷ ips) w
      refused free e = ground (arith, free, e)

pub allocate_ip-IsChosen :
    {W : Type 0} (env : Environment W) (c : Controller) (svc : Service) (w : W)
    → (allocate_ip env c svc w).0 ≢ ""
    → IsChosen env c.ip_assignments (pool_of c (get_ip_pool_type svc)) (allocate_ip env c svc w).0
unfolding allocate_ip
allocate_ip-IsChosen env c svc w h = allocate_loop-Chooses env c.ip_assignments _ w h
