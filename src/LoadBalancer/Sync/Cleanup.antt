-- ===== src/LoadBalancer/Sync/Cleanup.antt =====
-- What the cleanup of deleted services leaves in serviceIPs.
use cluster_api_provider_clo.Prelude.{
  ◌≡◌, String, none, some, List, [], ◌∷◌, ==_iff, contains, if◌then◌else◌, arith, Bool-cases, inl,
  inr,
}
use cluster_api_provider_clo.Prelude.Dict.{Dict, lookup, lookup-delete}
use cluster_api_provider_clo.LoadBalancer.Types.{Environment, Controller}
use cluster_api_provider_clo.LoadBalancer.IpTags.{untag_ip_in_cloud_sigma}
use cluster_api_provider_clo.LoadBalancer.Nodes.{delete_ip_config_pod}
use cluster_api_provider_clo.LoadBalancer.Sync.{release, cleanup_deleted}

module _ {W : Type 0} (env : Environment W) where
  -- The same for the entries that are left to look at.
  cleanup_deleted_rest :
      (current : List String) (entries : Dict String) (key : String) (s : Controller × W)
      → lookup key (cleanup_deleted env current entries s).0.service_ips ≡ (
          if contains current key
          then lookup key s.0.service_ips
          else elim (lookup key entries) [ none ↦ lookup key s.0.service_ips | some ip ↦ none ])
  unfolding cleanup_deleted lookup release
  cleanup_deleted_rest current [] key s = ground arith
  cleanup_deleted_rest current ((k, ip) ∷ entries) key (c, w) =
      elim (Bool-cases (contains current k)) [
        | inl kept ↦
            ground (arith, kept, cleanup_deleted_rest current entries key (c, w), ==_iff k key)
        | inr gone ↦ ground (
          arith,
          gone,
          cleanup_deleted_rest current entries key
              (release k ip c, delete_ip_config_pod env ip (untag_ip_in_cloud_sigma env ip w).1),
          lookup-delete k key c.service_ips,
          ==_iff k key,
        )
      ]

  -- After the cleanup of deleted services, exactly the current ones of the services that had an IP
  -- have one, the same as before.
  pub cleanup_deleted-current :
      (current : List String) (key : String) (c : Controller) (w : W)
      → lookup key (cleanup_deleted env current c.service_ips (c, w)).0.service_ips
        ≡ (if contains current key then lookup key c.service_ips else none)
  cleanup_deleted-current current key c w =
      ground (arith, cleanup_deleted_rest current c.service_ips key (c, w))
