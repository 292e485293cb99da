-- ===== src/LoadBalancer/Sync/Failover.antt =====
-- Where checkIPFailover puts the IPs of nodes that are not healthy.
use mathlib.Core.Option
use cluster_api_provider_clo.Prelude.{String, List, contains, if◌then◌else◌}
use cluster_api_provider_clo.Prelude.Dict.{Dict}
use cluster_api_provider_clo.LoadBalancer.Types.{Node}
use cluster_api_provider_clo.LoadBalancer.Reconcile.{first_uuid}
use cluster_api_provider_clo.LoadBalancer.Sync.{healthy_uuids}

-- The node an IP belongs on: its own, if that is healthy, and else the first healthy one.
abbrev pub target : List Node → String → String
target healthy current =
    if contains (healthy_uuids healthy) current then current else first_uuid healthy
