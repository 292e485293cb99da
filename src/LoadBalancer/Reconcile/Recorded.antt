-- ===== src/LoadBalancer/Reconcile/Recorded.antt =====
-- What reconcileService records for a service that has no IP yet.
