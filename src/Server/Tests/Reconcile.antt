-- ===== src/Server/Tests/Reconcile.antt =====
-- A heartbeat of the node of the sample fleet that reports no process.
use lightai_platform.Prelude.{◌≡◌, true, [], All, ◌&&◌}
use lightai_platform.Prelude.Rows.{select}
use lightai_platform.Server.Reconcile.{
  is_managed, is_active, is_reported, reconcile_managed_instances,
}
use lightai_platform.Server.Reconcile.Laws.{reconcile_no_phantom}
use lightai_platform.Server.Tests.{fleet}

reconcile_no_phantom_example :
    All
      (λ i. is_reported [] i.id ≡ true)
      (select
        (λ i. is_managed fleet.runtime_environments "n1" i && is_active i.status)
        (reconcile_managed_instances "n1" [] 420 fleet).model_instances)
reconcile_no_phantom_example = reconcile_no_phantom "n1" [] 420 fleet
