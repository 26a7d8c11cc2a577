-- ===== src/Agent/Collectors/Laws.antt =====
-- A collector runs only if the server has registered the very scripts that are on the disk.
use lightai_platform.Prelude.{
  ◌≡◌, true, false, some, List, arith, eq_iff, ◌↔◌, Option-cases, inl, inr,
}
use lightai_platform.Prelude.Rows.{select_one}
use lightai_platform.Agent.Collectors.{
  CollectorDir, CollectorConfig, RegistryEntry, allowed, names, is_listed, entry_is, check_enabled,
}

-- An entry of the registry that admits the directory: the first one with its id and version, which
-- is enabled and has the hashes of its scripts.
pub record IsAdmitted (dir : CollectorDir) (registry : List RegistryEntry) (entry : RegistryEntry)
    : Type 0 where
  pub registered : select_one (entry_is dir.manifest.id dir.manifest.version) registry ≡ some entry
  pub is_enabled : entry.enabled ≡ true
  pub same_discover : entry.discover_sha256 ≡ dir.discover_sha256
  pub same_metrics : entry.metrics_sha256 ≡ dir.metrics_sha256

-- Fail-closed: a collector is allowed exactly if it is not on the list of the disabled ones, is on
-- the list of the enabled ones or the mode is automatic, and an entry of the registry with its id
-- and version is enabled and has the hashes of both of its scripts.
pub check_enabled_lem :
    (dir : CollectorDir) (config : CollectorConfig) (registry : List RegistryEntry)
    → (check_enabled dir config registry ≡ allowed) ↔ (
        (names config.disabled dir.manifest.id ≡ false)
        × (is_listed config dir.manifest.id ≡ true)
        × ((entry : RegistryEntry) × IsAdmitted dir registry entry))
unfolding check_enabled
check_enabled_lem dir config registry = (to_entry, from_entry)
  where
    to_entry :
        check_enabled dir config registry ≡ allowed
        → (names config.disabled dir.manifest.id ≡ false)
          × (is_listed config dir.manifest.id ≡ true)
          × ((entry : RegistryEntry) × IsAdmitted dir registry entry)
    to_entry h =
        elim (Option-cases (select_one (entry_is dir.manifest.id dir.manifest.version) registry)) [
          | inl e ↦ ground arith
          | inr (entry, e) ↦ (
            ground arith,
            ground arith,
            (
              entry,
              record {
                registered = e;
                is_enabled = ground arith;
                same_discover = ground (arith, eq_iff entry.discover_sha256 dir.discover_sha256);
                same_metrics = ground (arith, eq_iff entry.metrics_sha256 dir.metrics_sha256);
              },
            ),
          )
        ]

    from_entry :
        (names config.disabled dir.manifest.id ≡ false)
          × (is_listed config dir.manifest.id ≡ true)
          × ((entry : RegistryEntry) × IsAdmitted dir registry entry)
        → check_enabled dir config registry ≡ allowed
    from_entry (off, on, (entry, admitted)) = ground (
      arith,
      admitted.registered,
      admitted.is_enabled,
      admitted.same_discover,
      admitted.same_metrics,
      eq_iff entry.discover_sha256 dir.discover_sha256,
      eq_iff entry.metrics_sha256 dir.metrics_sha256,
    )
