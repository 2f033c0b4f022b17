-- ===== src/DepGraph/Validate.antt =====
-- `validateDep` of lib/depgraph.js.
pub mod Laws
use zlux_server_framework.Base.{
  ℕ, ◌+◌, String, Bool, true, false, ◌&&◌, ◌||◌, Option, none, some, List, [], ◌∷◌, ◌==◌, opt_eq,
  if◌then◌else◌,
}
use zlux_server_framework.Base.Outcome.{Outcome, ok, raised}
use zlux_server_framework.DepGraph.Plugin.{
  Service, Plugin, Versions, Semver, required_plugin_not_found, invalid_required_version_range,
  required_service_version_not_found, required_service_not_found, DepLink, Fault, type_error,
}

-- What the loop over the provider's services leaves in `found` and `foundAtDifferentVersion`.
pub data Search : Type 0 where
  found : Option String → Search
  found_at_different_version : Search
  absent : Search

unfoldable pub is_requested : DepLink → Service → Bool
is_requested dep service =
    opt_eq service.name dep.service
    || (opt_eq service.local_name dep.service && service.type == "import")

unfoldable pub fits : Semver → DepLink → Option String → Bool
fits semver dep version =
    semver.valid version && semver.satisfies version dep.required_version_range

-- The assignments to `dep` behind the loop.
unfoldable pub conclude : DepLink → Search → DepLink
conclude dep (found version) = record dep {
  actual_version = version;
  valid = true;
  validation_error = none;
}
conclude dep found_at_different_version = record dep {
  valid = false;
  validation_error =
      some (required_service_version_not_found dep.provider dep.service dep.required_version_range);
}
conclude dep absent = record dep {
  valid = false;
  validation_error = some (required_service_not_found dep.provider dep.service);
}

module _ (semver : Semver) (versions : Versions) where
  -- The loop, from the service at index `i` on.
  unfoldable pub search_services : DepLink → List Service → ℕ → Bool → Search
  unfolding is_requested fits
  search_services dep [] i seen = if seen then found_at_different_version else absent
  search_services dep (service ∷ services) i seen =
      let version = versions dep.provider i in
      let requested = is_requested dep service in
      let rest = search_services dep services (i + 1) (seen || requested) in
      if requested && fits semver dep version then found version else rest

  unfoldable pub validate_dep : DepLink → Option Plugin → Outcome Fault DepLink
  unfolding search_services conclude
  validate_dep dep none = ok (record dep {
    valid = false;
    validation_error = some (required_plugin_not_found dep.provider);
  })
  validate_dep dep (some plugin) =
      if semver.valid_range dep.required_version_range
      then (elim plugin.data_services [
        | none ↦ raised type_error
        | some services ↦ ok (conclude dep (search_services dep services 0 false))
      ])
      else ok (record dep {
        valid = false;
        validation_error =
            some (invalid_required_version_range dep.provider dep.required_version_range);
      })
