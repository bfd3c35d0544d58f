-- ===== src/Vms/Storage.antt =====
-- vms._require_vm_storage_allowed: where a VM may be placed.
use open_v_center_backend.Prelude.{
  ℕ, String, Bool, true, false, not, ◌&&◌, Option, none, some, List, [], ◌∷◌,
}
use open_v_center_backend.Json.{get, as_text, dict_or_empty}
use open_v_center_backend.Models.Topology.{Host}
use open_v_center_backend.Errors.{Result, raise_if, api_error, storage_not_allowed}
use open_v_center_backend.Hosts.Status.{hardware_of, host_is_clustered}
use open_v_center_backend.Vms.Paths.{codes, norm_path, is_csv_path, is_system_drive}

abbrev pub codes_or_empty : Option String → List ℕ
codes_or_empty none = []
codes_or_empty (some s) = codes s

-- `a or b` on paths
abbrev pub or_path : List ℕ → List ℕ → List ℕ
or_path [] d = d
or_path (c ∷ s) d = c ∷ s

-- The Hyper-V default VM path that the host reported, normalised.
unfoldable pub default_path : Host → List ℕ
default_path host = norm_path (
    codes_or_empty
      (as_text (get "defaultVmPath" (dict_or_empty (get "hyperv" (hardware_of host))))))

-- The decision, once the three facts that it reads are there.
abbrev pub storage_refused : Bool → List ℕ → List ℕ → Bool
storage_refused true dest default = not (is_csv_path dest)
storage_refused false dest default = is_system_drive dest && not (is_system_drive default)

unfoldable pub effective_path : Host → List ℕ → List ℕ
effective_path host destination = or_path (norm_path destination) (default_path host)

unfoldable pub require_vm_storage_allowed : Host → List ℕ → Result (Unit {0})
require_vm_storage_allowed host destination =
    raise_if
      (storage_refused (host_is_clustered host) (effective_path host destination)
        (default_path host))
      (api_error storage_not_allowed 400)
