-- ===== src/Hosts/Status.antt =====
-- Whether a host's agent is there, and whether the host is a cluster node.
use open_v_center_backend.Prelude.{ℕ, ◌+◌, Bool, false, not, ◌||◌, Option, none, some, leb, is_some}
use open_v_center_backend.Json.{Json, Dict, end, get, truthy, dict_or_empty}
use open_v_center_backend.Settings.{Settings}
use open_v_center_backend.Models.Topology.{Host}
use open_v_center_backend.Errors.{Result, raise_if, api_error, host_offline}

-- serializers.agent_connected: the last agent_status is not older than the limit.
unfoldable pub agent_connected : Settings → ℕ → Host → Bool
agent_connected s now host = elim host.agent_last_seen [
  | none ↦ false
  | some last ↦ leb now (last + s.agent_offline_after_seconds)
]

-- vms._require_host_online
unfoldable pub require_host_online : Settings → ℕ → Host → Result (Unit {0})
require_host_online s now host =
    raise_if (not (agent_connected s now host)) (api_error host_offline 409)

-- `host.hardware or {}`
abbrev pub hardware_of : Host → Dict
hardware_of host = elim host.hardware [ none ↦ end | some d ↦ d ]

abbrev pub truthy_or_none : Option Json → Bool
truthy_or_none none = false
truthy_or_none (some v) = truthy v

-- host_actions.host_is_clustered
unfoldable pub host_is_clustered : Host → Bool
host_is_clustered host =
    is_some host.cluster_id
    || truthy_or_none (get "clustered" (dict_or_empty (get "cluster" (hardware_of host))))
