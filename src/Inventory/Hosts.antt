-- ===== src/Inventory/Hosts.antt =====
-- apply_agent_status and apply_host_inventory: an agent's heartbeat, and its host's hardware.
use open_v_center_backend.Prelude.{ℕ, String, Option, none, some, if◌then◌else◌}
use open_v_center_backend.Json.{Json, obj, Dict, get, has_key, as_text}
use open_v_center_backend.Models.{Db, put_host}
use open_v_center_backend.Models.Topology.{Host}
use open_v_center_backend.Inventory.Values.{Python, field, or_json, number, text_or_none, parse_dt}
use open_v_center_backend.Inventory.Hardware.{normalize_hardware}

abbrev kept_or : Option String → Option String → Option String
kept_or none old = old
kept_or (some s) old = some s

abbrev text_or : Option String → String → String
text_or none old = old
text_or (some s) old = s

abbrev seen_at : Option ℕ → ℕ → ℕ
seen_at none now = now
seen_at (some t) now = t

-- What a heartbeat writes on the host's row.
unfoldable pub write_status : Python → ℕ → Dict → Host → Host
unfolding field
write_status py now payload h = record h {
  agent_version = as_text (get "version" payload);
  agent_refresh_vm =
      number (or_json (field "vm_refresh_interval" payload) (field "vmRefreshInterval" payload));
  agent_refresh_host =
      number
        (or_json (field "host_refresh_interval" payload) (field "hostRefreshInterval" payload));
  hypervisor = text_or (text_or_none (get "hypervisor" payload)) h.hypervisor;
  fqdn = kept_or (text_or_none (or_json (field "fqdn" payload) (field "hostname" payload))) h.fqdn;
  ip_address =
      kept_or
        (text_or_none (
          or_json (or_json (field "ip" payload) (field "ipAddress" payload))
            (field "primaryIp" payload)))
        h.ip_address;
  agent_last_seen = some (seen_at (parse_dt py (field "reported_at" payload)) now);
}

-- apply_agent_status: a host that is unknown is left at that.
unfoldable pub apply_agent_status : Python → ℕ → ℕ → Dict → Db → Db
unfolding write_status
apply_agent_status py now host_id payload db = put_host host_id (write_status py now payload) db

-- `payload["hardware"] if "hardware" in payload else payload`
abbrev hardware_in : Dict → Option Json
hardware_in payload =
    if has_key "hardware" payload then get "hardware" payload else some (obj payload)

-- apply_host_inventory: a report without usable hardware keeps the last one.
unfoldable pub apply_host_inventory : Python → ℕ → Dict → Db → Db
apply_host_inventory py host_id payload db = elim (normalize_hardware py (hardware_in payload)) [
  | none ↦ db
  | some d ↦ put_host host_id (λ h. record h { hardware = some d }) db
]
