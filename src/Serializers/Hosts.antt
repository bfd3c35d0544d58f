-- ===== src/Serializers/Hosts.antt =====
-- host_out, host_detail_out and agent_status.
use open_v_center_backend.Prelude.{ℕ, String, Bool, Option, none, some}
use open_v_center_backend.Json.{obj, Dict}
use open_v_center_backend.Settings.{Settings}
use open_v_center_backend.Models.Topology.{Host}
use open_v_center_backend.Hosts.Status.{agent_connected}
use open_v_center_backend.Inventory.Values.{Python}
use open_v_center_backend.Inventory.Hardware.{normalize_hardware}

pub record RefreshIntervals : Type 0 where
  pub vm : ℕ
  pub host : ℕ

abbrev pub both : Option ℕ → Option ℕ → Option RefreshIntervals
both (some v) (some h) = some (record { vm = v; host = h })
both _ _ = none

pub record HostAgentStatus : Type 0 where
  pub version : Option String
  pub last_seen : Option ℕ
  pub connected : Bool
  pub refresh_intervals : Option RefreshIntervals

unfoldable pub agent_status : Settings → ℕ → Host → HostAgentStatus
unfolding agent_connected
agent_status s now h = record {
  version = h.agent_version;
  last_seen = h.agent_last_seen;
  connected = agent_connected s now h;
  refresh_intervals = both h.agent_refresh_vm h.agent_refresh_host;
}

pub record HostOut : Type 0 where
  pub id : ℕ
  pub short_id : String
  pub cluster_id : Option ℕ
  pub name : String
  pub fqdn : Option String
  pub ip_address : Option String
  pub hypervisor : String
  pub online : Bool
  pub agent : HostAgentStatus
  pub vm_count : ℕ

unfoldable pub host_out : Settings → ℕ → Host → ℕ → HostOut
unfolding agent_status
host_out s now h vm_count = record {
  id = h.id;
  short_id = h.short_id;
  cluster_id = h.cluster_id;
  name = h.name;
  fqdn = h.fqdn;
  ip_address = h.ip_address;
  hypervisor = h.hypervisor;
  online = agent_connected s now h;
  agent = agent_status s now h;
  vm_count = vm_count;
}

module _ (py : Python) (Hardware : Type 0) (validated : Dict → Option Hardware) where
  abbrev hardware_from : Option Dict → Option Hardware
  hardware_from none = none
  hardware_from (some d) = validated d

  -- _hardware_out: `validated` is pydantic's validation, none its error, which is logged.
  unfoldable pub hardware_out : Option Dict → Option Hardware
  unfolding normalize_hardware
  hardware_out none = none
  hardware_out (some raw) = hardware_from (normalize_hardware py (some (obj raw)))

  pub record HostDetailOut : Type 0 where
    pub host : HostOut
    pub hardware : Option Hardware

  -- The fields of host_out, and the hardware.
  unfoldable pub host_detail_out : Settings → ℕ → Host → ℕ → HostDetailOut
  unfolding host_out hardware_out
  host_detail_out s now h vm_count = record {
    host = host_out s now h vm_count;
    hardware = hardware_out h.hardware;
  }
