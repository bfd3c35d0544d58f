-- ===== src/Models/VmRows.antt =====
-- app/models/vm.py: a VM row and its children. Backend ids are only compared, so they are
-- naturals, and times are seconds. The float column `cpu_usage_percent` is carried by its bits.
use open_v_center_backend.Prelude.{ℕ, String, Bool, Option, List}

-- The bits of a float that the backend only copies.
pub record Float : Type 0 where
  pub bits : ℕ

pub record VmDisk : Type 0 where
  pub position : ℕ
  pub disk_id : Option String
  pub path : Option String
  pub controller : Option String
  pub size_bytes : Option ℕ
  pub used_bytes : Option ℕ
  pub type : Option String
  pub format : Option String

pub record VmSnapshot : Type 0 where
  pub position : ℕ
  pub snapshot_id : String
  pub name : String
  pub parent_snapshot_id : Option String
  pub snapshot_type : Option String
  pub snapshot_created_at : Option ℕ

pub record VmNic : Type 0 where
  pub position : ℕ
  pub nic_id : Option String
  pub name : String
  pub switch_name : Option String
  pub vlan_id : Option ℕ
  pub mac_address : Option String
  pub ip_addresses : List String
  pub connected : Bool

pub record Vm : Type 0 where
  pub id : ℕ
  pub vm_uuid : Option String
  pub host_id : ℕ
  pub cluster_id : Option ℕ
  pub folder_id : Option ℕ
  pub name : String
  pub state : String
  pub firmware : String
  pub guest_os : Option String
  pub uptime_sec : Option ℕ
  pub vcpu : ℕ
  pub memory_bytes : ℕ
  pub memory_min_bytes : Option ℕ
  pub memory_max_bytes : Option ℕ
  pub memory_dynamic : Bool
  pub cpu_usage_percent : Option Float
  pub memory_demand_bytes : Option ℕ
  pub secure_boot : Option Bool
  pub secure_boot_template : Option String
  pub nested_virtualization : Bool
  pub auto_start_action : Option String
  pub auto_start_delay_sec : Option ℕ
  pub auto_stop_action : Option String
  pub config_path : Option String
  pub dvd_path : Option String
  pub highly_available : Bool
  pub metrics_enabled : Bool
  pub notes : Option String
  pub vm_created_at : Option ℕ
  pub last_inventory_at : Option ℕ
  pub disks : List VmDisk
  pub nics : List VmNic
  pub snapshots : List VmSnapshot
