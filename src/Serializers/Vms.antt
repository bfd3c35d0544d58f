-- ===== src/Serializers/Vms.antt =====
-- vm_out and its parts.

use open_v_center_backend.Prelude.{
  ℕ, String, Bool, Option, none, some, List, [], ◌∷◌, map, leb, or_text, rows_where, ◌==◌,
  if◌then◌else◌,
}
use open_v_center_backend.Models.{Db}
use open_v_center_backend.Models.VmRows.{Float, VmDisk, VmNic, VmSnapshot, Vm}
use open_v_center_backend.Valkey.{Lock}

pub record DiskOut : Type 0 where
  pub id : String
  pub path : String
  pub controller : String
  pub size_bytes : ℕ
  pub used_bytes : Option ℕ
  pub type : String
  pub format : String

abbrev pub or_zero : Option ℕ → ℕ
or_zero none = 0
or_zero (some n) = n

-- _disk_out
unfoldable pub disk_out : VmDisk → DiskOut
disk_out d = record {
  id = or_text d.disk_id "";
  path = or_text d.path "";
  controller = or_text d.controller "";
  size_bytes = or_zero d.size_bytes;
  used_bytes = d.used_bytes;
  type = or_text d.type "";
  format = or_text d.format "";
}

pub record NicOut : Type 0 where
  pub id : String
  pub name : String
  pub switch_name : String
  pub vlan_id : Option ℕ
  pub mac_address : String
  pub ip_addresses : List String
  pub connected : Bool

-- _nic_out
unfoldable pub nic_out : VmNic → NicOut
nic_out n = record {
  id = or_text n.nic_id "";
  name = n.name;
  switch_name = or_text n.switch_name "";
  vlan_id = n.vlan_id;
  mac_address = or_text n.mac_address "";
  ip_addresses = n.ip_addresses;
  connected = n.connected;
}

pub record SnapshotOut : Type 0 where
  pub id : String
  pub name : String
  pub created_at : Option ℕ
  pub parent_id : Option String
  pub type : Option String

-- _snapshot_out
unfoldable pub snapshot_out : VmSnapshot → SnapshotOut
snapshot_out s = record {
  id = s.snapshot_id;
  name = s.name;
  created_at = s.snapshot_created_at;
  parent_id = s.parent_snapshot_id;
  type = s.snapshot_type;
}

pub record MemoryOut : Type 0 where
  pub assigned_bytes : ℕ
  pub min_bytes : Option ℕ
  pub max_bytes : Option ℕ
  pub dynamic : Bool
  pub demand_bytes : Option ℕ

pub record VmOut : Type 0 where
  pub id : ℕ
  pub vm_uuid : Option String
  pub host_id : ℕ
  pub folder_id : Option ℕ
  pub name : String
  pub state : String
  pub last_seen : Option ℕ
  pub firmware : String
  pub guest_os : Option String
  pub uptime_sec : Option ℕ
  pub vcpu : ℕ
  pub cpu_usage_percent : Option Float
  pub memory : MemoryOut
  pub disks : List DiskOut
  pub nics : List NicOut
  pub snapshots : List SnapshotOut
  pub secure_boot : Option Bool
  pub secure_boot_template : Option String
  pub nested_virtualization : Bool
  pub auto_start_action : Option String
  pub auto_start_delay_sec : Option ℕ
  pub auto_stop_action : Option String
  pub config_path : Option String
  pub dvd_path : Option String
  pub highly_available : Bool
  pub notes : Option String
  pub tag_ids : List ℕ
  pub metrics_enabled : Bool
  pub created_at : Option ℕ
  pub lock : Option Lock

-- `sorted(ids)`
unfoldable pub insert : ℕ → List ℕ → List ℕ
insert n [] = n ∷ []
insert n (m ∷ ms) = if leb n m then n ∷ (m ∷ ms) else m ∷ insert n ms

unfoldable pub sorted : List ℕ → List ℕ
unfolding insert
sorted [] = []
sorted (n ∷ ns) = insert n (sorted ns)

-- `vm.tags`
abbrev pub tags_of_vm : Db → Vm → List ℕ
tags_of_vm db vm = map (λ l. l.tag_id) (rows_where (λ l. l.vm_id == vm.id) db.vm_tags)

-- vm_out: the state is that of the overlay, or of the row, or "Unknown" where the host's agent is away.
unfoldable pub vm_out : Db → Vm → Option String → Option Lock → Bool → VmOut
unfolding disk_out nic_out snapshot_out sorted
vm_out db vm state_override lock host_offline = record {
  id = vm.id;
  vm_uuid = vm.vm_uuid;
  host_id = vm.host_id;
  folder_id = vm.folder_id;
  name = vm.name;
  state = if host_offline then "Unknown" else or_text state_override vm.state;
  last_seen = vm.last_inventory_at;
  firmware = or_text (some vm.firmware) "UEFI";
  guest_os = vm.guest_os;
  uptime_sec = vm.uptime_sec;
  vcpu = vm.vcpu;
  cpu_usage_percent = vm.cpu_usage_percent;
  memory = record {
    assigned_bytes = vm.memory_bytes;
    min_bytes = vm.memory_min_bytes;
    max_bytes = vm.memory_max_bytes;
    dynamic = vm.memory_dynamic;
    demand_bytes = vm.memory_demand_bytes;
  };
  disks = map disk_out vm.disks;
  nics = map nic_out vm.nics;
  snapshots = map snapshot_out vm.snapshots;
  secure_boot = vm.secure_boot;
  secure_boot_template = vm.secure_boot_template;
  nested_virtualization = vm.nested_virtualization;
  auto_start_action = vm.auto_start_action;
  auto_start_delay_sec = vm.auto_start_delay_sec;
  auto_stop_action = vm.auto_stop_action;
  config_path = vm.config_path;
  dvd_path = vm.dvd_path;
  highly_available = vm.highly_available;
  notes = vm.notes;
  tag_ids = sorted (tags_of_vm db vm);
  metrics_enabled = vm.metrics_enabled;
  created_at = vm.vm_created_at;
  lock = lock;
}
