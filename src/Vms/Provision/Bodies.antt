-- ===== src/Vms/Provision/Bodies.antt =====
-- What the requests to create and to clone a VM carry, and the row and the message they make of it.
use open_v_center_backend.Prelude.{
  ℕ, String, Bool, true, false, ◌&&◌, Option, none, some, List, [], ◌∷◌, ◌*◌, nonempty, is_some,
}
use open_v_center_backend.Json.{
  Json, null, bool, num, str, arr, obj, Items, nil, cons, Dict, end, entry,
}
use open_v_center_backend.Models.VmRows.{Vm, VmNic}
use open_v_center_backend.Models.Topology.{Host}

pub record NewDisk : Type 0 where
  pub name : String
  pub type : String
  pub size_gb : ℕ

-- The body of POST /vms, as far as the service reads it.
pub record VmCreate : Type 0 where
  pub name : String
  pub os : String
  pub firmware : String
  pub cpu_count : ℕ
  pub memory_mb : ℕ
  pub memory_dynamic : Bool
  pub memory_min_mb : Option ℕ
  pub memory_max_mb : Option ℕ
  pub destination_storage : String
  pub notes : Option String
  pub vlan_id : Option ℕ
  pub switch_name : Option String
  pub nested_virtualization : Bool
  pub ha_enabled : Bool
  pub dvd : Option String
  pub start_now : Bool
  pub disks : List NewDisk

-- `source` with the id that goes with it.
pub data CloneSource : Type 0 where
  source_vm : ℕ → CloneSource
  template : String → CloneSource

-- The body of POST /vms/clone.
pub record VmClone : Type 0 where
  pub name : String
  pub source : CloneSource
  pub cpu_count : Option ℕ
  pub memory_mb : Option ℕ
  pub destination_storage : String
  pub notes : Option String
  pub vlan_id : Option ℕ
  pub nested_virtualization : Bool
  pub ha_enabled : Bool
  pub start_now : Bool
  pub expand_disks : Bool

abbrev pub num_or_null : Option ℕ → Json
num_or_null none = null
num_or_null (some n) = num n

abbrev pub str_or_null : Option String → Json
str_or_null o = elim (nonempty o) [ none ↦ null | some s ↦ str s ]

abbrev pub str_or_empty : Option String → Json
str_or_empty none = str ""
str_or_empty (some s) = str s

abbrev disk_items : List NewDisk → Items
disk_items [] = nil
disk_items (d ∷ ds) =
    cons
      (obj (
        entry "name" (str d.name)
          (entry "type" (str d.type) (entry "size_gb" (num d.size_gb) end))))
      (disk_items ds)

abbrev pub adapter : Option ℕ → List VmNic
adapter none = []
adapter (some vlan) =
    record {
      position = 0;
      nic_id = none;
      name = "Network Adapter";
      switch_name = none;
      vlan_id = some vlan;
      mac_address = none;
      ip_addresses = [];
      connected = true;
    }
    ∷ []

-- What a placeholder is given; the other columns are at their defaults.
pub record Sizing : Type 0 where
  pub firmware : String
  pub cpu_count : ℕ
  pub memory_mb : ℕ
  pub memory_dynamic : Bool
  pub vlan_id : Option ℕ
  pub notes : Option String
  pub nested_virtualization : Bool
  pub highly_available : Bool

unfoldable pub placeholder : ℕ → Host → String → Sizing → Vm
placeholder id host name s = record {
  id = id;
  vm_uuid = none;
  host_id = host.id;
  cluster_id = host.cluster_id;
  folder_id = none;
  name = name;
  state = "Unknown";
  firmware = s.firmware;
  guest_os = none;
  uptime_sec = none;
  vcpu = s.cpu_count;
  memory_bytes = s.memory_mb * 1024 * 1024;
  memory_min_bytes = none;
  memory_max_bytes = none;
  memory_dynamic = s.memory_dynamic;
  cpu_usage_percent = none;
  memory_demand_bytes = none;
  secure_boot = none;
  secure_boot_template = none;
  nested_virtualization = s.nested_virtualization;
  auto_start_action = none;
  auto_start_delay_sec = none;
  auto_stop_action = none;
  config_path = none;
  dvd_path = none;
  highly_available = s.highly_available;
  metrics_enabled = false;
  notes = s.notes;
  vm_created_at = none;
  last_inventory_at = none;
  disks = [];
  nics = adapter s.vlan_id;
  snapshots = [];
}

abbrev when_ha : Bool → Option ℕ → Option ℕ
when_ha false c = none
when_ha true c = c

abbrev pub create_params : VmCreate → Host → Dict
create_params b host = entry "name" (str b.name) (
    entry "destination_storage" (str b.destination_storage) (
      entry "os" (str b.os) (
        entry "notes" (str_or_empty b.notes) (
          entry "firmware" (str b.firmware) (
            entry "cpu_count" (num b.cpu_count) (
              entry "memory_mb" (num b.memory_mb) (
                entry "memory_dynamic" (bool b.memory_dynamic) (
                  entry "memory_min_mb" (num_or_null b.memory_min_mb) (
                    entry "memory_max_mb" (num_or_null b.memory_max_mb) (
                      entry "nested_virtualization" (bool b.nested_virtualization) (
                        entry "vlan_id" (num_or_null b.vlan_id) (
                          entry "switch_name" (str_or_null b.switch_name) (
                            entry "dvd" (str_or_null b.dvd) (
                              entry "ha_enabled" (bool (b.ha_enabled && is_some host.cluster_id)) (
                                entry "cluster" (num_or_null (when_ha b.ha_enabled host.cluster_id))
                                  (entry "start_now" (bool b.start_now)
                                    (entry "disks" (arr (disk_items b.disks)) end)))))))))))))))))

abbrev pub create_sizing : VmCreate → Sizing
create_sizing b = record {
  firmware = b.firmware;
  cpu_count = b.cpu_count;
  memory_mb = b.memory_mb;
  memory_dynamic = b.memory_dynamic;
  vlan_id = b.vlan_id;
  notes = b.notes;
  nested_virtualization = b.nested_virtualization;
  highly_available = b.ha_enabled;
}

abbrev pub clone_params : VmClone → Sizing → Dict → Dict
clone_params b s source = append source (
    entry "name" (str b.name) (
      entry "destination_storage" (str b.destination_storage) (
        entry "cpu_count" (num s.cpu_count) (
          entry "memory_mb" (num s.memory_mb) (
            entry "notes" (str_or_empty s.notes) (
              entry "vlan_id" (num_or_null s.vlan_id) (
                entry "nested_virtualization" (bool b.nested_virtualization) (
                  entry "ha_enabled" (bool s.highly_available)
                    (entry "start_now" (bool b.start_now) end)))))))))
  where
    append : Dict → Dict → Dict
    append end d = d
    append (entry k v rest) d = entry k v (append rest d)
