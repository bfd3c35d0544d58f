-- ===== src/Inventory/Row.antt =====
-- _write_vm_row: a normalized item is copied onto a VM row, either whole or, for an answer to a task,
-- only as far as the item reports a field.
pub mod Partial
use open_v_center_backend.Prelude.{
  ℕ, String, Bool, true, false, not, ◌&&◌, ◌||◌, zero, suc, Option, none, some, List, [], ◌∷◌,
  nonempty, or_text, str_eq, any, is_some, if◌then◌else◌,
}
use open_v_center_backend.Json.{Json, Dict, get, has_key}
use open_v_center_backend.Models.VmRows.{Vm}
use open_v_center_backend.Inventory.Values.{Python, field, parse_dt, truth, or_zero}
use open_v_center_backend.Inventory.Children.{sync_disks, sync_nics, sync_snapshots}
use open_v_center_backend.Inventory.Normalize.{VmItem}

-- `has(*keys)`
unfoldable pub reports : Bool → Dict → List String → Bool
reports partial raw keys = not partial || any (λ k. has_key k raw) keys

-- A name that the item has; a whole write falls back to the row's name and GUID.
abbrev pub new_name : Bool → Bool → VmItem → Vm → String
new_name partial named item v = elim (nonempty item.name) [
  | some n ↦ if named then n else v.name
  | none ↦ if partial then v.name else or_text (nonempty (some v.name)) (or_text v.vm_uuid "")
]

abbrev pub new_state : Bool → VmItem → Vm → String
new_state partial item v = or_text item.state (if partial then v.state else "Unknown")

-- A blank guest name keeps the last one.
abbrev pub new_guest_os : Python → VmItem → Vm → Option String
new_guest_os py item v = elim item.guest_os [
  | none ↦ v.guest_os
  | some s ↦ if str_eq (py.strip s) "" then v.guest_os else some (py.first_255 (py.strip s))
]

-- `int(item.get("vcpu") or (vm.vcpu if partial else 1) or 1)`
abbrev or_one : ℕ → ℕ
or_one zero = 1
or_one (suc n) = suc n

abbrev pub new_vcpu : Bool → VmItem → Vm → ℕ
new_vcpu partial item v = elim item.vcpu [
  | none ↦ or_one (if partial then v.vcpu else 1)
  | some zero ↦ or_one (if partial then v.vcpu else 1)
  | some (suc n) ↦ suc n
]

unfoldable pub write_vm_row : Python → ℕ → ℕ → Option ℕ → Bool → Dict → VmItem → Vm → Vm
write_vm_row py now host_id cluster_id partial raw item v =
    let has = reports partial raw in
    record v {
      host_id = host_id;
      cluster_id = cluster_id;
      name = new_name partial (has ("name" ∷ [])) item v;
      state = if has ("state" ∷ "powerState" ∷ []) then new_state partial item v else v.state;
      metrics_enabled =
          if is_some (field "metricsEnabled" raw) then item.metrics_enabled else v.metrics_enabled;
      guest_os = new_guest_os py item v;
      firmware = if has ("firmware" ∷ "generation" ∷ []) then item.firmware else v.firmware;
      vcpu = if has ("vcpu" ∷ "cpu" ∷ []) then new_vcpu partial item v else v.vcpu;
      memory_dynamic =
          if has ("memoryDynamic" ∷ "memory" ∷ []) then item.memory_dynamic else v.memory_dynamic;
      nested_virtualization =
          if has ("nestedVirtualization" ∷ "nested" ∷ [])
          then item.nested_virtualization
          else v.nested_virtualization;
      highly_available =
          if has ("highlyAvailable" ∷ "ha" ∷ []) then item.highly_available else v.highly_available;
      uptime_sec = if has ("uptimeSec" ∷ []) then item.uptime_sec else v.uptime_sec;
      memory_bytes =
          if has ("memoryBytes" ∷ "memoryMb" ∷ "memoryMB" ∷ "memory" ∷ [])
          then item.memory_bytes
          else v.memory_bytes;
      memory_min_bytes =
          if has ("memoryMinBytes" ∷ "memory" ∷ [])
          then item.memory_min_bytes
          else v.memory_min_bytes;
      memory_max_bytes =
          if has ("memoryMaxBytes" ∷ "memory" ∷ [])
          then item.memory_max_bytes
          else v.memory_max_bytes;
      memory_demand_bytes =
          if has ("memoryDemandBytes" ∷ "memoryConsumedMb" ∷ [])
          then item.memory_demand_bytes
          else v.memory_demand_bytes;
      cpu_usage_percent =
          if has ("cpuUsagePercent" ∷ "cpuUsagePct" ∷ [])
          then item.cpu_usage_percent
          else v.cpu_usage_percent;
      secure_boot = if has ("secureBoot" ∷ []) then item.secure_boot else v.secure_boot;
      secure_boot_template =
          if has ("secureBootTemplate" ∷ [])
          then item.secure_boot_template
          else v.secure_boot_template;
      auto_start_action =
          if has ("autoStartAction" ∷ "automaticStart" ∷ [])
          then item.auto_start_action
          else v.auto_start_action;
      auto_start_delay_sec =
          if has ("autoStartDelaySec" ∷ "automaticStartDelay" ∷ [])
          then item.auto_start_delay_sec
          else v.auto_start_delay_sec;
      auto_stop_action =
          if has ("autoStopAction" ∷ "automaticStop" ∷ [])
          then item.auto_stop_action
          else v.auto_stop_action;
      config_path = if has ("configPath" ∷ "path" ∷ []) then item.config_path else v.config_path;
      dvd_path = if has ("dvdPath" ∷ "dvd" ∷ []) then item.dvd_path else v.dvd_path;
      notes = if has ("notes" ∷ []) then item.notes else v.notes;
      vm_created_at =
          if has ("createdAt" ∷ "creationTime" ∷ []) && truth item.created_at
          then parse_dt py item.created_at
          else v.vm_created_at;
      disks = if has ("disks" ∷ "vhds" ∷ []) then sync_disks py 0 item.disks else v.disks;
      nics = if has ("nics" ∷ []) then sync_nics py 0 item.nics else v.nics;
      snapshots =
          if has ("snapshots" ∷ []) then sync_snapshots py 0 item.snapshots else v.snapshots;
      last_inventory_at = some now;
    }
