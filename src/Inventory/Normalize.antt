-- ===== src/Inventory/Normalize.antt =====
-- normalize_vm: the agent's `VMInfo` in the shape of the backend's columns.
use open_v_center_backend.Prelude.{ℕ, String, Bool, Option, none, some, List, [], ◌∷◌}
use open_v_center_backend.Json.{Json, Dict, end, get, as_dict, as_text}
use open_v_center_backend.Models.VmRows.{Float}
use open_v_center_backend.Inventory.Values.{
  Python, field, or_json, truth, or_zero, first, number, flag, text_or_none, as_int, as_float,
  mib_to_bytes, firmware_of,
}
use open_v_center_backend.Inventory.Children.{normalize_disks, normalize_nics, normalize_snapshots}

pub record VmItem : Type 0 where
  pub vm_uuid : Option String
  pub name : Option String
  pub state : Option String
  pub metrics_enabled : Bool
  pub firmware : String
  pub guest_os : Option String
  pub uptime_sec : Option ℕ
  pub vcpu : Option ℕ
  pub memory_bytes : ℕ
  pub memory_min_bytes : Option ℕ
  pub memory_max_bytes : Option ℕ
  pub memory_dynamic : Bool
  pub memory_demand_bytes : Option ℕ
  pub cpu_usage_percent : Option Float
  pub secure_boot : Option Bool
  pub secure_boot_template : Option String
  pub nested_virtualization : Bool
  pub auto_start_action : Option String
  pub auto_start_delay_sec : Option ℕ
  pub auto_stop_action : Option String
  pub config_path : Option String
  pub dvd_path : Option String
  pub highly_available : Bool
  pub disks : List Dict
  pub nics : List Dict
  pub snapshots : List Dict
  pub notes : Option String
  pub created_at : Option Json

-- `item[k] if isinstance(item.get(k), dict) else {}`
abbrev sub_dict : String → Dict → Dict
sub_dict k item = elim (as_dict (get k item)) [ none ↦ end | some d ↦ d ]

abbrev state_of : Option Json → Option String
state_of none = some "Unknown"
state_of (some v) = as_text (some v)

module _ (py : Python) where
  -- The bytes of memory: the flat field, the canonical object, or the agent's MiB.
  unfoldable pub memory_of : Dict → ℕ
  unfolding field first
  memory_of item =
      elim (or_json (first item ("memoryBytes" ∷ []))
        (field "assignedBytes" (sub_dict "memory" item))) [
          | none ↦ or_zero (mib_to_bytes py (first item ("memoryMb" ∷ "memoryMB" ∷ [])))
          | some v ↦ or_zero (as_int py (some v))
        ]

  unfoldable pub demand_of : Dict → Option ℕ
  unfolding field first
  demand_of item = elim (first item ("memoryDemandBytes" ∷ [])) [
    | none ↦ mib_to_bytes py (first item ("memoryConsumedMb" ∷ []))
    | some v ↦ as_int py (some v)
  ]

  abbrev vcpu_of : Dict → Option Json
  vcpu_of item = elim (field "vcpu" item) [
    | none ↦ field "vcpus" (sub_dict "cpu" item)
    | some v ↦ some v
  ]

  unfoldable pub normalize_vm : Dict → VmItem
  unfolding memory_of demand_of field first
  normalize_vm item =
      let mem = sub_dict "memory" item in
      record {
        vm_uuid = text_or_none (or_json (field "id" item) (field "vmId" item));
        name = as_text (get "name" item);
        state = state_of (get "state" item);
        metrics_enabled = truth (field "metricsEnabled" item);
        firmware = firmware_of py item;
        guest_os = as_text (get "guestOs" item);
        uptime_sec = number (get "uptimeSec" item);
        vcpu = number (vcpu_of item);
        memory_bytes = memory_of item;
        memory_min_bytes =
            as_int py (or_json (first item ("memoryMinBytes" ∷ [])) (field "minBytes" mem));
        memory_max_bytes =
            as_int py (or_json (first item ("memoryMaxBytes" ∷ [])) (field "maxBytes" mem));
        memory_dynamic = truth (or_json (field "memoryDynamic" item) (field "dynamic" mem));
        memory_demand_bytes = demand_of item;
        cpu_usage_percent = as_float py (first item ("cpuUsagePercent" ∷ "cpuUsagePct" ∷ []));
        secure_boot = flag (get "secureBoot" item);
        secure_boot_template = text_or_none (get "secureBootTemplate" item);
        nested_virtualization = truth (first item ("nestedVirtualization" ∷ "nested" ∷ []));
        auto_start_action = as_text (first item ("autoStartAction" ∷ "automaticStart" ∷ []));
        auto_start_delay_sec =
            as_int py (first item ("autoStartDelaySec" ∷ "automaticStartDelay" ∷ []));
        auto_stop_action = as_text (first item ("autoStopAction" ∷ "automaticStop" ∷ []));
        config_path = as_text (first item ("configPath" ∷ "path" ∷ []));
        dvd_path = as_text (first item ("dvdPath" ∷ "dvd" ∷ []));
        highly_available = truth (first item ("highlyAvailable" ∷ "ha" ∷ []));
        disks = normalize_disks py item;
        nics = normalize_nics py item;
        snapshots = normalize_snapshots py item;
        notes = as_text (get "notes" item);
        created_at = or_json (field "createdAt" item) (field "creationTime" item);
      }
