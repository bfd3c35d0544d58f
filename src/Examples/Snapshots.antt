-- ===== src/Examples/Snapshots.antt =====
-- Snapshots and hardware of the standalone host.
use open_v_center_backend.Prelude.{
  ◌≡◌, refl, ℕ, String, true, false, Option, none, some, [], ◌∷◌, str_in, any, find,
}
use open_v_center_backend.Json.{
  Json, num, str, arr, obj, nil, cons, Dict, end, entry, get, as_dict, truthy,
}
use open_v_center_backend.Models.{get_host}
use open_v_center_backend.Models.VmRows.{Vm}
use open_v_center_backend.Models.TaskRows.{Task}
use open_v_center_backend.Vms.Paths.{strip}
use open_v_center_backend.Vms.Provision.{placeholder_task}
use open_v_center_backend.Vms.Provision.Bodies.{VmCreate, placeholder, create_params, create_sizing}
use open_v_center_backend.World.{Env}
use open_v_center_backend.Valkey.Memory.{memory, read}
use open_v_center_backend.World.{World}
use open_v_center_backend.Cache.{is_vm_deleted, mark_vm_deleted}
use open_v_center_backend.Inventory.Values.{Python, dict_list}
use open_v_center_backend.Inventory.Sync.{apply_vm_inventory}
use open_v_center_backend.Inventory.Sync.Items.{numbered, has_guid}
use open_v_center_backend.Inventory.Sync.Guids.{guids}
use open_v_center_backend.Inventory.Sync.Listed.{lives, reconciled}
use open_v_center_backend.Inventory.Sync.Deleted.{stale_snapshot}
use open_v_center_backend.Inventory.Hardware.{normalize_hardware, storage_of, normalize_stable}
use open_v_center_backend.Examples.{no_keys, env, host_one, world_with}

abbrev zero_for : ℕ → Json → Option ℕ
zero_for k (num n) = some n
zero_for k _ = none

-- A library that rounds nothing, reads no dates and no images.
abbrev pub python : Python
python = record {
  rounded = zero_for;
  float = λ v. none;
  truncated = zero_for 1;
  percent = λ v. num 0;
  show = λ v. "";
  fromisoformat = λ s. none;
  upper = λ s. s;
  lower = λ s. s;
  strip = λ s. s;
  first_255 = λ s. s;
  split = λ s. s ∷ [];
  b64decode = λ s. none;
}

abbrev pub snapshot_of : String → Dict
snapshot_of u = entry "vms" (arr (cons (obj (entry "id" (str u) end)) nil)) end

abbrev w : World memory.Store
w = world_with []

found : get_host w.db 1 ≡ some host_one
unfolding find
found = refl

abbrev ids : ℕ → ℕ
ids i = i

unmarked : is_vm_deleted ⦃kv = memory⦄ 1000 1 "A-1" w.cache ≡ false
unfolding is_vm_deleted memory no_keys read
unmarked = refl

reconciled_example :
    any
      (lives 1 "A-1")
      (apply_vm_inventory ⦃kv = memory⦄ python env ids ids 1 (snapshot_of "A-1") w).db.vms
    ≡ str_in "A-1" (guids python (numbered ids 0 (dict_list (get "vms" (snapshot_of "A-1")))))
reconciled_example =
    reconciled ⦃kv = memory⦄ python env ids ids 1 (snapshot_of "A-1") w host_one found "A-1"
      unmarked

-- A VM of the host was deleted, and its snapshot still lists it.
abbrev after_delete : World memory.Store
after_delete = record w { cache = mark_vm_deleted ⦃kv = memory⦄ 1000 1 "B-9" w.cache }

marked : is_vm_deleted ⦃kv = memory⦄ 1000 1 "B-9" after_delete.cache ≡ true
unfolding is_vm_deleted mark_vm_deleted memory read
marked = refl

gone : any (has_guid "B-9") after_delete.db.vms ≡ false
unfolding any
gone = refl

stale_snapshot_example :
    let w' =
      apply_vm_inventory ⦃kv = memory⦄ python env ids ids 1 (snapshot_of "B-9") after_delete in
    (any (has_guid "B-9") w'.db.vms ≡ false)
    × (is_vm_deleted ⦃kv = memory⦄ 1000 1 "B-9" w'.cache ≡ false)
stale_snapshot_example =
    stale_snapshot ⦃kv = memory⦄ python env ids ids 1 (snapshot_of "B-9") after_delete host_one
      found "B-9" marked gone

abbrev bare : Dict
bare = entry "id" (str "A-1") end

-- What an old agent sent for a host of four processors.
abbrev flat : Dict
flat = entry "logicalProcessors" (num 4) (entry "osName" (str "Server") end)

abbrev canonical : Dict
canonical =
    entry "cpu"
      (obj (
        entry "model" (str "")
          (entry "sockets" (num 1) (entry "cores" (num 4) (entry "logical" (num 4) end)))))
      (entry "memoryBytes" (num 0) (
        entry "storage" (arr nil) (
          entry "os" (obj (entry "caption" (str "Server") (entry "version" (str "") end))) (
            entry "network" (arr nil) (
              entry "vSwitches" (arr nil) (
                entry "load" (obj (entry "cpuPercent" (num 0) (entry "memoryPercent" (num 0) end)))
                  end))))))

normalized : normalize_hardware python (some (obj flat)) ≡ some canonical
unfolding normalize_hardware as_dict get truthy storage_of dict_list
normalized = refl

normalize_stable_example : normalize_hardware python (some (obj canonical)) ≡ some canonical
normalize_stable_example = normalize_stable python flat canonical normalized

abbrev body : VmCreate
body = record {
  name = "new";
  os = "linux";
  firmware = "UEFI";
  cpu_count = 2;
  memory_mb = 4096;
  memory_dynamic = false;
  memory_min_mb = none;
  memory_max_mb = none;
  destination_storage = "D:\\vms";
  notes = none;
  vlan_id = some 4;
  switch_name = none;
  nested_virtualization = false;
  ha_enabled = false;
  dvd = none;
  start_now = true;
  disks = [];
}

-- A snapshot of the host ten seconds after the create.
abbrev soon : Env
soon = record env { now = 1010 }

abbrev new_vm : Vm
new_vm = placeholder 13 host_one "new" (create_sizing body)

abbrev create_task : Task
create_task = placeholder_task env 8 new_vm "vm_create" (create_params body host_one) "admin"
