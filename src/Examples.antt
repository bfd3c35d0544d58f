-- ===== src/Examples.antt =====
-- One small installation: a standalone host and a node of a cluster, with VMs, folders and tags. The
-- children of this module run the services and the worker on it.
pub mod Locks
pub mod Requests
pub mod Responses
pub mod Inventory
pub mod Snapshots
pub mod Runs
pub mod Guards
pub mod Trail
pub mod Store
pub mod Login
pub mod Hosting
pub mod Listings
use open_v_center_backend.Prelude.{ℕ, String, Bool, true, false, Option, none, some, List, [], ◌∷◌}
use open_v_center_backend.Settings.{default_settings}
use open_v_center_backend.Models.{Db}
use open_v_center_backend.Models.VmRows.{Vm}
use open_v_center_backend.Models.TaskRows.{Task, TaskStatus, AgentResponse, ResponseStatus}
use open_v_center_backend.Models.Topology.{Cluster, Host, Folder, Vlan}
use open_v_center_backend.Models.Records.{User, ScopeGrant, Level, TagCategory, Tag, VmTag}
use open_v_center_backend.Json.{Dict, end}
use open_v_center_backend.Valkey.Memory.{memory}
use open_v_center_backend.World.{World, Env}
use open_v_center_backend.Vms.Queue.{vm_task}

abbrev pub env : Env
env = record { now = 1000; settings = default_settings; broker_up = true }

abbrev pub env_down : Env
env_down = record { now = 1000; settings = default_settings; broker_up = false }

abbrev pub host_of : ℕ → Option ℕ → Host
host_of i c = record {
  id = i;
  short_id = "h";
  cluster_id = c;
  name = "node";
  fqdn = none;
  ip_address = none;
  agent_rmq_user = none;
  agent_rmq_password = none;
  hypervisor = "hyperv";
  agent_version = none;
  agent_last_seen = some 950;
  agent_refresh_vm = none;
  agent_refresh_host = none;
  hardware = none;
}

abbrev pub vm_of : ℕ → ℕ → Option ℕ → Option String → Vm
vm_of i h folder uuid = record {
  id = i;
  vm_uuid = uuid;
  host_id = h;
  cluster_id = none;
  folder_id = folder;
  name = "web";
  state = "Off";
  firmware = "UEFI";
  guest_os = none;
  uptime_sec = none;
  vcpu = 2;
  memory_bytes = 4096;
  memory_min_bytes = none;
  memory_max_bytes = none;
  memory_dynamic = false;
  cpu_usage_percent = none;
  memory_demand_bytes = none;
  secure_boot = none;
  secure_boot_template = none;
  nested_virtualization = false;
  auto_start_action = none;
  auto_start_delay_sec = none;
  auto_stop_action = none;
  config_path = none;
  dvd_path = none;
  highly_available = false;
  metrics_enabled = false;
  notes = none;
  vm_created_at = none;
  last_inventory_at = none;
  disks = [];
  nics = [];
  snapshots = [];
}

abbrev pub host_one : Host
host_one = host_of 1 none

abbrev pub host_two : Host
host_two = host_of 2 (some 5)

abbrev pub folder_of : ℕ → Option ℕ → Option ℕ → Folder
folder_of i c h = record { id = i; cluster_id = c; host_id = h; name = "prod" }

abbrev pub vm_one : Vm
vm_one = vm_of 10 1 (some 20) (some "A-1")

abbrev pub vm_two : Vm
vm_two = vm_of 11 2 (some 21) (some "A-2")

abbrev pub cluster_five : Cluster
cluster_five = record { id = 5; name = "c"; hypervisor = "hyperv" }

abbrev pub viewer : User
viewer = record { id = 3; email = "v@x"; display_name = none; roles = "VIEWER" ∷ [] }

abbrev pub tag_of : ℕ → Option ℕ → Tag
tag_of i c = record { id = i; category_id = c; name = "t"; color = "red" }

abbrev pub db_with : List Task → Db
db_with tasks = record {
  clusters = cluster_five ∷ [];
  hosts = host_one ∷ host_two ∷ [];
  folders = folder_of 20 none (some 1) ∷ folder_of 21 (some 5) none ∷ [];
  vlans = [];
  vms = vm_one ∷ vm_two ∷ [];
  tasks = tasks;
  templates = [];
  isos = [];
  thumbnails = [];
  host_metrics = [];
  vm_metrics = [];
  agent_binaries = [];
  categories = record { id = 30; name = "env" } ∷ [];
  tags = tag_of 31 (some 30) ∷ tag_of 32 (some 30) ∷ tag_of 33 none ∷ [];
  vm_tags = record { vm_id = 10; tag_id = 32 } ∷ [];
  users = viewer ∷ [];
  grants = record { user_id = 3; level = Level.cluster; scope_id = some 5 } ∷ [];
  events = [];
}

unfoldable pub no_keys : memory.Store
unfolding memory
no_keys = []

abbrev pub world_with : List Task → World memory.Store
world_with tasks = record { db = db_with tasks; cache = no_keys; published = [] }

-- A start of the first VM that its agent has not answered yet.
abbrev pub start_task : Task
start_task = vm_task env 7 vm_one "A-1" "vm_start" end "admin"

abbrev pub ended_task : Task
ended_task = record start_task { status = TaskStatus.succeeded }

abbrev pub answer_of : ResponseStatus → AgentResponse
answer_of status = record {
  id = 7;
  function = "vm_start";
  status = status;
  progress = some 40;
  progress_message = none;
  result = none;
  error = none;
  vm_id = none;
  vm_state = none;
  vm_status = none;
  template = none;
  finished_at = none;
}
