-- ===== src/Examples/Guards.antt =====
-- Agent builds and upgrades, and the routes of VM operations.
use open_v_center_backend.Prelude.{
  ◌≡◌, refl, ℕ, String, Bool, true, false, Option, none, some, [], ◌∷◌, any, find, count, arith,
}
use open_v_center_backend.Json.{end}
use open_v_center_backend.Models.{Db, get_vm}
use open_v_center_backend.Models.Records.{AgentBinary}
use open_v_center_backend.Models.TaskRows.{Task}
use open_v_center_backend.Valkey.Memory.{memory}
use open_v_center_backend.Errors.{After, ok}
use open_v_center_backend.World.{World, publish_request}
use open_v_center_backend.Cache.{acquire_vm_lock}
use open_v_center_backend.Hosts.Status.{require_host_online, agent_connected}
use open_v_center_backend.Vms.Queue.{
  vm_task, request_vm_action, check_action, queue_vm_task, take_lock, submit, release_on_error,
}
use open_v_center_backend.Rbac.{vm_visible, all_visible}
use open_v_center_backend.Audit.{pending_for}
use open_v_center_backend.Agents.Binaries.{update_agent_binary}
use open_v_center_backend.Agents.Upgrade.{rollout_agent_binary}
use open_v_center_backend.Agents.OneActive.{OneActive, UniqueBinaries, update-OneActive}
use open_v_center_backend.Agents.OneUpgrade.{OneUpgrade, rollout-OneUpgrade}
use open_v_center_backend.Vms.Actions.{start}
use open_v_center_backend.Routes.Vms.{vm_action}
use open_v_center_backend.Routes.Vms.Guarded.{accepted_audited}
use open_v_center_backend.Examples.{env, viewer, vm_one, world_with, no_keys}

abbrev build_of : ℕ → String → Bool → AgentBinary
build_of i version active = record {
  id = i;
  version = version;
  hypervisor = "hyperv";
  filename = "ovc-agent.exe";
  size_bytes = 2;
  checksum_sha256 = "c";
  content_type = "b";
  storage_backend = "local";
  storage_key = "k";
  notes = none;
  is_active = active;
  uploaded_by = "admin";
}

abbrev w : World memory.Store
w = world_with []

abbrev built : World memory.Store
built = record w {
  db = record w.db { agent_binaries = build_of 50 "1.0" true ∷ build_of 51 "1.1" false ∷ [] };
}

unique_builds : UniqueBinaries built.db.agent_binaries
unfolding count
unique_builds i = ground arith

one_build : OneActive built.db.agent_binaries
unfolding count
one_build h = ground arith

update-OneActive_example :
    After
      (λ (db' : Db). OneActive db'.agent_binaries)
      (update_agent_binary 90 1000 viewer true 51 none (some true) built.db)
update-OneActive_example =
    update-OneActive 90 1000 viewer true 51 none (some true) built.db unique_builds one_build

abbrev link : AgentBinary → Option String
link b = some "http://ovc/agent"

no_upgrade : OneUpgrade built.db
unfolding count
no_upgrade i = omega arith

abbrev task_ids : ℕ → ℕ
task_ids i = i

rollout-OneUpgrade_example :
    OneUpgrade (rollout_agent_binary link env task_ids task_ids viewer true 51 [] built).1.db
rollout-OneUpgrade_example =
    rollout-OneUpgrade link env task_ids task_ids viewer true 51 [] built no_upgrade

found : get_vm w.db 10 ≡ some vm_one
unfolding find
found = refl

visible : vm_visible all_visible vm_one ≡ true
unfolding vm_visible
visible = refl

abbrev queued_task : Task
queued_task = vm_task env 7 vm_one "A-1" "vm_start" end "v@x"

accepted :
    (vm_action ⦃kv = memory⦄ env 7 90 viewer all_visible 10 (some start) "vm.start" end end w).0
    ≡ ok queued_task
unfolding vm_action find vm_visible request_vm_action check_action queue_vm_task require_host_online
    agent_connected take_lock acquire_vm_lock memory no_keys release_on_error submit publish_request
accepted = refl

accepted_audited_example :
    any
      (pending_for (7 ∷ []))
      (vm_action ⦃kv = memory⦄ env 7 90 viewer all_visible 10
        (some start)
        "vm.start"
        end
        end
        w).1.db.events
    ≡ true
accepted_audited_example =
    accepted_audited ⦃kv = memory⦄ env 7 90 viewer all_visible 10 w vm_one found visible start
      "vm.start" end end queued_task refl refl accepted
