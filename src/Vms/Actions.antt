-- ===== src/Vms/Actions.antt =====
-- ACTION_MAP of app/services/vms.py: the actions of the API, the agent function of each, and the
-- state that a VM shows while it runs.
use open_v_center_backend.Prelude.{String, Bool, true, false, Option, none, some}

pub data VmAction : Type 0 where
  start stop shutdown restart pause delete : VmAction
  enable_metrics disable_metrics rename edit migrate move_storage : VmAction
  startup_change mount_dvd eject_dvd enable_ha disable_ha : VmAction
  export_template notes_edit snapshot_create snapshot_remove : VmAction
  snapshot_restore refresh : VmAction

abbrev pub action_map : VmAction → String × Option String
action_map start = ("vm_start", some "Starting")
action_map stop = ("vm_stop", some "Stopping")
action_map shutdown = ("vm_shutdown", some "Stopping")
action_map restart = ("vm_restart", some "Restarting")
action_map pause = ("vm_pause", some "Pausing")
action_map delete = ("vm_delete", some "Deleting")
action_map enable_metrics = ("vm_enable_metrics", none)
action_map disable_metrics = ("vm_disable_metrics", none)
action_map rename = ("vm_rename", none)
action_map edit = ("vm_edit", none)
action_map migrate = ("vm_migrate", none)
action_map move_storage = ("vm_move", none)
action_map startup_change = ("vm_startup_change", none)
action_map mount_dvd = ("mount_dvd", none)
action_map eject_dvd = ("eject_dvd", none)
action_map enable_ha = ("enable_ha", none)
action_map disable_ha = ("disable_ha", none)
action_map export_template = ("vm_export_template", none)
action_map notes_edit = ("notes_edit", none)
action_map snapshot_create = ("snapshot_create", none)
action_map snapshot_remove = ("snapshot_remove", none)
action_map snapshot_restore = ("snapshot_restore", none)
action_map refresh = ("refresh_status", none)

-- `action in READ_ONLY_VM_ACTIONS`
abbrev pub is_read_only : VmAction → Bool
is_read_only refresh = true
is_read_only _ = false

abbrev pub is_migrate : VmAction → Bool
is_migrate migrate = true
is_migrate _ = false

abbrev pub is_move_storage : VmAction → Bool
is_move_storage move_storage = true
is_move_storage _ = false
