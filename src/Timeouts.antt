-- ===== src/Timeouts.antt =====
-- app/task_timeouts.py: the deadline of a task by its kind.
use open_v_center_backend.Prelude.{ℕ, ◌≤◌, max, String, List, [], ◌∷◌, arith, str_eq, if◌then◌else◌}
use open_v_center_backend.Settings.{Settings}

-- _LONG_TASK_TIMEOUTS
abbrev pub long_task_timeouts : List (String × ℕ)
long_task_timeouts =
    ("vm_shutdown", 900)
    ∷ ("vm_create", 2100)
    ∷ ("vm_move", 2100)
    ∷ ("vm_rename", 2100)
    ∷ ("vm_export_template", 2100)
    ∷ ("vm_batch_start", 2100)
    ∷ ("vm_batch_stop", 2100)
    ∷ ("vm_clone", 2100)
    ∷ ("vm_edit", 2100)
    ∷ ("host_update_agent", 1800)
    ∷ []

-- `d.get(kind, 0)`
unfoldable pub get_or_zero : String → List (String × ℕ) → ℕ
get_or_zero k [] = 0
get_or_zero k ((j, v) ∷ d) = if str_eq j k then v else get_or_zero k d

unfoldable pub task_timeout_seconds : Settings → String → ℕ
task_timeout_seconds s kind = max (get_or_zero kind long_task_timeouts) s.task_timeout_seconds

-- `max(*d.values())`
unfoldable pub max_value : List (String × ℕ) → ℕ
max_value [] = 0
max_value ((_, v) ∷ d) = max v (max_value d)

unfoldable pub max_task_timeout_seconds : Settings → ℕ
max_task_timeout_seconds s = max s.task_timeout_seconds (max_value long_task_timeouts)

pub default-le-timeout :
    (s : Settings) (kind : String) → s.task_timeout_seconds ≤ task_timeout_seconds s kind
unfolding task_timeout_seconds
default-le-timeout s kind = omega arith
