-- ===== src/Worker/Consumers.antt =====
-- app/worker/consumers.py and app/messaging/queues.py: a message of an agent goes to its handler.
use open_v_center_backend.Prelude.{ℕ, String, Option, none, some, List}
use open_v_center_backend.Json.{Dict}
use open_v_center_backend.Models.TaskRows.{AgentResponse}
use open_v_center_backend.Models.{Db}
use open_v_center_backend.Valkey.{Valkey}
use open_v_center_backend.World.{World, Env}
use open_v_center_backend.Inventory.Values.{Python}
use open_v_center_backend.Inventory.Sync.{apply_vm_inventory}
use open_v_center_backend.Inventory.Hosts.{apply_agent_status, apply_host_inventory}
use open_v_center_backend.Inventory.Images.{apply_template_inventory, apply_iso_inventory}
use open_v_center_backend.Inventory.Metrics.{apply_host_metrics, apply_vm_metrics}
use open_v_center_backend.Inventory.Answers.{inventory_refreshes}
use open_v_center_backend.Worker.Response.{apply_response}

-- QueueKind
pub data QueueKind : Type 0 where
  request response agent_status vm_inventory host_inventory template_inventory iso_inventory
        vm_metrics host_metrics :
      QueueKind

-- What the handlers take from the libraries, and the ids that new_id() draws in one call: of rows by
-- position, of audit events by VM, and of templates.
pub record Runtime : Type 0 where
  pub py : Python
  -- `json.loads(body.decode())` of a dict, or None
  pub loads : List ℕ → Option Dict
  -- `AgentResponse.model_validate`, or None where it raises
  pub validate : Dict → Option AgentResponse
  pub new_id : ℕ → ℕ
  pub event_id : ℕ → ℕ
  pub template_id : ℕ → String

module _ ⦃kv : Valkey⦄ where
  open kv use {Store}

  abbrev on_db : (Db → Db) → World Store → World Store
  on_db f w = record w { db = f w.db }

  -- A dict that arrived on a queue. No queue of requests is consumed.
  unfoldable pub dispatch : Runtime → Env → ℕ → QueueKind → Dict → World Store → World Store
  dispatch rt env host_id response payload w = elim (rt.validate payload) [
    | none ↦ w
    | some resp ↦ apply_response (inventory_refreshes rt.py (rt.template_id 0)) env host_id resp w
  ]
  dispatch rt env host_id agent_status payload w =
      on_db (apply_agent_status rt.py env.now host_id payload) w
  dispatch rt env host_id vm_inventory payload w =
      apply_vm_inventory rt.py env rt.new_id rt.event_id host_id payload w
  dispatch rt env host_id host_inventory payload w =
      on_db (apply_host_inventory rt.py host_id payload) w
  dispatch rt env host_id template_inventory payload w =
      on_db (apply_template_inventory rt.py rt.template_id host_id payload) w
  dispatch rt env host_id iso_inventory payload w =
      on_db (apply_iso_inventory rt.new_id host_id payload) w
  dispatch rt env host_id host_metrics payload w =
      on_db (apply_host_metrics rt.py env host_id payload) w
  dispatch rt env host_id vm_metrics payload w =
      on_db (apply_vm_metrics rt.py env host_id payload) w
  dispatch rt env host_id request payload w = w

  -- handle_message: a body that is no JSON object is dropped.
  unfoldable pub handle_message : Runtime → Env → ℕ → QueueKind → List ℕ → World Store → World Store
  unfolding dispatch
  handle_message rt env host_id kind body w = elim (rt.loads body) [
    | none ↦ w
    | some payload ↦ dispatch rt env host_id kind payload w
  ]
