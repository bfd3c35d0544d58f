-- ===== src/Routes/Vms/Guarded.antt =====
-- What the handlers of VM operations refuse, and what they record.
use open_v_center_backend.Prelude.{
  ℕ, String, ◌≡◌, refl, ap, sym, ◌∙◌, Bool, true, false, some, [], ◌∷◌, any, any-append, arith,
}
use open_v_center_backend.Json.{Dict, bool, entry, end}
use open_v_center_backend.Models.{get_vm}
use open_v_center_backend.Models.VmRows.{Vm}
use open_v_center_backend.Models.Records.{User}
use open_v_center_backend.Models.TaskRows.{Task}
use open_v_center_backend.Valkey.{Valkey}
use open_v_center_backend.Errors.{api, Result, ok, err, forbidden}
use open_v_center_backend.World.{World, Env, continue}
use open_v_center_backend.Rbac.{VisibleScope, vm_visible}
use open_v_center_backend.Audit.{record_event, pending_for}
use open_v_center_backend.Vms.Actions.{VmAction, delete, is_read_only}
use open_v_center_backend.Vms.Queue.{request_vm_action}
use open_v_center_backend.Routes.Vms.{
  allowed, get_visible_vm, audit_task, vm_action, delete_vm, forget_vm,
}

module _ ⦃kv : Valkey⦄ (env : Env) (task_id event_id : ℕ) (user : User) (scope : VisibleScope)
    (vm_id : ℕ) (w : World kv.Store) where
  -- A VM that the user does not see: an action, a delete and a removal are refused as forbidden, and
  -- change nothing.
  pub hidden_refused :
      (vm : Vm)
      → get_vm w.db vm_id ≡ some vm
      → vm_visible scope vm ≡ false
      → (action : VmAction) (name : String) (params details : Dict) (remove_files : Bool)
      → allowed (some action) ≡ some action
      → (vm_action env task_id event_id user scope vm_id (some action) name params details w
          ≡ (err (api forbidden), w))
        × (delete_vm env task_id event_id user scope vm_id remove_files w
            ≡ (err (api forbidden), w))
        × (forget_vm env event_id user scope vm_id w ≡ (err (api forbidden), w))
  unfolding vm_action delete_vm forget_vm get_visible_vm
  hidden_refused vm found hidden action name params details remove_files ok_name = (
    ground (arith, found, hidden, ok_name),
    ground (arith, found, hidden),
    ground (arith, found, hidden),
  )

  audited :
      (name : String) (vm : Vm) (details : Dict) (t : Task) (v : World kv.Store)
      → any (pending_for (t.id ∷ [])) (audit_task env event_id user name vm details t v).1.db.events
        ≡ true
  unfolding audit_task record_event any
  audited name vm details t v = any-append (pending_for (t.id ∷ [])) v.db.events _ ∙ ground arith

  after_request :
      (name : String) (vm : Vm) (details : Dict) (t : Task) (r : Result Task) (v : World kv.Store)
      → (continue r (audit_task env event_id user name vm details) v).0 ≡ ok t
      → any
          (pending_for (t.id ∷ []))
          (continue r (audit_task env event_id user name vm details) v).1.db.events
        ≡ true
  unfolding audit_task
  after_request name vm details t (ok t') v e =
      ap
        (λ (x : Task).
          any (pending_for (x.id ∷ []))
            (audit_task env event_id user name vm details t' v).1.db.events)
        (sym (same e))
      ∙ audited name vm details t' v
    where
      same : ok t' ≡ ok t → t' ≡ t
      same e = cc
  after_request name vm details t (err x) v e = cc

  -- A VM that the user sees: the request, and then the event.
  module _ (vm : Vm) (found : get_vm w.db vm_id ≡ some vm)
      (visible : vm_visible scope vm ≡ true) where
    abbrev requested : VmAction → Dict → Result Task × World kv.Store
    requested action params = request_vm_action env task_id vm action user.email params w

    abbrev then_audited :
        String → Dict → Result Task × World kv.Store → Result Task × World kv.Store
    then_audited name details (r, v) = continue r (audit_task env event_id user name vm details) v

    vm_action-visible :
        (action : VmAction) (name : String) (params details : Dict)
        → allowed (some action) ≡ some action
        → is_read_only action ≡ false
        → vm_action env task_id event_id user scope vm_id (some action) name params details w
          ≡ then_audited name details (requested action params)
    unfolding vm_action get_visible_vm
    vm_action-visible action name params details ok_name changes =
        rw (ok_name, vm_action) (rw (found, vm_action) (rw visible (rw changes refl)))

    delete_vm-visible :
        (remove_files : Bool)
        → delete_vm env task_id event_id user scope vm_id remove_files w
          ≡ then_audited "vm.delete"
              (entry "removeFiles" (bool remove_files) end)
              (requested delete (entry "remove_files" (bool remove_files) end))
    unfolding delete_vm get_visible_vm
    delete_vm-visible remove_files = rw (found, delete_vm) (rw visible refl)

    in_trail :
        (name : String) (details : Dict) (t : Task) (q r : Result Task × World kv.Store)
        → q ≡ then_audited name details r
        → q.0 ≡ ok t
        → any (pending_for (t.id ∷ [])) q.1.db.events ≡ true
    in_trail name details t q (r, v) shape e =
        ap (λ (x : Result Task × World kv.Store). any (pending_for (t.id ∷ [])) x.1.db.events) shape
        ∙ after_request name vm details t r v
            (sym (ap (λ (x : Result Task × World kv.Store). x.0) shape) ∙ e)

  -- On a VM that the user sees, where an action that changes something is accepted, the audit trail has a
  -- pending event of the action's task.
  pub accepted_audited :
      (vm : Vm) (found : get_vm w.db vm_id ≡ some vm) (visible : vm_visible scope vm ≡ true)
      (action : VmAction) (name : String) (params details : Dict) (t : Task)
      → allowed (some action) ≡ some action
      → is_read_only action ≡ false
      → (vm_action env task_id event_id user scope vm_id (some action) name params details w).0
        ≡ ok t
      → any
          (pending_for (t.id ∷ []))
          (vm_action env task_id event_id user scope vm_id
            (some action)
            name
            params
            details
            w).1.db.events
        ≡ true
  accepted_audited vm found visible action name params details t ok_name changes =
      in_trail vm found visible name details t _ (requested vm found visible action params)
        (vm_action-visible vm found visible action name params details ok_name changes)

  -- The same for a delete.
  delete_audited :
      (vm : Vm) (found : get_vm w.db vm_id ≡ some vm) (visible : vm_visible scope vm ≡ true)
      (remove_files : Bool) (t : Task)
      → (delete_vm env task_id event_id user scope vm_id remove_files w).0 ≡ ok t
      → any
          (pending_for (t.id ∷ []))
          (delete_vm env task_id event_id user scope vm_id remove_files w).1.db.events
        ≡ true
  delete_audited vm found visible remove_files t =
      in_trail vm found visible "vm.delete" (entry "removeFiles" (bool remove_files) end) t _
        (requested vm found visible delete (entry "remove_files" (bool remove_files) end))
        (delete_vm-visible vm found visible remove_files)
