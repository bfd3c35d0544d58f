-- ===== src/Vms/Provision/Placeholder.antt =====
-- The end of a VM row: removing it takes the lock and the overlay with it.
use open_v_center_backend.Prelude.{
  ◌≡◌, refl, true, false, ◌&&◌, none, arith, ◌==◌, is_some, any-delete_where, find-any,
}
use open_v_center_backend.Models.{get_host, get_vm}
use open_v_center_backend.Models.Cascade.{delete_vms}
use open_v_center_backend.Models.VmRows.{Vm}
use open_v_center_backend.Valkey.{vm_lock, vm_state, Valkey}
use open_v_center_backend.Errors.{ok, err, api, api_error, host_online}
use open_v_center_backend.World.{World, Env}
use open_v_center_backend.Cache.{force_release_vm_lock, clear_vm_state}
use open_v_center_backend.Vms.Provision.{is_online, remove_vm_from_inventory}

module _ ⦃kv : Valkey⦄ where
  -- Removing a VM that has a GUID and whose host is online is refused, and nothing changes; any other
  -- VM is gone afterwards, with its lock and its overlay.
  pub remove_vm-outcome :
      (env : Env) (v : Vm) (w : World kv.Store)
      → let (r, w') = remove_vm_from_inventory env v w in
        let refused = is_some v.vm_uuid && is_online env (get_host w.db v.host_id) in
        (refused ≡ true → (r ≡ err (api (api_error host_online 409))) × (w' ≡ w))
        × (refused ≡ false
            → (r ≡ ok tt)
              × (get_vm w'.db v.id ≡ none)
              × (kv.get env.now (vm_lock v.id) w'.cache ≡ none)
              × (kv.get env.now (vm_state v.id) w'.cache ≡ none))
  unfolding remove_vm_from_inventory delete_vms clear_vm_state force_release_vm_lock
  remove_vm-outcome env v w = (
    λ e. rw e (refl, refl),
    λ e. rw e (
      refl,
      find-any _ _ (any-delete_where (λ r. r.id == v.id) w.db.vms),
      ground (
        arith,
        kv.get-delete env.now env.now (vm_state v.id) (vm_lock v.id)
            (kv.delete env.now (vm_lock v.id) w.cache).1,
        kv.get-delete env.now env.now (vm_lock v.id) (vm_lock v.id) w.cache,
      ),
      ground (
        arith,
        kv.get-delete env.now env.now (vm_state v.id) (vm_state v.id)
            (kv.delete env.now (vm_lock v.id) w.cache).1,
      ),
    ),
  )
