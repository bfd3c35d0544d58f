-- ===== src/Cache.antt =====
-- app/cache.py: the VM state overlay, the VM lock and the tombstones of deleted VMs, over any
-- Valkey server. The listing of all locks, their release at once and the generic JSON cache are left
-- out.
pub mod Locks
pub mod Bulk
mod Defs
unfoldable pub use Defs.{
  set_vm_state, get_vm_state, clear_vm_state, lock_ttl, acquire_vm_lock, release_vm_lock,
  force_release_vm_lock, get_vm_lock, mark_vm_deleted, is_vm_deleted, clear_vm_deleted,
  list_deleted_vm_uuids, tombstone_ttl, held_by,
}
