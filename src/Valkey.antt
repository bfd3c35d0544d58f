-- ===== src/Valkey.antt =====
-- The Valkey server as app/cache.py uses it: string keys with an expiry, `SET … EX`, `SET … NX EX`,
-- `GET` and `DEL`. The server is not part of the repository: it is a parameter with the documented
-- behaviour of those commands as laws. Each command carries the time at which it runs.
pub mod Memory
mod Defs
pub use Defs.{
  Lock, Key, vm_state, vm_lock, vm_deleted, Entry, state, lock, stamp, key_eq_iff, Valkey,
}
unfoldable pub use Defs.{key_eq}
