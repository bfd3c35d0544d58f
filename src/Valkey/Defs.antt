-- ===== src/Valkey/Defs.antt =====
-- Keys, values and the interface of the server.
use open_v_center_backend.Prelude.{
  ℕ, ◌+◌, ◌≤◌, String, ◌≡◌, ◌↔◌, Bool, true, false, ◌&&◌, Option, none, some, arith, ltb, ◌==◌,
  str_eq, eq_iff, is_some, List, str_in, if◌then◌else◌,
}

-- The JSON payload of a VM lock.
pub record Lock : Type 0 where
  pub task_id : ℕ
  pub kind : String
  pub requested_by : String
  pub acquired_at : ℕ

-- `vm:state:<id>`, `vm:lock:<id>` and `vm:deleted:<host>:<guid>`: ids hold no colon, so two keys
-- are the same text only if they have one prefix and the same parts.
pub data Key : Type 0 where
  vm_state vm_lock : ℕ → Key
  vm_deleted : ℕ → String → Key

pub data Entry : Type 0 where
  state : String → Entry
  lock : Lock → Entry
  stamp : ℕ → Entry

abbrev pub key_eq : Key → Key → Bool
key_eq (vm_state a) (vm_state b) = a == b
key_eq (vm_lock a) (vm_lock b) = a == b
key_eq (vm_deleted h u) (vm_deleted g v) = h == g && str_eq u v
key_eq _ _ = false

-- The test decides equality of keys.
pub key_eq_iff : (k j : Key) → (key_eq k j ≡ true) ↔ (k ≡ j)
key_eq_iff (vm_state a) (vm_state b) = ground arith
key_eq_iff (vm_lock a) (vm_lock b) = ground arith
key_eq_iff (vm_deleted h u) (vm_deleted g v) = ground (arith, eq_iff u v)
key_eq_iff k j = ground arith

pub record Valkey : Type 1 where
  pub Store : Type 0
  pub get : ℕ → Key → Store → Option Entry
  pub set : ℕ → Key → Entry → ℕ → Store → Store
  pub set_nx : ℕ → Key → Entry → ℕ → Store → Bool × Store
  pub delete : ℕ → Key → Store → Bool × Store
  -- The GUIDs of the keys that SCAN finds under `vm:deleted:<host>:`.
  pub scan_deleted : ℕ → ℕ → Store → List String
  -- A value that was set is there until its expiry, and other keys are left alone.
  pub get-set :
      (n m : ℕ) (k j : Key) (e : Entry) (ttl : ℕ) (s : Store)
      → n ≤ m
      → get m j (set n k e ttl s)
        ≡ (if key_eq k j then (if ltb m (n + ttl) then some e else none) else get m j s)
  pub set_nx_free :
      (n : ℕ) (k : Key) (e : Entry) (ttl : ℕ) (s : Store)
      → get n k s ≡ none
      → set_nx n k e ttl s ≡ (true, set n k e ttl s)
  pub set_nx_held :
      (n : ℕ) (k : Key) (e : Entry) (ttl : ℕ) (s : Store)
      → is_some (get n k s) ≡ true
      → set_nx n k e ttl s ≡ (false, s)
  -- DEL counts the keys that were there.
  pub delete_count : (n : ℕ) (k : Key) (s : Store) → (delete n k s).0 ≡ is_some (get n k s)
  pub get-delete :
      (n m : ℕ) (k j : Key) (s : Store)
      → n ≤ m
      → get m j (delete n k s).1 ≡ (if key_eq k j then none else get m j s)
  -- SCAN finds exactly the keys that are there.
  pub scan_deleted_lem :
      (n h : ℕ) (u : String) (s : Store)
      → str_in u (scan_deleted n h s) ≡ is_some (get n (vm_deleted h u) s)
