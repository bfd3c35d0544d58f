-- ===== src/Inventory/Children.antt =====
-- The lists inside a VM item: how normalize_vm brings the agent's disks, adapters and snapshots to one
-- shape, and _sync_disks, _sync_nics and _sync_snapshots, which replace a VM's own lists by them.
use open_v_center_backend.Prelude.{
  ℕ, suc, String, Bool, true, Option, none, some, List, [], ◌∷◌, map, ltb, if◌then◌else◌,
}
use open_v_center_backend.Json.{
  Json, null, bool, num, str, arr, Items, nil, cons, Dict, end, entry, get, has_key, truthy,
}
use open_v_center_backend.Models.VmRows.{VmDisk, VmNic, VmSnapshot}
use open_v_center_backend.Inventory.Values.{
  Python, gib, field, or_json, or_zero, number, text_or_empty, text_or_none, dict_list, as_int,
  parse_dt, split_ips,
}

-- `d.get(k, default)` as a value of a new dict.
abbrev get_or : String → Json → Dict → Json
get_or k v d = elim (get k d) [ none ↦ v | some x ↦ x ]

abbrev or_null : Option Json → Json
or_null none = null
or_null (some v) = v

abbrev or_else_str : Option Json → String → Json
or_else_str o s = elim (or_json o none) [ none ↦ str s | some v ↦ v ]

abbrev number_json : Option ℕ → Json
number_json none = null
number_json (some n) = num n

-- `bool(d.get("connected", True))`
abbrev pub is_connected : Dict → Bool
is_connected d = elim (get "connected" d) [ none ↦ true | some v ↦ truthy v ]

abbrev text_items : List String → Items
text_items [] = nil
text_items (s ∷ ss) = cons (str s) (text_items ss)

-- `list(d.get("ipAddresses") or [])`
unfoldable texts_of : Items → List String
texts_of nil = []
texts_of (cons (str s) xs) = s ∷ texts_of xs
texts_of (cons x xs) = texts_of xs

abbrev text_list : Option Json → List String
text_list (some (arr xs)) = texts_of xs
text_list _ = []

-- _access_vlan
abbrev pub access_vlan : Option ℕ → Option ℕ
access_vlan none = none
access_vlan (some n) = if ltb 0 n then some n else none

unfoldable pub normalize_snapshot : Dict → Dict
unfolding field
normalize_snapshot s = entry "id" (or_else_str (or_json (field "id" s) (field "snapshotId" s)) "") (
    entry "name" (get_or "name" (str "") s) (
      entry "parentId" (or_null (or_json (field "parentId" s) (field "parentSnapshotId" s))) (
        entry "type" (or_null (or_json (or_json (field "type" s) (field "snapshotType" s)) none)) (
          entry "createdAt" (or_null (or_json (field "createdAt" s) (field "creationTime" s)))
            end))))

module _ (py : Python) where
  unfoldable pub normalize_disk : Dict → Dict
  unfolding field
  normalize_disk v = entry "id" (or_else_str (or_json (field "diskId" v) (field "id" v)) "") (
      entry "path" (get_or "path" (str "") v) (
        entry "controller" (get_or "controller" (str "") v) (
          entry "sizeBytes"
            (num (or_zero (py.rounded gib (or_null (or_json (field "sizeGb" v) (some (num 0)))))))
            (entry "usedBytes" (number_json (as_int py (field "usedBytes" v))) (
              entry "type" (or_else_str (field "type" v) "")
                (entry "format" (str (py.upper (text_or_empty (field "format" v)))) end))))))

  unfoldable pub normalize_nic : Dict → Dict
  unfolding field
  normalize_nic n = entry "id" (get_or "id" (str "") n) (
      entry "name" (get_or "name" (str "") n) (
        entry "switchName" (or_else_str (or_json (field "switchName" n) (field "networkId" n)) "") (
          entry "vlanId" (or_null (field "vlanId" n)) (
            entry "macAddress" (get_or "macAddress" (str "") n) (
              entry "ipAddresses" (arr (text_items (split_ips py (field "ipAddresses" n))))
                (entry "connected" (bool (is_connected n)) end))))))

  -- `disks`, or the agent's `vhds`.
  unfoldable pub normalize_disks : Dict → List Dict
  unfolding field
  normalize_disks item = elim (field "disks" item) [
    | none ↦ map normalize_disk (dict_list (field "vhds" item))
    | some v ↦ dict_list (some v)
  ]

  abbrev rebuilt : List Dict → List Dict
  rebuilt [] = []
  rebuilt (n ∷ ns) = if has_key "switchName" n then n ∷ ns else map normalize_nic (n ∷ ns)

  -- `nics`, brought to the shape with a `switchName` unless the first has one.
  unfoldable pub normalize_nics : Dict → List Dict
  unfolding field
  normalize_nics item = rebuilt (dict_list (or_json (field "nics" item) none))

  unfoldable pub normalize_snapshots : Dict → List Dict
  unfolding field
  normalize_snapshots item = map normalize_snapshot (dict_list (field "snapshots" item))

  unfoldable pub sync_disks : ℕ → List Dict → List VmDisk
  unfolding field
  sync_disks i [] = []
  sync_disks i (d ∷ ds) =
      record {
        position = i;
        disk_id = text_or_none (field "id" d);
        path = text_or_none (field "path" d);
        controller = text_or_none (field "controller" d);
        size_bytes = as_int py (field "sizeBytes" d);
        used_bytes = as_int py (field "usedBytes" d);
        type = text_or_none (field "type" d);
        format = text_or_none (field "format" d);
      }
      ∷ sync_disks (suc i) ds

  unfoldable pub sync_nics : ℕ → List Dict → List VmNic
  unfolding field texts_of
  sync_nics i [] = []
  sync_nics i (n ∷ ns) =
      record {
        position = i;
        nic_id = text_or_none (field "id" n);
        name = text_or_empty (field "name" n);
        switch_name = text_or_none (field "switchName" n);
        vlan_id = access_vlan (number (field "vlanId" n));
        mac_address = text_or_none (field "macAddress" n);
        ip_addresses = text_list (field "ipAddresses" n);
        connected = is_connected n;
      }
      ∷ sync_nics (suc i) ns

  unfoldable pub sync_snapshots : ℕ → List Dict → List VmSnapshot
  unfolding field
  sync_snapshots i [] = []
  sync_snapshots i (s ∷ ss) =
      record {
        position = i;
        snapshot_id = text_or_empty (field "id" s);
        name = text_or_empty (field "name" s);
        parent_snapshot_id = text_or_none (field "parentId" s);
        snapshot_type = text_or_none (field "type" s);
        snapshot_created_at = parse_dt py (field "createdAt" s);
      }
      ∷ sync_snapshots (suc i) ss
