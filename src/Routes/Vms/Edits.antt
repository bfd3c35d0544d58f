-- ===== src/Routes/Vms/Edits.antt =====
-- move_vm, put_vm_tags, the metrics and the thumbnail of app/api/routes/vms.py.
use open_v_center_backend.Prelude.{
  ℕ, ◌+◌, String, ◌&&◌, Option, none, some, List, [], ◌∷◌, ◌==◌, map, find, leb, any, rows_where,
  if◌then◌else◌,
}
use open_v_center_backend.Json.{Json, null, num, str, arr, obj, Dict, end, entry}
use open_v_center_backend.Models.{Db, get_folder}
use open_v_center_backend.Models.VmRows.{Vm}
use open_v_center_backend.Models.Samples.{VmMetric, VmThumbnail}
use open_v_center_backend.Models.Topology.{Folder}
use open_v_center_backend.Models.Records.{User}
use open_v_center_backend.Valkey.{Valkey}
use open_v_center_backend.Errors.{Result, ok, err, api, or_raise, not_found}
use open_v_center_backend.World.{Env, Action, gets, lift, modify_db, ◌>>=◌, ◌>>◌}
use open_v_center_backend.Rbac.{VisibleScope}
use open_v_center_backend.Audit.{Target, vm_target, record_event}
use open_v_center_backend.Audit.Changes.{changes, sorted_texts, text_items}
use open_v_center_backend.Organization.{move_vm_to_folder}
use open_v_center_backend.Tags.{set_vm_tags}
use open_v_center_backend.Serializers.Vms.{VmOut}
use open_v_center_backend.Routes.Vms.{get_visible_vm}
use open_v_center_backend.Routes.Vms.Listing.{shown_vm}

abbrev name_json : Option Folder → Json
name_json none = null
name_json (some f) = str f.name

-- _folder_ref
unfoldable pub folder_ref : Db → Option ℕ → Json
folder_ref db none = null
folder_ref db (some i) = obj (entry "id" (num i) (entry "name" (name_json (get_folder db i)) end))

-- `if diff := changes(…): await record(db, user, action, vm, details=diff)`
unfoldable pub record_diff : ℕ → ℕ → User → String → Target → Option Dict → Db → Db
unfolding record_event
record_diff event_id now user action target none db = db
record_diff event_id now user action target (some diff) db =
    record_event event_id now (some user) action target none diff db

-- The names of a VM's tags, sorted.
unfoldable pub tag_names : Db → ℕ → List String
unfolding sorted_texts
tag_names db vm_id = sorted_texts (
    map (λ t. t.name)
      (rows_where (λ t. any (λ l. l.vm_id == vm_id && l.tag_id == t.id) db.vm_tags) db.tags))

-- A service on the database alone, as a step of a handler.
abbrev on_db : {S : Type 0} → (Db → Result Db) → Action S (Unit {0})
on_db f w = elim (f w.db) [ ok db ↦ (ok tt, record w { db = db }) | err e ↦ (err e, w) ]

module _ ⦃kv : Valkey⦄ where
  open kv use {Store}

  -- move_vm
  unfoldable pub move_vm : Env → ℕ → User → VisibleScope → ℕ → Option ℕ → Action Store VmOut
  unfolding get_visible_vm move_vm_to_folder folder_ref changes record_diff shown_vm
  move_vm env event_id user scope vm_id folder_id = do
    vm ← get_visible_vm scope vm_id
    before ← gets (λ w. folder_ref w.db vm.folder_id)
    on_db (move_vm_to_folder vm folder_id)
    let moved : Vm = record vm { folder_id = folder_id }
    after ← gets (λ w. folder_ref w.db folder_id)
    modify_db (
        record_diff event_id env.now user "vm.move_folder" (vm_target moved)
          (changes (entry "folder" before end) (entry "folder" after end)))
    gets (shown_vm env moved)

  -- put_vm_tags
  unfoldable pub put_vm_tags : Env → ℕ → User → VisibleScope → ℕ → List ℕ → Action Store VmOut
  unfolding get_visible_vm set_vm_tags tag_names changes record_diff shown_vm text_items
  put_vm_tags env event_id user scope vm_id tag_ids = do
    vm ← get_visible_vm scope vm_id
    before ← gets (λ w. arr (text_items (tag_names w.db vm.id)))
    on_db (set_vm_tags vm tag_ids)
    after ← gets (λ w. arr (text_items (tag_names w.db vm.id)))
    modify_db (
        record_diff event_id env.now user "vm.tags" (vm_target vm)
          (changes (entry "tags" before end) (entry "tags" after end)))
    gets (shown_vm env vm)

  -- Samples by their times, oldest first; those of one time in any order.
  unfoldable insert_sample : VmMetric → List VmMetric → List VmMetric
  insert_sample m [] = m ∷ []
  insert_sample m (n ∷ ns) = if leb m.ts n.ts then m ∷ (n ∷ ns) else n ∷ insert_sample m ns

  unfoldable pub by_time : List VmMetric → List VmMetric
  unfolding insert_sample
  by_time [] = []
  by_time (m ∷ ms) = insert_sample m (by_time ms)

  -- list_vm_metrics
  unfoldable pub list_vm_metrics : Env → VisibleScope → ℕ → Action Store (List VmMetric)
  unfolding get_visible_vm by_time
  list_vm_metrics env scope vm_id = do
    vm ← get_visible_vm scope vm_id
    gets (λ w. by_time (
        rows_where
          (λ m. m.vm_id == vm_id && leb env.now (m.ts + env.settings.metrics_retention_seconds))
          w.db.vm_metrics))

  -- get_vm_thumbnail
  unfoldable pub get_vm_thumbnail : VisibleScope → ℕ → Action Store VmThumbnail
  unfolding get_visible_vm
  get_vm_thumbnail scope vm_id = do
    vm ← get_visible_vm scope vm_id
    gets (λ w. find (λ t. t.vm_id == vm_id) w.db.thumbnails) >>= λ o.
        lift (or_raise o (api not_found))
