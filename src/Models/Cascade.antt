-- ===== src/Models/Cascade.antt =====
-- The deletes of app/models: what the foreign keys' `ondelete` clauses take along.
use open_v_center_backend.Prelude.{
  ℕ, Bool, none, List, ◌==◌, ◌&&◌, has_id, any, update_where, delete_where,
}
use open_v_center_backend.Models.{Db}
use open_v_center_backend.Models.VmRows.{Vm}
use open_v_center_backend.Models.Topology.{Host, Folder}
use open_v_center_backend.Models.Records.{Tag}

-- A VM's tags, thumbnail and samples go with it; disks, nics and snapshots are part of the row here.
unfoldable pub delete_vms : (Vm → Bool) → Db → Db
delete_vms p db = record db {
  vms = delete_where p db.vms;
  vm_tags = delete_where (λ l. any (λ v. p v && v.id == l.vm_id) db.vms) db.vm_tags;
  thumbnails = delete_where (λ t. any (λ v. p v && v.id == t.vm_id) db.vms) db.thumbnails;
  vm_metrics = delete_where (λ m. any (λ v. p v && v.id == m.vm_id) db.vms) db.vm_metrics;
}

abbrev clear_folder : Vm → Vm
clear_folder v = record v { folder_id = none }

abbrev in_any_folder : List Folder → (Folder → Bool) → Vm → Bool
in_any_folder folders p v = any (λ f. p f && has_id v.folder_id f.id) folders

-- `vms.folder_id` is set to NULL.
unfoldable pub delete_folders : (Folder → Bool) → Db → Db
delete_folders p db = record db {
  folders = delete_where p db.folders;
  vms = update_where (in_any_folder db.folders p) clear_folder db.vms;
}

abbrev clear_vm_cluster : Vm → Vm
clear_vm_cluster v = record v { cluster_id = none }

abbrev clear_host_cluster : Host → Host
clear_host_cluster h = record h { cluster_id = none }

-- The cluster's folders and VLANs go; hosts and VMs become standalone.
unfoldable pub delete_cluster_row : ℕ → Db → Db
unfolding delete_folders
delete_cluster_row i db =
    let db' = delete_folders (λ f. has_id f.cluster_id i) db in
    record db' {
      clusters = delete_where (λ c. c.id == i) db'.clusters;
      vlans = delete_where (λ l. has_id l.cluster_id i) db'.vlans;
      hosts = update_where (λ h. has_id h.cluster_id i) clear_host_cluster db'.hosts;
      vms = update_where (λ v. has_id v.cluster_id i) clear_vm_cluster db'.vms;
    }

-- VMs, folders, VLANs, templates and tasks of the host go.
unfoldable pub delete_host_row : ℕ → Db → Db
unfolding delete_folders delete_vms
delete_host_row i db =
    let db' = delete_folders (λ f. has_id f.host_id i) (delete_vms (λ v. v.host_id == i) db) in
    record db' {
      hosts = delete_where (λ h. h.id == i) db'.hosts;
      vlans = delete_where (λ l. has_id l.host_id i) db'.vlans;
      templates = delete_where (λ t. t.host_id == i) db'.templates;
      isos = delete_where (λ t. t.host_id == i) db'.isos;
      host_metrics = delete_where (λ m. m.host_id == i) db'.host_metrics;
      tasks = delete_where (λ t. t.host_id == i) db'.tasks;
    }

unfoldable pub delete_tags : (Tag → Bool) → Db → Db
delete_tags p db = record db {
  tags = delete_where p db.tags;
  vm_tags = delete_where (λ l. any (λ t. p t && t.id == l.tag_id) db.tags) db.vm_tags;
}

unfoldable pub delete_category_row : ℕ → Db → Db
unfolding delete_tags
delete_category_row i db =
    let db' = delete_tags (λ t. has_id t.category_id i) db in
    record db' { categories = delete_where (λ c. c.id == i) db'.categories }
