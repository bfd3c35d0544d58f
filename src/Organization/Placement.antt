-- ===== src/Organization/Placement.antt =====
-- Every VM in a folder is in one whose scope has the VM's host.
use open_v_center_backend.Prelude.{
  ℕ, ◌≡◌, refl, sym, Bool, true, false, not, ◌&&◌, Option, none, some, List, [], ◌∷◌, arith, ◌==◌,
  ==_iff, has_id, same_id, is_some, All, All-find, All-update_where, All-update, find-delete_where,
  find-update_where_ne, find_sound, delete_where, Bool-cases, inl, inr, Option-cases,
}
use open_v_center_backend.Models.{Db, get_host, get_folder, put_host}
use open_v_center_backend.Models.VmRows.{Vm}
use open_v_center_backend.Models.Topology.{Host, Folder}
use open_v_center_backend.Models.Cascade.{delete_folders}
use open_v_center_backend.Errors.{After, After-guard, api_error, invalid}
use open_v_center_backend.Organization.{
  move_host, apply_move, reassign, set_cluster, folder_fits, move_vm_to_folder, leave_folder,
  enter_folder, require_cluster, delete_folder, other_hypervisor,
}

-- The folder of a VM, read through the two tables.
abbrev pub in_scope : Option Folder → Option Host → Bool
in_scope none h = false
in_scope (some f) none = false
in_scope (some f) (some h) = folder_fits f h

abbrev pub placed_at : Db → Option ℕ → ℕ → Bool
placed_at db none k = true
placed_at db (some i) k = in_scope (get_folder db i) (get_host db k)

abbrev pub is_placed : Db → Vm → Bool
is_placed db v = placed_at db v.folder_id v.host_id

abbrev pub Placed : Db → Type 0
Placed db = All (λ v. is_placed db v ≡ true) db.vms

-- The check constraint of the folders table.
abbrev pub has_one_scope : Folder → Bool
has_one_scope f = not (is_some f.cluster_id && is_some f.host_id)

entered_row :
    (db : Db) (i : ℕ) (r v : Vm) (f : Folder) (h : Host)
    → f.id ≡ i
    → get_folder db i ≡ some f
    → r.host_id ≡ v.host_id
    → get_host db v.host_id ≡ some h
    → folder_fits f h ≡ true
    → is_placed db (enter_folder f.id r) ≡ true
entered_row db i r v f h at e on k fits = rw (at, e, on, k) fits

-- The loaded row of a VM: every row of its id is on its host.
abbrev pub IsLoaded : Vm → Db → Type 0
IsLoaded v db = All (λ r. (r.id == v.id) ≡ true → r.host_id ≡ v.host_id) db.vms

both :
    (db : Db) (v : Vm) (vms : List Vm)
    → All (λ r. (r.id == v.id) ≡ true → r.host_id ≡ v.host_id) vms
    → All (λ r. is_placed db r ≡ true) vms
    → All (λ r. ((r.id == v.id) ≡ true → r.host_id ≡ v.host_id) × (is_placed db r ≡ true)) vms
both db v [] s h = tt
both db v (x ∷ xs) s h = ((s.0, h.0), both db v xs s.1 h.1)

-- Where every VM in a folder is in one whose scope has its host, moving a loaded VM to a folder or
-- out of one, if it is not refused, keeps that so.
pub move_vm-Placed :
    (v : Vm) (folder_id : Option ℕ) (db : Db)
    → IsLoaded v db
    → Placed db
    → After Placed (move_vm_to_folder v folder_id db)
unfolding move_vm_to_folder
move_vm-Placed v none db same placed =
    All-update (λ r. is_placed db r ≡ true) (λ r. is_placed db r ≡ true) (λ r. r.id == v.id)
      leave_folder db.vms (λ r e h. refl) (λ r e h. h) placed
move_vm-Placed v (some i) db same placed = elim (Option-cases (get_folder db i)) [
  | inl e ↦ rw e tt
  | inr (f, e) ↦ elim (Option-cases (get_host db v.host_id)) [
    | inl k ↦ rw (e, k) tt
    | inr (h, k) ↦ elim (Bool-cases (folder_fits f h)) [
      | inl fits ↦
          rw (e, k, fits)
            (All-update
              (λ r. ((r.id == v.id) ≡ true → r.host_id ≡ v.host_id) × (is_placed db r ≡ true))
              (λ r. is_placed db r ≡ true) (λ r. r.id == v.id) (enter_folder f.id) db.vms
              (λ r m both_r.
                entered_row db i r v f h
                  ((==_iff f.id i).0 (find_sound (λ x. x.id == i) db.folders f e)) e (both_r.0 m) k
                  fits)
              (λ r m both_r. both_r.1) (both db v db.vms same placed))
      | inr bad ↦ rw (e, k, bad) tt
    ]
  ]
]

scope_parts :
    (o : Option Folder) (k : Option Host)
    → in_scope o k ≡ true
    → (f : Folder) × (h : Host) × (o ≡ some f) × (k ≡ some h) × (folder_fits f h ≡ true)
scope_parts none k e = cc
scope_parts (some f) none e = cc
scope_parts (some f) (some h) e = (f, h, refl, refl, e)

-- A folder that a VM stands in outlives the deletion of folders that are not it.
placed_delete :
    (p : Folder → Bool) (db : Db) (o : Option ℕ) (k : ℕ)
    → ((i : ℕ) (f : Folder) (h : Host)
        → o ≡ some i
        → get_folder db i ≡ some f
        → get_host db k ≡ some h
        → folder_fits f h ≡ true
        → p f ≡ false)
    → placed_at db o k ≡ true
    → placed_at (record db { folders = delete_where p db.folders }) o k ≡ true
placed_delete p db none k stays placed = refl
placed_delete p db (some i) k stays placed =
    let (f, h, e, at, fits) = scope_parts (get_folder db i) (get_host db k) placed in
    rw (find-delete_where (λ r. r.id == i) p db.folders f e (stays i f h refl e at fits), at) fits

other_folder :
    (o : Option ℕ) (i : ℕ) (f g : Folder)
    → o ≡ some i
    → has_id o f.id ≡ false
    → (g.id == i) ≡ true
    → (g.id == f.id) ≡ false
other_folder none i f g at e found = cc
other_folder (some j) i f g at e found = ground arith

-- Deleting a folder keeps every VM that is in a folder in one whose scope has its host.
pub delete_folder-Placed :
    (f : Folder) (db : Db) → Placed db → After (λ r. Placed r.1) (delete_folder f db)
unfolding delete_folder
delete_folder-Placed f db placed =
    All-update (λ v. is_placed db v ≡ true)
      (λ v.
        is_placed (record db { folders = delete_where (λ r. r.id == f.id) db.folders }) v ≡ true)
      (λ v. has_id v.folder_id f.id) leave_folder db.vms (λ v e h. refl)
      (λ v e h.
        placed_delete (λ r. r.id == f.id) db v.folder_id v.host_id
          (λ i g k at found on fits.
            other_folder v.folder_id i f g at e (find_sound (λ r. r.id == i) db.folders g found))
          h)
      placed

-- A host of another id is not seen to change.
placed_host :
    (h : Host) (c : Option ℕ) (db : Db) (o : Option ℕ) (k : ℕ)
    → (k == h.id) ≡ false
    → placed_at db o k ≡ true
    → placed_at (put_host h.id (set_cluster c) db) o k ≡ true
placed_host h c db none k ne placed = refl
placed_host h c db (some i) k ne placed =
    rw
      (find-update_where_ne (λ r. r.id == k) (λ r. r.id == h.id) (set_cluster c) db.hosts
        (λ y e. (ground arith, ground arith)))
      placed

-- A folder of one scope that fits another host is not the own folder of this one.
not_own :
    (f : Folder) (h g : Host) (k : ℕ)
    → (k == h.id) ≡ false
    → (g.id == k) ≡ true
    → has_one_scope f ≡ true
    → folder_fits f g ≡ true
    → has_id f.host_id h.id ≡ false
not_own f h g k ne at one fits = elim (Option-cases f.cluster_id) [
  | inl e ↦ ground (arith, e, Option-cases f.host_id)
  | inr (c, e) ↦ ground (arith, e, Option-cases f.host_id)
]

apply_move-Placed :
    (h : Host) (c : Option ℕ) (db : Db)
    → All (λ f. has_one_scope f ≡ true) db.folders
    → Placed db
    → Placed (apply_move h c db)
unfolding apply_move delete_folders
apply_move-Placed h c db one placed =
    All-update_where (λ v. is_placed (apply_move h c db) v ≡ true) _ leave_folder _
      (λ v e was. refl)
      (All-update (λ v. is_placed db v ≡ true) (λ v. is_placed (apply_move h c db) v ≡ true)
        (λ v. v.host_id == h.id) (reassign c) db.vms (λ v e was. refl)
        (λ v ne was.
          placed_delete (λ f. has_id f.host_id h.id) (put_host h.id (set_cluster c) db) v.folder_id
            v.host_id
            (λ i f g at found on fits.
              let (y, same, scoped) =
                All-find (λ r. has_one_scope r ≡ true) (λ r. r.id == i) db.folders f one found in
              not_own f h g v.host_id ne
                (find_sound (λ r. r.id == v.host_id) (put_host h.id (set_cluster c) db).hosts g on)
                (rw (sym same) scoped) fits)
            (placed_host h c db v.folder_id v.host_id ne was))
        placed)

-- Where no folder belongs to both a cluster and a host, moving a host to another cluster or out of
-- its cluster, if it is not refused, keeps every VM that is in a folder in one whose scope has the
-- VM's host.
pub move_host-Placed :
    (h : Host) (cluster_id : Option ℕ) (db : Db)
    → All (λ f. has_one_scope f ≡ true) db.folders
    → Placed db
    → After Placed (move_host h cluster_id db)
unfolding move_host
move_host-Placed h cluster_id db one placed =
    After-guard Placed (require_cluster cluster_id db) (λ t. other_hypervisor t h.hypervisor)
      (api_error invalid 400) _
      (elim (Bool-cases (same_id h.cluster_id cluster_id)) [
        | inl e ↦ rw e placed
        | inr e ↦ rw e (apply_move-Placed h cluster_id db one placed)
      ])
