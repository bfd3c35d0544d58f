-- ===== src/Examples/Inventory.antt =====
-- Folders, moves, VLANs, tags and grants of the installation.
use open_v_center_backend.Prelude.{
  ◌≡◌, refl, arith, true, ◌||◌, ◌==◌, none, some, [], ◌∷◌, count, find, any, str_in, rows_where,
  All,
}
use open_v_center_backend.Models.{Db}
use open_v_center_backend.Settings.{default_settings}
use open_v_center_backend.Errors.{After}
use open_v_center_backend.Organization.{move_host}
use open_v_center_backend.Organization.Placement.{Placed, has_one_scope, move_host-Placed}
use open_v_center_backend.Networking.{create_vlan}
use open_v_center_backend.Networking.Scopes.{ScopesSound, create_vlan-ScopesSound}
use open_v_center_backend.Tags.{set_vm_tags}
use open_v_center_backend.Tags.OnePerCategory.{OnePerCategory, set_vm_tags-OnePerCategory}
use open_v_center_backend.Rbac.{resolve_scope, vm_visible}
use open_v_center_backend.Rbac.Grants.{covers, is_home, resolve_scope-vm_visible}
use open_v_center_backend.Examples.{db_with, host_one, vm_one, vm_two, viewer}

abbrev db : Db
db = db_with []

one_scope : All (λ f. has_one_scope f ≡ true) db.folders
one_scope = (refl, (refl, tt))

placed : Placed db
unfolding find
placed = (refl, (refl, tt))

move_host-Placed_example : After Placed (move_host host_one (some 5) db)
move_host-Placed_example = move_host-Placed host_one (some 5) db one_scope placed

no_vlans : ScopesSound db
unfolding count
no_vlans c h e = (omega arith, λ tag. omega arith)

create_vlan-ScopesSound_example :
    After (λ r. ScopesSound r.1) (create_vlan 40 "lan" 4 none true (some 5) none db)
create_vlan-ScopesSound_example =
    create_vlan-ScopesSound 40 "lan" 4 none true (some 5) none db no_vlans

set_vm_tags-OnePerCategory_example :
    After (OnePerCategory 10) (set_vm_tags vm_one (31 ∷ 33 ∷ []) db)
set_vm_tags-OnePerCategory_example = set_vm_tags-OnePerCategory vm_one (31 ∷ 33 ∷ []) db

at_home : All (λ f. is_home vm_two f ≡ true) db.folders
at_home = (refl, (refl, tt))

resolve_scope-vm_visible_example : vm_visible (resolve_scope default_settings viewer db) vm_two ≡ (
    str_in "ADMINISTRATOR" ("VIEWER" ∷ [])
    || any (covers db vm_two) (rows_where (λ g. g.user_id == 3) db.grants))
resolve_scope-vm_visible_example =
    resolve_scope-vm_visible default_settings viewer db vm_two at_home
