-- ===== src/Rbac.antt =====
-- app/services/rbac.py: what a user may see. A Python `set` of ids is a list, read by membership.
pub mod Grants
use open_v_center_backend.Prelude.{
  ℕ, String, Bool, true, false, not, ◌&&◌, ◌||◌, Option, none, some, List, [], ◌∷◌, ◌++◌, ◌==◌, any,
  str_in, rows_where, map, if◌then◌else◌,
}
use open_v_center_backend.Settings.{Settings}
use open_v_center_backend.Models.{Db}
use open_v_center_backend.Models.VmRows.{Vm}
use open_v_center_backend.Models.Topology.{Host, Folder}
use open_v_center_backend.Models.Records.{User, ScopeGrant, Level, global, cluster, host, folder}

pub record VisibleScope : Type 0 where
  pub all : Bool
  pub cluster_ids : List ℕ
  pub host_ids : List ℕ
  pub folder_ids : List ℕ

-- `i in s`, and for a column that may be NULL.
unfoldable pub is_member : ℕ → List ℕ → Bool
is_member i [] = false
is_member i (x ∷ xs) = if x == i then true else is_member i xs

abbrev pub in_set : Option ℕ → List ℕ → Bool
in_set none s = false
in_set (some i) s = is_member i s

abbrev pub sees_cluster : VisibleScope → Option ℕ → Bool
sees_cluster scope i = scope.all || in_set i scope.cluster_ids

abbrev pub sees_host : VisibleScope → ℕ → Bool
sees_host scope i = scope.all || is_member i scope.host_ids

abbrev pub sees_folder : VisibleScope → Option ℕ → Bool
sees_folder scope i = scope.all || in_set i scope.folder_ids

abbrev pub nothing_visible : VisibleScope
nothing_visible = record { all = false; cluster_ids = []; host_ids = []; folder_ids = [] }

abbrev pub all_visible : VisibleScope
all_visible = record { all = true; cluster_ids = []; host_ids = []; folder_ids = [] }

-- One grant in the loop, after the test for `global`.
abbrev pub add_grant : Level → Option ℕ → VisibleScope → VisibleScope
add_grant l none scope = scope
add_grant global (some i) scope = scope
add_grant cluster (some i) scope = record scope { cluster_ids = i ∷ scope.cluster_ids }
add_grant host (some i) scope = record scope { host_ids = i ∷ scope.host_ids }
add_grant folder (some i) scope = record scope { folder_ids = i ∷ scope.folder_ids }

abbrev pub is_global : Level → Bool
is_global global = true
is_global cluster = false
is_global host = false
is_global folder = false

-- The loop over the grants: `none` is its early return at a global one.
unfoldable pub collect : List ScopeGrant → VisibleScope → Option VisibleScope
collect [] scope = some scope
collect (g ∷ gs) scope =
    let rest = collect gs (add_grant g.level g.scope_id scope) in
    if is_global g.level then none else rest

-- The hosts of granted clusters join the granted hosts, and the folders on visible hosts the
-- granted folders.
unfoldable pub expand : Db → VisibleScope → VisibleScope
expand db scope =
    let hosts =
      scope.host_ids
      ++ map (λ h. h.id) (rows_where (λ h. in_set h.cluster_id scope.cluster_ids) db.hosts) in
    record scope {
      host_ids = hosts;
      folder_ids =
          scope.folder_ids ++ map (λ f. f.id) (rows_where (λ f. in_set f.host_id hosts) db.folders);
    }

abbrev pub scope_of : Db → Option VisibleScope → VisibleScope
scope_of db none = all_visible
scope_of db (some scope) = expand db scope

unfoldable pub resolve_scope : Settings → User → Db → VisibleScope
resolve_scope settings user db =
    if str_in settings.admin_role user.roles
    then all_visible
    else scope_of db (collect (rows_where (λ g. g.user_id == user.id) db.grants) nothing_visible)

unfoldable pub vm_visible : VisibleScope → Vm → Bool
vm_visible scope vm = scope.all || (sees_host scope vm.host_id || sees_folder scope vm.folder_id)

abbrev pub is_empty : List ℕ → Bool
is_empty [] = true
is_empty (_ ∷ _) = false

-- The twin in SQL, by what it keeps: a NULL folder is in no set.
unfoldable pub vm_visible_clause : VisibleScope → Vm → Bool
vm_visible_clause scope vm =
    if scope.all
    then true
    else if is_empty scope.host_ids && is_empty scope.folder_ids
    then false
    else (is_member vm.host_id scope.host_ids || in_set vm.folder_id scope.folder_ids)
