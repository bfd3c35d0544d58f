-- ===== src/Networking.antt =====
-- app/services/networking.py: VLANs of a cluster or of a standalone host. `name.strip()` and
-- `description.strip() or None` are the caller's.
pub mod Scopes
use open_v_center_backend.Prelude.{
  ℕ, String, Bool, true, false, not, ◌&&◌, ◌||◌, Option, none, some, List, [], ◌∷◌, ◌++◌, ◌==◌,
  has_id, same_id, is_some, find, rows_where, update_where, delete_where, if◌then◌else◌,
}
use open_v_center_backend.Models.{Db, get_host}
use open_v_center_backend.Models.Topology.{Host, Vlan}
use open_v_center_backend.Errors.{
  Result, ok, err, Error, api, api_error, not_found, invalid, raise_if, or_raise, ◌>>=◌, ◌>>◌,
}
use open_v_center_backend.Organization.{not_exactly_one, require_scope}

-- The clause that `_clear_default`, and the query for an existing tag, select a scope by.
abbrev pub in_scope_of : Option ℕ → Option ℕ → Vlan → Bool
in_scope_of (some c) host_id l = has_id l.cluster_id c
in_scope_of none (some h) l = has_id l.host_id h
in_scope_of none none l = not (is_some l.host_id)

-- The VLANs that a host reaches: its own and its cluster's.
abbrev pub reaches : Host → Vlan → Bool
reaches h l = elim h.cluster_id [
  | none ↦ has_id l.host_id h.id
  | some c ↦ has_id l.host_id h.id || has_id l.cluster_id c
]

-- `list_vlans`, but for the order of its rows.
unfoldable pub list_vlans : Option ℕ → Option ℕ → Db → Result (List Vlan)
list_vlans (some i) cluster_id db = do
  h ← or_raise (get_host db i) (api not_found)
  ok (rows_where (reaches h) db.vlans)
list_vlans none (some c) db = ok (rows_where (λ l. has_id l.cluster_id c) db.vlans)
list_vlans none none db = ok db.vlans

abbrev pub not_default : Vlan → Vlan
not_default l = record l { is_default = false }

unfoldable pub clear_default : Option ℕ → Option ℕ → List Vlan → List Vlan
clear_default cluster_id host_id vlans =
    update_where (in_scope_of cluster_id host_id) not_default vlans

unfoldable pub create_vlan :
    ℕ → String → ℕ → Option String → Bool → Option ℕ → Option ℕ → Db → Result (Vlan × Db)
create_vlan id name vlan_id description is_default cluster_id host_id db =
    let l : Vlan = record {
      id = id;
      cluster_id = cluster_id;
      host_id = host_id;
      name = name;
      vlan_id = vlan_id;
      description = description;
      is_default = is_default;
    } in
    do
      raise_if (not_exactly_one cluster_id host_id) (api_error invalid 400)
      require_scope cluster_id host_id db
      raise_if
          (is_some (find (λ r. r.vlan_id == vlan_id && in_scope_of cluster_id host_id r) db.vlans))
          (api_error invalid 400)
      ok (
        l,
        record db {
          vlans =
              (if is_default then clear_default cluster_id host_id db.vlans else db.vlans)
              ++ l ∷ [];
        },
      )

abbrev with_name : Option String → Vlan → Vlan
with_name none l = l
with_name (some n) l = record l { name = n }

-- The outer option is whether a description is given, the inner one its stripped text.
abbrev with_description : Option (Option String) → Vlan → Vlan
with_description none l = l
with_description (some d) l = record l { description = d }

abbrev pub with_default : Option Bool → Vlan → Vlan
with_default none l = l
with_default (some b) l = record l { is_default = b }

abbrev pub cleared_for : Option Bool → Vlan → List Vlan → List Vlan
cleared_for none l vlans = vlans
cleared_for (some false) l vlans = vlans
cleared_for (some true) l vlans = clear_default l.cluster_id l.host_id vlans

abbrev pub edited : Option String → Option (Option String) → Option Bool → Vlan → Vlan
edited name description is_default l =
    with_default is_default (with_description description (with_name name l))

unfoldable pub update_vlan :
    Vlan → Option String → Option (Option String) → Option Bool → Db → Result Db
update_vlan l name description is_default db = ok (record db {
  vlans =
      update_where (λ r. r.id == l.id) (edited name description is_default)
        (cleared_for is_default l db.vlans);
})

unfoldable pub delete_vlan : Vlan → Db → Result Db
delete_vlan l db = ok (record db { vlans = delete_where (λ r. r.id == l.id) db.vlans })

unfoldable pub resolve_host_vlan : Host → ℕ → Db → Result Vlan
resolve_host_vlan h tag db =
    or_raise (find (λ l. l.vlan_id == tag && reaches h l) db.vlans) (api (api_error invalid 400))
