-- ===== src/Vms/Provision/Source.antt =====
-- request_vm_clone: what a clone takes from its source, a powered-off VM or an exported template.
use open_v_center_backend.Prelude.{
  ℕ, String, Bool, false, not, ◌&&◌, Option, none, some, List, [], ◌∷◌, ◌*◌, ◌/◌, ◌==◌, str_eq,
  nonempty, is_some, same_id, find, if◌then◌else◌,
}
use open_v_center_backend.Json.{str, bool, Dict, end, entry}
use open_v_center_backend.Models.{Db, get_host, get_vm}
use open_v_center_backend.Models.VmRows.{VmNic}
use open_v_center_backend.Models.Topology.{Host}
use open_v_center_backend.Errors.{
  Result, ok, api, api_error, not_found, vm_not_ready, cross_host_clone, source_not_off,
  template_unreachable, or_raise, raise_if, ◌>>=◌, ◌>>◌,
}
use open_v_center_backend.Vms.Provision.Bodies.{VmClone, CloneSource, source_vm, template, Sizing}

-- `a or b`, on a number and on a text: zero and the empty text are false.
abbrev pub or_number : Option ℕ → ℕ → ℕ
or_number none d = d
or_number (some n) d = if n == 0 then d else n

abbrev or_else {ℓ} : {A : Type ℓ} → Option A → Option A → Option A
or_else none b = b
or_else (some a) b = some a

abbrev or_text : String → String → String
or_text s d = if str_eq s "" then d else s

abbrev first_vlan : List VmNic → Option ℕ
first_vlan [] = none
first_vlan (n ∷ ns) = n.vlan_id

-- What the source gives: the sizes that the body leaves out, and the parameters that name it.
unfoldable pub resolve_vm_source : ℕ → VmClone → Host → Db → Result (Sizing × Dict)
resolve_vm_source i b host db = do
  s ← or_raise (get_vm db i) (api not_found)
  raise_if (not (s.host_id == host.id)) (api_error cross_host_clone 409)
  raise_if (not (str_eq s.state "Off")) (api_error source_not_off 409)
  raise_if (not (is_some (nonempty s.vm_uuid))) (api_error vm_not_ready 409)
  let sizing : Sizing = record {
    firmware = or_text s.firmware "UEFI";
    cpu_count = or_number b.cpu_count s.vcpu;
    memory_mb = or_number b.memory_mb (s.memory_bytes / (1024 * 1024));
    memory_dynamic = false;
    vlan_id = or_else b.vlan_id (first_vlan s.nics);
    notes = or_else b.notes s.notes;
    nested_virtualization = b.nested_virtualization;
    highly_available = b.ha_enabled && is_some host.cluster_id;
  }
  ok (sizing, entry "clone_type" (str "imported") (entry "source_vm_name" (str s.name) end))

-- The cluster that two hosts share.
abbrev pub shares_cluster : Option Host → Host → Bool
shares_cluster none host = false
shares_cluster (some t) host = is_some host.cluster_id && same_id t.cluster_id host.cluster_id

unfoldable pub resolve_template : String → VmClone → Host → Db → Result (Sizing × Dict)
resolve_template i b host db = do
  t ← or_raise (find (λ r. str_eq r.id i) db.templates) (api not_found)
  raise_if (not (t.host_id == host.id) && not (shares_cluster (get_host db t.host_id) host))
      (api_error template_unreachable 409)
  let sizing : Sizing = record {
    firmware = "UEFI";
    cpu_count = or_number b.cpu_count (or_number (some t.cpu_count) 2);
    memory_mb = or_number b.memory_mb (or_number (some t.memory_mb) 4096);
    memory_dynamic = false;
    vlan_id = b.vlan_id;
    notes = or_else b.notes t.notes;
    nested_virtualization = b.nested_virtualization;
    highly_available = b.ha_enabled && is_some host.cluster_id;
  }
  ok (
    sizing,
    entry "clone_type" (str "exported")
        (entry "source_export_path" (str t.path) (entry "expand_disks" (bool b.expand_disks) end)),
  )

-- The last defaults, `cpu_count or 2` and `memory_mb or 4096`.
abbrev pub with_defaults : Sizing × Dict → Sizing × Dict
with_defaults (s, d) = (
  record s {
    cpu_count = or_number (some s.cpu_count) 2;
    memory_mb = or_number (some s.memory_mb) 4096;
  },
  d,
)

unfoldable pub resolve_source : VmClone → Host → Db → Result (Sizing × Dict)
unfolding resolve_vm_source resolve_template
resolve_source b host db = from b.source >>= λ r. ok (with_defaults r)
  where
    from : CloneSource → Result (Sizing × Dict)
    from (source_vm i) = resolve_vm_source i b host db
    from (template i) = resolve_template i b host db
