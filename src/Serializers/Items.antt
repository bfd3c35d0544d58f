-- ===== src/Serializers/Items.antt =====
-- tag_out and template_out; the bodies of folders, categories, VLANs and ISO images are the rows.
use open_v_center_backend.Prelude.{ℕ, String, Option}
use open_v_center_backend.Models.Records.{Tag, Template}

pub record TagOut : Type 0 where
  pub id : ℕ
  pub name : String
  pub category_id : Option ℕ
  pub color : String
  pub vm_count : ℕ

unfoldable pub tag_out : Tag → ℕ → TagOut
tag_out t vm_count = record {
  id = t.id;
  name = t.name;
  category_id = t.category_id;
  color = t.color;
  vm_count = vm_count;
}

pub record TemplateOut : Type 0 where
  pub id : String
  pub host_id : ℕ
  pub name : String
  pub path : String
  pub size_bytes : ℕ
  pub disk_size_bytes : ℕ
  pub notes : Option String
  pub cpu_count : ℕ
  pub memory_mb : ℕ
  pub guest_os : Option String
  pub created_at : Option ℕ

unfoldable pub template_out : Template → TemplateOut
template_out t = record {
  id = t.id;
  host_id = t.host_id;
  name = t.name;
  path = t.path;
  size_bytes = t.size_bytes;
  disk_size_bytes = t.disk_size_bytes;
  notes = t.notes;
  cpu_count = t.cpu_count;
  memory_mb = t.memory_mb;
  guest_os = t.guest_os;
  created_at = t.image_created_at;
}
