-- ===== src/Models.antt =====
-- app/models: the database as the lists of its rows. A `select` reads the rows that its `where`
-- clause keeps, `db.get` the row of an id; what the server does besides (indexes, isolation) is
-- not modelled, and where a proof needs a constraint of the schema it is a named hypothesis.
pub mod VmRows
pub mod TaskRows
pub mod Topology
pub mod Records
pub mod Samples
pub mod Cascade
use open_v_center_backend.Prelude.{ℕ, Option, List, ◌==◌, find, update_where}
use VmRows.{Vm}
use TaskRows.{Task}
use Topology.{Cluster, Host, Folder, Vlan}
use Samples.{HostMetric, VmMetric, VmThumbnail}
use Records.{AgentBinary, Iso, Template, TagCategory, Tag, VmTag, AuditEvent, ScopeGrant, User}

pub record Db : Type 0 where
  pub clusters : List Cluster
  pub hosts : List Host
  pub folders : List Folder
  pub vlans : List Vlan
  pub vms : List Vm
  pub tasks : List Task
  pub templates : List Template
  pub isos : List Iso
  pub thumbnails : List VmThumbnail
  pub host_metrics : List HostMetric
  pub vm_metrics : List VmMetric
  pub agent_binaries : List AgentBinary
  pub categories : List TagCategory
  pub tags : List Tag
  pub vm_tags : List VmTag
  pub users : List User
  pub grants : List ScopeGrant
  pub events : List AuditEvent

-- `db.get(T, id)`
abbrev pub get_cluster : Db → ℕ → Option Cluster
get_cluster db i = find (λ r. r.id == i) db.clusters

abbrev pub get_host : Db → ℕ → Option Host
get_host db i = find (λ r. r.id == i) db.hosts

abbrev pub get_folder : Db → ℕ → Option Folder
get_folder db i = find (λ r. r.id == i) db.folders

abbrev pub get_vm : Db → ℕ → Option Vm
get_vm db i = find (λ r. r.id == i) db.vms

abbrev pub get_task : Db → ℕ → Option Task
get_task db i = find (λ r. r.id == i) db.tasks

abbrev pub get_category : Db → ℕ → Option TagCategory
get_category db i = find (λ r. r.id == i) db.categories

-- Assignments to the row of an id, as the session flushes them.
abbrev pub put_vm : ℕ → (Vm → Vm) → Db → Db
put_vm i f db = record db { vms = update_where (λ r. r.id == i) f db.vms }

abbrev pub put_host : ℕ → (Host → Host) → Db → Db
put_host i f db = record db { hosts = update_where (λ r. r.id == i) f db.hosts }

abbrev pub put_task : ℕ → (Task → Task) → Db → Db
put_task i f db = record db { tasks = update_where (λ r. r.id == i) f db.tasks }
