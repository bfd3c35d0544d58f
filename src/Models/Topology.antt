-- ===== src/Models/Topology.antt =====
-- app/models/{cluster,host,folder,vlan}.py: where VMs live and what they attach to.
use open_v_center_backend.Prelude.{ℕ, String, Bool, Option}
use open_v_center_backend.Json.{Dict}

pub record Cluster : Type 0 where
  pub id : ℕ
  pub name : String
  pub hypervisor : String

pub record Host : Type 0 where
  pub id : ℕ
  pub short_id : String
  pub cluster_id : Option ℕ
  pub name : String
  pub fqdn : Option String
  pub ip_address : Option String
  pub hypervisor : String
  pub agent_rmq_user : Option String
  pub agent_rmq_password : Option String
  pub agent_version : Option String
  pub agent_last_seen : Option ℕ
  pub agent_refresh_vm : Option ℕ
  pub agent_refresh_host : Option ℕ
  pub hardware : Option Dict

pub record Folder : Type 0 where
  pub id : ℕ
  pub cluster_id : Option ℕ
  pub host_id : Option ℕ
  pub name : String

pub record Vlan : Type 0 where
  pub id : ℕ
  pub cluster_id : Option ℕ
  pub host_id : Option ℕ
  pub name : String
  pub vlan_id : ℕ
  pub description : Option String
  pub is_default : Bool
