-- ===== src/Vms.antt =====
-- app/services/vms.py: the requests on VMs.
pub mod Paths
pub mod Storage
pub mod Actions
pub mod Queue
pub mod Provision
