-- ===== src/Routes.antt =====
-- app/api/routes: the handlers that put access control, the services and the audit trail together.
pub mod Vms
pub mod Hosts
