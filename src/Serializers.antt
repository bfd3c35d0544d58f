-- ===== src/Serializers.antt =====
-- app/services/serializers.py: what the API shows of the rows. The bodies of app/schemas are records with
-- the fields that are filled; a hardware inventory that pydantic refuses is dropped, which is a parameter.
pub mod Vms
pub mod Hosts
pub mod Tasks
pub mod Items
