-- ===== src/Hosts.antt =====
-- Hosts: what they report and the guards on it (parts of app/services/{serializers,host_actions,vms}.py),
-- and their queues, accounts and installation (app/messaging, app/services/hosts.py).
pub mod Status
pub mod Actions
pub mod Messaging
pub mod Broker
pub mod Provision
