-- ===== src/Inventory.antt =====
-- app/services/inventory.py: what the agents publish on their last-value and metric queues.
--
-- The payloads are taken to have the types of the agents' contract: where the code copies a JSON value
-- into a column of another type, which the flush would refuse, the value reads as missing.
pub mod Values
pub mod Children
pub mod Normalize
pub mod Row
pub mod Sync
pub mod Hardware
pub mod Hosts
pub mod Answers
pub mod Images
pub mod Metrics
