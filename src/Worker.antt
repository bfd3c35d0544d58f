-- ===== src/Worker.antt =====
-- app/services/inventory.py (task responses), and app/worker: sweepers, consumers and subscriptions.
pub mod Response
pub mod Sweep
pub mod Consumers
pub mod Steps
pub mod Subscriptions
