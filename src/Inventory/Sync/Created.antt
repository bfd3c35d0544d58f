-- ===== src/Inventory/Sync/Created.antt =====
-- Creates and clones between a snapshot and the answer of the agent.
use open_v_center_backend.Valkey.{Valkey}
use open_v_center_backend.World.{World}
