-- ===== src/Agents/Store.antt =====
-- The local store of app/services/agent_store.py: uploaded builds as files below a directory. A path is
-- the text of a resolved path, the disk is a parameter with the laws of its calls.
pub mod Chunks
pub mod Disk
pub mod Memory
pub mod Local
pub mod Contents
