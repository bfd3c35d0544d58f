-- ===== src/Agents.antt =====
-- Agent builds: their catalogue (app/api/routes/agent_binaries.py) and the upgrade of the agents
-- (app/services/agent_upgrade.py), and the store of the bytes with its URLs
-- (app/services/agent_store.py).
pub mod Binaries
pub mod Tokens
pub mod Store
pub mod Upgrade
pub mod OneActive
pub mod OneUpgrade
