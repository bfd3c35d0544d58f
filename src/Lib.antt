-- ===== src/Lib.antt =====
-- Open vCenter's backend: the rules by which the API and the worker change the inventory of hosts and
-- VMs, and what they promise.
--
-- The API (app/services) turns a request into rows of the database, keys of the Valkey server, and a
-- message on the queue of a host's agent; the agent's answer comes back through the worker (app/worker),
-- which settles the task, its audit events, the VM row and the VM's lock. Between the two stands the
-- lock: a VM has one changing operation at a time, from the request until the answer or the sweep.
--
-- The parts, by file:
--   Models, Models/*           app/models: the rows, the database as lists of rows, the cascades
--   Settings, Timeouts         app/config.py, app/task_timeouts.py
--   Valkey/Defs, Valkey/Memory the Valkey server as operations with laws, and a table that meets them
--   Cache/Defs                 app/cache.py: set_vm_state, acquire_vm_lock, release_vm_lock, tombstones
--   Errors, World              app/api/errors.py, app/db.py: results of services, and handlers as
--                              functions of the database, the cache and the published messages
--   Vms/Paths, Vms/Storage     app/services/vms.py: _norm_path, _require_vm_storage_allowed
--   Vms/Actions, Vms/Queue     app/services/vms.py: ACTION_MAP, _queue_vm_task, request_vm_action
--   Vms/Provision/*            app/services/vms.py: request_vm_create, request_vm_clone and
--                              remove_vm_from_inventory
--   Hosts/Actions, Status      app/services/host_actions.py, serializers.agent_connected
--   Hosts/Messaging, Broker    app/messaging/queues.py; the broker as operations with laws
--   Hosts/Provision/*          app/services/hosts.py: ensure_host_agent_user, create_host,
--                              deprovision_host_messaging; app/preflight.py: _check_hosts_messaging
--   Login/Users                app/services/auth.py: get_or_create_user, resolve_stub_user
--   Login/Jwks, Principal      app/api/deps.py: _get_jwks, _verify_oidc, get_current_user
--   Serializers/*              app/services/serializers.py: vm_out, host_out, task_out and others
--   Worker/Response            app/services/inventory.py: apply_response, _apply_response_state
--   Worker/Sweep               app/worker/main.py: _sweep_stale_tasks
--   Worker/Consumers           app/worker/consumers.py: handle_message
--   Worker/Subscriptions       app/worker/main.py: run's subscriptions and watchdogs
--   Worker/Steps               requests, messages and sweeps in any order, as a step relation
--   Inventory/Values           app/services/inventory.py: its helpers on JSON values, and what they take
--                              from Python's library
--   Inventory/Children, Normalize, Row
--                              app/services/inventory.py: normalize_vm, _sync_disks, _sync_nics,
--                              _sync_snapshots, _write_vm_row
--   Inventory/Sync             app/services/inventory.py: apply_vm_inventory
--   Inventory/Answers          app/services/inventory.py: _apply_response_vm_status
--   Inventory/Hardware, Hosts  app/services/inventory.py: normalize_hardware, apply_host_inventory,
--                              apply_agent_status
--   Inventory/Images, Metrics  app/services/inventory.py: template and ISO listings, samples;
--                              app/worker/main.py: _metrics_retention_sweeper
--   Audit, Audit/Listing       app/services/audit.py: record, settle_task_events, prune_events, list_events
--   Organization               app/services/organization.py: clusters, hosts, folders
--   Rbac, Networking, Tags     app/services/rbac.py, networking.py, tags.py
--   Agents/Binaries, Upgrade   app/api/routes/agent_binaries.py, app/services/agent_upgrade.py
--   Agents/Store, Tokens       app/services/agent_store.py: LocalAgentStore, sign_scope, verify_scope
--   Routes/Vms, Routes/Hosts   app/api/routes/vms.py, hosts.py: operations, listings and edits
--   Text/*                     Python's str and int on texts, by their code points
--   Examples/*                 the theorems on a small installation
--
-- How the code is read. A table is the list of its rows; `db.get` is the first row of an id. Ids are
-- naturals, because the code only compares them, and `new_id` is an argument. Times are seconds, and one
-- handler reads the clock once. A handler that raises gives back its error, and the session rolls the
-- database back; what it wrote to Valkey or published stays. The Valkey server is a parameter: its
-- hypotheses are the documented effects of SET, SET NX, GET, DEL and SCAN with a time to live. The broker
-- takes a message or the publish raises. JSON numbers are naturals, floats are carried by their bits.
-- Loops run over rows, grants, queues or digits. The two loops over the chunks of a file
-- (Agents/Store/Chunks) have fuel: a round reads a byte at least, so one round more than the file has
-- bytes is enough, which is what they get and what is proved. The disk, the MAC, PyJWT and the broker are
-- parameters like the Valkey server; Agents/Store/Memory and Hosts/Broker/Memory meet the laws of the
-- disk and of the broker. What other logins commit between a read and an insert, and what other requests
-- do to the cache of signing keys while a download is awaited, are arguments.
--
-- The payloads of agents have the types of their contract (docs/agent-queue-contract.md), and Python's
-- library functions on them, such as dates and rounding, are the fields of a record without laws.
--
-- Not modelled: error messages and logs; failures of the Valkey server or of a flush, but for the unique
-- indexes of users and grants; two handlers interleaved inside the database; the sleeps of the worker's
-- loops, each of which is a pass here; the store of agent binaries in S3, which is calls of a client; the
-- agent's configuration and installation script, which are texts; the routes of tasks, folders, clusters,
-- VLANs and tags, which are thin; migrations, and the fake agent of the developers.
pub mod Prelude
pub mod Json
pub mod Text
pub mod Models
pub mod Settings
pub mod Timeouts
pub mod Valkey
pub mod Errors
pub mod World
pub mod Cache
pub mod Agents
pub mod Audit
pub mod Hosts
pub mod Vms
pub mod Worker
pub mod Organization
pub mod Rbac
pub mod Login
pub mod Serializers
pub mod Routes
pub mod Networking
pub mod Tags
pub mod Inventory
pub mod Examples
