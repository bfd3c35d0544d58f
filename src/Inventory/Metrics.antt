-- ===== src/Inventory/Metrics.antt =====
-- Quick metrics: samples of hosts and of metered VMs, pruned when a sample is written and by the
-- worker's sweep.
use open_v_center_backend.Prelude.{
  ℕ, ◌+◌, String, Bool, true, false, ◌&&◌, none, some, List, [], ◌∷◌, ◌++◌, ◌==◌, ltb, any, find,
  delete_where, str_eq, ◌≡◌, refl, ◌∙◌, not, rows_where, any-delete_where, arith,
}
use open_v_center_backend.Json.{Dict, get}
use open_v_center_backend.Models.{Db, get_host}
use open_v_center_backend.Models.VmRows.{Vm}
use open_v_center_backend.Models.Topology.{Host}
use open_v_center_backend.Models.Samples.{HostMetric, VmMetric}
use open_v_center_backend.World.{Env}
use open_v_center_backend.Inventory.Values.{
  Python, field, or_json, text_or_none, as_int, as_float, dict_list, parse_dt,
}

-- `ts < _metrics_cutoff()`, with the retention on the other side.
abbrev pub is_old : Env → ℕ → Bool
is_old env ts = ltb (ts + env.settings.metrics_retention_seconds) env.now

abbrev pub sample_time : Python → ℕ → Dict → ℕ
unfolding field
sample_time py now payload =
    elim (parse_dt py (or_json (field "reportedAt" payload) (field "reported_at" payload))) [
      | none ↦ now
      | some t ↦ t
    ]

-- apply_host_metrics
unfoldable pub apply_host_metrics : Python → Env → ℕ → Dict → Db → Db
unfolding field sample_time
apply_host_metrics py env host_id payload db = elim (get_host db host_id) [
  | none ↦ db
  | some h ↦
      let sample : HostMetric = record {
        host_id = host_id;
        ts = sample_time py env.now payload;
        cpu_percent = as_float py (field "cpuPercent" payload);
        mem_percent = as_float py (field "memPercent" payload);
        disk_latency_ms = as_float py (field "diskLatencyMs" payload);
        net_rx_bps = as_int py (field "netRxBps" payload);
        net_tx_bps = as_int py (field "netTxBps" payload);
        detail = payload;
      } in
      record db {
        host_metrics =
            delete_where (λ m. (m.host_id == host_id) && is_old env m.ts)
              (db.host_metrics ++ sample ∷ []);
      }
]

-- The metered VM of the host with the GUID.
abbrev pub is_metered : ℕ → String → Vm → Bool
is_metered host_id u v =
    v.metrics_enabled
    && ((v.host_id == host_id) && (elim v.vm_uuid [ none ↦ false | some x ↦ str_eq x u ]))

abbrev pub vm_sample : Python → ℕ → ℕ → Dict → VmMetric
unfolding field
vm_sample py ts vm_id item = record {
  vm_id = vm_id;
  ts = ts;
  cpu_percent = as_float py (field "cpuPercent" item);
  mem_bytes = as_int py (field "memBytes" item);
  disk_bytes = as_int py (field "diskBytes" item);
  net_rx_bytes = as_int py (field "netRxBytes" item);
  net_tx_bytes = as_int py (field "netTxBytes" item);
  detail = item;
}

-- The samples of the items whose VM is metered.
unfoldable pub vm_samples : Python → ℕ → ℕ → List Vm → List Dict → List VmMetric
unfolding field vm_sample
vm_samples py ts host_id vms [] = []
vm_samples py ts host_id vms (item ∷ items) =
    let rest = vm_samples py ts host_id vms items in
    elim (text_or_none (or_json (field "id" item) (field "vmId" item))) [
      | none ↦ rest
      | some u ↦ elim (find (is_metered host_id u) vms) [
        | none ↦ rest
        | some v ↦ vm_sample py ts v.id item ∷ rest
      ]
    ]

-- A VM of the host.
abbrev pub is_of_host : List Vm → ℕ → ℕ → Bool
is_of_host vms host_id i = any (λ v. (v.id == i) && (v.host_id == host_id)) vms

-- apply_vm_metrics
unfoldable pub apply_vm_metrics : Python → Env → ℕ → Dict → Db → Db
unfolding vm_samples sample_time
apply_vm_metrics py env host_id payload db = record db {
  vm_metrics =
      delete_where (λ m. is_old env m.ts && is_of_host db.vms host_id m.vm_id)
        (db.vm_metrics
          ++ vm_samples py (sample_time py env.now payload) host_id db.vms
              (dict_list (get "vms" payload)));
}

-- One pass of worker/main._metrics_retention_sweeper.
unfoldable pub sweep_metrics : Env → Db → Db
sweep_metrics env db = record db {
  host_metrics = delete_where (λ m. is_old env m.ts) db.host_metrics;
  vm_metrics = delete_where (λ m. is_old env m.ts) db.vm_metrics;
}

-- What a delete leaves of the rows that satisfy a condition, which no deleted row does.
kept-delete_where {ℓ} :
    {A : Type ℓ} (q p : A → Bool) (xs : List A)
    → ((x : A) → p x ≡ true → q x ≡ false)
    → rows_where q (delete_where p xs) ≡ rows_where q xs
unfolding rows_where delete_where
kept-delete_where q p [] d = refl
kept-delete_where q p (x ∷ xs) d = ground (arith, d x, kept-delete_where q p xs d)

rows_where-last {ℓ} :
    {A : Type ℓ} (q : A → Bool) (xs : List A) (y : A)
    → q y ≡ false
    → rows_where q (xs ++ y ∷ []) ≡ rows_where q xs
unfolding rows_where
rows_where-last q [] y h = rw h refl
rows_where-last q (x ∷ xs) y h = ground (arith, h, rows_where-last q xs y h)

-- After a sample of a known host, the host has no sample older than the retention, and the samples of
-- the other hosts are as they were.
pub host_samples_bounded :
    (py : Python) (env : Env) (host_id : ℕ) (payload : Dict) (db : Db) (h : Host)
    → get_host db host_id ≡ some h
    → let db' = apply_host_metrics py env host_id payload db in
      (any (λ m. (m.host_id == host_id) && is_old env m.ts) db'.host_metrics ≡ false)
      × (rows_where (λ m. not (m.host_id == host_id)) db'.host_metrics
          ≡ rows_where (λ m. not (m.host_id == host_id)) db.host_metrics)
unfolding apply_host_metrics
host_samples_bounded py env host_id payload db h found =
    rw (found, apply_host_metrics)
      (
        any-delete_where (λ m. (m.host_id == host_id) && is_old env m.ts) _,
        kept-delete_where (λ m. not (m.host_id == host_id))
              (λ m. (m.host_id == host_id) && is_old env m.ts) _ (λ m e. ground (arith, e))
            ∙ rows_where-last (λ m. not (m.host_id == host_id)) db.host_metrics _ (ground arith),
      )
