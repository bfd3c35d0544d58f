-- ===== src/Models/Samples.antt =====
-- app/models/metric.py and VmThumbnail of app/models/vm.py: what is kept of the agents' samples.
use open_v_center_backend.Prelude.{ℕ, Option, List}
use open_v_center_backend.Json.{Dict}
use open_v_center_backend.Models.VmRows.{Float}

pub record HostMetric : Type 0 where
  pub host_id : ℕ
  pub ts : ℕ
  pub cpu_percent : Option Float
  pub mem_percent : Option Float
  pub disk_latency_ms : Option Float
  pub net_rx_bps : Option ℕ
  pub net_tx_bps : Option ℕ
  pub detail : Dict

pub record VmMetric : Type 0 where
  pub vm_id : ℕ
  pub ts : ℕ
  pub cpu_percent : Option Float
  pub mem_bytes : Option ℕ
  pub disk_bytes : Option ℕ
  pub net_rx_bytes : Option ℕ
  pub net_tx_bytes : Option ℕ
  pub detail : Dict

-- The image by its bytes; its type is always JPEG.
pub record VmThumbnail : Type 0 where
  pub vm_id : ℕ
  pub image : List ℕ
  pub captured_at : ℕ
