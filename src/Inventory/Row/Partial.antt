-- ===== src/Inventory/Row/Partial.antt =====
-- What a partial write may and may not change.
use open_v_center_backend.Prelude.{
  ℕ, String, ◌≡◌, refl, Bool, true, false, not, Option, none, some, List, [], ◌∷◌, any, arith,
  nonempty, Option-cases, inl, inr, str_eq, eq_iff,
}
use open_v_center_backend.Json.{as_text, Dict, get, has_key, end, entry}
use open_v_center_backend.Models.VmRows.{Vm}
use open_v_center_backend.Inventory.Values.{Python, field}
use open_v_center_backend.Inventory.Normalize.{VmItem, normalize_vm}
use open_v_center_backend.Inventory.Row.{reports, write_vm_row, new_name, new_guest_os}

-- The keys that report a column.
abbrev pub row_keys : List String
row_keys =
    "name" ∷ "state" ∷ "powerState" ∷ "metricsEnabled" ∷ "guestOs" ∷ "firmware" ∷ "generation"
    ∷ "vcpu" ∷ "cpu" ∷ "memoryDynamic" ∷ "memory" ∷ "nestedVirtualization" ∷ "nested"
    ∷ "highlyAvailable" ∷ "ha" ∷ "uptimeSec" ∷ "memoryBytes" ∷ "memoryMb" ∷ "memoryMB"
    ∷ "memoryMinBytes" ∷ "memoryMaxBytes" ∷ "memoryDemandBytes" ∷ "memoryConsumedMb"
    ∷ "cpuUsagePercent" ∷ "cpuUsagePct" ∷ "secureBoot" ∷ "secureBootTemplate" ∷ "autoStartAction"
    ∷ "automaticStart" ∷ "autoStartDelaySec" ∷ "automaticStartDelay" ∷ "autoStopAction"
    ∷ "automaticStop" ∷ "configPath" ∷ "path" ∷ "dvdPath" ∷ "dvd" ∷ "notes" ∷ "createdAt"
    ∷ "creationTime" ∷ "disks" ∷ "vhds" ∷ "nics" ∷ "snapshots" ∷ []

get_none : (k : String) (d : Dict) → has_key k d ≡ false → get k d ≡ none
unfolding get has_key
get_none k end h = refl
get_none k (entry j v d) h = ground (arith, get_none k d)

any-cons :
    (p : String → Bool) (k : String) (ks : List String)
    → any p (k ∷ ks) ≡ false
    → (p k ≡ false) × (any p ks ≡ false)
unfolding any
any-cons p k ks h = ground arith

-- A key of a list of absent keys is absent.
absent :
    (raw : Dict) (k : String) (ks : List String)
    → any (λ x. has_key x raw) ks ≡ false
    → any (str_eq k) ks ≡ true
    → has_key k raw ≡ false
unfolding any
absent raw k [] h m = cc
absent raw k (x ∷ ks) h m = ground (arith, eq_iff k x, absent raw k ks)

module _ (py : Python) (now host_id : ℕ) (cluster_id : Option ℕ) (raw : Dict) (v : Vm)
    (silent : any (λ k. has_key k raw) row_keys ≡ false) where
  gone : (k : String) → any (str_eq k) row_keys ≡ true → has_key k raw ≡ false
  gone k m = absent raw k row_keys silent m

  not-false : (b : Bool) → not b ≡ false → b ≡ true
  not-false true e = refl
  not-false false e = cc

  reports-cons :
      (k : String) (ks : List String)
      → has_key k raw ≡ false
      → reports true raw ks ≡ false
      → reports true raw (k ∷ ks) ≡ false
  unfolding reports any
  reports-cons k ks e h = ground (arith, e, h)

  unreported :
      (ks : List String)
      → any (λ k. not (any (str_eq k) row_keys)) ks ≡ false
      → reports true raw ks ≡ false
  unreported [] h = unfold reports any in refl
  unreported (k ∷ ks) h =
      let (m, rest) = any-cons (λ x. not (any (str_eq x) row_keys)) k ks h in
      reports-cons k ks (gone k (not-false _ m)) (unreported ks rest)

  kept_name : (item : VmItem) → new_name true false item v ≡ v.name
  kept_name item = elim (Option-cases (nonempty item.name)) [
    | inl e ↦ rw (e, new_name) refl
    | inr (n, e) ↦ rw (e, new_name) refl
  ]

  kept_guest_os : new_guest_os py (normalize_vm py raw) v ≡ v.guest_os
  unfolding normalize_vm as_text any
  kept_guest_os = rw (get_none "guestOs" raw (gone "guestOs" refl)) refl

  no_metrics : field "metricsEnabled" raw ≡ none
  unfolding field any
  no_metrics = rw (get_none "metricsEnabled" raw (gone "metricsEnabled" refl)) refl

  written :
      (item : VmItem)
      → new_guest_os py item v ≡ v.guest_os
      → write_vm_row py now host_id cluster_id true raw item v
        ≡ record v { host_id = host_id; cluster_id = cluster_id; last_inventory_at = some now }
  unfolding write_vm_row any
  written item guest =
      rw
        (
          guest,
          no_metrics,
          unreported ("name" ∷ []) refl,
          unreported ("state" ∷ "powerState" ∷ []) refl,
          unreported ("firmware" ∷ "generation" ∷ []) refl,
          unreported ("vcpu" ∷ "cpu" ∷ []) refl,
          unreported ("memoryDynamic" ∷ "memory" ∷ []) refl,
          unreported ("nestedVirtualization" ∷ "nested" ∷ []) refl,
          unreported ("highlyAvailable" ∷ "ha" ∷ []) refl,
          unreported ("uptimeSec" ∷ []) refl,
          unreported ("memoryBytes" ∷ "memoryMb" ∷ "memoryMB" ∷ "memory" ∷ []) refl,
          unreported ("memoryMinBytes" ∷ "memory" ∷ []) refl,
          unreported ("memoryMaxBytes" ∷ "memory" ∷ []) refl,
          unreported ("memoryDemandBytes" ∷ "memoryConsumedMb" ∷ []) refl,
          unreported ("cpuUsagePercent" ∷ "cpuUsagePct" ∷ []) refl,
          unreported ("secureBoot" ∷ []) refl,
          unreported ("secureBootTemplate" ∷ []) refl,
          unreported ("autoStartAction" ∷ "automaticStart" ∷ []) refl,
          unreported ("autoStartDelaySec" ∷ "automaticStartDelay" ∷ []) refl,
          unreported ("autoStopAction" ∷ "automaticStop" ∷ []) refl,
          unreported ("configPath" ∷ "path" ∷ []) refl,
          unreported ("dvdPath" ∷ "dvd" ∷ []) refl,
          unreported ("notes" ∷ []) refl,
          unreported ("createdAt" ∷ "creationTime" ∷ []) refl,
          unreported ("disks" ∷ "vhds" ∷ []) refl,
          unreported ("nics" ∷ []) refl,
          unreported ("snapshots" ∷ []) refl,
        )
        (rw (kept_name item) refl)

  -- An item that reports no column, such as one with the GUID alone, leaves a partial write with the
  -- row as it was, but for the host, the cluster and the time of the write.
  pub partial_silent :
      write_vm_row py now host_id cluster_id true raw (normalize_vm py raw) v
      ≡ record v { host_id = host_id; cluster_id = cluster_id; last_inventory_at = some now }
  partial_silent = written (normalize_vm py raw) kept_guest_os
