-- ===== src/Inventory/Hardware.antt =====
-- normalize_hardware: a host's hardware in the canonical shape, from a current or an old agent.
use open_v_center_backend.Prelude.{
  ℕ, ◌≡◌, refl, ap, sym, ◌∙◌, String, Bool, true, false, not, ◌||◌, Option, none, some, List, [],
  ◌∷◌, ◌==◌, any, is_some, str_in, str_eq, if◌then◌else◌, Bool-cases, inl, inr,
}
use open_v_center_backend.Json.{
  Json, null, bool, num, str, arr, obj, Items, nil, cons, Dict, end, entry, get, put, truthy,
  as_dict, get-put,
}
use open_v_center_backend.Inventory.Values.{
  Python, field, or_json, truth, or_zero, dict_list, mib, gib,
}

-- `v or d`
abbrev or_default : Option Json → Json → Json
or_default none d = d
or_default (some v) d = if truthy v then v else d

module _ (py : Python) where
  -- `round(_num(v) * k)` and `int(_num(v))`
  abbrev scaled : ℕ → Option Json → ℕ
  scaled k none = 0
  scaled k (some v) = or_zero (py.rounded k v)

  abbrev whole_number : Option Json → ℕ
  whole_number none = 0
  whole_number (some v) = or_zero (py.truncated v)

  abbrev gib_of : String → Dict → Json
  unfolding field
  gib_of k d = num (scaled gib (field k d))

  -- The volumes of the flat payload.
  abbrev volume : Dict → Dict
  unfolding field
  volume vol = entry "path" (or_default (or_json (field "path" vol) (field "name" vol)) (str "")) (
      entry "label" (or_default (field "name" vol) null)
        (entry "totalBytes" (gib_of "totalGb" vol) (entry "freeBytes" (gib_of "freeGb" vol) end)))

  unfoldable volumes : List Dict → List Dict
  unfolding field volume
  volumes [] = []
  volumes (vol ∷ vols) = volume vol ∷ volumes vols

  -- `v["path"].lower() in _C_DRIVE`
  abbrev is_c_drive : Dict → Bool
  is_c_drive vol = elim (get "path" vol) [ none ↦ false | some v ↦ named v ]
    where
      named : Json → Bool
      named (str s) = str_in (py.lower s) ("c:" ∷ "c:\\" ∷ "c:/" ∷ [])
      named _ = false

  -- With the drive that old agents report on its own.
  unfoldable with_c_drive : Option Dict → List Dict → List Dict
  unfolding field
  with_c_drive none storage = storage
  with_c_drive (some disk) storage =
      if any is_c_drive storage
      then storage
      else (entry "path" (str "C:\\") (
          entry "totalBytes" (gib_of "totalGb" disk)
            (entry "freeBytes" (gib_of "freeGb" disk) end)))
        ∷ storage

  abbrev objects : List Dict → Items
  objects [] = nil
  objects (d ∷ ds) = cons (obj d) (objects ds)

  unfoldable pub storage_of : Dict → List Dict
  unfolding field volumes with_c_drive
  storage_of raw =
      with_c_drive (as_dict (get "diskC" raw)) (volumes (dict_list (field "storage" raw)))

  abbrev or_else : ℕ → ℕ → ℕ
  or_else n d = if n == 0 then d else n

  abbrev cpu_of : Dict → Dict
  unfolding field
  cpu_of raw =
      let logical = whole_number (field "logicalProcessors" raw) in
      entry "model" (or_default (field "cpuModel" raw) (str "")) (
        entry "sockets"
          (num (or_else (whole_number (field "cpuSockets" raw)) (if logical == 0 then 0 else 1)))
          (entry "cores" (num (or_else (whole_number (field "cpuCores" raw)) logical))
            (entry "logical" (num logical) end)))

  -- The part that is always there.
  unfoldable base_of : Dict → Dict
  unfolding field
  base_of raw = entry "cpu" (obj (cpu_of raw)) (
      entry "memoryBytes" (num (scaled mib (field "memoryCapacityMB" raw))) (
        entry "storage" (arr (objects (storage_of raw))) (
          entry "os"
            (obj (
              entry "caption" (or_default (field "osName" raw) (str ""))
                (entry "version" (or_default (field "osVersion" raw) (str "")) end)))
            (entry "network" (arr nil) (
              entry "vSwitches" (arr nil) (
                entry "load"
                  (obj (
                    entry "cpuPercent" (py.percent (field "cpuLoadPercent" raw))
                      (entry "memoryPercent" (py.percent (field "memoryUsagePercent" raw)) end)))
                  end))))))

  -- `if c: out[k] = v`
  unfoldable put_if : Bool → String → Json → Dict → Dict
  put_if true k v d = put k v d
  put_if false k v d = d

  abbrev either : String → String → Dict → Bool
  unfolding field
  either j k raw = truth (field j raw) || truth (field k raw)

  unfoldable legacy : Dict → Dict
  unfolding field base_of put_if
  legacy raw =
      put_if (either "defaultVmPath" "defaultVhdPath" raw) "hyperv"
        (obj (
          entry "defaultVmPath" (or_default (field "defaultVmPath" raw) null)
            (entry "defaultVhdPath" (or_default (field "defaultVhdPath" raw) null) end)))
        (put_if (either "clusterState" "isCluster" raw) "cluster"
          (obj (
            entry "clustered" (bool (truth (field "isCluster" raw))) (
              entry "name" (or_default (field "clusterName" raw) null) (
                entry "state" (or_default (field "clusterState" raw) (str ""))
                  (entry "nodes" (or_default (field "clusterNodes" raw) (arr nil)) end)))))
          (put_if (truth (field "lastBootTime" raw)) "bootTime"
            (or_default (field "lastBootTime" raw) null)
            (put_if (either "hwManufacturer" "hwModel" raw) "system"
              (obj (
                entry "manufacturer" (or_default (field "hwManufacturer" raw) (str ""))
                  (entry "model" (or_default (field "hwModel" raw) (str "")) end)))
              (base_of raw))))

  abbrev some_row : List Dict → Bool
  some_row [] = false
  some_row (d ∷ ds) = true

  -- Something that a hardware payload has.
  unfoldable recognizable : Dict → Bool
  unfolding field
  recognizable raw =
      truth (field "cpuModel" raw)
      || (truth (field "osName" raw)
          || (not (scaled mib (field "memoryCapacityMB" raw) == 0) || some_row (storage_of raw)))

  -- `isinstance(raw.get("cpu"), dict)`
  abbrev pub is_canonical : Dict → Bool
  is_canonical d = is_some (as_dict (get "cpu" d))

  -- normalize_hardware
  unfoldable pub normalize_hardware : Option Json → Option Dict
  unfolding recognizable legacy
  normalize_hardware raw = elim (as_dict raw) [
    | none ↦ none
    | some d ↦ if is_canonical d then some d else if recognizable d then some (legacy d) else none
  ]

  is_canonical-put_if :
      (c : Bool) (k : String) (v : Json) (d : Dict)
      → str_eq k "cpu" ≡ false
      → is_canonical (put_if c k v d) ≡ is_canonical d
  unfolding put_if
  is_canonical-put_if true k v d e = ap (λ o. is_some (as_dict o)) (get-put "cpu" k v d ∙ rw e refl)
  is_canonical-put_if false k v d e = refl

  is_canonical-legacy : (raw : Dict) → is_canonical (legacy raw) ≡ true
  unfolding legacy
  is_canonical-legacy raw =
      is_canonical-put_if _ "hyperv" _ _ refl
      ∙ is_canonical-put_if _ "cluster" _ _ refl
      ∙ is_canonical-put_if _ "bootTime" _ _ refl
      ∙ is_canonical-put_if _ "system" _ (base_of raw) refl
      ∙ unfold base_of get as_dict in refl

  normalize-canonical :
      (d : Dict) → is_canonical d ≡ true → normalize_hardware (some (obj d)) ≡ some d
  unfolding normalize_hardware as_dict
  normalize-canonical d c = rw c refl

  normalize-legacy :
      (d : Dict)
      → is_canonical d ≡ false
      → normalize_hardware (some (obj d)) ≡ (if recognizable d then some (legacy d) else none)
  unfolding normalize_hardware as_dict
  normalize-legacy d c = rw c refl

  -- A normalized dict is canonical.
  is_canonical-normalize :
      (d e : Dict) → normalize_hardware (some (obj d)) ≡ some e → is_canonical e ≡ true
  is_canonical-normalize d e h = elim (Bool-cases (is_canonical d)) [
    | inl c ↦ ap is_canonical (some_inj (sym h ∙ normalize-canonical d c)) ∙ c
    | inr c ↦ go (sym (normalize-legacy d c) ∙ h)
  ]
    where
      some_inj : {x y : Dict} → some x ≡ some y → x ≡ y
      some_inj p = cc

      go : (if recognizable d then some (legacy d) else none) ≡ some e → is_canonical e ≡ true
      go h = elim (Bool-cases (recognizable d)) [
        | inl r ↦ ap is_canonical (some_inj (sym h ∙ rw r refl)) ∙ is_canonical-legacy d
        | inr r ↦ absurd (sym (sym h ∙ rw r refl))
      ]
        where
          absurd : {P : Type 0} → none ≡ some e → P
          absurd p = cc

  -- Hardware that was normalized is left as it is by a second normalization.
  pub normalize_stable :
      (d e : Dict)
      → normalize_hardware (some (obj d)) ≡ some e
      → normalize_hardware (some (obj e)) ≡ some e
  normalize_stable d e h = normalize-canonical e (is_canonical-normalize d e h)
