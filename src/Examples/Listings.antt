-- ===== src/Examples/Listings.antt =====
-- A listing of the installation's VMs.
use open_v_center_backend.Prelude.{◌≡◌, refl, ◌&&◌, none, some, [], ◌==◌, any}
use open_v_center_backend.Valkey.Memory.{memory}
use open_v_center_backend.World.{World}
use open_v_center_backend.Rbac.{all_visible, vm_visible}
use open_v_center_backend.Routes.Vms.Listing.{given_text, selected, list_vms}
use open_v_center_backend.Routes.Vms.Listing.Filtered.{state_shown, listed_iff}
use open_v_center_backend.Examples.{env, world_with}

abbrev w : World memory.Store
w = world_with []

listed_iff_example :
    any
      (λ o. o.id == 10)
      (list_vms ⦃kv = memory⦄ (λ vms. vms) env all_visible (some 1) none (some "Off") w)
    ≡ any
        (λ v.
          selected (some 1) none (some "Off") v
          && (vm_visible all_visible v
              && (given_text (some "Off") (state_shown ⦃kv = memory⦄ env w v) && v.id == 10)))
        w.db.vms
listed_iff_example =
    listed_iff ⦃kv = memory⦄ (λ vms. vms) env all_visible (some 1) none (some "Off") w 10
      (λ p vms. refl)
