-- ===== src/Routes/Vms/Listing/Filtered.antt =====
-- Which VMs a listing has.
use open_v_center_backend.Prelude.{
  ℕ, String, ◌≡◌, refl, ap, ◌∙◌, Bool, true, ◌&&◌, Option, none, some, List, [], ◌∷◌, ◌==◌, arith,
  any, map, rows_where, if◌then◌else◌, nonempty, or_text, All, All-map, ==_refl,
}
use open_v_center_backend.Models.VmRows.{Vm}
use open_v_center_backend.Valkey.{Valkey}
use open_v_center_backend.World.{World, Env}
use open_v_center_backend.Rbac.{VisibleScope, vm_visible}
use open_v_center_backend.Cache.{get_vm_state}
use open_v_center_backend.Cache.Bulk.{get_vm_states, lookup_id, lookup-get_vm_states}
use open_v_center_backend.Serializers.Vms.{vm_out}
use open_v_center_backend.Routes.Vms.Listing.{
  given_text, selected, host_offline, shown_vms, list_vms,
}

module _ ⦃kv : Valkey⦄ where
  open kv use {Store}

  -- The state that a VM shows: by itself, not read in bulk.
  abbrev pub state_shown : Env → World Store → Vm → String
  state_shown env w v =
      if host_offline env w.db v.host_id
      then "Unknown"
      else or_text (get_vm_state env.now v.id w.cache) v.state

any-rows_where {ℓ} :
    {A : Type ℓ} (p q : A → Bool) (xs : List A) → any p (rows_where q xs) ≡ any (λ x. q x && p x) xs
unfolding any rows_where
any-rows_where p q [] = refl
any-rows_where p q (x ∷ xs) = ground (arith, any-rows_where p q xs)

any-map {ℓ κ} :
    {A : Type ℓ} {B : Type κ} (p : B → Bool) (f : A → B) (xs : List A)
    → any p (map f xs) ≡ any (λ x. p (f x)) xs
unfolding any
any-map p f [] = refl
any-map p f (x ∷ xs) = ground (arith, any-map p f xs)

any-congr {ℓ} :
    {A : Type ℓ} (p q : A → Bool) (xs : List A) → All (λ x. p x ≡ q x) xs → any p xs ≡ any q xs
unfolding any
any-congr p q [] h = refl
any-congr p q (x ∷ xs) h = ground (arith, h.0, any-congr p q xs h.1)

or_text-nonempty : (o : Option String) (d : String) → or_text (nonempty o) d ≡ or_text o d
or_text-nonempty none d = refl
or_text-nonempty (some s) d = ground arith

abbrev is_in : List ℕ → ℕ → Bool
is_in ids i = any (λ j. j == i) ids

-- Every VM of a list is among the ids of the list.
own_ids :
    (ids : List ℕ) (vms : List Vm)
    → ((i : ℕ) → is_in (map (λ v. v.id) vms) i ≡ true → is_in ids i ≡ true)
    → All (λ v. is_in ids v.id ≡ true) vms
unfolding any
own_ids ids [] h = tt
own_ids ids (v ∷ vms) h =
    (h v.id (rw (==_refl v.id, if◌then◌else◌)), own_ids ids vms (λ i m. h i (ground (arith, m))))

module _ ⦃kv : Valkey⦄ (order : List Vm → List Vm) where
  open kv use {Store}

  bulk_state :
      (env : Env) (w : World Store) (ids : List ℕ) (v : Vm)
      → is_in ids v.id ≡ true
      → (if host_offline env w.db v.host_id
          then "Unknown"
          else or_text (lookup_id v.id (get_vm_states env.now ids w.cache)) v.state)
        ≡ state_shown env w v
  bulk_state env w ids v h =
      rw (lookup-get_vm_states env.now v.id ids w.cache h)
        (rw (or_text-nonempty (get_vm_state env.now v.id w.cache) v.state))

  -- Where the database's order keeps the rows, a listing has a VM of an id if and only if a VM of that id
  -- is visible, passes the filters of host and folder, and has the state that is asked for both in its row
  -- and as it is shown.
  pub listed_iff :
      (env : Env) (scope : VisibleScope) (host_id folder_id : Option ℕ) (state : Option String)
      (w : World Store) (i : ℕ)
      → ((p : Vm → Bool) (vms : List Vm) → any p (order vms) ≡ any p vms)
      → any (λ o. o.id == i) (list_vms order env scope host_id folder_id state w)
        ≡ any
            (λ v.
              selected host_id folder_id state v
              && (vm_visible scope v && (given_text state (state_shown env w v) && v.id == i)))
            w.db.vms
  unfolding list_vms shown_vms vm_out
  listed_iff env scope host_id folder_id state w i same =
      let found = rows_where (selected host_id folder_id state) w.db.vms in
      let vms = rows_where (λ v. vm_visible scope v) (order found) in
      let ids = map (λ v. v.id) vms in
      let shown = λ (v : Vm). given_text state (state_shown env w v) && v.id == i in
      any-rows_where (λ o. o.id == i) (λ o. given_text state o.state)
        (shown_vms order env w ids vms)
      ∙ any-map _ _ vms
      ∙ any-congr _ shown vms (
          All-map (λ v. is_in ids v.id ≡ true) _ vms
            (λ v h. ap (λ s. given_text state s && v.id == i) (bulk_state env w ids v h))
            (own_ids ids vms (λ j h. h)))
      ∙ any-rows_where shown (λ v. vm_visible scope v) (order found)
      ∙ same _ found
      ∙ any-rows_where _ (selected host_id folder_id state) w.db.vms
