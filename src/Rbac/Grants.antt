-- ===== src/Rbac/Grants.antt =====
-- What the scope of a user comes to: a VM is visible by one grant that covers it.
use open_v_center_backend.Prelude.{
  ℕ, ◌≡◌, refl, sym, ap, ◌∙◌, Bool, true, false, not, ◌&&◌, ◌||◌, Option, none, some, List, [], ◌∷◌,
  ◌++◌, ◌==◌, arith, any, has_id, is_some, str_in, rows_where, map, All, Bool-cases, Option-cases,
  inl, inr, if◌then◌else◌,
}
use open_v_center_backend.Settings.{Settings}
use open_v_center_backend.Models.{Db}
use open_v_center_backend.Models.VmRows.{Vm}
use open_v_center_backend.Models.Topology.{Host, Folder}
use open_v_center_backend.Models.Records.{User, ScopeGrant, Level, global, cluster, host, folder}
use open_v_center_backend.Rbac.{
  VisibleScope, is_member, in_set, is_global, collect, expand, add_grant, scope_of, nothing_visible,
  resolve_scope, vm_visible, vm_visible_clause,
}

in_set-nil : (o : Option ℕ) → in_set o [] ≡ false
unfolding is_member
in_set-nil none = refl
in_set-nil (some i) = refl

-- The two ways of asking agree on every VM.
pub vm_visible_clause-vm_visible :
    (scope : VisibleScope) (vm : Vm) → vm_visible_clause scope vm ≡ vm_visible scope vm
unfolding vm_visible_clause vm_visible is_member
vm_visible_clause-vm_visible scope vm =
    go scope.all scope.cluster_ids scope.host_ids scope.folder_ids
  where
    go :
        (a : Bool) (cs hs fs : List ℕ)
        → (let s : VisibleScope = record {
          all = a;
          cluster_ids = cs;
          host_ids = hs;
          folder_ids = fs;
        } in
            vm_visible_clause s vm ≡ vm_visible s vm)
    go true cs hs fs = refl
    go false cs [] [] = rw (in_set-nil vm.folder_id) refl
    go false cs [] (x ∷ fs) = refl
    go false cs (x ∷ hs) [] = refl
    go false cs (x ∷ hs) (y ∷ fs) = refl

is_member-append :
    (i : ℕ) (xs ys : List ℕ) → is_member i (xs ++ ys) ≡ (is_member i xs || is_member i ys)
unfolding is_member
is_member-append i [] ys = refl
is_member-append i (x ∷ xs) ys = ground (arith, is_member-append i xs ys)

in_set-append : (o : Option ℕ) (xs ys : List ℕ) → in_set o (xs ++ ys) ≡ (in_set o xs || in_set o ys)
in_set-append none xs ys = refl
in_set-append (some i) xs ys = is_member-append i xs ys

is_member-map {ℓ} :
    {A : Type ℓ} (key : A → ℕ) (p : A → Bool) (xs : List A) (i : ℕ)
    → is_member i (map key (rows_where p xs)) ≡ any (λ x. p x && (key x == i)) xs
unfolding is_member rows_where any
is_member-map key p [] i = refl
is_member-map key p (x ∷ xs) i = ground (arith, is_member-map key p xs i)

-- Whether a grant gives sight of a VM.
abbrev pub covers_by : Db → Vm → Level → Option ℕ → Bool
covers_by db vm global o = true
covers_by db vm cluster none = false
covers_by db vm cluster (some c) = any (λ h. has_id h.cluster_id c && (h.id == vm.host_id)) db.hosts
covers_by db vm host none = false
covers_by db vm host (some i) = i == vm.host_id
covers_by db vm folder none = false
covers_by db vm folder (some i) = has_id vm.folder_id i

abbrev pub covers : Db → Vm → ScopeGrant → Bool
covers db vm g = covers_by db vm g.level g.scope_id

-- What the collected sets give sight of, but for the folders on visible hosts.
abbrev direct : Db → Vm → VisibleScope → Bool
direct db vm scope =
    is_member vm.host_id scope.host_ids
    || (any (λ h. in_set h.cluster_id scope.cluster_ids && (h.id == vm.host_id)) db.hosts
        || in_set vm.folder_id scope.folder_ids)

any-in_set :
    (i k : ℕ) (cs : List ℕ) (hs : List Host)
    → any (λ h. in_set h.cluster_id (i ∷ cs) && (h.id == k)) hs ≡ (
        any (λ h. has_id h.cluster_id i && (h.id == k)) hs
        || any (λ h. in_set h.cluster_id cs && (h.id == k)) hs)
unfolding any is_member
any-in_set i k cs [] = refl
any-in_set i k cs (h ∷ hs) = elim (Option-cases h.cluster_id) [
  | inl e ↦ ground (arith, e, any-in_set i k cs hs)
  | inr (c, e) ↦ ground (arith, e, any-in_set i k cs hs)
]

in_set-cons : (o : Option ℕ) (i : ℕ) (xs : List ℕ) → in_set o (i ∷ xs) ≡ (has_id o i || in_set o xs)
unfolding is_member
in_set-cons none i xs = refl
in_set-cons (some k) i xs = ground arith

middle : (a b c d : Bool) → (a || ((b || c) || d)) ≡ (b || (a || (c || d)))
middle a b c d = ground arith

third : (a b c d : Bool) → (a || (b || (c || d))) ≡ (c || (a || (b || d)))
third a b c d = ground arith

direct-add_grant :
    (db : Db) (vm : Vm) (l : Level) (o : Option ℕ) (scope : VisibleScope)
    → is_global l ≡ false
    → direct db vm (add_grant l o scope) ≡ (covers_by db vm l o || direct db vm scope)
unfolding is_member
direct-add_grant db vm global o scope e = cc
direct-add_grant db vm cluster none scope e = refl
direct-add_grant db vm host none scope e = refl
direct-add_grant db vm folder none scope e = refl
direct-add_grant db vm cluster (some c) scope e =
    rw (any-in_set c vm.host_id scope.cluster_ids db.hosts)
      (middle (is_member vm.host_id scope.host_ids) _ _ _)
direct-add_grant db vm host (some i) scope e = ground arith
direct-add_grant db vm folder (some i) scope e =
    rw (in_set-cons vm.folder_id i scope.folder_ids)
      (third (is_member vm.host_id scope.host_ids) _ _ _)

-- A folder the VM stands in belongs to a cluster or to the VM's own host.
abbrev pub is_home : Vm → Folder → Bool
is_home vm f =
    not (has_id vm.folder_id f.id) || (not (is_some f.host_id) || has_id f.host_id vm.host_id)

home_step :
    (i k id : ℕ) (p : Option ℕ) (hosts : List ℕ)
    → (not (has_id (some i) id) || (not (is_some p) || has_id p k)) ≡ true
    → (in_set p hosts && (id == i)) ≡ true
    → is_member k hosts ≡ true
home_step i k id none hosts home e = cc
home_step i k id (some h) hosts home e =
    let same : h ≡ k = ground (arith, home, e) in rw (sym same) (ground (arith, e))

own_folder :
    (vm : Vm) (i : ℕ) (hosts : List ℕ) (fs : List Folder)
    → vm.folder_id ≡ some i
    → All (λ f. is_home vm f ≡ true) fs
    → any (λ f. in_set f.host_id hosts && (f.id == i)) fs ≡ true
    → is_member vm.host_id hosts ≡ true
unfolding any
own_folder vm i hosts [] at home e = cc
own_folder vm i hosts (f ∷ fs) at home e =
    elim (Bool-cases (in_set f.host_id hosts && (f.id == i))) [
      | inl hit ↦
          home_step i vm.host_id f.id f.host_id hosts
            (ap
                (λ o.
                  not (has_id o f.id) || (not (is_some f.host_id) || has_id f.host_id vm.host_id))
                (sym at)
              ∙ home.0)
            hit
      | inr miss ↦ own_folder vm i hosts fs at home.1 (rest miss e)
    ]
  where
    rest : {b : Bool} {c : Bool} → b ≡ false → (if b then true else c) ≡ true → c ≡ true
    rest e k = ground (arith, e, k)

redundant_folder :
    (db : Db) (vm : Vm) (hosts : List ℕ) (o : Option ℕ)
    → vm.folder_id ≡ o
    → All (λ f. is_home vm f ≡ true) db.folders
    → in_set o (map (λ f. f.id) (rows_where (λ f. in_set f.host_id hosts) db.folders)) ≡ true
    → is_member vm.host_id hosts ≡ true
redundant_folder db vm hosts none at home e = cc
redundant_folder db vm hosts (some i) at home e =
    own_folder vm i hosts db.folders at home
      (sym (is_member-map (λ f. f.id) (λ f. in_set f.host_id hosts) db.folders i) ∙ e)

absorb :
    (a m f hm hx fm fx : Bool)
    → a ≡ false
    → m ≡ (hm || hx)
    → f ≡ (fm || fx)
    → (fx ≡ true → m ≡ true)
    → (a || ((a || m) || (a || f))) ≡ (hm || (hx || fm))
absorb true m f hm hx fm fx e k l r = cc
absorb false m f hm hx fm true e k l r = ground (arith, k, l, r refl)
absorb false m f hm hx fm false e k l r = ground (arith, k, l)

visible-expand :
    (db : Db) (vm : Vm) (scope : VisibleScope)
    → All (λ f. is_home vm f ≡ true) db.folders
    → scope.all ≡ false
    → vm_visible (expand db scope) vm ≡ direct db vm scope
unfolding vm_visible expand
visible-expand db vm scope home e =
    let hosts : List ℕ =
      scope.host_ids
      ++ map (λ h. h.id) (rows_where (λ h. in_set h.cluster_id scope.cluster_ids) db.hosts) in
    absorb scope.all _ _ _ _ _ _ e
      (is_member-append vm.host_id scope.host_ids _
        ∙ ap (λ b. is_member vm.host_id scope.host_ids || b)
            (is_member-map (λ h. h.id) (λ h. in_set h.cluster_id scope.cluster_ids) db.hosts
              vm.host_id))
      (in_set-append vm.folder_id scope.folder_ids _)
      (redundant_folder db vm hosts vm.folder_id refl home)

add_grant-all :
    (l : Level) (o : Option ℕ) (scope : VisibleScope) → (add_grant l o scope).all ≡ scope.all
add_grant-all l none scope = refl
add_grant-all global (some i) scope = refl
add_grant-all cluster (some i) scope = refl
add_grant-all host (some i) scope = refl
add_grant-all folder (some i) scope = refl

global_covers :
    (db : Db) (vm : Vm) (l : Level) (o : Option ℕ) → is_global l ≡ true → covers_by db vm l o ≡ true
global_covers db vm global o e = refl
global_covers db vm cluster o e = cc
global_covers db vm host o e = cc
global_covers db vm folder o e = cc

regroup : (x d d' c r : Bool) → x ≡ (d' || r) → d' ≡ (c || d) → x ≡ (d || (if c then true else r))
regroup x d d' c r e k = ground (arith, e, k)

or_true_if : (a b c : Bool) → b ≡ true → true ≡ (a || (if b then true else c))
or_true_if a b c e = ground (arith, e)

or_false : (a : Bool) → a ≡ (a || false)
or_false true = refl
or_false false = refl

visible-collect :
    (db : Db) (vm : Vm) (gs : List ScopeGrant) (scope : VisibleScope)
    → All (λ f. is_home vm f ≡ true) db.folders
    → scope.all ≡ false
    → vm_visible (scope_of db (collect gs scope)) vm ≡ (direct db vm scope || any (covers db vm) gs)
unfolding collect any vm_visible
visible-collect db vm [] scope home e =
    visible-expand db vm scope home e ∙ or_false (direct db vm scope)
visible-collect db vm (g ∷ gs) scope home e = elim (Bool-cases (is_global g.level)) [
  | inl all ↦ rw all (
      or_true_if (direct db vm scope) (covers db vm g) _
        (global_covers db vm g.level g.scope_id all))
  | inr one ↦ rw one (
      regroup _ _ _ _ _
        (visible-collect db vm gs (add_grant g.level g.scope_id scope) home
          (add_grant-all g.level g.scope_id scope ∙ e))
        (direct-add_grant db vm g.level g.scope_id scope one))
]

no_cluster : (k : ℕ) (hs : List Host) → any (λ h. in_set h.cluster_id [] && (h.id == k)) hs ≡ false
unfolding any
no_cluster k [] = refl
no_cluster k (h ∷ hs) = rw (in_set-nil h.cluster_id) (no_cluster k hs)

direct-nothing_visible : (db : Db) (vm : Vm) → direct db vm nothing_visible ≡ false
unfolding is_member
direct-nothing_visible db vm = rw (no_cluster vm.host_id db.hosts, in_set-nil vm.folder_id) refl

-- A user sees a VM exactly as an administrator or by one of the user's own grants: a global one,
-- one of the VM's host, of the cluster that the host is in, or of the VM's folder. The folder that
-- the VM stands in is taken to belong to a cluster or to the VM's own host.
pub resolve_scope-vm_visible :
    (settings : Settings) (user : User) (db : Db) (vm : Vm)
    → All (λ f. is_home vm f ≡ true) db.folders
    → vm_visible (resolve_scope settings user db) vm ≡ (
        str_in settings.admin_role user.roles
        || any (covers db vm) (rows_where (λ g. g.user_id == user.id) db.grants))
unfolding resolve_scope vm_visible
resolve_scope-vm_visible settings user db vm home =
    elim (Bool-cases (str_in settings.admin_role user.roles)) [
      | inl e ↦ rw e refl
      | inr e ↦ rw e (
          visible-collect db vm (rows_where (λ g. g.user_id == user.id) db.grants) nothing_visible
            home refl
          ∙ ap (λ b. b || any (covers db vm) (rows_where (λ g. g.user_id == user.id) db.grants))
              (direct-nothing_visible db vm))
    ]
