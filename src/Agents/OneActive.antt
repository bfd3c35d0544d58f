-- ===== src/Agents/OneActive.antt =====
-- One active build of each hypervisor.
use open_v_center_backend.Prelude.{
  ℕ, ◌≤◌, String, ◌≡◌, refl, sym, ap, ◌∙◌, Bool, true, false, Option, none, some, List, [], ◌∷◌,
  arith, All, All-update, All-update_where, count, count-update_where, find, update_where, str_eq,
  eq_iff, ◌==◌, ==_iff, ◌&&◌, All-map, find_sound, Option-cases, Bool-cases, inl, inr,
}
use open_v_center_backend.Models.{Db}
use open_v_center_backend.Models.Records.{AgentBinary, User}
use open_v_center_backend.Errors.{After}
use open_v_center_backend.Audit.{record_event}
use open_v_center_backend.Agents.Binaries.{
  new_notes, active_after, record_changes, get_binary, is_demoted, with_active, set_active,
  edit_active, update_agent_binary,
}

le_trans : {a b c : ℕ} → a ≤ b → b ≤ c → a ≤ c
le_trans p q = omega arith

abbrev pub is_active_of : String → AgentBinary → Bool
is_active_of h r = str_eq r.hypervisor h && r.is_active

-- At most one active build of each hypervisor.
abbrev pub OneActive : List AgentBinary → Type 0
OneActive rows = (h : String) → count (is_active_of h) rows ≤ 1

abbrev pub UniqueBinaries : List AgentBinary → Type 0
UniqueBinaries rows = (i : ℕ) → count (λ r. r.id == i) rows ≤ 1

-- The rows with the id of a build are of its hypervisor.
abbrev OfBuild : AgentBinary → AgentBinary → Type 0
OfBuild b r = (r.id == b.id) ≡ true → r.hypervisor ≡ b.hypervisor

none_left {ℓ} :
    {A : Type ℓ} (P : A → Type 0) (p : A → Bool) (xs : List A)
    → count p xs ≡ 0
    → All (λ x. p x ≡ true → P x) xs
unfolding count
none_left P p [] h = tt
none_left P p (x ∷ xs) h = elim (Bool-cases (p x)) [
  | inl e ↦ absurd (ground (arith, e, h))
  | inr e ↦ (λ t. absurd (sym e ∙ t), none_left P p xs (ground (arith, e, h)))
]
  where
    absurd : {Q : Type 0} → false ≡ true → Q
    absurd e = cc

build_rows :
    (rows : List AgentBinary) (i : ℕ) (b : AgentBinary)
    → count (λ r. r.id == i) rows ≤ 1
    → find (λ r. r.id == i) rows ≡ some b
    → All (λ r. (r.id == i) ≡ true → r.hypervisor ≡ b.hypervisor) rows
unfolding count find
build_rows [] i b le f = tt
build_rows (x ∷ rows) i b le f = elim (Bool-cases (x.id == i)) [
  | inl e ↦ (
    λ t. ap (λ (r : AgentBinary). r.hypervisor) (first e f),
    none_left (λ r. r.hypervisor ≡ b.hypervisor) (λ r. r.id == i) rows (ground (arith, e, le)),
  )
  | inr e ↦
      (λ t. absurd (sym e ∙ t), build_rows rows i b (ground (arith, e, le)) (ground (arith, e, f)))
]
  where
    first : (x.id == i) ≡ true → find (λ r. r.id == i) (x ∷ rows) ≡ some b → x ≡ b
    first e f = ground (arith, e, f)

    absurd : {Q : Type 0} → false ≡ true → Q
    absurd e = cc

count-All {ℓ} :
    {A : Type ℓ} (q p : A → Bool) (xs : List A)
    → All (λ x. q x ≡ true → p x ≡ true) xs
    → count q xs ≤ count p xs
unfolding count
count-All q p [] h = omega arith
count-All q p (x ∷ xs) h = ground (arith, h.0, count-All q p xs h.1)

count-update_All {ℓ} :
    {A : Type ℓ} (q p : A → Bool) (f : A → A) (xs : List A)
    → All (λ x. p x ≡ true → q (f x) ≡ true → q x ≡ true) xs
    → count q (update_where p f xs) ≤ count q xs
unfolding count update_where
count-update_All q p f [] h = omega arith
count-update_All q p f (x ∷ xs) h = ground (arith, h.0, count-update_All q p f xs h.1)

units {ℓ} : {A : Type ℓ} (xs : List A) → All (λ _. Unit {0}) xs
units [] = tt
units (x ∷ xs) = (tt, units xs)

module _ (b : AgentBinary) (rows : List AgentBinary) where
  abbrev demoted : List AgentBinary
  demoted = update_where (is_demoted b) (with_active false) rows

  -- After a build was made active, an active build of its hypervisor has its id.
  abbrev IsChosen : AgentBinary → Type 0
  IsChosen r = is_active_of b.hypervisor r ≡ true → (r.id == b.id) ≡ true

  chosen : All IsChosen (set_active b rows)
  unfolding set_active
  chosen =
      All-update_where IsChosen (λ r. r.id == b.id) (with_active true) demoted (λ r e k a. e)
        (All-update (λ _. Unit {0}) IsChosen (is_demoted b) (with_active false) rows
          (λ r e u a. ground (arith, a)) (λ r e u a. ground (arith, e, a)) (units rows))

  ids_kept : count (λ r. r.id == b.id) (set_active b rows) ≤ count (λ r. r.id == b.id) rows
  unfolding set_active
  ids_kept =
      le_trans
        (count-update_where (λ r. r.id == b.id) (λ r. r.id == b.id) (with_active true) demoted
          (λ r e q. q))
        (count-update_where (λ r. r.id == b.id) (is_demoted b) (with_active false) rows
          (λ r e q. q))

  others_kept :
      (h : String)
      → str_eq b.hypervisor h ≡ false
      → All (OfBuild b) rows
      → count (is_active_of h) (set_active b rows) ≤ count (is_active_of h) rows
  unfolding set_active
  others_kept h ne of =
      le_trans
        (count-update_All (is_active_of h) (λ r. r.id == b.id) (with_active true) demoted
          (All-update (OfBuild b)
            (λ r.
              (r.id == b.id) ≡ true
              → is_active_of h (with_active true r) ≡ true
              → is_active_of h r ≡ true)
            (is_demoted b) (with_active false) rows
            (λ r e k i a. ground (arith, ne, a, ap (λ s. str_eq s h) (k i)))
            (λ r e k i a. ground (arith, ne, a, ap (λ s. str_eq s h) (k i))) of))
        (count-update_where (is_active_of h) (is_demoted b) (with_active false) rows
          (λ r e q. ground (arith, q)))

  one_chosen : UniqueBinaries rows → count (is_active_of b.hypervisor) (set_active b rows) ≤ 1
  one_chosen unique =
      le_trans
        (count-All (is_active_of b.hypervisor) (λ r. r.id == b.id) (set_active b rows) chosen)
        (le_trans ids_kept (unique b.id))

  set_active-OneActive :
      UniqueBinaries rows → All (OfBuild b) rows → OneActive rows → OneActive (set_active b rows)
  set_active-OneActive unique of one h = elim (Bool-cases (str_eq b.hypervisor h)) [
    | inl e ↦ rw (sym ((eq_iff b.hypervisor h).0 e)) (one_chosen unique)
    | inr e ↦ le_trans (others_kept h e of) (one h)
  ]

-- A rewriting that keeps ids, hypervisors and activity.
module _ (p : AgentBinary → Bool) (f : AgentBinary → AgentBinary)
    (keeps : (r : AgentBinary)
      → ((f r).id ≡ r.id) × ((f r).hypervisor ≡ r.hypervisor) × ((f r).is_active ≡ r.is_active))
    (rows : List AgentBinary) where
  OneActive-update : OneActive rows → OneActive (update_where p f rows)
  OneActive-update one h =
      le_trans
        (count-update_where (is_active_of h) p f rows
          (λ r e q. ground (arith, q, ap (λ s. str_eq s h) (keeps r).1, (keeps r).2)))
        (one h)

  UniqueBinaries-update : UniqueBinaries rows → UniqueBinaries (update_where p f rows)
  UniqueBinaries-update unique i =
      le_trans
        (count-update_where (λ r. r.id == i) p f rows (λ r e q. ground (arith, q, (keeps r).0)))
        (unique i)

  OfBuild-update :
      (b : AgentBinary) → All (OfBuild b) rows → All (OfBuild b) (update_where p f rows)
  OfBuild-update b =
      All-update_where (OfBuild b) p f rows
        (λ r e k i. (keeps r).1 ∙ k (ap (λ j. j == b.id) (sym (keeps r).0) ∙ i))

edit_active-OneActive :
    (active : Option Bool) (b : AgentBinary) (rows : List AgentBinary)
    → UniqueBinaries rows
    → All (OfBuild b) rows
    → OneActive rows
    → OneActive (edit_active active b rows)
unfolding edit_active
edit_active-OneActive none b rows unique of one = one
edit_active-OneActive (some true) b rows unique of one = set_active-OneActive b rows unique of one
edit_active-OneActive (some false) b rows unique of one = λ h.
    le_trans
      (count-update_where (is_active_of h) (λ r. r.id == b.id) (with_active false) rows
        (λ r e q. ground (arith, q)))
      (one h)

binaries-record_changes :
    (event_id now : ℕ) (user : User) (b : AgentBinary) (notes : Option String) (active : Bool)
    (db : Db)
    → (record_changes event_id now user b notes active db).agent_binaries ≡ db.agent_binaries
unfolding record_changes record_event
binaries-record_changes event_id now user b notes active db = ground arith

edited-OneActive :
    (i : ℕ) (notes : Option (Option String)) (active : Option Bool) (db : Db) (b : AgentBinary)
    → UniqueBinaries db.agent_binaries
    → OneActive db.agent_binaries
    → get_binary db i ≡ some b
    → OneActive (
        edit_active active b (
          update_where
            (λ r. r.id == b.id)
            (λ r. record r { notes = new_notes notes r.notes })
            db.agent_binaries))
edited-OneActive i notes active db b unique one found =
    let p : AgentBinary → Bool = λ r. r.id == b.id in
    let f : AgentBinary → AgentBinary = λ r. record r { notes = new_notes notes r.notes } in
    let rows : List AgentBinary = db.agent_binaries in
    let here : b.id ≡ i = (==_iff b.id i).0 (find_sound (λ r. r.id == i) rows b found) in
    let of : All (OfBuild b) rows =
      All-map (λ r. (r.id == i) ≡ true → r.hypervisor ≡ b.hypervisor) (OfBuild b) rows
        (λ r k e. k (ap (λ j. r.id == j) (sym here) ∙ e)) (build_rows rows i b (unique i) found) in
    edit_active-OneActive active b (update_where p f rows)
      (UniqueBinaries-update p f (λ r. (refl, refl, refl)) rows unique)
      (OfBuild-update p f (λ r. (refl, refl, refl)) rows b of)
      (OneActive-update p f (λ r. (refl, refl, refl)) rows one)

-- Where each hypervisor has at most one active build and ids are unique, an update of a build that is
-- not refused leaves each hypervisor at most one.
pub update-OneActive :
    (event_id now : ℕ) (user : User) (admin : Bool) (i : ℕ) (notes : Option (Option String))
    (active : Option Bool) (db : Db)
    → UniqueBinaries db.agent_binaries
    → OneActive db.agent_binaries
    → After
        (λ (db' : Db). OneActive db'.agent_binaries)
        (update_agent_binary event_id now user admin i notes active db)
unfolding update_agent_binary
update-OneActive event_id now user false i notes active db unique one = tt
update-OneActive event_id now user true i notes active db unique one =
    elim (Option-cases (get_binary db i)) [
      | inl e ↦ rw (e, update_agent_binary) tt
      | inr (b, e) ↦
          let rows : List AgentBinary = edit_active active b (
            update_where (λ r. r.id == b.id) (λ r. record r { notes = new_notes notes r.notes })
              db.agent_binaries) in
          let same =
            binaries-record_changes event_id now user b (new_notes notes b.notes)
              (active_after active b.is_active) (record db { agent_binaries = rows }) in
          rw (e, update_agent_binary)
            (λ h. rw same (edited-OneActive i notes active db b unique one e h))
    ]
