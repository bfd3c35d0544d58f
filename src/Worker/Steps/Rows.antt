-- ===== src/Worker/Steps/Rows.antt =====
-- Task rows over time: rows are appended and rewritten, and keep what identifies them.
use open_v_center_backend.Prelude.{
  ◌≡◌, refl, sym, ap, ◌∙◌, Bool, true, false, some, List, [], ◌∷◌, ◌++◌, ◌==◌, All, any, find,
  update_where, Bool-cases, inl, inr, arith,
}
use open_v_center_backend.Models.TaskRows.{Task, is_terminal}
use open_v_center_backend.Worker.Sweep.{id_in}
use open_v_center_backend.Worker.Sweep.Overdue.{UniqueIds}

-- A row and what it may become: its id, kind and creation time stay, and once ended it stays ended.
abbrev pub Advance : Task → Task → Type 0
Advance t t' =
    (t'.id ≡ t.id)
    × (t'.kind ≡ t.kind)
    × (t'.created_at ≡ t.created_at)
    × (is_terminal t.status ≡ true → is_terminal t'.status ≡ true)

Advance-refl : (t : Task) → Advance t t
Advance-refl t = (refl, refl, refl, λ e. e)

Advance-trans : (a b c : Task) → Advance a b → Advance b c → Advance a c
Advance-trans a b c p q = (q.0 ∙ p.0, q.1 ∙ p.1, q.2 ∙ p.2, λ e. q.3 (p.3 e))

pub absurd : {P : Type 0} → false ≡ true → P
absurd e = cc

-- Row by row, with rows appended at the end.
unfoldable pub Advances : List Task → List Task → Type 0
Advances [] us = Unit
Advances (t ∷ ts) [] = false ≡ true
Advances (t ∷ ts) (u ∷ us) = Advance t u × Advances ts us

pub Advances-refl : (ts : List Task) → Advances ts ts
unfolding Advances
Advances-refl [] = tt
Advances-refl (t ∷ ts) = (Advance-refl t, Advances-refl ts)

pub Advances-append : (ts us : List Task) → Advances ts (ts ++ us)
unfolding Advances
Advances-append [] us = tt
Advances-append (t ∷ ts) us = (Advance-refl t, Advances-append ts us)

pub Advances-trans : (a b c : List Task) → Advances a b → Advances b c → Advances a c
unfolding Advances
Advances-trans [] b c p q = tt
Advances-trans (x ∷ a) [] c p q = absurd p
Advances-trans (x ∷ a) (y ∷ b) [] p q = absurd q
Advances-trans (x ∷ a) (y ∷ b) (z ∷ c) p q =
    (Advance-trans x y z p.0 q.0, Advances-trans a b c p.1 q.1)

pub Advances-update_where :
    (p : Task → Bool) (f : Task → Task) (ts : List Task)
    → All (λ t. p t ≡ true → Advance t (f t)) ts
    → Advances ts (update_where p f ts)
unfolding Advances update_where
Advances-update_where p f [] h = tt
Advances-update_where p f (t ∷ ts) h = elim (Bool-cases (p t)) [
  | inl e ↦ rw e (h.0 e, Advances-update_where p f ts h.1)
  | inr e ↦ rw e (Advance-refl t, Advances-update_where p f ts h.1)
]

-- A rewriting that keeps ids keeps them unique.
id_in-update_where :
    (p : Task → Bool) (f : Task → Task) (t : Task) (ts : List Task)
    → ((x : Task) → (f x).id ≡ x.id)
    → id_in (update_where p f ts) t ≡ id_in ts t
unfolding any update_where
id_in-update_where p f t [] h = refl
id_in-update_where p f t (x ∷ ts) h = ground (arith, h x, id_in-update_where p f t ts h)

id_in-same : (t u : Task) (ts : List Task) → t.id ≡ u.id → id_in ts t ≡ id_in ts u
unfolding any
id_in-same t u [] e = refl
id_in-same t u (x ∷ ts) e = ground (arith, e, id_in-same t u ts e)

pub UniqueIds-update_where :
    (p : Task → Bool) (f : Task → Task) (ts : List Task)
    → ((x : Task) → (f x).id ≡ x.id)
    → UniqueIds ts
    → UniqueIds (update_where p f ts)
unfolding update_where
UniqueIds-update_where p f [] h u = tt
UniqueIds-update_where p f (t ∷ ts) h u = elim (Bool-cases (p t)) [
  | inl e ↦ rw e (
    id_in-update_where p f (f t) ts h ∙ id_in-same (f t) t ts (h t) ∙ u.0,
    UniqueIds-update_where p f ts h u.1,
  )
  | inr e ↦ rw e (id_in-update_where p f t ts h ∙ u.0, UniqueIds-update_where p f ts h u.1)
]

id_in-append :
    (t x : Task) (ts : List Task)
    → id_in ts t ≡ false
    → (x.id == t.id) ≡ false
    → id_in (ts ++ x ∷ []) t ≡ false
unfolding any
id_in-append t x [] h e = ground (arith, e)
id_in-append t x (y ∷ ts) h e = ground (arith, e, id_in-append t x ts)

pub UniqueIds-append :
    (x : Task) (ts : List Task)
    → any (λ t. t.id == x.id) ts ≡ false
    → UniqueIds ts
    → UniqueIds (ts ++ x ∷ [])
unfolding any
UniqueIds-append x [] h u = (refl, tt)
UniqueIds-append x (t ∷ ts) h u =
    (id_in-append t x ts u.0 (ground (arith, h)), UniqueIds-append x ts (ground (arith, h)) u.1)

-- The rows with the id of a row that is found are that row.
none_with :
    (P : Task → Type 0) (x : Task) (ts : List Task)
    → id_in ts x ≡ false
    → All (λ t. (t.id == x.id) ≡ true → P t) ts
unfolding any
none_with P x [] h = tt
none_with P x (t ∷ ts) h =
    (λ e. absurd (ground (arith, e, h)), none_with P x ts (ground (arith, h)))

other_id :
    (q : Task → Bool) (t x : Task) (ts : List Task)
    → id_in ts t ≡ false
    → find q ts ≡ some x
    → (t.id == x.id) ≡ false
unfolding any find
other_id q t x [] h f = cc
other_id q t x (y ∷ ts) h f = ground (arith, other_id q t x ts)

pub unique_row :
    (q : Task → Bool) (ts : List Task) (x : Task)
    → UniqueIds ts
    → find q ts ≡ some x
    → All (λ t. (t.id == x.id) ≡ true → t ≡ x) ts
unfolding find
unique_row q [] x u f = tt
unique_row q (t ∷ ts) x u f = elim (Bool-cases (q t)) [
  | inl e ↦
      let same : t ≡ x = head e f in
      (
        λ _. same,
        none_with (λ r. r ≡ x) x ts (id_in-same x t ts (ap (λ (r : Task). r.id) (sym same)) ∙ u.0),
      )
  | inr e ↦
      (λ i. absurd (sym (other_id q t x ts u.0 (tail e f)) ∙ i), unique_row q ts x u.1 (tail e f))
]
  where
    head : q t ≡ true → find q (t ∷ ts) ≡ some x → t ≡ x
    head e f = ground (arith, e, f)

    tail : q t ≡ false → find q (t ∷ ts) ≡ some x → find q ts ≡ some x
    tail e f = ground (arith, e, f)
