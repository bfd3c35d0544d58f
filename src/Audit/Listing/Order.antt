-- ===== src/Audit/Listing/Order.antt =====
-- The order of the audit trail: sorting, and what stands below a key.
use open_v_center_backend.Prelude.{
  ℕ, ◌≡◌, refl, ap, sym, ◌∙◌, Bool, true, false, ◌&&◌, List, [], ◌∷◌, ◌==◌, arith, All, All-map,
  rows_where, Bool-cases, inl, inr, if◌then◌else◌,
}
use open_v_center_backend.Models.Records.{AuditEvent}
use open_v_center_backend.Audit.Listing.{is_below, insert, newest_first}

-- Primary keys.
unfoldable pub UniqueEvents : List AuditEvent → Type 0
UniqueEvents [] = Unit
UniqueEvents (e ∷ es) = All (λ x. (x.id == e.id) ≡ false) es × UniqueEvents es

unfoldable pub Descending : List AuditEvent → Type 0
Descending [] = Unit
Descending (e ∷ es) = All (λ x. is_below e.occurred_at e.id x ≡ true) es × Descending es

pub below_trans :
    (t i : ℕ) (e x : AuditEvent)
    → is_below t i e ≡ true
    → is_below e.occurred_at e.id x ≡ true
    → is_below t i x ≡ true
below_trans t i e x p q = grind arith

below_total :
    (e x : AuditEvent)
    → (x.id == e.id) ≡ false
    → is_below e.occurred_at e.id x ≡ false
    → is_below x.occurred_at x.id e ≡ true
below_total e x n p = grind arith

pub above :
    (e x : AuditEvent)
    → is_below e.occurred_at e.id x ≡ true
    → is_below x.occurred_at x.id e ≡ false
above e x p = grind arith

pub itself : (e : AuditEvent) → is_below e.occurred_at e.id e ≡ false
itself e = grind arith

-- A sorted list with the rows below a key is the sorted list of the rows below the key.
rows_where-insert :
    (t i : ℕ) (e : AuditEvent) (es : List AuditEvent)
    → rows_where (is_below t i) (insert e es) ≡ (
        if is_below t i e
        then insert e (rows_where (is_below t i) es)
        else rows_where (is_below t i) es)
unfolding rows_where insert
rows_where-insert t i e [] = refl
rows_where-insert t i e (x ∷ es) = ground (arith, rows_where-insert t i e es, below_trans t i e x)

pub newest_first-rows_where :
    (t i : ℕ) (es : List AuditEvent)
    → newest_first (rows_where (is_below t i) es) ≡ rows_where (is_below t i) (newest_first es)
unfolding rows_where newest_first
newest_first-rows_where t i [] = refl
newest_first-rows_where t i (e ∷ es) = elim (Bool-cases (is_below t i e)) [
  | inl p ↦ rw (p, rows_where) (ap (insert e) (newest_first-rows_where t i es) ∙ sym (kept p))
  | inr p ↦ rw (p, rows_where) (newest_first-rows_where t i es ∙ sym (left p))
]
  where
    kept :
        is_below t i e ≡ true
        → rows_where (is_below t i) (insert e (newest_first es))
          ≡ insert e (rows_where (is_below t i) (newest_first es))
    kept p = rows_where-insert t i e (newest_first es) ∙ rw p refl

    left :
        is_below t i e ≡ false
        → rows_where (is_below t i) (insert e (newest_first es))
          ≡ rows_where (is_below t i) (newest_first es)
    left p = rows_where-insert t i e (newest_first es) ∙ rw p refl

rows_where-and :
    (p q : AuditEvent → Bool) (es : List AuditEvent)
    → rows_where (λ e. p e && q e) es ≡ rows_where q (rows_where p es)
unfolding rows_where
rows_where-and p q [] = refl
rows_where-and p q (e ∷ es) = ground (arith, rows_where-and p q es)

All-insert :
    (P : AuditEvent → Type 0) (e : AuditEvent) (es : List AuditEvent)
    → P e
    → All P es
    → All P (insert e es)
unfolding insert
All-insert P e [] h hs = (h, tt)
All-insert P e (x ∷ es) h hs = elim (Bool-cases (is_below e.occurred_at e.id x)) [
  | inl p ↦ rw p (h, (hs.0, hs.1))
  | inr p ↦ rw p (hs.0, All-insert P e es h hs.1)
]

pub All-newest_first :
    (P : AuditEvent → Type 0) (es : List AuditEvent) → All P es → All P (newest_first es)
unfolding newest_first
All-newest_first P [] h = tt
All-newest_first P (e ∷ es) h = All-insert P e (newest_first es) h.0 (All-newest_first P es h.1)

All-rows_where :
    (P : AuditEvent → Type 0) (p : AuditEvent → Bool) (es : List AuditEvent)
    → All P es
    → All P (rows_where p es)
unfolding rows_where
All-rows_where P p [] h = tt
All-rows_where P p (e ∷ es) h = elim (Bool-cases (p e)) [
  | inl t ↦ rw t (h.0, All-rows_where P p es h.1)
  | inr t ↦ rw t (All-rows_where P p es h.1)
]

pub UniqueEvents-rows_where :
    (p : AuditEvent → Bool) (es : List AuditEvent)
    → UniqueEvents es
    → UniqueEvents (rows_where p es)
unfolding rows_where UniqueEvents
UniqueEvents-rows_where p [] u = tt
UniqueEvents-rows_where p (e ∷ es) u = elim (Bool-cases (p e)) [
  | inl t ↦
      rw t (All-rows_where (λ x. (x.id == e.id) ≡ false) p es u.0, UniqueEvents-rows_where p es u.1)
  | inr t ↦ rw t (UniqueEvents-rows_where p es u.1)
]

insert-Descending :
    (e : AuditEvent) (es : List AuditEvent)
    → All (λ x. (x.id == e.id) ≡ false) es
    → Descending es
    → Descending (insert e es)
unfolding insert Descending
insert-Descending e [] n d = (tt, tt)
insert-Descending e (x ∷ es) n d = elim (Bool-cases (is_below e.occurred_at e.id x)) [
  | inl p ↦ rw p (
    (
      p,
      All-map (λ y. is_below x.occurred_at x.id y ≡ true)
          (λ y. is_below e.occurred_at e.id y ≡ true) es
          (λ y q. below_trans e.occurred_at e.id x y p q) d.0,
    ),
    (d.0, d.1),
  )
  | inr p ↦ rw p (
    All-insert (λ y. is_below x.occurred_at x.id y ≡ true) e es (below_total e x n.0 p) d.0,
    insert-Descending e es n.1 d.1,
  )
]

pub newest_first-Descending :
    (es : List AuditEvent) → UniqueEvents es → Descending (newest_first es)
unfolding newest_first Descending UniqueEvents
newest_first-Descending [] u = tt
newest_first-Descending (e ∷ es) u =
    insert-Descending e (newest_first es) (All-newest_first (λ x. (x.id == e.id) ≡ false) es u.0)
      (newest_first-Descending es u.1)
