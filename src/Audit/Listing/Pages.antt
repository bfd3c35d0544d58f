-- ===== src/Audit/Listing/Pages.antt =====
-- The pages of the audit trail follow one another.
use open_v_center_backend.Prelude.{
  ℕ, zero, suc, ◌≡◌, refl, ap, sym, ◌∙◌, Bool, true, false, ◌&&◌, Option, none, some, List, [], ◌∷◌,
  arith, All, length, ltb, rows_where, Bool-cases, inl, inr,
}
use open_v_center_backend.Models.{Db}
use open_v_center_backend.Models.Records.{AuditEvent}
use open_v_center_backend.Audit.Listing.{
  AuditFilter, Sql, matches, is_below, below_cursor, newest_first, take, cursor_of, page,
  list_events,
}
use open_v_center_backend.Audit.Listing.Order.{
  UniqueEvents, Descending, below_trans, above, itself, newest_first-rows_where, All-newest_first,
  UniqueEvents-rows_where, newest_first-Descending,
}

-- What comes after the first `n` rows.
unfoldable pub drop : ℕ → List AuditEvent → List AuditEvent
drop zero es = es
drop (suc n) [] = []
drop (suc n) (e ∷ es) = drop n es

unfiltered :
    (p : AuditEvent → Bool) (es : List AuditEvent) → All (λ x. p x ≡ true) es → rows_where p es ≡ es
unfolding rows_where
unfiltered p [] h = refl
unfiltered p (e ∷ es) h = rw (h.0) (ap (◌∷◌ e) (unfiltered p es h.1))

drop_nothing : (n : ℕ) → drop n [] ≡ []
unfolding drop
drop_nothing zero = refl
drop_nothing (suc n) = refl

-- A cursor stands for a row: one of the list, below which are the rows after the page.
abbrev IsCursor : ℕ → List AuditEvent → AuditEvent → Type 0
IsCursor n es e =
    (cursor_of (take (suc n) es) ≡ some (e.occurred_at, e.id))
    × (rows_where (is_below e.occurred_at e.id) es ≡ drop (suc n) es)
    × ((p : AuditEvent → Bool) → All (λ x. p x ≡ true) es → p e ≡ true)

boundary :
    (n : ℕ) (x : AuditEvent) (es : List AuditEvent)
    → Descending (x ∷ es)
    → (e : AuditEvent) × IsCursor n (x ∷ es) e
unfolding take drop cursor_of rows_where Descending
boundary n x [] d = (x, (last n, rw (itself x) (sym (drop_nothing n)), λ p h. h.0))
  where
    last : (n : ℕ) → cursor_of (x ∷ take n []) ≡ some (x.occurred_at, x.id)
    last zero = refl
    last (suc n) = refl
boundary zero x (y ∷ ys) d =
    (x, (refl, rw (itself x) (unfiltered (is_below x.occurred_at x.id) (y ∷ ys) d.0), λ p h. h.0))
boundary (suc n) x (y ∷ ys) d =
    let (e, at) = boundary n y ys d.1 in
    (e, (at.0, rw (above x e (at.2 (is_below x.occurred_at x.id) d.0)) at.1, λ p h. at.2 p h.1))

take-take : (n : ℕ) (es : List AuditEvent) → take n (take (suc n) es) ≡ take n es
unfolding take
take-take zero es = refl
take-take (suc n) [] = refl
take-take (suc n) (e ∷ es) = ap (◌∷◌ e) (take-take n es)

page_cursor :
    (n : ℕ) (es : List AuditEvent) (c : ℕ × ℕ)
    → (page n es).1 ≡ some c
    → ((page n es).0 ≡ take n es) × (cursor_of (take n es) ≡ some c)
unfolding page
page_cursor n es c h = elim (Bool-cases (ltb n (length (take (suc n) es)))) [
  | inl e ↦ (rw e (take-take n es), ap cursor_of (sym (take-take n es)) ∙ full e h)
  | inr e ↦ absurd (sym (over e) ∙ h)
]
  where
    full :
        ltb n (length (take (suc n) es)) ≡ true
        → (page n es).1 ≡ some c
        → cursor_of (take n (take (suc n) es)) ≡ some c
    full e h = sym (rw e refl) ∙ h

    over : ltb n (length (take (suc n) es)) ≡ false → (page n es).1 ≡ none
    over e = rw e refl

    absurd : {P : Type 0} → none ≡ some c → P
    absurd e = cc

boundary_found :
    (n : ℕ) (es : List AuditEvent) (c : ℕ × ℕ)
    → Descending es
    → cursor_of (take (suc n) es) ≡ some c
    → (e : AuditEvent) × IsCursor n es e
unfolding take cursor_of
boundary_found n [] c d h = cc
boundary_found n (x ∷ es) c d h = boundary n x es d

rows_where-narrow :
    (p q r : AuditEvent → Bool) (es : List AuditEvent)
    → ((x : AuditEvent) → r x ≡ true → q x ≡ true)
    → rows_where (λ e. p e && r e) es ≡ rows_where r (rows_where (λ e. p e && q e) es)
unfolding rows_where
rows_where-narrow p q r [] d = refl
rows_where-narrow p q r (e ∷ es) d = ground (arith, d e, rows_where-narrow p q r es d)

selected_kept :
    (p q : AuditEvent → Bool) (es : List AuditEvent)
    → All (λ x. q x ≡ true) (rows_where (λ e. p e && q e) es)
unfolding rows_where
selected_kept p q [] = tt
selected_kept p q (e ∷ es) = elim (Bool-cases (p e && q e)) [
  | inl t ↦ rw t (ground (arith, t), selected_kept p q es)
  | inr t ↦ rw t (selected_kept p q es)
]

-- The events that a filter finds from a cursor on, newest first.
abbrev pub listed : Sql → AuditFilter → Option (ℕ × ℕ) → Db → List AuditEvent
listed sql flt start db =
    newest_first (rows_where (λ e. matches sql flt e && below_cursor start e) db.events)

below_start :
    (start : Option (ℕ × ℕ)) (e x : AuditEvent)
    → below_cursor start e ≡ true
    → is_below e.occurred_at e.id x ≡ true
    → below_cursor start x ≡ true
below_start none e x h p = refl
below_start (some (t, i)) e x h p = below_trans t i e x h p

-- Where event ids are unique: a page that comes with a cursor has the first events of the listing, and
-- the listing from that cursor on is the rest of it, whatever the size of the next page is.
pub next_page :
    (sql : Sql) (flt : AuditFilter) (n m : ℕ) (start : Option (ℕ × ℕ)) (next : ℕ × ℕ) (db : Db)
    → UniqueEvents db.events
    → (list_events sql flt (suc n) start db).1 ≡ some next
    → ((list_events sql flt (suc n) start db).0 ≡ take (suc n) (listed sql flt start db))
      × (list_events sql flt m (some next) db ≡ page m (drop (suc n) (listed sql flt start db)))
unfolding list_events
next_page sql flt n m start next db unique h =
    let found : List AuditEvent =
      rows_where (λ e. matches sql flt e && below_cursor start e) db.events in
    let rows : List AuditEvent = newest_first found in
    let (first, cursor) = page_cursor (suc n) rows next h in
    let sorted : Descending rows =
      newest_first-Descending found (UniqueEvents-rows_where _ db.events unique) in
    let (e, at) = boundary_found n rows next sorted cursor in
    let inside : below_cursor start e ≡ true = at.2 (below_cursor start) (
      All-newest_first (λ x. below_cursor start x ≡ true) found
        (selected_kept (matches sql flt) (below_cursor start) db.events)) in
    let key : next ≡ (e.occurred_at, e.id) = same (sym cursor ∙ at.0) in
    (
      first,
      rw key (
          ap (page m) (
            ap newest_first (
              rows_where-narrow (matches sql flt) (below_cursor start) (is_below e.occurred_at e.id)
                db.events (λ x p. below_start start e x inside p))
            ∙ newest_first-rows_where e.occurred_at e.id found
            ∙ at.1)),
    )
  where
    same : {a b : ℕ × ℕ} → some a ≡ some b → a ≡ b
    same e = cc
