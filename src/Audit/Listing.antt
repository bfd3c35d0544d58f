-- ===== src/Audit/Listing.antt =====
-- audit.list_events: the audit trail by pages, newest first. A cursor is the time and the id of the last
-- event of a page; its encoding is left out.
pub mod Order
pub mod Pages
use open_v_center_backend.Prelude.{
  ℕ, zero, suc, ◌+◌, String, Bool, true, false, ◌&&◌, ◌||◌, Option, none, some, List, [], ◌∷◌, ◌==◌,
  has_id, length, ltb, nonempty, rows_where, str_eq, if◌then◌else◌,
}
use open_v_center_backend.Models.{Db}
use open_v_center_backend.Models.Records.{AuditEvent, Outcome}

-- AuditFilter
pub record AuditFilter : Type 0 where
  pub actor : Option String
  pub action : Option String
  pub target_type : Option String
  pub target_id : Option ℕ
  pub host_id : Option ℕ
  pub cluster_id : Option ℕ
  pub outcome : Option Outcome
  pub since : Option ℕ
  pub until : Option ℕ
  pub q : Option String

-- `column ILIKE %text%` of the database, and its comparison of outcomes.
pub record Sql : Type 0 where
  pub contains : Option String → String → Bool
  pub same_outcome : Outcome → Outcome → Bool

-- `if flt.x: where(…)`
abbrev when {ℓ} : {A : Type ℓ} → Option A → (A → Bool) → Bool
when none test = true
when (some a) test = test a

abbrev has_text : Option String → String → Bool
has_text none s = false
has_text (some t) s = str_eq t s

unfoldable pub matches : Sql → AuditFilter → AuditEvent → Bool
matches sql flt e =
    when (nonempty flt.actor) (λ s. sql.contains e.actor_email s || sql.contains e.actor_name s)
    && (when (nonempty flt.action) (λ s. str_eq e.action s)
        && (when (nonempty flt.target_type) (λ s. str_eq e.target_type s)
            && (when flt.target_id (λ i. has_id e.target_id i)
                && (when flt.host_id (λ i. has_id e.host_id i)
                    && (when flt.cluster_id (λ i. has_id e.cluster_id i)
                        && (when flt.outcome (λ o. sql.same_outcome e.outcome o)
                            && (when flt.since (λ t. ltb t (suc e.occurred_at))
                                && (when flt.until (λ t. ltb e.occurred_at t)
                                    && when (nonempty flt.q) (λ s.
                                      sql.contains e.target_name s
                                      || (sql.contains e.actor_email s
                                          || sql.contains e.actor_name s))))))))))

-- `(occurred_at, id) < (t, i)`
abbrev pub is_below : ℕ → ℕ → AuditEvent → Bool
is_below t i e = ltb e.occurred_at t || ((e.occurred_at == t) && ltb e.id i)

abbrev pub below_cursor : Option (ℕ × ℕ) → AuditEvent → Bool
below_cursor none e = true
below_cursor (some (t, i)) e = is_below t i e

-- `order_by(occurred_at.desc(), id.desc())`
unfoldable pub insert : AuditEvent → List AuditEvent → List AuditEvent
insert e [] = e ∷ []
insert e (x ∷ xs) =
    let rest = insert e xs in if is_below e.occurred_at e.id x then e ∷ x ∷ xs else x ∷ rest

unfoldable pub newest_first : List AuditEvent → List AuditEvent
unfolding insert
newest_first [] = []
newest_first (e ∷ es) = insert e (newest_first es)

-- `rows[:n]`
unfoldable pub take : ℕ → List AuditEvent → List AuditEvent
take zero es = []
take (suc n) [] = []
take (suc n) (e ∷ es) = e ∷ take n es

-- The cursor of `rows[-1]`.
unfoldable pub cursor_of : List AuditEvent → Option (ℕ × ℕ)
cursor_of [] = none
cursor_of (e ∷ []) = some (e.occurred_at, e.id)
cursor_of (e ∷ x ∷ xs) = cursor_of (x ∷ xs)

-- A page of `limit` of the rows, and the cursor if there are more.
unfoldable pub page : ℕ → List AuditEvent → List AuditEvent × Option (ℕ × ℕ)
unfolding take cursor_of
page limit es =
    let rows = take (suc limit) es in
    if ltb limit (length rows) then (take limit rows, cursor_of (take limit rows)) else (rows, none)

-- list_events
unfoldable pub list_events :
    Sql → AuditFilter → ℕ → Option (ℕ × ℕ) → Db → List AuditEvent × Option (ℕ × ℕ)
unfolding matches newest_first page
list_events sql flt limit cursor db =
    page limit
      (newest_first (rows_where (λ e. matches sql flt e && below_cursor cursor e) db.events))
