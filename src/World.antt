-- ===== src/World.antt =====
-- app/db.py and what a handler runs in: the database session, the Valkey server, the messages
-- published so far, and the surroundings of one call. A handler's reads of the clock give one time.
use open_v_center_backend.Prelude.{ℕ, String, Bool, true, false, List, ◌++◌, [], ◌∷◌}
use open_v_center_backend.Settings.{Settings}
use open_v_center_backend.Models.{Db}
use open_v_center_backend.Models.TaskRows.{AgentRequest}
use open_v_center_backend.Errors.{ApiError, Error, api, Result, ok, err}

pub record World (S : Type 0) : Type 0 where
  pub db : Db
  pub cache : S
  -- the messages on the hosts' request queues, by short id
  pub published : List (String × AgentRequest)

-- The clock, the settings, and whether the broker takes a message.
pub record Env : Type 0 where
  pub now : ℕ
  pub settings : Settings
  pub broker_up : Bool

abbrev pub Action : Type 0 → Type 0 → Type 0
Action S A = World S → Result A × World S

module _ {S A : Type 0} where
  abbrev pub pure : A → Action S A
  pure a w = (ok a, w)

  abbrev pub raise : Error → Action S A
  raise e w = (err e, w)

  abbrev pub gets : (World S → A) → Action S A
  gets f w = (ok (f w), w)

  abbrev pub lift : Result A → Action S A
  lift r w = (r, w)

  -- `get_session` and `session_scope`: a raise rolls the database back. What was written to Valkey
  -- or published stays.
  abbrev pub finish : Db → Result A × World S → Result A × World S
  finish before (ok a, w) = (ok a, w)
  finish before (err e, w) = (err e, record w { db = before })

  unfoldable pub with_session : Action S A → Action S A
  with_session m w = finish w.db (m w)

module _ {S : Type 0} where
  abbrev pub modify_db : (Db → Db) → Action S (Unit {0})
  modify_db f w = (ok tt, record w { db = f w.db })

  abbrev pub modify_cache : (S → S) → Action S (Unit {0})
  modify_cache f w = (ok tt, record w { cache = f w.cache })

  -- `if c: raise e`
  abbrev pub raise_when : Bool → ApiError → Action S (Unit {0})
  raise_when true e w = (err (api e), w)
  raise_when false e w = (ok tt, w)

  -- `publish_request`: the message is on the queue, or the call raises.
  unfoldable pub publish_request : Env → String → AgentRequest → Action S (Unit {0})
  publish_request env queue request w = elim env.broker_up [
    | true ↦ (ok tt, record w { published = w.published ++ (queue, request) ∷ [] })
    | false ↦ (err Error.publish_failed, w)
  ]

abbrev pub continue : {S A B : Type 0} → Result A → (A → Action S B) → Action S B
continue (ok a) f w = f a w
continue (err e) f w = (err e, w)

infixl 5 ◌>>=◌ ◌>>◌
abbrev pub ◌>>=◌ : {S A B : Type 0} → Action S A → (A → Action S B) → Action S B
◌>>=◌ m f w = let (r, w') = m w in continue r f w'

abbrev pub ◌>>◌ : {S B : Type 0} → Action S (Unit {0}) → Action S B → Action S B
m >> k = m >>= λ _. k
