-- ===== src/Errors.antt =====
-- app/api/errors.py: `ApiError` and its constructors, without the message texts. The handlers of
-- FastAPI that turn them into responses are not modelled.
use open_v_center_backend.Prelude.{ℕ, ◌≡◌, refl, Bool, true, false, Option, none, some}
use open_v_center_backend.Valkey.{Lock}

pub data Code : Type 0 where
  not_found_code forbidden_code vm_locked_code unauthenticated : Code
  host_offline vm_not_ready storage_not_allowed ha_required validation_error : Code
  host_online cross_host_clone source_not_off template_unreachable : Code
  unknown_action not_clustered host_action_in_progress : Code
  invalid duplicate tag_conflict : Code
  too_large storage_error active_binary agent_download_unavailable : Code
  no_active_agent_binary agent_already_current agent_upgrade_in_progress : Code

pub data Details : Type 0 where
  plain : Details
  held_lock : Option Lock → Details
  running_task : ℕ → Details

pub record ApiError : Type 0 where
  pub code : Code
  pub status_code : ℕ
  pub details : Details

-- `ApiError(code, message, status_code)`
abbrev pub api_error : Code → ℕ → ApiError
api_error c s = record { code = c; status_code = s; details = plain }

abbrev pub not_found : ApiError
not_found = api_error not_found_code 404

abbrev pub forbidden : ApiError
forbidden = api_error forbidden_code 403

abbrev pub vm_locked : Option Lock → ApiError
vm_locked l = record { code = vm_locked_code; status_code = 409; details = held_lock l }

-- What ends a request early: an API error, a failed `assert`, a publish that the broker
-- refused, or another call on the broker that failed.
pub data Error : Type 0 where
  api : ApiError → Error
  assertion : Error
  publish_failed : Error
  broker_failed : Error

pub data Result {ℓ} (A : Type ℓ) : Type ℓ where
  ok : A → Result A
  err : Error → Result A

-- Services that touch the database alone: an error rolls the session back, so no state comes back
-- beside it.
-- `if c: raise e`
abbrev pub raise_if : Bool → ApiError → Result (Unit {0})
raise_if true e = err (api e)
raise_if false e = ok tt

-- A call, and what follows it where it did not raise.
infixl 5 ◌>>=◌ ◌>>◌
abbrev pub ◌>>=◌ {ℓ κ} : {A : Type ℓ} {B : Type κ} → Result A → (A → Result B) → Result B
err x >>= next = err x
ok value >>= next = next value

abbrev pub ◌>>◌ {κ} : {B : Type κ} → Result (Unit {0}) → Result B → Result B
call >> next = call >>= λ done. next

-- `if x is None: raise e`
abbrev pub or_raise {ℓ} : {A : Type ℓ} → Option A → Error → Result A
or_raise none e = err e
or_raise (some a) e = ok a

-- A predicate of what a service returns, where it raises no error.
abbrev pub After {ℓ κ} : {A : Type ℓ} → (A → Type κ) → Result A → Type κ
After P (ok a) = P a
After P (err e) = Unit

-- A guard before a result either raises or leaves it as it is.
pub After-raise {ℓ κ} :
    {A : Type ℓ} (P : A → Type κ) (c : Bool) (e : ApiError) (m : Result A)
    → (c ≡ false → After P m)
    → After P (raise_if c e >> m)
After-raise P true e m p = tt
After-raise P false e m p = p refl

pub After-bind {ℓ κ μ} :
    {A : Type ℓ} {B : Type μ} (P : B → Type κ) (m : Result A) (f : A → Result B)
    → ((a : A) → m ≡ ok a → After P (f a))
    → After P (m >>= f)
After-bind P (err x) f p = tt
After-bind P (ok a) f p = p a refl

pub After-guard {ℓ κ μ} :
    {A : Type ℓ} {B : Type μ} (P : B → Type κ) (m : Result A) (c : A → Bool) (e : ApiError) (b : B)
    → P b
    → After P (m >>= λ a. raise_if (c a) e >> ok b)
After-guard P m c e b p =
    After-bind P m (λ a. raise_if (c a) e >> ok b) (λ a k. After-raise P (c a) e (ok b) (λ z. p))
