-- ===== src/Hosts/Broker.antt =====
-- The broker's queues, accounts and rights, as the calls of app/messaging/management.py and of an AMQP
-- channel change them. The broker is a parameter: what it keeps can be read, a call that fails may come
-- at any time, and a call changes what it names and nothing else.
pub mod Memory
use open_v_center_backend.Prelude.{◌≡◌, Bool, ◌||◌, Option, some, if◌then◌else◌}
use open_v_center_backend.Text.{Text, text_eq}
use open_v_center_backend.Hosts.Messaging.{QueueArgs}

-- Rights: the name in the patterns of configure and read, and in the pattern of write.
pub record Rights : Type 0 where
  pub own : Text
  pub write : Text

pub record Broker : Type 1 where
  pub State : Type 0
  pub has_queue : State → Text → Bool
  pub password : State → Text → Option Text
  pub rights : State → Text → Option Rights
  -- `channel.declare_queue(name, durable=True, arguments=…)`: whether it did not raise
  pub declare : Text → QueueArgs → State → Bool × State
  -- `channel.queue_delete(name)`
  pub queue_delete : Text → State → Bool × State
  -- `mgmt.upsert_user(name, password)`
  pub upsert_user : Text → Text → State → Bool × State
  -- `mgmt.set_permissions(name, …)`
  pub set_permissions : Text → Rights → State → Bool × State
  -- `mgmt.delete_user(name)`
  pub delete_user : Text → State → Bool × State
  pub queue-declare :
      (n m : Text) (a : QueueArgs) (s : State)
      → has_queue (declare n a s).1 m
        ≡ (if (declare n a s).0 then text_eq n m || has_queue s m else has_queue s m)
  pub accounts-declare :
      (n m : Text) (a : QueueArgs) (s : State)
      → (password (declare n a s).1 m ≡ password s m) × (rights (declare n a s).1 m ≡ rights s m)
  pub password-upsert :
      (n m p : Text) (s : State)
      → password (upsert_user n p s).1 m ≡ (
          if (upsert_user n p s).0
          then (if text_eq n m then some p else password s m)
          else password s m)
  pub others-upsert :
      (n m p : Text) (s : State)
      → (has_queue (upsert_user n p s).1 m ≡ has_queue s m)
        × (rights (upsert_user n p s).1 m ≡ rights s m)
  pub rights-set :
      (n m : Text) (r : Rights) (s : State)
      → rights (set_permissions n r s).1 m ≡ (
          if (set_permissions n r s).0
          then (if text_eq n m then some r else rights s m)
          else rights s m)
  pub others-set :
      (n m : Text) (r : Rights) (s : State)
      → (has_queue (set_permissions n r s).1 m ≡ has_queue s m)
        × (password (set_permissions n r s).1 m ≡ password s m)
