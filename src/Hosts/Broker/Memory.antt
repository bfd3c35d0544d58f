-- ===== src/Hosts/Broker/Memory.antt =====
-- A broker that takes every call: it meets the laws, so they can be met.
use open_v_center_backend.Prelude.{refl, Bool, true, false, ◌||◌, Option, none, some, if◌then◌else◌}
use open_v_center_backend.Text.{Text, text_eq}
use open_v_center_backend.Hosts.Broker.{Broker, Rights}

pub record Kept : Type 0 where
  pub queues : Text → Bool
  pub passwords : Text → Option Text
  pub permissions : Text → Option Rights

unfoldable pub memory_broker : Broker
memory_broker = record {
  State = Kept;
  has_queue = λ s n. s.queues n;
  password = λ s n. s.passwords n;
  rights = λ s n. s.permissions n;
  declare = λ n a s. (true, record s { queues = λ m. text_eq n m || s.queues m });
  queue_delete =
      λ n s. (true, record s { queues = λ m. if text_eq n m then false else s.queues m });
  upsert_user =
      λ n p s. (true, record s { passwords = λ m. if text_eq n m then some p else s.passwords m });
  set_permissions = λ n r s.
      (true, record s { permissions = λ m. if text_eq n m then some r else s.permissions m });
  delete_user = λ n s. (
    true,
    record s {
      passwords = λ m. if text_eq n m then none else s.passwords m;
      permissions = λ m. if text_eq n m then none else s.permissions m;
    },
  );
  queue-declare = λ n m a s. refl;
  accounts-declare = λ n m a s. (refl, refl);
  password-upsert = λ n m p s. refl;
  others-upsert = λ n m p s. (refl, refl);
  rights-set = λ n m r s. refl;
  others-set = λ n m r s. (refl, refl);
}
