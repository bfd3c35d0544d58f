-- ===== src/Worker/Subscriptions.antt =====
-- worker/main.run: which hosts the worker consumes, and the watchdogs over the connection and the
-- consumers. Time is the monotonic clock in seconds; a channel is known by its host's short id.
pub mod Refresh
use open_v_center_backend.Prelude.{
  ℕ, ◌+◌, String, Bool, true, false, not, ◌&&◌, ◌||◌, Option, none, some, List, [], ◌∷◌, ◌++◌, ◌==◌,
  ltb, leb, find, rows_where, delete_where, str_in, str_eq, if◌then◌else◌,
}

-- `host_channels`, `_host_last_message_at`, `_last_message_processed_at`, `rabbitmq_healthy` and
-- `rabbitmq_lost_at`.
pub record Consumers : Type 0 where
  pub channels : List String
  pub last_message_at : List (String × ℕ)
  pub processed_at : ℕ
  pub healthy : Bool
  pub lost_at : Option ℕ

abbrev drop_time : String → List (String × ℕ) → List (String × ℕ)
drop_time s times = delete_where (λ (p : String × ℕ). str_eq p.0 s) times

abbrev pub set_time : String → ℕ → List (String × ℕ) → List (String × ℕ)
set_time s now times = (s, now) ∷ drop_time s times

-- _on_message, before the handler runs.
unfoldable pub note_message : String → ℕ → Consumers → Consumers
note_message s now m = record m {
  last_message_at = set_time s now m.last_message_at;
  processed_at = now;
}

-- unsubscribe_host
unfoldable pub unsubscribe_host : String → Consumers → Consumers
unsubscribe_host s m = record m {
  channels = delete_where (λ c. str_eq c s) m.channels;
  last_message_at = drop_time s m.last_message_at;
}

unfoldable pub unsubscribe_hosts : List String → Consumers → Consumers
unfolding unsubscribe_host
unsubscribe_hosts [] m = m
unsubscribe_hosts (s ∷ ss) m = unsubscribe_hosts ss (unsubscribe_host s m)

-- What _subscribe_host comes to: a channel, None where a call on the channel failed, or an exception,
-- which the opening of the channel raises.
pub data Attempt : Type 0 where
  channel failed raised : Attempt

abbrev pub subscribed : ℕ → String → Consumers → Consumers
subscribed now s m = record m {
  channels = m.channels ++ s ∷ [];
  last_message_at = set_time s now m.last_message_at;
}

-- The loop over `pending`: a host is recorded once its subscription succeeded, a failure goes on with the
-- next one, and an exception ends the pass.
unfoldable pub subscribe_hosts : (String → Attempt) → ℕ → List String → Consumers → Consumers
subscribe_hosts attempt now [] m = m
subscribe_hosts attempt now (s ∷ ss) m = elim (attempt s) [
  | channel ↦ subscribe_hosts attempt now ss (subscribed now s m)
  | failed ↦ subscribe_hosts attempt now ss m
  | raised ↦ m
]

-- refresh_subscriptions: `hosts` are the short ids of the known hosts, and `attempt` says what
-- _subscribe_host does with each of them. What it raises is caught, and the next pass tries again.
unfoldable pub refresh_subscriptions : (String → Attempt) → ℕ → List String → Consumers → Consumers
unfolding unsubscribe_hosts subscribe_hosts
refresh_subscriptions attempt now hosts m =
    let m' = unsubscribe_hosts (rows_where (λ s. not (str_in s hosts)) m.channels) m in
    subscribe_hosts attempt now (rows_where (λ s. not (str_in s m'.channels)) hosts) m'

-- _on_connection_close and _on_connection_reconnect
abbrev or_now : Option ℕ → ℕ → ℕ
or_now none now = now
or_now (some t) now = t

unfoldable pub on_connection_close : ℕ → Consumers → Consumers
on_connection_close now m = record m { healthy = false; lost_at = some (or_now m.lost_at now) }

unfoldable pub on_connection_reconnect : Consumers → Consumers
on_connection_reconnect m = record m { healthy = true; lost_at = none }

-- check_rabbitmq_health: whether the worker exits.
unfoldable pub check_rabbitmq_health : ℕ → ℕ → Consumers → Bool
check_rabbitmq_health max_downtime now m = elim m.lost_at [
  | none ↦ false
  | some t ↦ not m.healthy && leb (t + max_downtime) now
]

abbrev is_empty : List String → Bool
is_empty [] = true
is_empty (s ∷ ss) = false

-- check_consumer_health: whether the worker exits.
unfoldable pub check_consumer_health : ℕ → ℕ → Consumers → Bool
check_consumer_health threshold now m =
    not (is_empty m.channels) && leb (m.processed_at + threshold) now

abbrev time_or : Option (String × ℕ) → ℕ → ℕ
time_or none now = now
time_or (some (s, t)) now = t

-- A host's queue was silent for the threshold, and its channel is dead or its responses pile up: `probe`
-- is the backlog, or none where the channel is dead or the probe failed.
unfoldable pub is_stuck : (String → Option ℕ) → ℕ → ℕ → Consumers → String → Bool
is_stuck probe threshold now m s =
    leb (time_or (find (λ (p : String × ℕ). str_eq p.0 s) m.last_message_at) now + threshold) now
    && (elim (probe s) [ none ↦ true | some backlog ↦ not (backlog == 0) ])

-- One pass of check_host_consumers.
unfoldable pub check_host_consumers : (String → Option ℕ) → ℕ → ℕ → Consumers → Consumers
unfolding is_stuck unsubscribe_hosts
check_host_consumers probe threshold now m =
    unsubscribe_hosts (rows_where (is_stuck probe threshold now m) m.channels) m
