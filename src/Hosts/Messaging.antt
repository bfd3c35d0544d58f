-- ===== src/Hosts/Messaging.antt =====
-- app/messaging/queues.py: the queues of a host, and which names the rights of its agent cover. A host's
-- reference is its short id.
pub mod Isolated
use open_v_center_backend.Prelude.{
  ℕ, String, ◌≡◌, Bool, true, false, ◌||◌, ◌&&◌, List, [], ◌∷◌, ◌++◌, Option, none, some, any, ◌==◌,
  if◌then◌else◌,
}
use mathlib.Core.List.{reverse}
use open_v_center_backend.Text.{Text, text_eq, starts_with, is_empty}
use open_v_center_backend.Vms.Paths.{codes}

-- QueueKind
pub data QueueKind : Type 0 where
  request response agent_status : QueueKind
  vm_inventory host_inventory template_inventory iso_inventory : QueueKind
  vm_metrics host_metrics : QueueKind

unfoldable pub kind_value : QueueKind → Text
kind_value request = codes "request"
kind_value response = codes "response"
kind_value agent_status = codes "agent_status"
kind_value vm_inventory = codes "vm_inventory"
kind_value host_inventory = codes "host_inventory"
kind_value template_inventory = codes "template_inventory"
kind_value iso_inventory = codes "iso_inventory"
kind_value vm_metrics = codes "vm_metrics"
kind_value host_metrics = codes "host_metrics"

-- ALL_KINDS
abbrev pub all_kinds : List QueueKind
all_kinds =
    request
    ∷ (response
        ∷ (agent_status
            ∷ (vm_inventory
                ∷ (host_inventory
                    ∷ (template_inventory
                        ∷ (iso_inventory ∷ (vm_metrics ∷ (host_metrics ∷ []))))))))

-- Membership in LAST_VALUE_KINDS.
abbrev pub is_last_value : QueueKind → Bool
is_last_value agent_status = true
is_last_value vm_inventory = true
is_last_value host_inventory = true
is_last_value template_inventory = true
is_last_value iso_inventory = true
is_last_value _ = false

unfoldable pub queue_name : Text → QueueKind → Text
unfolding kind_value
queue_name host_ref kind = host_ref ++ (b'.' ∷ kind_value kind)

-- The arguments of a queue: none, or those that keep the newest messages, so many at most.
pub data QueueArgs : Type 0 where
  plain : QueueArgs
  drop_head : ℕ → QueueArgs

-- _queue_args
unfoldable pub queue_args : ℕ → QueueKind → QueueArgs
queue_args max_length kind = if is_last_value kind then drop_head max_length else plain

-- The rest behind a prefix.
unfoldable pub without_prefix : Text → Text → Option Text
without_prefix [] s = some s
without_prefix (c ∷ p) [] = none
without_prefix (c ∷ p) (d ∷ s) = if c == d then without_prefix p s else none

unfoldable pub ends_with : Text → Text → Bool
unfolding starts_with
ends_with s suffix = starts_with (reverse s) (reverse suffix)

-- What _QUEUE_BODY matches; names of queues have no line feeds.
unfoldable pub is_queue_body : Text → Bool
unfolding ends_with text_eq
is_queue_body s =
    text_eq s (codes "request")
    || text_eq s (codes "response")
    || text_eq s (codes "agent_status")
    || ends_with s (codes "_inventory")
    || ends_with s (codes "_metrics")

abbrev pub body_matches : Option Text → Bool
body_matches none = false
body_matches (some s) = is_queue_body s

-- The names that agent_permission_pattern matches; a reference has no character that a pattern reads.
unfoldable pub own_queue : Text → Text → Bool
unfolding is_queue_body without_prefix
own_queue host_ref name = body_matches (without_prefix (host_ref ++ (b'.' ∷ [])) name)

-- The names that agent_write_pattern matches: the host's queues and the default exchange.
unfoldable pub may_write : Text → Text → Bool
unfolding own_queue
may_write host_ref name =
    own_queue host_ref name || text_eq name (codes "amq.default") || is_empty name
