-- ===== src/Hosts/Messaging/Isolated.antt =====
-- An agent has rights on its own host's queues and on no other host's.
use open_v_center_backend.Prelude.{
  ◌≡◌, ◌≢◌, ◌↔◌, refl, true, none, some, [], ◌∷◌, ◌++◌, arith, All, inl, inr, Bool-cases, ◌==◌,
  if◌then◌else◌,
}
use open_v_center_backend.Text.{Text, text_eq}
use open_v_center_backend.Text.Laws.{text_eq_iff, text_eq_sound}
use open_v_center_backend.Hosts.Messaging.{
  QueueKind, request, response, agent_status, vm_inventory, host_inventory, template_inventory,
  iso_inventory, vm_metrics, host_metrics, kind_value, queue_name, without_prefix, is_queue_body,
  own_queue,
}

-- A reference without a dot.
abbrev pub Dotless : Text → Type 0
Dotless s = All (λ c. c ≢ b'.') s

every_kind : (k : QueueKind) → is_queue_body (kind_value k) ≡ true
unfolding is_queue_body kind_value
every_kind request = refl
every_kind response = refl
every_kind agent_status = refl
every_kind vm_inventory = refl
every_kind host_inventory = refl
every_kind template_inventory = refl
every_kind iso_inventory = refl
every_kind vm_metrics = refl
every_kind host_metrics = refl

without_own : (p s : Text) → without_prefix (p ++ (b'.' ∷ [])) (p ++ (b'.' ∷ s)) ≡ some s
unfolding without_prefix
without_own [] s = refl
without_own (c ∷ p) s = ground (arith, without_own p s)

-- A name with another reference before its first dot does not have the prefix.
without_other :
    (p q s : Text)
    → Dotless p
    → Dotless q
    → p ≢ q
    → without_prefix (p ++ (b'.' ∷ [])) (q ++ (b'.' ∷ s)) ≡ none
unfolding without_prefix
without_other [] [] s hp hq ne = absurd (ne refl)
without_other [] (d ∷ q) s hp hq ne = ground (arith, hq.0)
without_other (c ∷ p) [] s hp hq ne = ground (arith, hp.0)
without_other (c ∷ p) (d ∷ q) s hp hq ne = elim (Bool-cases (c == d)) [
  | inr other ↦ rw (other, if◌then◌else◌)
  | inl same ↦
      let e : c ≡ d = ground (arith, same) in
      rw (same, if◌then◌else◌) (without_other p q s hp.1 hq.1 (λ t. ne (cc (e, t))))
]

-- For references without dots, the rights of a host's agent cover the queue of another host, of any kind,
-- if and only if it is the same host.
pub own_queue_iff :
    (host other : Text) (kind : QueueKind)
    → Dotless host
    → Dotless other
    → (own_queue host (queue_name other kind) ≡ true) ↔ (host ≡ other)
unfolding own_queue queue_name
own_queue_iff host other kind hd od = (
  λ h. elim (Bool-cases (text_eq host other)) [
    | inl same ↦ text_eq_sound host other same
    | inr differ ↦
        let ne : host ≢ other = λ e. ground (arith, text_eq_iff host other, differ, e) in
        cc (rw (without_other host other (kind_value kind) hd od ne) at h)
  ],
  λ e. rw e (rw (without_own other (kind_value kind)) (every_kind kind)),
)
