-- ===== src/Worker/Subscriptions/Refresh.antt =====
-- Which hosts are consumed after a discovery pass and after a pass of the watchdog.
use open_v_center_backend.Prelude.{
  ℕ, String, ◌≡◌, ◌⊎◌, refl, ap, Bool, true, false, not, ◌&&◌, ◌||◌, Option, if◌then◌else◌, List,
  [], ◌∷◌, ◌++◌, arith, rows_where, delete_where, str_in, str_eq, eq_iff, Bool-cases, inl, inr,
}
use open_v_center_backend.Worker.Subscriptions.{
  Attempt, channel, failed, raised, subscribed, Consumers, unsubscribe_host, unsubscribe_hosts,
  subscribe_hosts, refresh_subscriptions, is_stuck, check_host_consumers,
}

str_in-delete_where :
    (s g : String) (xs : List String)
    → str_in s (delete_where (λ c. str_eq c g) xs) ≡ (str_in s xs && not (str_eq g s))
unfolding str_in delete_where
str_in-delete_where s g [] = refl
str_in-delete_where s g (x ∷ xs) =
    ground (arith, str_in-delete_where s g xs, eq_iff x g, eq_iff x s, eq_iff g s)

str_in-rows_where :
    (s : String) (p : String → Bool) (xs : List String)
    → str_in s (rows_where p xs) ≡ (str_in s xs && p s)
unfolding str_in rows_where
str_in-rows_where s p [] = refl
str_in-rows_where s p (x ∷ xs) = elim (Bool-cases (str_eq x s)) [
  | inl e ↦ ground (arith, e, ap p ((eq_iff x s).0 e), str_in-rows_where s p xs)
  | inr e ↦ ground (arith, e, str_in-rows_where s p xs)
]

str_in-append :
    (s x : String) (xs : List String) → str_in s (xs ++ x ∷ []) ≡ (str_in s xs || str_eq x s)
unfolding str_in
str_in-append s x [] = ground arith
str_in-append s x (y ∷ xs) = ground (arith, str_in-append s x xs)

left_out :
    (s : String) (gs : List String) (m : Consumers)
    → str_in s (unsubscribe_hosts gs m).channels ≡ (str_in s m.channels && not (str_in s gs))
unfolding unsubscribe_hosts unsubscribe_host str_in
left_out s [] m = ground arith
left_out s (g ∷ gs) m =
    ground (arith, left_out s gs (unsubscribe_host g m), str_in-delete_where s g m.channels)

abbrev pub gives_channel : Attempt → Bool
gives_channel channel = true
gives_channel failed = false
gives_channel raised = false

abbrev pub is_raised : Attempt → Bool
is_raised channel = false
is_raised failed = false
is_raised raised = true

-- The hosts before a host.
unfoldable pub before : String → List String → List String
before s [] = []
before s (x ∷ xs) = let rest = before s xs in if str_eq x s then [] else x ∷ rest

unfoldable pub any_host : (String → Bool) → List String → Bool
any_host p [] = false
any_host p (x ∷ xs) = p x || any_host p xs

Attempt-cases : (a : Attempt) → ((a ≡ channel) ⊎ (a ≡ failed)) ⊎ (a ≡ raised)
Attempt-cases channel = inl (inl refl)
Attempt-cases failed = inl (inr refl)
Attempt-cases raised = inr refl

taken_in :
    (attempt : String → Attempt) (now : ℕ) (s : String) (ps : List String) (m : Consumers)
    → str_in s (subscribe_hosts attempt now ps m).channels ≡ (
        str_in s m.channels
        || (str_in s ps
            && (gives_channel (attempt s)
                && not (any_host (λ g. is_raised (attempt g)) (before s ps)))))
unfolding subscribe_hosts str_in before any_host
taken_in attempt now s [] m = ground arith
taken_in attempt now s (p ∷ ps) m =
    let same : str_eq p s ≡ true → attempt p ≡ attempt s = λ e. ap attempt ((eq_iff p s).0 e) in
    elim (Bool-cases (str_eq p s)) [
      | inl e ↦ elim (Attempt-cases (attempt p)) [
        | inl (inl h) ↦ ground (
          arith,
          e,
          h,
          same e,
          str_in-append s p m.channels,
          taken_in attempt now s ps (subscribed now p m),
        )
        | inl (inr h) ↦ ground (arith, e, h, same e, taken_in attempt now s ps m)
        | inr h ↦ ground (arith, e, h, same e)
      ]
      | inr e ↦ elim (Attempt-cases (attempt p)) [
        | inl (inl h) ↦ ground (
          arith,
          e,
          h,
          str_in-append s p m.channels,
          taken_in attempt now s ps (subscribed now p m),
        )
        | inl (inr h) ↦ ground (arith, e, h, taken_in attempt now s ps m)
        | inr h ↦ ground (arith, e, h)
      ]
    ]

before-rows_where :
    (p q : String → Bool) (s : String) (xs : List String)
    → q s ≡ true
    → any_host p (before s (rows_where q xs)) ≡ any_host (λ g. q g && p g) (before s xs)
unfolding before any_host rows_where
before-rows_where p q s [] h = refl
before-rows_where p q s (x ∷ xs) h = elim (Bool-cases (str_eq x s)) [
  | inl e ↦ ground (arith, e, h, ap q ((eq_iff x s).0 e), before-rows_where p q s xs h)
  | inr e ↦ ground (arith, e, before-rows_where p q s xs h)
]

any_host-congr :
    (p q : String → Bool) (xs ys : List String)
    → ((g : String) → str_in g ys ≡ true → p g ≡ q g)
    → ((g : String) → str_in g xs ≡ true → str_in g ys ≡ true)
    → any_host p xs ≡ any_host q xs
unfolding any_host str_in
any_host-congr p q [] ys h k = refl
any_host-congr p q (x ∷ xs) ys h k =
    let here : p x ≡ q x = h x (k x (ground (arith, eq_iff x x))) in
    ground (arith, here, any_host-congr p q xs ys h (λ g e. k g (ground (arith, e))))

before-str_in :
    (s g : String) (xs : List String) → str_in g (before s xs) ≡ true → str_in g xs ≡ true
unfolding before str_in
before-str_in s g [] h = h
before-str_in s g (x ∷ xs) h = ground (arith, h, before-str_in s g xs)

-- After a discovery pass a host is consumed if and only if it is known, and it was consumed before, or its
-- own subscription gave a channel and none of the hosts before it that were not consumed raised an
-- exception.
pub refreshed :
    (attempt : String → Attempt) (now : ℕ) (hosts : List String) (m : Consumers) (s : String)
    → str_in s (refresh_subscriptions attempt now hosts m).channels ≡ (
        str_in s hosts
        && (str_in s m.channels
            || (gives_channel (attempt s)
                && not (
                    any_host
                      (λ g. not (str_in g m.channels) && is_raised (attempt g))
                      (before s hosts)))))
unfolding refresh_subscriptions
refreshed attempt now hosts m s =
    let gone = rows_where (λ c. not (str_in c hosts)) m.channels in
    let m' : Consumers = unsubscribe_hosts gone m in
    let kept : (g : String) → str_in g m'.channels ≡ (str_in g m.channels && str_in g hosts) = λ g.
      ground
        (arith, left_out g gone m, str_in-rows_where g (λ c. not (str_in c hosts)) m.channels) in
    let raisers : any_host (λ g. not (str_in g m'.channels) && is_raised (attempt g))
          (before s hosts)
        ≡ any_host (λ g. not (str_in g m.channels) && is_raised (attempt g)) (before s hosts) =
      any_host-congr _ _ (before s hosts) hosts (λ g known. ground (arith, known, kept g))
        (λ g e. before-str_in s g hosts e) in
    ground (
      arith,
      taken_in attempt now s (rows_where (λ c. not (str_in c m'.channels)) hosts) m',
      before-rows_where (λ g. is_raised (attempt g)) (λ c. not (str_in c m'.channels)) s hosts,
      str_in-rows_where s (λ c. not (str_in c m'.channels)) hosts,
      kept s,
      raisers,
    )

-- The watchdog drops the stuck hosts and keeps the others.
pub watched :
    (probe : String → Option ℕ) (threshold now : ℕ) (m : Consumers) (s : String)
    → str_in s (check_host_consumers probe threshold now m).channels
      ≡ (str_in s m.channels && not (is_stuck probe threshold now m s))
unfolding check_host_consumers
watched probe threshold now m s = ground (
  arith,
  left_out s (rows_where (is_stuck probe threshold now m) m.channels) m,
  str_in-rows_where s (is_stuck probe threshold now m) m.channels,
)
