-- ===== src/Valkey/Memory.antt =====
-- A table of entries with deadlines: it meets the laws of the server, so they can be met.
use open_v_center_backend.Prelude.{
  String, str_in, eq_iff, Bool-same, ◌==◌, ℕ, ◌+◌, ◌≤◌, ◌≡◌, refl, Bool, true, false, Option, none,
  some, List, [], ◌∷◌, arith, ltb, is_some, if◌then◌else◌,
}
use open_v_center_backend.Valkey.Defs.{
  vm_state, vm_lock, vm_deleted, Key, Entry, key_eq, key_eq_iff, Valkey,
}

abbrev Table : Type 0
Table = List (Key × Entry × ℕ)

abbrev live : ℕ → Entry → ℕ → Option Entry
live n e deadline = if ltb n deadline then some e else none

unfoldable pub read : ℕ → Key → Table → Option Entry
read n k [] = none
read n k ((j, e, d) ∷ t) = if key_eq j k then live n e d else read n k t

abbrev write : ℕ → Key → Entry → ℕ → Table → Table
write n k e ttl t = (k, e, n + ttl) ∷ t

unfoldable pub without : Key → Table → Table
without k [] = []
without k ((j, e, d) ∷ t) = let rest = without k t in if key_eq j k then rest else (j, e, d) ∷ rest

abbrev write_nx : ℕ → Key → Entry → ℕ → Table → Bool × Table
write_nx n k e ttl t = if is_some (read n k t) then (false, t) else (true, write n k e ttl t)

abbrev remove : ℕ → Key → Table → Bool × Table
remove n k t = (is_some (read n k t), without k t)

read-without :
    (m : ℕ) (k j : Key) (t : Table)
    → read m j (without k t) ≡ (if key_eq k j then none else read m j t)
unfolding read without
read-without m k j [] = ground arith
read-without m k j ((i, e, d) ∷ t) =
    ground (arith, read-without m k j t, key_eq_iff i k, key_eq_iff i j, key_eq_iff k j)

read-write :
    (n m : ℕ) (k j : Key) (e : Entry) (ttl : ℕ) (t : Table)
    → n ≤ m
    → read m j (write n k e ttl t)
      ≡ (if key_eq k j then (if ltb m (n + ttl) then some e else none) else read m j t)
unfolding read
read-write n m k j e ttl t h = refl

write_nx_free :
    (n : ℕ) (k : Key) (e : Entry) (ttl : ℕ) (t : Table)
    → read n k t ≡ none
    → write_nx n k e ttl t ≡ (true, write n k e ttl t)
write_nx_free n k e ttl t h = rw h

write_nx_held :
    (n : ℕ) (k : Key) (e : Entry) (ttl : ℕ) (t : Table)
    → is_some (read n k t) ≡ true
    → write_nx n k e ttl t ≡ (false, t)
write_nx_held n k e ttl t h = rw h

-- The GUID of a tombstone of the host.
abbrev guid_of : ℕ → Key → Option String
guid_of h (vm_state i) = none
guid_of h (vm_lock i) = none
guid_of h (vm_deleted g u) = if g == h then some u else none

abbrev scanned : ℕ → ℕ → Table → Option String → List String → List String
scanned n h t none rest = rest
scanned n h t (some u) rest = if is_some (read n (vm_deleted h u) t) then u ∷ rest else rest

-- The keys of the second table that are live in the first.
unfoldable collect : ℕ → ℕ → Table → Table → List String
collect n h t [] = []
collect n h t ((k, e, d) ∷ rest) = scanned n h t (guid_of h k) (collect n h t rest)

unfoldable pub scan : ℕ → ℕ → Table → List String
unfolding collect
scan n h t = collect n h t t

collect-sound :
    (n h : ℕ) (u : String) (t s : Table)
    → str_in u (collect n h t s) ≡ true
    → is_some (read n (vm_deleted h u) t) ≡ true
unfolding collect str_in
collect-sound n h u t [] e = cc
collect-sound n h u t ((vm_state i, x, d) ∷ s) e = collect-sound n h u t s e
collect-sound n h u t ((vm_lock i, x, d) ∷ s) e = collect-sound n h u t s e
collect-sound n h u t ((vm_deleted g v, x, d) ∷ s) e =
    ground (arith, eq_iff v u, collect-sound n h u t s)

collect-complete :
    (n h : ℕ) (u : String) (t s : Table)
    → is_some (read n (vm_deleted h u) t) ≡ true
    → is_some (read n (vm_deleted h u) s) ≡ true
    → str_in u (collect n h t s) ≡ true
unfolding collect str_in read
collect-complete n h u t [] there e = cc
collect-complete n h u t ((vm_state i, x, d) ∷ s) there e = collect-complete n h u t s there e
collect-complete n h u t ((vm_lock i, x, d) ∷ s) there e = collect-complete n h u t s there e
collect-complete n h u t ((vm_deleted g v, x, d) ∷ s) there e =
    ground (arith, eq_iff v u, collect-complete n h u t s)

str_in-scan :
    (n h : ℕ) (u : String) (t : Table) → str_in u (scan n h t) ≡ is_some (read n (vm_deleted h u) t)
unfolding scan
str_in-scan n h u t = Bool-same _ _ (collect-sound n h u t t) (λ e. collect-complete n h u t t e e)

unfoldable pub memory : Valkey
unfolding scan str_in-scan collect-sound collect-complete read without read-without read-write
    write_nx_free write_nx_held
memory = record {
  Store = Table;
  get = read;
  set = write;
  set_nx = write_nx;
  delete = remove;
  scan_deleted = scan;
  get-set = read-write;
  set_nx_free = write_nx_free;
  set_nx_held = write_nx_held;
  delete_count = λ n k t. refl;
  get-delete = λ n m k j t h. read-without m k j t;
  scan_deleted_lem = str_in-scan;
}
