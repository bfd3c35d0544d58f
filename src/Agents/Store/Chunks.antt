-- ===== src/Agents/Store/Chunks.antt =====
-- The loops `while chunk := await f.read(_CHUNK)` of put_file and open_stream.
use open_v_center_backend.Prelude.{
  ℕ, zero, suc, ◌+◌, ◌≤◌, ◌<◌, ◌≡◌, refl, ap, sym, ◌∙◌, Option, none, some, List, [], ◌∷◌, ◌++◌,
  arith, length, All,
}
use mathlib.Core.List.{append-nil, append_assoc}

abbrev pub Bytes : Type 0
Bytes = List ℕ

-- `f.read(n)`: at most `n` bytes, and what is left to read.
unfoldable pub read : ℕ → Bytes → Bytes × Bytes
read zero s = ([], s)
read (suc n) [] = ([], [])
read (suc n) (b ∷ s) = let (chunk, rest) = read n s in (b ∷ chunk, rest)

-- The loop of put_file over the open files; none is a loop that has not ended after so many rounds.
unfoldable pub copy : ℕ → ℕ → Bytes → Bytes → Option Bytes
unfolding read
copy zero size source out = none
copy (suc fuel) size source out =
    let (chunk, rest) = read size source in
    elim chunk [ [] ↦ some out | b ∷ more ↦ copy fuel size rest (out ++ (b ∷ more)) ]

-- The loop of open_stream: the chunks that it yields.
unfoldable pub stream : ℕ → ℕ → Bytes → Option (List Bytes)
unfolding read
stream zero size source = none
stream (suc fuel) size source =
    let (chunk, rest) = read size source in
    elim chunk [
      | [] ↦ some []
      | b ∷ more ↦ elim (stream fuel size rest) [
        | none ↦ none
        | some chunks ↦ some ((b ∷ more) ∷ chunks)
      ]
    ]

read-append : (n : ℕ) (s : Bytes) → (read n s).0 ++ (read n s).1 ≡ s
unfolding read
read-append zero s = refl
read-append (suc n) [] = refl
read-append (suc n) (b ∷ s) = ground (arith, read-append n s)

length-read :
    (n : ℕ) (s : Bytes)
    → (length (read n s).0 ≤ n) × (length (read n s).0 + length (read n s).1 ≡ length s)
unfolding read
length-read zero s = omega arith
length-read (suc n) [] = omega arith
length-read (suc n) (b ∷ s) = ground (arith, length-read n s)

-- What a round of either loop does with the chunk that it read.
data Round (size : ℕ) (source : Bytes) : Type 0 where
  ended : source ≡ [] → (read size source).0 ≡ [] → Round size source
  more :
      (b : ℕ) (chunk : Bytes)
      → (read size source).0 ≡ b ∷ chunk
      → (b ∷ chunk) ++ (read size source).1 ≡ source
      → length (read size source).1 < length source
      → length (b ∷ chunk) ≤ size
      → Round size source

round : (size : ℕ) (source : Bytes) → 0 < size → Round size source
unfolding read
round zero source h = absurd (omega arith)
round (suc n) [] h = ended refl refl
round (suc n) (b ∷ s) h =
    more b (read n s).0 refl (ap (λ t. b ∷ t) (read-append n s)) (omega (arith, length-read n s))
      (omega (arith, length-read n s))

-- The copying loop ends, and the copy has all bytes in their order.
pub copy_ends :
    (fuel size : ℕ) (source out : Bytes)
    → 0 < size
    → length source < fuel
    → copy fuel size source out ≡ some (out ++ source)
unfolding copy
copy_ends zero size source out h k = absurd (omega arith)
copy_ends (suc fuel) size source out h k = elim (round size source h) [
  | ended e r ↦ rw (r, copy) (rw e (rw (append-nil out)))
  | more b chunk r whole shorter fits ↦
      rw (r, copy)
        (copy_ends fuel size (read size source).1 (out ++ (b ∷ chunk)) h (omega arith)
          ∙ ap some (append_assoc out (b ∷ chunk) (read size source).1 ∙ ap (λ t. out ++ t) whole))
]

stream_next :
    (fuel size : ℕ) (source : Bytes) (b : ℕ) (chunk : Bytes) (chunks : List Bytes)
    → (read size source).0 ≡ b ∷ chunk
    → stream fuel size (read size source).1 ≡ some chunks
    → stream (suc fuel) size source ≡ some ((b ∷ chunk) ∷ chunks)
unfolding stream
stream_next fuel size source b chunk chunks r tail = rw (r, stream) (rw tail)

abbrev pub joined : List Bytes → Bytes
joined [] = []
joined (chunk ∷ chunks) = chunk ++ joined chunks

-- A chunk is not empty, and no longer than what was asked for.
abbrev pub Fits : ℕ → Bytes → Type 0
Fits size chunk = (0 < length chunk) × (length chunk ≤ size)

-- The loop of a download ends, with chunks that fit and that are the file in its order, where a chunk may
-- have a byte and the loop may make more rounds than the file has bytes.
pub stream_ends :
    (fuel size : ℕ) (source : Bytes)
    → 0 < size
    → length source < fuel
    → (chunks : List Bytes) × (stream fuel size source ≡ some chunks)
      × (joined chunks ≡ source)
      × All (Fits size) chunks
unfolding stream
stream_ends zero size source h k = absurd (omega arith)
stream_ends (suc fuel) size source h k = elim (round size source h) [
  | ended e r ↦ ([], rw (r, stream), sym e, tt)
  | more b chunk r whole shorter fits ↦
      let tail = stream_ends fuel size (read size source).1 h (omega arith) in
      (
        (b ∷ chunk) ∷ tail.0,
        stream_next fuel size source b chunk tail.0 r tail.1,
        ap (λ t. (b ∷ chunk) ++ t) tail.2 ∙ whole,
        ((omega arith, fits), tail.3),
      )
]
