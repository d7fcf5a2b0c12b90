-- ===== src/Memory/Block/Fill.antt =====
-- What a fill has written when it returns.
use loadmaster.Prelude.{
  ℕ, zero, suc, ◌+◌, ◌-◌, ◌*◌, ◌≤◌, ◌≡◌, refl, ap, ◌∙◌, ◌⊎◌, inl, inr, Bool, true, false, List, [],
  ◌∷◌, Option, none, some, arith, length,
}
use loadmaster.Memory.Block.{Block, chunk_bytes, fill_byte, fill_bytes, fill}

-- The first `k` bytes written, the others as they were.
abbrev pub write_prefix : ℕ → ℕ → ℕ → List (Option ℕ) → List (Option ℕ)
write_prefix seed i k [] = []
write_prefix seed i zero (b ∷ rest) = b ∷ rest
write_prefix seed i (suc k) (b ∷ rest) = some (fill_byte seed i) ∷ write_prefix seed (suc i) k rest

-- `k` bytes of `size` are all of them, or the rest of a chunk and whole chunks.
abbrev pub IsWhole : ℕ → ℕ → ℕ → Type 0
IsWhole left size k = (k ≡ size) ⊎ ((m : ℕ) × (k ≡ left + m * chunk_bytes))

-- What a fill from byte `i` on leaves.
record Written (seed i left : ℕ) (bytes result : List (Option ℕ)) : Type 0 where
  pub written : ℕ
  pub bound : written ≤ length bytes
  pub prefix : result ≡ write_prefix seed i written bytes
  pub whole : IsWhole left (length bytes) written

one_more :
    (seed i left before : ℕ) (b : Option ℕ) (rest result : List (Option ℕ))
    → ((m : ℕ) → (n : ℕ) × (suc (left + m * chunk_bytes) ≡ before + n * chunk_bytes))
    → Written seed (suc i) left rest result
    → Written seed i before (b ∷ rest) (some (fill_byte seed i) ∷ result)
one_more seed i left before b rest result shift w = record {
  written = suc w.written;
  bound = omega (arith, w.bound);
  prefix = ap (λ l. some (fill_byte seed i) ∷ l) w.prefix;
  whole = elim w.whole [
    | inl all ↦ inl (ap suc all)
    | inr (m, chunks) ↦ inr ((shift m).0, ap suc chunks ∙ (shift m).1)
  ];
}

fill_bytes-Written :
    (seed i left : ℕ) (stops : List Bool) (bytes : List (Option ℕ))
    → Written seed i left bytes (fill_bytes seed i left stops bytes)
unfolding fill_bytes
fill_bytes-Written seed i left stops [] = record {
  written = 0;
  bound = omega arith;
  prefix = refl;
  whole = inl refl;
}
fill_bytes-Written seed i (suc left) stops (b ∷ rest) =
    one_more seed i left (suc left) b rest _ (λ m. (m, omega arith))
      (fill_bytes-Written seed (suc i) left stops rest)
fill_bytes-Written seed i zero (true ∷ stops) (b ∷ rest) = record {
  written = 0;
  bound = omega arith;
  prefix = refl;
  whole = inr (0, refl);
}
fill_bytes-Written seed i zero (false ∷ stops) (b ∷ rest) =
    one_more seed i (chunk_bytes - 1) 0 b rest _ (λ m. (suc m, omega arith))
      (fill_bytes-Written seed (suc i) (chunk_bytes - 1) stops rest)
fill_bytes-Written seed i zero [] (b ∷ rest) =
    one_more seed i (chunk_bytes - 1) 0 b rest _ (λ m. (suc m, omega arith))
      (fill_bytes-Written seed (suc i) (chunk_bytes - 1) [] rest)

-- Whenever the stop comes, a fill has written the bytes from the front up to some point, each as
-- `seed` xor its number, and left the others alone; that point is the end of the block or a whole
-- number of 4 MiB chunks.
pub fill_prefix :
    (seed : ℕ) (stops : List Bool) (bytes : List (Option ℕ))
    → (k : ℕ) × (k ≤ length bytes)
      × (fill seed stops (some bytes) ≡ some (write_prefix seed 0 k bytes))
      × ((k ≡ length bytes) ⊎ ((m : ℕ) × (k ≡ m * chunk_bytes)))
unfolding fill
fill_prefix seed stops bytes =
    let w = fill_bytes-Written seed 0 0 stops bytes in
    (
      w.written,
      w.bound,
      ap some w.prefix,
      elim w.whole [ inl all ↦ inl all | inr (m, chunks) ↦ inr (m, omega (arith, chunks)) ],
    )

-- Every byte is written.
abbrev pub IsFull : List (Option ℕ) → Type 0
IsFull [] = Unit
IsFull (none ∷ rest) = ⊥
IsFull (some b ∷ rest) = IsFull rest

fill_bytes-IsFull :
    (seed i left : ℕ) (bytes : List (Option ℕ)) → IsFull (fill_bytes seed i left [] bytes)
unfolding fill_bytes
fill_bytes-IsFull seed i left [] = tt
fill_bytes-IsFull seed i (suc left) (b ∷ rest) = fill_bytes-IsFull seed (suc i) left rest
fill_bytes-IsFull seed i zero (b ∷ rest) = fill_bytes-IsFull seed (suc i) (chunk_bytes - 1) rest

abbrev pub HoldsFull : Block → Type 0
HoldsFull none = ⊥
HoldsFull (some bytes) = IsFull bytes

-- Without a stop, a fill of any block writes every byte of it, so that every page is committed.
pub fill-IsFull : (seed : ℕ) (bytes : List (Option ℕ)) → HoldsFull (fill seed [] (some bytes))
unfolding fill
fill-IsFull seed bytes = fill_bytes-IsFull seed 0 0 bytes
