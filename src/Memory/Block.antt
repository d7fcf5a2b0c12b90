-- ===== src/Memory/Block.antt =====
-- memory::unsafe::Allocator, src/memory/allocator.cc. A byte that `new` left uninitialized is
-- `none`; `stopped` says, chunk by chunk, what `stop_requested` answers.
pub mod Fill
use Prim.Native.Nat.{bit_xor}
use loadmaster.Prelude.{
  ℕ, zero, suc, ◌+◌, ◌-◌, ◌/◌, ◌%◌, ◌^◌, min, Bool, true, false, List, [], ◌∷◌, ◌++◌, Option, none,
  some, ltb, if◌then◌else◌, length,
}

-- kChunkBytes
abbrev pub chunk_bytes : ℕ
chunk_bytes = 2 ^ 22

-- `size_` is the length of a block; `nullptr` is no block.
abbrev pub Block : Type 0
Block = Option (List (Option ℕ))

abbrev pub release_block : Block → Block
release_block b = none

abbrev pub uninitialized : ℕ → List (Option ℕ)
uninitialized zero = []
uninitialized (suc n) = none ∷ uninitialized n

-- `fits` says whether `new` succeeds: if not, it throws and the allocator is left empty.
abbrev pub allocate_block : ℕ → Bool → Block → Block
allocate_block target_size fits b =
    if fits then some (uninitialized target_size) else release_block b

-- `seed ^ static_cast<std::byte>(i)`
abbrev pub fill_byte : ℕ → ℕ → ℕ
fill_byte seed i = bit_xor seed (i % 2 ^ 8)

-- Both loops, from byte `i` on, with `left` bytes to go in the chunk. Before a chunk the stop
-- token is asked; behind the end of `stops` it is never set.
pub fill_bytes : ℕ → ℕ → ℕ → List Bool → List (Option ℕ) → List (Option ℕ)
fill_bytes seed i left stops [] = []
fill_bytes seed i (suc left) stops (b ∷ rest) =
    some (fill_byte seed i) ∷ fill_bytes seed (suc i) left stops rest
fill_bytes seed i zero (true ∷ stops) (b ∷ rest) = b ∷ rest
fill_bytes seed i zero (false ∷ stops) (b ∷ rest) =
    some (fill_byte seed i) ∷ fill_bytes seed (suc i) (chunk_bytes - 1) stops rest
fill_bytes seed i zero [] (b ∷ rest) =
    some (fill_byte seed i) ∷ fill_bytes seed (suc i) (chunk_bytes - 1) [] rest

unfoldable pub fill : ℕ → List Bool → Block → Block
unfolding fill_bytes
fill seed stops none = none
fill seed stops (some bytes) = some (fill_bytes seed 0 0 stops bytes)
