-- ===== src/Gpu/Intel/Chunking.antt =====
-- What AllocateMemory of IntelDevice gives when it succeeds.
use loadmaster.Prelude.{
  ℕ, ◌≤◌, ◌≡◌, refl, ap, ◌∙◌, subst, arith, Bool, true, false, Option, none, some, List, [], length,
  All, sum,
}
use loadmaster.Gpu.Driver.{Entry, answer, logged}
use loadmaster.Gpu.Sweep.{all_windows, reset}
use loadmaster.Gpu.Intel.{
  ZeCall, ze_command_list_create, ZeAnswer, IntelDevice, ZeSession, Chunked, chunk_loop,
  release_memory,
}
use loadmaster.Gpu.Intel.Allocate.{
  commit_chunks, max_chunk_of, allocate_on, allocate_with, allocate_memory,
}
use loadmaster.Gpu.Intel.Ownership.Stages.{Sound}
use loadmaster.Gpu.Intel.Ownership.Chunks.{Looped}
use loadmaster.Gpu.Intel.Ownership.Blocks.{allocate-Looped, commit-gpu}

-- A block of `bytes` bytes in chunks of at most `cap`, one pointer for each, with the sweep laid out
-- over them.
pub record HasBlock (bytes cap : ℕ) (g : IntelDevice) : Type 0 where
  pub chunks : List ℕ
  pub total : sum chunks ≡ bytes
  pub capped : All (λ n. n ≤ cap) chunks
  pub pointers : length g.mem_load_ptrs ≡ length chunks
  pub laid_out : g.sweep.windows ≡ all_windows 0 chunks

module _ (driver : List (Entry ZeCall ZeAnswer) → ZeCall → ZeAnswer) where
  -- The largest chunk that a device allows, for a block of so many bytes.
  abbrev pub cap_of : IntelDevice → ℕ → ℕ
  cap_of g bytes = max_chunk_of driver g.max_alloc_bytes bytes

  commit_chunks-HasBlock :
      (c cap bytes : ℕ) (l : Chunked)
      → Looped c cap bytes l
      → (ok : Bool) → l.ok ≡ ok
      → (commit_chunks driver ok c l.chunk_bytes l.session).ok ≡ true
      → HasBlock bytes cap (commit_chunks driver ok c l.chunk_bytes l.session).session.gpu
  unfolding reset
  commit_chunks-HasBlock c cap bytes l k false e h = cc
  commit_chunks-HasBlock c cap bytes l k true e h =
      let m = ze_command_list_create c in
      let tmp = (answer driver m l.session).handle in
      let same = commit-gpu driver tmp l.chunk_bytes (logged driver m l.session) in
      record {
        chunks = l.chunk_bytes;
        total = k.covered e;
        capped = k.capped;
        pointers = ap (λ (g : IntelDevice). length g.mem_load_ptrs) same ∙ (k.grown e).sized;
        laid_out = refl;
      }

  release_memory-max_alloc :
      (s : ZeSession) → (release_memory driver s).gpu.max_alloc_bytes ≡ s.gpu.max_alloc_bytes
  unfolding release_memory
  release_memory-max_alloc s = ground arith

  allocate_on-HasBlock :
      (c : Option ℕ) (bytes : ℕ) (s : ZeSession)
      → s.gpu.context ≡ c
      → Sound s
      → (allocate_on driver c bytes s).ok ≡ true
      → HasBlock bytes (cap_of s.gpu bytes) (allocate_on driver c bytes s).session.gpu
  allocate_on-HasBlock none bytes s e v h = cc
  allocate_on-HasBlock (some c) bytes s e v h =
      let t = release_memory driver s in
      let cap = max_chunk_of driver t.gpu.max_alloc_bytes bytes in
      let l = chunk_loop driver bytes c cap bytes [] t in
      subst
        (λ n.
          HasBlock bytes (max_chunk_of driver n bytes)
            (commit_chunks driver l.ok c l.chunk_bytes l.session).session.gpu)
        (release_memory-max_alloc s)
        (commit_chunks-HasBlock c cap bytes l (allocate-Looped driver c bytes s e v) l.ok refl h)

  allocate_with-HasBlock :
      (has_api : Bool) (bytes : ℕ) (s : ZeSession)
      → Sound s
      → (allocate_with driver has_api bytes s).ok ≡ true
      → HasBlock bytes (cap_of s.gpu bytes) (allocate_with driver has_api bytes s).session.gpu
  allocate_with-HasBlock false bytes s v h = cc
  allocate_with-HasBlock true bytes s v h = allocate_on-HasBlock s.gpu.context bytes s refl v h

  -- When AllocateMemory of a device in order succeeds, the device holds a block of exactly the
  -- bytes asked for, in chunks no larger than the driver allows, with a pointer for each chunk and
  -- the sweep laid out over just these chunks.
  pub allocate_memory-HasBlock :
      (bytes : ℕ) (s : ZeSession)
      → Sound s
      → (allocate_memory driver bytes s).ok ≡ true
      → HasBlock bytes (cap_of s.gpu bytes) (allocate_memory driver bytes s).session.gpu
  unfolding allocate_memory
  allocate_memory-HasBlock bytes s v h = allocate_with-HasBlock s.gpu.has_api bytes s v h
