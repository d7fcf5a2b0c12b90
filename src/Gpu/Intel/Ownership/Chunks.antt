-- ===== src/Gpu/Intel/Ownership/Chunks.antt =====
-- The allocation loop of IntelDevice: its accounts, and the chunks that it comes to.
use loadmaster.Prelude.{
  ℕ, zero, suc, ◌+◌, ◌-◌, ◌≤◌, min, ◌≡◌, refl, sym, ap, ◌∙◌, Bool, true, false, Option, none, some,
  List, [], ◌∷◌, ◌++◌, arith, length, length-concat, All, All-append, sum, sum-append,
}
use loadmaster.Gpu.Driver.{
  owned_all-append, Resource, Entry, context, memory, owned, logged, with_gpu, answer,
}
use loadmaster.Gpu.Sweep.{Window}
use loadmaster.Gpu.Sweep.Windows.{IsBelow}
use loadmaster.Gpu.Intel.{
  ZeCall, ze_mem_alloc_device, ZeAnswer, IntelDevice, ZeSession, Chunked, push_chunk, chunk_step,
  chunk_loop, release_on, release_with, release_memory,
}
use loadmaster.Gpu.Intel.Ownership.{owned_by, Owns, Tidy, release_memory-Owns, release_memory-Tidy}
use loadmaster.Gpu.Intel.Ownership.Stages.{Sound, IsReady, Owes, acquire-Owes, settled-Owns}

module _ (driver : List (Entry ZeCall ZeAnswer) → ZeCall → ZeAnswer) where
  -- Nothing but the chunks changes.
  release_on-IsReady :
      (c : Option ℕ) (s : ZeSession) → IsReady s.gpu → IsReady (release_on driver c s).gpu
  release_on-IsReady none s y = y
  release_on-IsReady (some c) s y = y

  release_with-IsReady :
      (has_api : Bool) (s : ZeSession) → IsReady s.gpu → IsReady (release_with driver has_api s).gpu
  release_with-IsReady false s y = y
  release_with-IsReady true s y = release_on-IsReady s.gpu.context s y

  release_memory-IsReady : (s : ZeSession) → IsReady s.gpu → IsReady (release_memory driver s).gpu
  unfolding release_memory
  release_memory-IsReady s y = release_with-IsReady s.gpu.has_api s y

  pub release_memory-Sound : (s : ZeSession) → Sound s → Sound (release_memory driver s)
  release_memory-Sound s v = record {
    owns = release_memory-Owns driver s v.owns;
    tidy = release_memory-Tidy driver s v.tidy;
    ready = release_memory-IsReady s v.ready;
  }

  pub release_memory-context :
      (s : ZeSession) → (release_memory driver s).gpu.context ≡ s.gpu.context
  unfolding release_memory
  release_memory-context s = ground arith

-- The allocation loop at work: the device holds the chunks taken so far, each with its size.
pub record Growing (c : ℕ) (chunks : List ℕ) (g : IntelDevice) : Type 0 where
  pub tidy : Tidy g
  pub ready : IsReady g
  pub made : g.context ≡ some c
  pub sized : length g.mem_load_ptrs ≡ length chunks
  pub fresh : g.sweep.windows ≡ []

-- What the loop comes to: if it succeeds, chunks of `total` bytes, none larger than `max_chunk`.
pub record Looped (c max_chunk total : ℕ) (l : Chunked) : Type 0 where
  pub sound : Sound l.session
  pub grown : l.ok ≡ true → Growing c l.chunk_bytes l.session.gpu
  pub covered : l.ok ≡ true → sum l.chunk_bytes ≡ total
  pub capped : All (λ n. n ≤ max_chunk) l.chunk_bytes

pub no_windows : (ws : List Window) → All (IsBelow 0) ws → ws ≡ []
no_windows [] a = refl
no_windows (w ∷ ws) a = absurd (omega (arith, a.0))

module _ (driver : List (Entry ZeCall ZeAnswer) → ZeCall → ZeAnswer) where
  push_chunk-owned :
      (r : Resource) (p chunk : ℕ) (g : IntelDevice)
      → owned_by r (push_chunk driver p chunk g) ≡ owned r memory (some p) + owned_by r g
  push_chunk-owned r p chunk g = omega (arith, owned_all-append r memory g.mem_load_ptrs (p ∷ []))

  push_chunk-Growing :
      (c p chunk : ℕ) (chunks : List ℕ) (g : IntelDevice)
      → Growing c chunks g
      → Growing c (chunks ++ chunk ∷ []) (push_chunk driver p chunk g)
  push_chunk-Growing c p chunk chunks g w = record {
    tidy = record { unloaded = w.tidy.unloaded; closed = λ x. cc w.made; swept = rw w.fresh tt };
    ready = w.ready;
    made = w.made;
    sized = omega (arith, w.sized, length-concat g.mem_load_ptrs p, length-concat chunks chunk);
    fresh = w.fresh;
  }

  module _ (c max_chunk total : ℕ) (some_room : 1 ≤ total → 1 ≤ max_chunk) where
    done-Looped :
        (chunks : List ℕ) (s : ZeSession)
        → Owns s
        → Growing c chunks s.gpu
        → sum chunks ≡ total
        → All (λ n. n ≤ max_chunk) chunks
        → Looped c max_chunk total (record { session = s; chunk_bytes = chunks; ok = true })
    done-Looped chunks s o w e a = record {
      sound = record { owns = o; tidy = w.tidy; ready = w.ready };
      grown = λ _. w;
      covered = λ _. e;
      capped = a;
    }

    chunk_step-Looped :
        (next_round : ℕ → List ℕ → ZeSession → Chunked) (p : Option ℕ) (chunk remaining : ℕ)
        (chunks : List ℕ) (s : ZeSession)
        → ((n : ℕ) (ns : List ℕ) (t : ZeSession)
            → n ≡ remaining - chunk
            → Owns t
            → Growing c ns t.gpu
            → sum ns + n ≡ total
            → All (λ m. m ≤ max_chunk) ns
            → Looped c max_chunk total (next_round n ns t))
        → chunk ≤ remaining
        → chunk ≤ max_chunk
        → Owes memory p s
        → Growing c chunks s.gpu
        → sum chunks + remaining ≡ total
        → All (λ n. n ≤ max_chunk) chunks
        → Looped c max_chunk total (chunk_step driver next_round p chunk remaining chunks s)
    chunk_step-Looped next_round none chunk remaining chunks s k le cap o w e a = record {
      sound =
          release_memory-Sound driver s
            (record { owns = settled-Owns driver memory s o; tidy = w.tidy; ready = w.ready });
      grown = λ f. cc;
      covered = λ f. cc;
      capped = a;
    }
    chunk_step-Looped next_round (some p) chunk remaining chunks s k le cap o w e a =
        k (remaining - chunk) (chunks ++ chunk ∷ []) (with_gpu (push_chunk driver p chunk s.gpu) s)
          refl (λ r. o r ∙ ap some (sym (push_chunk-owned r p chunk s.gpu)))
          (push_chunk-Growing c p chunk chunks s.gpu w)
          (omega (arith, sum-append chunks (chunk ∷ [])))
          (All-append (λ n. n ≤ max_chunk) chunks (chunk ∷ []) a (cap, tt))

    pub chunk_loop-Looped :
        (fuel remaining : ℕ) (chunks : List ℕ) (s : ZeSession)
        → remaining ≤ fuel
        → Owns s
        → Growing c chunks s.gpu
        → sum chunks + remaining ≡ total
        → All (λ n. n ≤ max_chunk) chunks
        → Looped c max_chunk total (chunk_loop driver fuel c max_chunk remaining chunks s)
    unfolding chunk_loop
    chunk_loop-Looped zero remaining chunks s le o w e a = done-Looped chunks s o w (omega arith) a
    chunk_loop-Looped (suc fuel) zero chunks s le o w e a = done-Looped chunks s o w (omega arith) a
    chunk_loop-Looped (suc fuel) (suc n) chunks s le o w e a =
        let chunk = min (suc n) max_chunk in
        let m = ze_mem_alloc_device c chunk in
        let has_room : 1 ≤ max_chunk = some_room (omega arith) in
        let shrinks : 1 ≤ chunk = omega arith in
        chunk_step-Looped (chunk_loop driver fuel c max_chunk) (answer driver m s).handle chunk
          (suc n) chunks (logged driver m s)
          (λ (k : ℕ) (ns : List ℕ) (t : ZeSession) (q : k ≡ suc n - chunk).
            chunk_loop-Looped fuel k ns t (omega arith))
          (omega arith) (omega arith)
          (acquire-Owes driver memory context c m s (λ x. refl) (λ r. ground (arith, w.made)) o) w e
          a
