-- ===== src/Gpu/OpenCl/Ownership/Blocks.antt =====
-- AllocateMemory of OpenClDevice: its accounts, and the chunks that it comes to.
use mathlib.Core.List.{append-nil, append_assoc}
use loadmaster.Prelude.{
  ℕ, zero, suc, ◌+◌, ◌-◌, ◌≤◌, min, ◌≡◌, refl, sym, ap, subst, ◌∙◌, Bool, true, false, Option, none,
  some, List, [], ◌∷◌, ◌++◌, arith, length, length-concat, All, All-append, sum, sum-append,
}
use loadmaster.Gpu.Driver.{
  Resource, Entry, context, memory, owned, owned_all-append, logged, with_gpu, answer,
}
use loadmaster.Gpu.Sweep.{all_windows, clear, reset}
use loadmaster.Gpu.Sweep.Windows.{reset-IsBelow, IsBelow}
use loadmaster.Gpu.OpenCl.Device.{
  ClCall, cl_get_max_alloc, cl_create_buffer, cl_release_mem_object, cl_enqueue_fill_buffer,
  OpenClDevice, ClSession, Chunked, push_chunk, max_chunk_of, chunk_step, chunk_loop, commit_chunks,
  allocate_on, allocate_with, allocate_memory, release_bufs, release_memory, release_with,
}
use loadmaster.Gpu.OpenCl.Ownership.{
  owned_by, Owns, Owes, IsReady, Sound, release_memory-Sound, acquire-Owes, settled-Owns,
}

-- The allocation loop at work: the device holds the chunks taken so far, each with its size.
pub record Growing (c q : ℕ) (chunks : List ℕ) (g : OpenClDevice) : Type 0 where
  pub loaded : g.has_api ≡ true
  pub ready : IsReady g
  pub made : g.context ≡ some c
  pub queued : g.queue ≡ some q
  pub sized : length g.mem_load_bufs ≡ length chunks
  pub fresh : g.sweep.windows ≡ []

-- The buffers that the library has handed out, each with the size that it was asked for, oldest
-- first: what a call adds, and those of a log.
abbrev pub grant_onto : ClCall → Option ℕ → List (ℕ × ℕ) → List (ℕ × ℕ)
grant_onto (cl_create_buffer c n) (some p) grants = grants ++ (p, n) ∷ []
grant_onto m a grants = grants

abbrev pub grants : List (Entry ClCall (Option ℕ)) → List (ℕ × ℕ)
grants [] = []
grants (e ∷ older) = grant_onto e.call e.answer (grants older)

-- Buffers with their sizes.
abbrev pub pairs : List ℕ → List ℕ → List (ℕ × ℕ)
pairs ps [] = []
pairs [] (n ∷ ns) = []
pairs (p ∷ ps) (n ∷ ns) = (p, n) ∷ pairs ps ns

-- What the loop comes to: if it succeeds, chunks of `total` bytes, none larger than `max_alloc`, each
-- a buffer asked for with just its size, after those handed out `before`.
pub record Looped (before : List (ℕ × ℕ)) (c q max_alloc total : ℕ) (l : Chunked) : Type 0 where
  pub sound : Sound l.session
  pub grown : l.ok ≡ true → Growing c q l.chunk_bytes l.session.gpu
  pub covered : l.ok ≡ true → sum l.chunk_bytes ≡ total
  pub capped : All (λ n. n ≤ max_alloc) l.chunk_bytes
  pub granted :
      l.ok ≡ true → grants l.session.log ≡ before ++ pairs l.session.gpu.mem_load_bufs l.chunk_bytes

-- A block of `bytes` bytes in chunks of at most `cap`, with the sweep laid out over them. The device
-- holds one buffer for each, and these are just the buffers that the library has handed out since
-- `start`, each asked for with the size of its chunk.
pub record Backed (start : ClSession) (bytes cap : ℕ) (s : ClSession) : Type 0 where
  pub chunks : List ℕ
  pub total : sum chunks ≡ bytes
  pub capped : All (λ n. n ≤ cap) chunks
  pub buffers : length s.gpu.mem_load_bufs ≡ length chunks
  pub created : grants s.log ≡ grants start.log ++ pairs s.gpu.mem_load_bufs chunks
  pub laid_out : s.gpu.sweep.windows ≡ all_windows 0 chunks

pairs-append :
    (ps ns : List ℕ) (p n : ℕ)
    → length ps ≡ length ns
    → pairs (ps ++ p ∷ []) (ns ++ n ∷ []) ≡ pairs ps ns ++ (p, n) ∷ []
pairs-append [] [] p n e = refl
pairs-append [] (m ∷ ns) p n e = absurd (omega arith)
pairs-append (o ∷ ps) [] p n e = absurd (omega arith)
pairs-append (o ∷ ps) (m ∷ ns) p n e = ap (λ x. (o, m) ∷ x) (pairs-append ps ns p n (omega arith))

push_chunk-owned :
    (r : Resource) (p chunk : ℕ) (g : OpenClDevice)
    → owned_by r (push_chunk p chunk g) ≡ owned r memory (some p) + owned_by r g
push_chunk-owned r p chunk g = omega (arith, owned_all-append r memory g.mem_load_bufs (p ∷ []))

push_chunk-Growing :
    (c q p chunk : ℕ) (chunks : List ℕ) (g : OpenClDevice)
    → Growing c q chunks g
    → Growing c q (chunks ++ chunk ∷ []) (push_chunk p chunk g)
push_chunk-Growing c q p chunk chunks g w = record {
  loaded = w.loaded;
  ready = w.ready;
  made = w.made;
  queued = w.queued;
  sized = omega (arith, w.sized, length-concat g.mem_load_bufs p, length-concat chunks chunk);
  fresh = w.fresh;
}

grown-Sound :
    (c q : ℕ) (chunks : List ℕ) (s : ClSession) → Owns s → Growing c q chunks s.gpu → Sound s
grown-Sound c q chunks s o w = record {
  owns = o;
  unloaded = λ e. cc w.loaded;
  swept = rw w.fresh tt;
  ready = w.ready;
}

-- It gives each device with a context and a queue at least a byte at a time.
max_chunk_of-room : (a : Option ℕ) (bytes : ℕ) → 1 ≤ bytes → 1 ≤ max_chunk_of a bytes
max_chunk_of-room none bytes h = h
max_chunk_of-room (some zero) bytes h = h
max_chunk_of-room (some (suc n)) bytes h = omega arith

module _ (driver : List (Entry ClCall (Option ℕ)) → ClCall → Option ℕ) where
  module _ (before : List (ℕ × ℕ)) (c q max_alloc total : ℕ)
      (some_room : 1 ≤ total → 1 ≤ max_alloc) where
    done-Looped :
        (chunks : List ℕ) (s : ClSession)
        → Owns s
        → Growing c q chunks s.gpu
        → sum chunks ≡ total
        → All (λ n. n ≤ max_alloc) chunks
        → grants s.log ≡ before ++ pairs s.gpu.mem_load_bufs chunks
        → Looped before c q max_alloc total
            (record { session = s; chunk_bytes = chunks; ok = true })
    done-Looped chunks s o w e a g = record {
      sound = grown-Sound c q chunks s o w;
      grown = λ _. w;
      covered = λ _. e;
      capped = a;
      granted = λ _. g;
    }

    chunk_step-Looped :
        (next_round : ℕ → List ℕ → ClSession → Chunked) (p : Option ℕ) (chunk remaining : ℕ)
        (chunks : List ℕ) (s : ClSession)
        → ((n : ℕ) (ns : List ℕ) (t : ClSession)
            → n ≡ remaining - chunk
            → Owns t
            → Growing c q ns t.gpu
            → sum ns + n ≡ total
            → All (λ m. m ≤ max_alloc) ns
            → grants t.log ≡ before ++ pairs t.gpu.mem_load_bufs ns
            → Looped before c q max_alloc total (next_round n ns t))
        → chunk ≤ remaining
        → chunk ≤ max_alloc
        → Owes memory p s
        → Growing c q chunks s.gpu
        → sum chunks + remaining ≡ total
        → All (λ n. n ≤ max_alloc) chunks
        → grants s.log
          ≡ grant_onto (cl_create_buffer c chunk) p (before ++ pairs s.gpu.mem_load_bufs chunks)
        → Looped before c q max_alloc total
            (chunk_step driver next_round p q chunk remaining chunks s)
    chunk_step-Looped next_round none chunk remaining chunks s k le cap o w e a g = record {
      sound =
          release_memory-Sound driver s
            (grown-Sound c q chunks s (settled-Owns driver memory s o) w);
      grown = λ f. cc;
      covered = λ f. cc;
      capped = a;
      granted = λ f. cc;
    }
    chunk_step-Looped next_round (some p) chunk remaining chunks s k le cap o w e a g =
        let t = with_gpu (push_chunk p chunk s.gpu) s in
        let stored : Owns t = λ r. o r ∙ ap some (sym (push_chunk-owned r p chunk s.gpu)) in
        let filled : Owns (logged driver (cl_enqueue_fill_buffer q p chunk) t) =
          λ r. rw (stored r) (ground (arith, w.queued, push_chunk-owned r p chunk s.gpu)) in
        k (remaining - chunk) (chunks ++ chunk ∷ [])
          (logged driver (cl_enqueue_fill_buffer q p chunk) t) refl filled
          (push_chunk-Growing c q p chunk chunks s.gpu w)
          (omega (arith, sum-append chunks (chunk ∷ [])))
          (All-append (λ n. n ≤ max_alloc) chunks (chunk ∷ []) a (cap, tt))
          (g
            ∙ append_assoc before (pairs s.gpu.mem_load_bufs chunks) ((p, chunk) ∷ [])
            ∙ ap (λ x. before ++ x) (sym (pairs-append s.gpu.mem_load_bufs chunks p chunk w.sized)))

    chunk_loop-Looped :
        (fuel remaining : ℕ) (chunks : List ℕ) (s : ClSession)
        → remaining ≤ fuel
        → Owns s
        → Growing c q chunks s.gpu
        → sum chunks + remaining ≡ total
        → All (λ n. n ≤ max_alloc) chunks
        → grants s.log ≡ before ++ pairs s.gpu.mem_load_bufs chunks
        → Looped before c q max_alloc total
            (chunk_loop driver fuel c q max_alloc remaining chunks s)
    unfolding chunk_loop
    chunk_loop-Looped zero remaining chunks s le o w e a g =
        done-Looped chunks s o w (omega arith) a g
    chunk_loop-Looped (suc fuel) zero chunks s le o w e a g =
        done-Looped chunks s o w (omega arith) a g
    chunk_loop-Looped (suc fuel) (suc n) chunks s le o w e a g =
        let chunk = min (suc n) max_alloc in
        let m = cl_create_buffer c chunk in
        let has_room : 1 ≤ max_alloc = some_room (omega arith) in
        let shrinks : 1 ≤ chunk = omega arith in
        chunk_step-Looped (chunk_loop driver fuel c q max_alloc) (answer driver m s) chunk (suc n)
          chunks (logged driver m s)
          (λ (k : ℕ) (ns : List ℕ) (t : ClSession) (d : k ≡ suc n - chunk).
            chunk_loop-Looped fuel k ns t (omega arith))
          (omega arith) (omega arith)
          (acquire-Owes driver memory context c m s (λ x. refl) (λ r. ground (arith, w.made)) o) w e
          a (ap (grant_onto m (answer driver m s)) g)

  commit_chunks-Sound :
      (before : List (ℕ × ℕ)) (c q max_alloc bytes : ℕ) (l : Chunked) (ok : Bool)
      → l.ok ≡ ok
      → Looped before c q max_alloc bytes l
      → Sound (commit_chunks driver ok q l.chunk_bytes l.session).session
  commit_chunks-Sound before c q max_alloc bytes l false e k = k.sound
  commit_chunks-Sound before c q max_alloc bytes l true e k =
      let w = k.grown e in
      record {
        owns = λ r. rw (k.sound.owns r) (ground (arith, w.queued));
        unloaded = λ f. cc w.loaded;
        swept =
            subst (λ n. All (IsBelow n) (reset l.session.gpu.sweep l.chunk_bytes).windows)
              (sym w.sized) (reset-IsBelow l.session.gpu.sweep l.chunk_bytes);
        ready = w.ready;
      }

  -- What the allocation of a block starts from.
  abbrev pub asked : ClSession → ClSession
  asked s = let t = release_memory driver s in logged driver (cl_get_max_alloc t.gpu.device) t

  -- The largest chunk of an allocation of so many bytes.
  abbrev pub cap_of : ClSession → ℕ → ℕ
  cap_of s bytes =
      let t = release_memory driver s in
      max_chunk_of (answer driver (cl_get_max_alloc t.gpu.device) t) bytes

  asked-Growing :
      (c q : ℕ) (has_api : Bool) (s : ClSession)
      → has_api ≡ true
      → s.gpu.has_api ≡ true
      → s.gpu.context ≡ some c
      → s.gpu.queue ≡ some q
      → IsReady s.gpu
      → Growing c q [] (release_with driver has_api s).gpu
  unfolding clear
  asked-Growing c q false s b h d e y = cc
  asked-Growing c q true s b h d e y = record {
    loaded = h;
    ready = y;
    made = d;
    queued = e;
    sized = refl;
    fresh = refl;
  }

  released-Growing :
      (c q : ℕ) (s : ClSession)
      → s.gpu.has_api ≡ true
      → s.gpu.context ≡ some c
      → s.gpu.queue ≡ some q
      → IsReady s.gpu
      → Growing c q [] (release_memory driver s).gpu
  unfolding release_memory
  released-Growing c q s h d e y = asked-Growing c q s.gpu.has_api s h h d e y

  release_bufs-grants :
      (ps : List ℕ) (s : ClSession) → grants (release_bufs driver ps s).log ≡ grants s.log
  release_bufs-grants [] s = refl
  release_bufs-grants (p ∷ ps) s =
      release_bufs-grants ps (logged driver (cl_release_mem_object p) s)

  release_with-grants :
      (has_api : Bool) (s : ClSession) → grants (release_with driver has_api s).log ≡ grants s.log
  release_with-grants false s = refl
  release_with-grants true s = release_bufs-grants s.gpu.mem_load_bufs s

  asked-grants : (s : ClSession) → grants (asked s).log ≡ grants s.log
  unfolding release_memory
  asked-grants s = release_with-grants s.gpu.has_api s

  allocation-Looped :
      (c q bytes : ℕ) (s : ClSession)
      → s.gpu.has_api ≡ true
      → s.gpu.context ≡ some c
      → s.gpu.queue ≡ some q
      → Sound s
      → Looped
          (grants s.log)
          c
          q
          (cap_of s bytes)
          bytes
          (chunk_loop driver bytes c q (cap_of s bytes) bytes [] (asked s))
  allocation-Looped c q bytes s h d e v =
      let t = release_memory driver s in
      chunk_loop-Looped (grants s.log) c q (cap_of s bytes) bytes
        (max_chunk_of-room (answer driver (cl_get_max_alloc t.gpu.device) t) bytes) bytes bytes []
        (asked s) (omega arith) (release_memory-Sound driver s v).owns
        (released-Growing c q s h d e v.ready) (omega arith) tt
        (asked-grants s ∙ sym (append-nil (grants s.log)))

  allocate_on-Sound :
      (c q : Option ℕ) (bytes : ℕ) (s : ClSession)
      → s.gpu.has_api ≡ true
      → s.gpu.context ≡ c
      → s.gpu.queue ≡ q
      → Sound s
      → Sound (allocate_on driver c q bytes s).session
  allocate_on-Sound none q bytes s h d e v = v
  allocate_on-Sound (some c) none bytes s h d e v = v
  allocate_on-Sound (some c) (some q) bytes s h d e v =
      let l = chunk_loop driver bytes c q (cap_of s bytes) bytes [] (asked s) in
      commit_chunks-Sound (grants s.log) c q (cap_of s bytes) bytes l l.ok refl
        (allocation-Looped c q bytes s h d e v)

  allocate_with-Sound :
      (has_api : Bool) (bytes : ℕ) (s : ClSession)
      → s.gpu.has_api ≡ has_api
      → Sound s
      → Sound (allocate_with driver has_api bytes s).session
  allocate_with-Sound false bytes s h v = v
  allocate_with-Sound true bytes s h v =
      allocate_on-Sound s.gpu.context s.gpu.queue bytes s h refl refl v

  pub allocate_memory-Sound :
      (bytes : ℕ) (s : ClSession) → Sound s → Sound (allocate_memory driver bytes s).session
  unfolding allocate_memory
  allocate_memory-Sound bytes s v = allocate_with-Sound s.gpu.has_api bytes s refl v
