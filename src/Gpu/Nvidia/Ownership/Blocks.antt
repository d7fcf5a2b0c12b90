-- ===== src/Gpu/Nvidia/Ownership/Blocks.antt =====
-- AllocateMemory, ReleaseMemory and RunKernel of NvidiaDevice keep the accounts.
use loadmaster.Prelude.{
  ℕ, ◌+◌, max, ◌≡◌, refl, sym, ap, ◌∙◌, Bool, true, false, ◌&&◌, Option, none, some, List, [],
  arith, ◌==◌, if◌then◌else◌,
}
use loadmaster.Gpu.Driver.{Resource, owned, logged, answer, with_gpu, fails, Entry, memory, is_some}
use loadmaster.Gpu.Sweep.{MemSweep, clear, next}
use loadmaster.Gpu.Nvidia.{
  CudaCall, cu_mem_alloc, cu_memset, cu_launch_kernel, cu_ctx_synchronize, kernel_threads,
  CudaSession, no_block, free_block, select, make_current, release_with, run_with, commit_block,
  take_block, allocate_on, allocate_memory, free_current, release_on, release_memory, synchronize,
  launch_on, run_kernel,
}
use loadmaster.Gpu.Nvidia.Ownership.{
  owned_by, Owns, Owes, IsReady, IsOpen, Sound, acquire-Owes, free_block-Owns,
}
use loadmaster.Gpu.Sweep.Empty.{next_empty}

pub Sound-as :
    (lost other : Resource → ℕ) (s : CudaSession)
    → ((r : Resource) → lost r ≡ other r)
    → Sound lost s
    → Sound other s
Sound-as lost other s e v = record {
  owns = λ r. v.owns r ∙ ap (λ n. some (n + owned_by r s.gpu)) (e r);
  tidy = v.tidy;
  ready = v.ready;
}

module _ (driver : List (Entry CudaCall (Option ℕ)) → CudaCall → Option ℕ) where
  -- What ReleaseMemory gives up without freeing it: the block, if the context cannot be made current.
  abbrev pub dropped : CudaSession → Resource → ℕ
  dropped s r = if (make_current driver s).ok then 0 else owned r memory s.gpu.mem_load_ptr

module _ (lost : Resource → ℕ)
    (driver : List (Entry CudaCall (Option ℕ)) → CudaCall → Option ℕ) where
  free_block-Sound :
      (p : Option ℕ) (s : CudaSession)
      → s.gpu.mem_load_ptr ≡ p
      → Sound lost s
      → Sound lost (free_block driver p s)
  unfolding clear
  free_block-Sound none s e v = v
  free_block-Sound (some p) s e v = record {
    owns = free_block-Owns lost driver (some p) s e v.owns;
    tidy = record { unloaded = λ f. ground (arith, v.tidy.unloaded f); swept = λ _. refl };
    ready = ground (arith, v.ready);
  }

  select-Sound :
      (c : Option ℕ) (s : CudaSession)
      → s.gpu.context ≡ c
      → Sound lost s
      → Sound lost (select driver c s).session
  select-Sound none s e v = v
  select-Sound (some c) s e v = record {
    owns = λ r. rw (v.owns r) (ground (arith, e));
    tidy = v.tidy;
    ready = v.ready;
  }

  make_current-Sound : (s : CudaSession) → Sound lost s → Sound lost (make_current driver s).session
  make_current-Sound s v =
      elim s.gpu.has_api
        as (λ b. Sound lost (if b then select driver s.gpu.context s else fails s).session) [
          | true ↦ select-Sound s.gpu.context s refl v
          | false ↦ v
        ]

  make_current-IsOpen :
      (s : CudaSession)
      → (make_current driver s).ok ≡ true
      → IsOpen (make_current driver s).session.gpu
  make_current-IsOpen s h = ground arith

  commit_block-Sound :
      (a : Option ℕ) (p bytes : ℕ) (s : CudaSession)
      → Owns lost s
      → s.gpu.mem_load_ptr ≡ some p
      → IsOpen s.gpu
      → s.gpu.sweep.windows ≡ []
      → IsReady s.gpu
      → Sound lost (commit_block driver a p bytes s).session
  commit_block-Sound none p bytes s o e h w y = record {
    owns = λ r. rw (o r) (ground (arith, e));
    tidy = record { unloaded = λ f. cc h.0; swept = λ _. w };
    ready = ground (arith, y);
  }
  commit_block-Sound (some a) p bytes s o e h w y = record {
    owns = o;
    tidy = record { unloaded = λ f. cc h.0; swept = λ f. cc };
    ready = y;
  }

  take_block-Sound :
      (p : Option ℕ) (bytes : ℕ) (s : CudaSession)
      → Owes lost memory p s
      → s.gpu.mem_load_ptr ≡ none
      → IsOpen s.gpu
      → s.gpu.sweep.windows ≡ []
      → IsReady s.gpu
      → Sound lost (take_block driver p bytes s).session
  take_block-Sound none bytes s o e h w y = record {
    owns = λ r. o r ∙ ground (arith, e);
    tidy = record { unloaded = λ f. cc h.0; swept = λ _. w };
    ready = ground (arith, y);
  }
  take_block-Sound (some p) bytes s o e h w y =
      let u = with_gpu (record s.gpu { mem_load_ptr = some p }) s in
      let taken : Owns lost u = λ r. rw (o r) (ground (arith, e)) in
      let t = logged driver (cu_memset p bytes) u in
      let filled : Owns lost t = λ r. rw (taken r) (ground arith) in
      let open_ready : IsReady u.gpu = ground (arith, y, h) in
      commit_block-Sound (answer driver cu_ctx_synchronize t) p bytes
        (logged driver cu_ctx_synchronize t) filled refl h w open_ready

  freed-none : (s : CudaSession) → (free_block driver s.gpu.mem_load_ptr s).gpu.mem_load_ptr ≡ none
  freed-none s = ground arith

  freed-IsOpen :
      (s : CudaSession) → IsOpen s.gpu → IsOpen (free_block driver s.gpu.mem_load_ptr s).gpu
  freed-IsOpen s h = ground (arith, h)

  allocate_on-Sound :
      (current : Bool) (bytes : ℕ) (s : CudaSession)
      → (current ≡ true → IsOpen s.gpu)
      → Sound lost s
      → Sound lost (allocate_on driver current bytes s).session
  allocate_on-Sound false bytes s h v = v
  allocate_on-Sound true bytes s h v =
      let t = free_block driver s.gpu.mem_load_ptr s in
      let freed : Sound lost t = free_block-Sound s.gpu.mem_load_ptr s refl v in
      let c = cu_mem_alloc bytes in
      take_block-Sound (answer driver c t) bytes (logged driver c t)
        (acquire-Owes lost driver memory c t (λ a. refl) freed.owns) (freed-none s)
        (freed-IsOpen s (h refl)) (freed.tidy.swept (freed-none s)) freed.ready

  pub allocate_memory-Sound :
      (bytes : ℕ) (s : CudaSession)
      → Sound lost s
      → Sound lost (allocate_memory driver bytes s).session
  unfolding allocate_memory
  allocate_memory-Sound bytes s v =
      allocate_on-Sound (make_current driver s).ok bytes (make_current driver s).session
        (make_current-IsOpen s) (make_current-Sound s v)

  -- The end of ReleaseMemory: with no current context, the block is lost.
  released-Sound :
      (current : Bool) (p : ℕ) (s : CudaSession)
      → s.gpu.mem_load_ptr ≡ some p
      → Sound lost s
      → Sound
          (λ r. (if current then 0 else owned r memory (some p)) + lost r)
          (with_gpu
            (no_block driver (free_current driver current p s).gpu)
            (free_current driver current p s))
  unfolding clear
  released-Sound true p s e v = record {
    owns = λ r. rw (v.owns r) (ground (arith, e));
    tidy = record { unloaded = λ f. ground (arith, v.tidy.unloaded f); swept = λ _. refl };
    ready = ground (arith, v.ready);
  }
  released-Sound false p s e v = record {
    owns = λ r. rw (v.owns r) (ground (arith, e));
    tidy = record { unloaded = λ f. ground (arith, v.tidy.unloaded f); swept = λ _. refl };
    ready = ground (arith, v.ready);
  }

  dropped-none :
      (s : CudaSession) (r : Resource) → s.gpu.mem_load_ptr ≡ none → dropped driver s r ≡ 0
  dropped-none s r e = ground (arith, e)

  release_on-Sound :
      (p : Option ℕ) (s : CudaSession)
      → s.gpu.mem_load_ptr ≡ p
      → Sound lost s
      → Sound (λ r. dropped driver s r + lost r) (release_on driver p s)
  release_on-Sound none s e v =
      Sound-as lost (λ r. dropped driver s r + lost r) s (λ r. omega (arith, dropped-none s r e)) v
  release_on-Sound (some p) s e v =
      let m = make_current driver s in
      Sound-as (λ r. (if m.ok then 0 else owned r memory (some p)) + lost r)
        (λ r. dropped driver s r + lost r) (release_on driver (some p) s)
        (λ r. ap (λ q. (if m.ok then 0 else owned r memory q) + lost r) (sym e))
        (released-Sound m.ok p m.session (ground (arith, e)) (make_current-Sound s v))

  release_with-Sound :
      (has_api : Bool) (s : CudaSession)
      → s.gpu.has_api ≡ has_api
      → Sound lost s
      → Sound (λ r. dropped driver s r + lost r) (release_with driver has_api s)
  release_with-Sound false s e v =
      Sound-as lost (λ r. dropped driver s r + lost r) s
        (λ r. omega (arith, dropped-none s r (v.tidy.unloaded e).0)) v
  release_with-Sound true s e v = release_on-Sound s.gpu.mem_load_ptr s refl v

  pub release_memory-Sound :
      (s : CudaSession)
      → Sound lost s
      → Sound (λ r. dropped driver s r + lost r) (release_memory driver s)
  unfolding release_memory
  release_memory-Sound s v = release_with-Sound s.gpu.has_api s refl v

  synchronize-Sound :
      (a : Option ℕ) (s : CudaSession) → Sound lost s → Sound lost (synchronize driver a s).session
  synchronize-Sound none s v = v
  synchronize-Sound (some a) s v = record { owns = v.owns; tidy = v.tidy; ready = v.ready }

  -- What the launch passes is held: the scratch buffer, and the block when there is traffic.
  launch_on-Sound :
      (current : Bool) (f : Option ℕ) (loop_count traffic : ℕ) (s : CudaSession)
      → (current ≡ true → IsOpen s.gpu)
      → Sound lost s
      → Sound lost (launch_on driver current f loop_count traffic s).session
  launch_on-Sound false f loop_count traffic s h v = v
  launch_on-Sound true f loop_count traffic s h v =
      let loops = max loop_count 1 in
      let n = next s.gpu.sweep loops traffic kernel_threads in
      let t = with_gpu (record s.gpu { sweep = n.sweep }) s in
      let mem = if n.args.words == 0 then s.gpu.out_ptr else s.gpu.mem_load_ptr in
      let c = cu_launch_kernel f s.gpu.out_ptr mem loops n.args in
      let empty : s.gpu.mem_load_ptr ≡ none → (n.sweep ≡ s.gpu.sweep) × (n.args.words ≡ 0) =
        λ e. next_empty s.gpu.sweep loops traffic kernel_threads (v.tidy.swept e) in
      synchronize-Sound (answer driver c t) (logged driver c t) (record {
        owns = λ r. rw (v.owns r) (ground (arith, h refl, v.ready, empty));
        tidy = record {
          unloaded = v.tidy.unloaded;
          swept = λ e. ap (λ (m : MemSweep). m.windows) (empty e).0 ∙ v.tidy.swept e;
        };
        ready = v.ready;
      })

  run_with-Sound :
      (usable : Bool) (loop_count traffic : ℕ) (s : CudaSession)
      → Sound lost s
      → Sound lost (run_with driver usable loop_count traffic s).session
  run_with-Sound false loop_count traffic s v = v
  run_with-Sound true loop_count traffic s v =
      launch_on-Sound (make_current driver s).ok s.gpu.busy_func loop_count traffic
        (make_current driver s).session (make_current-IsOpen s) (make_current-Sound s v)

  pub run_kernel-Sound :
      (loop_count traffic : ℕ) (s : CudaSession)
      → Sound lost s
      → Sound lost (run_kernel driver loop_count traffic s).session
  unfolding run_kernel
  run_kernel-Sound loop_count traffic s v =
      run_with-Sound (s.gpu.has_api && is_some s.gpu.busy_func) loop_count traffic s v
