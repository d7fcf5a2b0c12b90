-- ===== src/Gpu/Nvidia/Ownership.antt =====
-- What NvidiaDevice holds from the driver: the accounts, and Destroy.
pub mod Init
pub mod Blocks
pub mod Life
use loadmaster.Prelude.{
  ℕ, ◌+◌, ◌-◌, ◌*◌, ◌≤◌, max, ◌≡◌, refl, sym, ap, ◌∙◌, ◌⊎◌, inl, inr, Bool, true, false, ◌&&◌, ◌||◌,
  not, Option, none, some, List, [], ◌∷◌, ◌++◌, arith, leb, ◌==◌, if◌then◌else◌, Bool-cases,
  Option-cases,
}
use loadmaster.Gpu.Driver.{
  logged, answer, with_gpu, succeeds, fails, Kind, Resource, Entry, context, code, memory,
  held_after, after_effects, acquired, owned, is_some, after-acquired, null_use,
}
use loadmaster.Gpu.Sweep.{Window, MemSweep, SweepArgs, cleared, clear, reset, next}
use loadmaster.Gpu.Nvidia.{
  CudaCall, cu_device_get, cu_device_get_name, cu_ctx_create, cu_ctx_set_current, cu_ctx_destroy,
  cu_module_load_data, cu_module_get_function, cu_module_unload, cu_mem_alloc, cu_mem_free,
  cu_memset, cu_launch_kernel, cu_ctx_synchronize, kernel_threads, cuda_effects, NvidiaDevice,
  new_device, CudaSession, CudaOutcome, no_block, select_context, free_block, free_out,
  unload_module, destroy_context, destroy_all, destroy_on, destroy, init_scratch, init_function,
  init_module, init_context, init_device, init, select, make_current, commit_block, take_block,
  allocate_on, allocate_memory, free_current, release_on, release_memory, synchronize, launch_on,
  run_kernel,
}

-- How often the pointers of the device account for a resource.
abbrev pub owned_by : Resource → NvidiaDevice → ℕ
owned_by r g =
    owned r memory g.mem_load_ptr
    + (owned r memory g.out_ptr + (owned r code g.code_module + owned r context g.context))

abbrev pub held : Resource → CudaSession → Option ℕ
held r s = held_after cuda_effects r s.log

-- What is held is what the pointers of the device say and what is `lost`, without a fault so far.
abbrev pub Owns : (Resource → ℕ) → CudaSession → Type 0
Owns lost s = (r : Resource) → held r s ≡ some (lost r + owned_by r s.gpu)

module _ (lost : Resource → ℕ)
    (driver : List (Entry CudaCall (Option ℕ)) → CudaCall → Option ℕ) where
  select_context-Owns :
      (c : Option ℕ) (s : CudaSession)
      → s.gpu.context ≡ c
      → Owns lost s
      → Owns lost (select_context driver c s)
  select_context-Owns none s e o = o
  select_context-Owns (some c) s e o = λ r. rw (o r) (ground (arith, e))

  pub free_block-Owns :
      (p : Option ℕ) (s : CudaSession)
      → s.gpu.mem_load_ptr ≡ p
      → Owns lost s
      → Owns lost (free_block driver p s)
  free_block-Owns none s e o = o
  free_block-Owns (some p) s e o = λ r. rw (o r) (ground (arith, e))

  free_out-Owns :
      (p : Option ℕ) (s : CudaSession)
      → s.gpu.out_ptr ≡ p
      → Owns lost s
      → Owns lost (free_out driver p s)
  free_out-Owns none s e o = o
  free_out-Owns (some p) s e o = λ r. rw (o r) (ground (arith, e))

  unload_module-Owns :
      (m : Option ℕ) (s : CudaSession)
      → s.gpu.code_module ≡ m
      → Owns lost s
      → Owns lost (unload_module driver m s)
  unload_module-Owns none s e o = o
  unload_module-Owns (some m) s e o = λ r. rw (o r) (ground (arith, e))

  destroy_context-Owns :
      (c : Option ℕ) (s : CudaSession)
      → s.gpu.context ≡ c
      → Owns lost s
      → Owns lost (destroy_context driver c s)
  destroy_context-Owns none s e o = o
  destroy_context-Owns (some c) s e o = λ r. rw (o r) (ground (arith, e))

  destroy_all-Owns : (s : CudaSession) → Owns lost s → Owns lost (destroy_all driver s)
  destroy_all-Owns s o = destroy_context-Owns _ _ refl (
      unload_module-Owns _ _ refl
        (free_out-Owns _ _ refl (free_block-Owns _ _ refl (select_context-Owns _ s refl o))))

-- The device has no pointer.
abbrev pub IsEmpty : NvidiaDevice → Type 0
IsEmpty g =
    (g.mem_load_ptr ≡ none) × (g.out_ptr ≡ none) × (g.code_module ≡ none) × (g.context ≡ none)

-- No pointer without the driver's library, and windows to sweep only with a block.
pub record Tidy (g : NvidiaDevice) : Type 0 where
  pub unloaded : g.has_api ≡ false → IsEmpty g
  pub swept : g.mem_load_ptr ≡ none → g.sweep.windows ≡ []

-- A device with a context has its scratch buffer, and one with a block has a context.
abbrev pub IsReady : NvidiaDevice → Type 0
IsReady g =
    ((is_some g.context && not (is_some g.out_ptr))
      || (is_some g.mem_load_ptr && not (is_some g.context)))
    ≡ false

-- What holds between operations.
pub record Sound (lost : Resource → ℕ) (s : CudaSession) : Type 0 where
  pub owns : Owns lost s
  pub tidy : Tidy s.gpu
  pub ready : IsReady s.gpu

-- The driver's library is there, and a context.
abbrev pub IsOpen : NvidiaDevice → Type 0
IsOpen g = (g.has_api ≡ true) × (is_some g.context ≡ true)

-- The answer `a`, a resource of kind `k` if any, is not stored yet.
abbrev pub Owes : (Resource → ℕ) → Kind → Option ℕ → CudaSession → Type 0
Owes lost k a s = (r : Resource) → held r s ≡ some (owned r k a + (lost r + owned_by r s.gpu))

module _ (lost : Resource → ℕ)
    (driver : List (Entry CudaCall (Option ℕ)) → CudaCall → Option ℕ) where
  pub destroy_all-IsEmpty : (s : CudaSession) → IsEmpty (destroy_all driver s).gpu
  destroy_all-IsEmpty s = ground arith

  destroy_all-Tidy : (s : CudaSession) → Tidy s.gpu → Tidy (destroy_all driver s).gpu
  unfolding clear
  destroy_all-Tidy s t = record {
    unloaded = λ _. destroy_all-IsEmpty s;
    swept = λ _. ground (arith, t.swept);
  }

  destroy_all-Sound :
      (s : CudaSession) → Owns lost s → Tidy s.gpu → Sound lost (destroy_all driver s)
  destroy_all-Sound s o t = record {
    owns = destroy_all-Owns lost driver s o;
    tidy = destroy_all-Tidy s t;
    ready = ground (arith, destroy_all-IsEmpty s);
  }

  destroy_on-Sound :
      (has_api : Bool) (s : CudaSession)
      → s.gpu.has_api ≡ has_api
      → Owns lost s
      → Tidy s.gpu
      → Sound lost (destroy_on driver has_api s)
  destroy_on-Sound true s e o t = destroy_all-Sound s o t
  destroy_on-Sound false s e o t = record {
    owns = o;
    tidy = t;
    ready = ground (arith, t.unloaded e);
  }

  pub destroy-Sound : (s : CudaSession) → Owns lost s → Tidy s.gpu → Sound lost (destroy driver s)
  unfolding destroy
  destroy-Sound s o t = destroy_on-Sound s.gpu.has_api s refl o t

  pub acquire-Owes :
      (k : Kind) (c : CudaCall) (s : CudaSession)
      → ((a : Option ℕ) → cuda_effects c a ≡ acquired k a)
      → Owns lost s
      → Owes lost k (answer driver c s) (logged driver c s)
  acquire-Owes k c s e o =
      λ r. rw (e (answer driver c s), o r) (after-acquired r k (answer driver c s) _)

  pub settled-Owns : (k : Kind) (s : CudaSession) → Owes lost k none s → Owns lost s
  settled-Owns k s o = λ r. o r ∙ ap some (omega arith)

  destroy_on-IsEmpty :
      (has_api : Bool) (s : CudaSession)
      → s.gpu.has_api ≡ has_api
      → Tidy s.gpu
      → IsEmpty (destroy_on driver has_api s).gpu
  destroy_on-IsEmpty true s e t = destroy_all-IsEmpty s
  destroy_on-IsEmpty false s e t = t.unloaded e

  pub destroy-IsEmpty : (s : CudaSession) → Tidy s.gpu → IsEmpty (destroy driver s).gpu
  unfolding destroy
  destroy-IsEmpty s t = destroy_on-IsEmpty s.gpu.has_api s refl t
