-- ===== src/Gpu/Nvidia/Ownership/Life.antt =====
-- NvidiaDevice from its constructor to its destructor.
use loadmaster.Prelude.{ℕ, ◌+◌, ◌≡◌, refl, ap, ◌∙◌, Bool, Option, some, List, [], ◌∷◌, arith}
use loadmaster.Gpu.Driver.{Request, allocate, release, run, Resource, Entry}
use loadmaster.Gpu.Nvidia.{
  CudaCall, NvidiaDevice, new_device, CudaSession, destroy, init, allocate_memory, release_memory,
  run_kernel,
}
use loadmaster.Gpu.Nvidia.Ownership.{IsEmpty, Sound, owned_by, held, destroy-Sound, destroy-IsEmpty}
use loadmaster.Gpu.Nvidia.Ownership.Blocks.{
  Sound-as, dropped, allocate_memory-Sound, release_memory-Sound, run_kernel-Sound,
}
use loadmaster.Gpu.Nvidia.Ownership.Init.{init-Sound}

abbrev pub new_session : CudaSession
new_session = record { log = []; gpu = new_device }

module _ (driver : List (Entry CudaCall (Option ℕ)) → CudaCall → Option ℕ) where
  abbrev pub serve : Request → CudaSession → CudaSession
  serve (allocate bytes) s = (allocate_memory driver bytes s).session
  serve release s = release_memory driver s
  serve (run loop_count traffic) s = (run_kernel driver loop_count traffic s).session

  abbrev pub serve_all : List Request → CudaSession → CudaSession
  serve_all [] s = s
  serve_all (q ∷ qs) s = serve_all qs (serve q s)

  -- A device from its constructor to its destructor.
  abbrev pub lifetime : Bool → ℕ → List Request → CudaSession
  lifetime loaded device_index requests =
      destroy driver (serve_all requests (init driver loaded device_index new_session).session)

  -- What ReleaseMemory gives up without freeing it while the requests are served, each from the
  -- session it comes to.
  abbrev pub dropped_over : List Request → CudaSession → Resource → ℕ
  dropped_over [] s r = 0
  dropped_over (allocate bytes ∷ qs) s r = dropped_over qs (serve (allocate bytes) s) r
  dropped_over (release ∷ qs) s r = dropped_over qs (serve release s) r + dropped driver s r
  dropped_over (run loop_count traffic ∷ qs) s r =
      dropped_over qs (serve (run loop_count traffic) s) r

  serve_all-Sound :
      (lost : Resource → ℕ) (qs : List Request) (s : CudaSession)
      → Sound lost s
      → Sound (λ r. dropped_over qs s r + lost r) (serve_all qs s)
  serve_all-Sound lost [] s v = Sound-as lost (λ r. 0 + lost r) s (λ r. omega arith) v
  serve_all-Sound lost (allocate bytes ∷ qs) s v =
      serve_all-Sound lost qs (serve (allocate bytes) s)
        (allocate_memory-Sound lost driver bytes s v)
  serve_all-Sound lost (release ∷ qs) s v =
      let t = serve release s in
      Sound-as (λ r. dropped_over qs t r + (dropped driver s r + lost r))
        (λ r. dropped_over qs t r + dropped driver s r + lost r) (serve_all qs t) (λ r. omega arith)
        (serve_all-Sound (λ r. dropped driver s r + lost r) qs t
          (release_memory-Sound lost driver s v))
  serve_all-Sound lost (run loop_count traffic ∷ qs) s v =
      serve_all-Sound lost qs (serve (run loop_count traffic) s)
        (run_kernel-Sound lost driver loop_count traffic s v)

  new_session-Sound : Sound (λ r. 0) new_session
  new_session-Sound = record {
    owns = λ r. ap some (omega arith);
    tidy = record { unloaded = λ f. (refl, refl, refl, refl); swept = λ e. refl };
    ready = refl;
  }

  empty-owned_by : (r : Resource) (g : NvidiaDevice) → IsEmpty g → owned_by r g ≡ 0
  empty-owned_by r g e = ground (arith, e)

  -- Over the whole life of a CUDA device, whatever the driver answers and whatever the worker asks
  -- for, every context, module and piece of memory that the driver hands out is given back exactly
  -- once, and none is used before it is handed out or after it is given back, but for the blocks
  -- that ReleaseMemory forgets because the context cannot be made current: just these are never
  -- freed.
  pub lifetime-releases_all :
      (loaded : Bool) (device_index : ℕ) (requests : List Request) (r : Resource)
      → held r (lifetime loaded device_index requests)
        ≡ some (dropped_over requests (init driver loaded device_index new_session).session r)
  lifetime-releases_all loaded device_index requests r =
      let opened = (init driver loaded device_index new_session).session in
      let lost : Resource → ℕ = λ x. dropped_over requests opened x + 0 in
      let v =
        serve_all-Sound (λ x. 0) requests opened
          (init-Sound (λ x. 0) driver loaded device_index new_session new_session-Sound
            (refl, refl, refl, refl)) in
      let used = serve_all requests opened in
      (destroy-Sound lost driver used v.owns v.tidy).owns r
      ∙ ap some (
          omega (
            arith,
            empty-owned_by r (destroy driver used).gpu (destroy-IsEmpty lost driver used v.tidy),
          ))
