-- ===== src/Gpu/Nvidia/Ownership/Init.antt =====
-- NvidiaDevice::Init holds nothing more than its pointers say, wherever it ends.
use loadmaster.Prelude.{ℕ, ◌*◌, ◌≡◌, refl, Bool, true, false, Option, none, some, List, arith}
use loadmaster.Gpu.Driver.{Resource, logged, answer, with_gpu, Entry, context, code, memory}
use loadmaster.Gpu.Nvidia.{
  CudaCall, cu_device_get, cu_device_get_name, cu_ctx_create, cu_module_load_data,
  cu_module_get_function, cu_mem_alloc, kernel_threads, CudaSession, init_scratch, init_function,
  init_module, init_context, init_device, init,
}
use loadmaster.Gpu.Nvidia.Ownership.{
  Owns, Owes, IsEmpty, Tidy, IsOpen, Sound, destroy-Sound, acquire-Owes, settled-Owns,
}

module _ (lost : Resource → ℕ)
    (driver : List (Entry CudaCall (Option ℕ)) → CudaCall → Option ℕ) where
  pub init_scratch-Sound :
      (p : Option ℕ) (s : CudaSession)
      → Owes lost memory p s
      → s.gpu.out_ptr ≡ none
      → IsOpen s.gpu
      → Tidy s.gpu
      → Sound lost (init_scratch driver p s).session
  init_scratch-Sound none s o e h t =
      destroy-Sound lost driver s (settled-Owns lost driver memory s o) t
  init_scratch-Sound (some p) s o e h t = record {
    owns = λ r. rw (o r) (ground (arith, e));
    tidy = record { unloaded = λ f. cc h.0; swept = t.swept };
    ready = ground (arith, h);
  }

  init_function-Sound :
      (f : Option ℕ) (s : CudaSession)
      → Owns lost s
      → s.gpu.out_ptr ≡ none
      → IsOpen s.gpu
      → Tidy s.gpu
      → Sound lost (init_function driver f s).session
  init_function-Sound none s o e h t = destroy-Sound lost driver s o t
  init_function-Sound (some f) s o e h t =
      let g = record s.gpu { busy_func = some f; out_bytes = kernel_threads * 4 } in
      let u = record s { gpu = g } in
      let c = cu_mem_alloc g.out_bytes in
      init_scratch-Sound (answer driver c u) (logged driver c u)
        (acquire-Owes lost driver memory c u (λ a. refl) o) e h
        (record { unloaded = t.unloaded; swept = t.swept })

  init_module-Sound :
      (m : Option ℕ) (s : CudaSession)
      → Owes lost code m s
      → s.gpu.code_module ≡ none
      → s.gpu.out_ptr ≡ none
      → IsOpen s.gpu
      → Tidy s.gpu
      → Sound lost (init_module driver m s).session
  init_module-Sound none s o c e h t =
      destroy-Sound lost driver s (settled-Owns lost driver code s o) t
  init_module-Sound (some m) s o c e h t =
      let u = with_gpu (record s.gpu { code_module = some m }) s in
      let loaded : Owns lost u = λ r. rw (o r) (ground (arith, c)) in
      let f = cu_module_get_function m in
      let called : Owns lost (logged driver f u) = λ r. rw (loaded r) (ground arith) in
      init_function-Sound (answer driver f u) (logged driver f u) called e h
        (record { unloaded = λ f. cc h.0; swept = t.swept })

  init_context-Sound :
      (c : Option ℕ) (s : CudaSession)
      → Owes lost context c s
      → IsEmpty s.gpu
      → s.gpu.has_api ≡ true
      → Tidy s.gpu
      → Sound lost (init_context driver c s).session
  init_context-Sound none s o e h t = record {
    owns = settled-Owns lost driver context s o;
    tidy = t;
    ready = ground (arith, e);
  }
  init_context-Sound (some c) s o (block, out, loaded, made) h t =
      let u = with_gpu (record s.gpu { context = some c }) s in
      let owns : Owns lost u = λ r. rw (o r) (ground (arith, made)) in
      let l = cu_module_load_data in
      init_module-Sound (answer driver l u) (logged driver l u)
        (acquire-Owes lost driver code l u (λ a. refl) owns) loaded out (h, refl)
        (record { unloaded = λ f. cc h; swept = t.swept })

  init_device-Sound :
      (d : Option ℕ) (s : CudaSession)
      → Owns lost s
      → IsEmpty s.gpu
      → s.gpu.has_api ≡ true
      → Tidy s.gpu
      → Sound lost (init_device driver d s).session
  init_device-Sound none s o e h t = record { owns = o; tidy = t; ready = ground (arith, e) }
  init_device-Sound (some d) s o e h t =
      let u = logged driver (cu_device_get_name d) (with_gpu (record s.gpu { device = d }) s) in
      let c = cu_ctx_create d in
      init_context-Sound (answer driver c u) (logged driver c u)
        (acquire-Owes lost driver context c u (λ a. refl) o) e h
        (record { unloaded = t.unloaded; swept = t.swept })

  -- `Init`, however far the driver lets it come.
  pub init-Sound :
      (loaded : Bool) (device_index : ℕ) (s : CudaSession)
      → Sound lost s
      → IsEmpty s.gpu
      → Sound lost (init driver loaded device_index s).session
  unfolding init
  init-Sound false i s v e = v
  init-Sound true i s v e =
      let t = with_gpu (record s.gpu { has_api = true }) s in
      let called = logged driver (cu_device_get i) t in
      init_device-Sound (answer driver (cu_device_get i) t) called v.owns e refl
        (record { unloaded = λ f. cc; swept = v.tidy.swept })
