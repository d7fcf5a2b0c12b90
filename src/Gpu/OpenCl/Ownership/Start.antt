-- ===== src/Gpu/OpenCl/Ownership/Start.antt =====
-- OpenClDevice::Init holds nothing more than its pointers say, wherever it ends.
use loadmaster.Prelude.{
  ℕ, zero, suc, ◌*◌, ◌≡◌, refl, ap, ◌∙◌, Bool, true, false, Option, none, some, List, arith,
}
use loadmaster.Prelude.Int.{ℤ}
use loadmaster.Gpu.Driver.{
  Entry, context, kernel, program, memory, queue, is_some, after-acquired, logged, with_gpu, answer,
}
use loadmaster.Gpu.OpenCl.{ClApi, Found, collect_gpu_devices}
use loadmaster.Gpu.OpenCl.Device.{
  ClCall, cl_get_device_name, cl_get_platform_name, cl_create_context, cl_create_command_queue,
  cl_create_program_with_source, cl_build_program, cl_get_build_log_size, cl_create_kernel,
  cl_get_work_group_size, cl_set_kernel_arg_buffer, cl_create_buffer, cl_enqueue_fill_buffer,
  OpenClDevice, ClSession,
}
use loadmaster.Gpu.OpenCl.Start.{
  found_at, limit_group, touched, touch, init_bound, init_scratch, init_kernel, read_text,
  read_build_log, init_built, init_program, init_queue, init_context, init_pair, init,
}
use loadmaster.Gpu.OpenCl.Ownership.{
  owned_by, Owns, Owes, IsEmpty, SweepsChunks, Sound, destroyed-Sound, settled-Owns, acquire-Owes,
}

-- Init at work: the library is there.
pub record Starting (g : OpenClDevice) : Type 0 where
  pub loaded : g.has_api ≡ true
  pub swept : SweepsChunks g

module _ (driver : List (Entry ClCall (Option ℕ)) → ClCall → Option ℕ) where
  -- An answer that was not stored because there is none.
  touched-Sound :
      (q : ℕ) (ok : Bool) (s : ClSession)
      → s.gpu.queue ≡ some q
      → Sound s
      → Sound (touched driver q ok s).session
  touched-Sound q false s e v = record {
    owns = v.owns;
    unloaded = v.unloaded;
    swept = v.swept;
    ready = v.ready;
  }
  touched-Sound q true s e v = record {
    owns = λ r. rw (v.owns r) (ground (arith, e));
    unloaded = v.unloaded;
    swept = v.swept;
    ready = v.ready;
  }

  touch-Sound :
      (q b : ℕ) (s : ClSession)
      → s.gpu.queue ≡ some q
      → s.gpu.out_buf ≡ some b
      → Sound s
      → Sound (touch driver q b s).session
  touch-Sound q b s e f v =
      let m = cl_enqueue_fill_buffer q b s.gpu.out_bytes in
      touched-Sound q (is_some (answer driver m s)) (logged driver m s) e (record {
        owns = λ r. rw (v.owns r) (ground (arith, e, f));
        unloaded = v.unloaded;
        swept = v.swept;
        ready = v.ready;
      })

  -- The group's size is read into its own field.
  limited-Sound :
      (n : Option ℕ) (q b : ℕ) (s : ClSession)
      → s.gpu.queue ≡ some q
      → s.gpu.out_buf ≡ some b
      → Sound s
      → Sound (touch driver q b (with_gpu (limit_group n s.gpu) s)).session
  limited-Sound none q b s e f v = touch-Sound q b s e f v
  limited-Sound (some zero) q b s e f v = touch-Sound q b s e f v
  limited-Sound (some (suc n)) q b s e f v =
      touch-Sound q b (with_gpu (limit_group (some (suc n)) s.gpu) s) e f
        (record { owns = v.owns; unloaded = v.unloaded; swept = v.swept; ready = v.ready })

  init_bound-Sound :
      (q k b : ℕ) (ok : Bool) (s : ClSession)
      → Owns s
      → Starting s.gpu
      → s.gpu.queue ≡ some q
      → s.gpu.kernel ≡ some k
      → s.gpu.out_buf ≡ some b
      → Sound (init_bound driver q k b ok s).session
  init_bound-Sound q k b false s o i e f g = destroyed-Sound driver s o i.loaded
  init_bound-Sound q k b true s o i e f g =
      let m = cl_get_work_group_size k in
      limited-Sound (answer driver m s) q b (logged driver m s) e g (record {
        owns = λ r. rw (o r) (ground (arith, f));
        unloaded = λ x. cc i.loaded;
        swept = i.swept;
        ready = ground (arith, g);
      })

  init_scratch-Sound :
      (q k : ℕ) (b : Option ℕ) (s : ClSession)
      → Owes memory b s
      → Starting s.gpu
      → s.gpu.queue ≡ some q
      → s.gpu.kernel ≡ some k
      → s.gpu.out_buf ≡ none
      → Sound (init_scratch driver q k b s).session
  init_scratch-Sound q k none s o i e f g =
      destroyed-Sound driver s (settled-Owns driver memory s o) i.loaded
  init_scratch-Sound q k (some b) s o i e f g =
      let t = with_gpu (record s.gpu { out_buf = some b }) s in
      let stored : Owns t = λ r. rw (o r) (ground (arith, g)) in
      let m = cl_set_kernel_arg_buffer k 0 (some b) in
      init_bound-Sound q k b (is_some (answer driver m t)) (logged driver m t)
        (λ r. rw (stored r) (ground (arith, f))) (record { loaded = i.loaded; swept = i.swept }) e f
        refl

  init_kernel-Sound :
      (c q : ℕ) (k : Option ℕ) (s : ClSession)
      → Owes kernel k s
      → Starting s.gpu
      → s.gpu.context ≡ some c
      → s.gpu.queue ≡ some q
      → s.gpu.kernel ≡ none
      → s.gpu.out_buf ≡ none
      → Sound (init_kernel driver c q k s).session
  init_kernel-Sound c q none s o i d e f g =
      destroyed-Sound driver s (settled-Owns driver kernel s o) i.loaded
  init_kernel-Sound c q (some k) s o i d e f g =
      let out_bytes = 1024 * 256 * 4 in
      let t = with_gpu (record s.gpu { kernel = some k; out_bytes = out_bytes }) s in
      let stored : Owns t = λ r. rw (o r) (ground (arith, f)) in
      let m = cl_create_buffer c out_bytes in
      init_scratch-Sound q k (answer driver m t) (logged driver m t)
        (acquire-Owes driver memory context c m t (λ a. refl) (λ r. ground (arith, d)) stored)
        (record { loaded = i.loaded; swept = i.swept }) e refl g

  read_text-Owns :
      (p : ℕ) (n : Option ℕ) (s : ClSession)
      → s.gpu.program ≡ some p
      → Owns s
      → Owns (read_text driver p n s)
  read_text-Owns p none s e o = o
  read_text-Owns p (some zero) s e o = o
  read_text-Owns p (some (suc zero)) s e o = o
  read_text-Owns p (some (suc (suc n))) s e o = λ r. rw (o r) (ground (arith, e))

  read_text-gpu : (p : ℕ) (n : Option ℕ) (s : ClSession) → (read_text driver p n s).gpu ≡ s.gpu
  read_text-gpu p none s = refl
  read_text-gpu p (some zero) s = refl
  read_text-gpu p (some (suc zero)) s = refl
  read_text-gpu p (some (suc (suc n))) s = refl

  read_build_log-Owns :
      (p : ℕ) (s : ClSession) → s.gpu.program ≡ some p → Owns s → Owns (read_build_log driver p s)
  read_build_log-Owns p s e o =
      let m = cl_get_build_log_size p in
      read_text-Owns p (answer driver m s) (logged driver m s) e (λ r. rw (o r) (ground (arith, e)))

  init_built-Sound :
      (c q p : ℕ) (ok : Bool) (s : ClSession)
      → Owns s
      → Starting s.gpu
      → s.gpu.context ≡ some c
      → s.gpu.queue ≡ some q
      → s.gpu.program ≡ some p
      → s.gpu.kernel ≡ none
      → s.gpu.out_buf ≡ none
      → Sound (init_built driver c q p ok s).session
  init_built-Sound c q p false s o i d e h f g =
      let m = cl_get_build_log_size p in
      let same = read_text-gpu p (answer driver m s) (logged driver m s) in
      destroyed-Sound driver (read_build_log driver p s) (read_build_log-Owns p s h o)
        (ap (λ (x : OpenClDevice). x.has_api) same ∙ i.loaded)
  init_built-Sound c q p true s o i d e h f g =
      let m = cl_create_kernel p in
      init_kernel-Sound c q (answer driver m s) (logged driver m s)
        (acquire-Owes driver kernel program p m s (λ a. refl) (λ r. ground (arith, h)) o) i d e f g

  init_program-Sound :
      (c q : ℕ) (p : Option ℕ) (s : ClSession)
      → Owes program p s
      → Starting s.gpu
      → s.gpu.context ≡ some c
      → s.gpu.queue ≡ some q
      → s.gpu.program ≡ none
      → s.gpu.kernel ≡ none
      → s.gpu.out_buf ≡ none
      → Sound (init_program driver c q p s).session
  init_program-Sound c q none s o i d e h f g =
      destroyed-Sound driver s (settled-Owns driver program s o) i.loaded
  init_program-Sound c q (some p) s o i d e h f g =
      let t = with_gpu (record s.gpu { program = some p }) s in
      let stored : Owns t = λ r. rw (o r) (ground (arith, h)) in
      let m = cl_build_program p in
      init_built-Sound c q p (is_some (answer driver m t)) (logged driver m t)
        (λ r. rw (stored r) (ground arith)) (record { loaded = i.loaded; swept = i.swept }) d e refl
        f g

  init_queue-Sound :
      (c : ℕ) (q : Option ℕ) (s : ClSession)
      → Owes queue q s
      → Starting s.gpu
      → s.gpu.context ≡ some c
      → s.gpu.queue ≡ none
      → s.gpu.program ≡ none
      → s.gpu.kernel ≡ none
      → s.gpu.out_buf ≡ none
      → Sound (init_queue driver c q s).session
  init_queue-Sound c none s o i d e h f g =
      destroyed-Sound driver s (settled-Owns driver queue s o) i.loaded
  init_queue-Sound c (some q) s o i d e h f g =
      let t = with_gpu (record s.gpu { queue = some q }) s in
      let stored : Owns t = λ r. rw (o r) (ground (arith, e)) in
      let m = cl_create_program_with_source c in
      init_program-Sound c q (answer driver m t) (logged driver m t)
        (acquire-Owes driver program context c m t (λ a. refl) (λ r. ground (arith, d)) stored)
        (record { loaded = i.loaded; swept = i.swept }) d refl h f g

  init_context-Sound :
      (c : Option ℕ) (s : ClSession)
      → Owes context c s
      → Starting s.gpu
      → IsEmpty s.gpu
      → Sound (init_context driver c s).session
  init_context-Sound none s o i e = record {
    owns = settled-Owns driver context s o;
    unloaded = λ x. e;
    swept = i.swept;
    ready = ground (arith, e);
  }
  init_context-Sound (some c) s o i (bufs, out, ker, prog, que, ctx) =
      let t = with_gpu (record s.gpu { context = some c }) s in
      let stored : Owns t = λ r. rw (o r) (ground (arith, ctx)) in
      let m = cl_create_command_queue c t.gpu.device in
      init_queue-Sound c (answer driver m t) (logged driver m t)
        (acquire-Owes driver queue context c m t (λ a. refl) (λ r. ground arith) stored)
        (record { loaded = i.loaded; swept = i.swept }) refl que prog ker out

  init_pair-Sound :
      (x : Option Found) (s : ClSession)
      → Owns s
      → Starting s.gpu
      → IsEmpty s.gpu
      → Sound (init_pair driver x s).session
  init_pair-Sound none s o i e = record {
    owns = o;
    unloaded = λ x. e;
    swept = i.swept;
    ready = ground (arith, e);
  }
  init_pair-Sound (some (p, d)) s o i e =
      let t = with_gpu (record s.gpu { platform = p; device = d }) s in
      let u = logged driver (cl_get_platform_name p) (logged driver (cl_get_device_name d) t) in
      let m = cl_create_context d in
      let owns : Owns u = o in
      init_context-Sound (answer driver m u) (logged driver m u)
        (λ r. rw (owns r) (after-acquired r context (answer driver m u) (owned_by r u.gpu)))
        (record { loaded = i.loaded; swept = i.swept }) e

  -- `Init`, however far the library lets it come.
  pub init-Sound :
      (api : Option ClApi) (device_index : ℤ) (s : ClSession)
      → Sound s
      → IsEmpty s.gpu
      → Sound (init driver api device_index s).session
  unfolding init
  init-Sound none i s v e = v
  init-Sound (some api) i s v e =
      init_pair-Sound (found_at (collect_gpu_devices (some api)) i)
        (with_gpu (record s.gpu { has_api = true }) s) v.owns
        (record { loaded = refl; swept = v.swept }) e
