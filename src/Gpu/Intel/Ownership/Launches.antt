-- ===== src/Gpu/Intel/Ownership/Launches.antt =====
-- RunKernel of IntelDevice uses only what the device holds.
use loadmaster.Prelude.{
  ℕ, ◌≤◌, ◌<◌, max, ◌≡◌, ◌≢◌, refl, sym, ap, ◌∙◌, Bool, true, false, Option, none, some, List,
  arith, if◌then◌else◌, ◌==◌, length, get_elem?, All, Bool-cases, Option-cases, inl, inr,
}
use loadmaster.Gpu.Driver.{
  chunk_at, Resource, Entry, kernel, memory, queue, command_list, after_effects, used, owned,
  is_some, with_gpu,
}
use loadmaster.Gpu.Sweep.{next}
use loadmaster.Gpu.Sweep.Windows.{next-KeepsLayout, KeepsLayout}
use loadmaster.Gpu.Intel.{ZeCall, ZeAnswer, IntelDevice, ZeSession, attempt_all}
use loadmaster.Gpu.Intel.Launch.{kernel_threads, launch_calls, launch_on, launch_with, run_kernel}
use loadmaster.Gpu.Intel.Ownership.{owned_by, Holds, Keeps, attempt_all-Holds}
use loadmaster.Gpu.Intel.Ownership.Stages.{Sound}
use loadmaster.Gpu.Intel.Ownership.Blocks.{attempt_all-gpu}

module _ (driver : List (Entry ZeCall ZeAnswer) → ZeCall → ZeAnswer) where
  launch_calls-Keeps :
      (k l q p : ℕ) (n : Resource → ℕ)
      → ((r : Resource) → owned r kernel (some k) ≤ n r)
      → ((r : Resource) → owned r command_list (some l) ≤ n r)
      → ((r : Resource) → owned r queue (some q) ≤ n r)
      → ((r : Resource) → owned r memory (some p) ≤ n r)
      → All (Keeps driver n) (launch_calls k l q (some p))
  launch_calls-Keeps k l q p n kn ln qn pn =
      let value : (r : Resource)
          → after_effects r (used kernel (some k)) (some (n r)) ≡ some (n r) =
        λ r. ground (arith, kn r) in
      let on_list : (r : Resource)
          → after_effects r (used command_list (some l)) (some (n r)) ≡ some (n r) =
        λ r. ground (arith, ln r) in
      (
        λ r a. value r,
        (
          λ r a. ground (arith, kn r, pn r),
          (
            λ r a. value r,
            (
              λ r a. value r,
              (
                λ r a. value r,
                (
                  λ r a. value r,
                  (
                    λ r a. on_list r,
                    (
                      λ r a. ground (arith, ln r, kn r),
                      (
                        λ r a. on_list r,
                        (λ r a. ground (arith, qn r, ln r), (λ r a. ground (arith, qn r), tt)),
                      ),
                    ),
                  ),
                ),
              ),
            ),
          ),
        ),
      )

  -- What argument 2 is set to is held: the scratch buffer, or with traffic a chunk.
  argument-owned :
      (g : IntelDevice) (words segment : ℕ)
      → is_some g.out_ptr ≡ true
      → (words ≢ 0 → segment < length g.mem_load_ptrs)
      → (p : ℕ) × ((if words == 0 then g.out_ptr else get_elem? g.mem_load_ptrs segment) ≡ some p)
        × ((r : Resource) → owned r memory (some p) ≤ owned_by r g)
  argument-owned g words segment e inside = elim (Bool-cases (words == 0)) [
    | inl none_moved ↦ rw none_moved (elim (Option-cases g.out_ptr) [
      | inl f ↦ absurd (cc (f, e))
      | inr (p, f) ↦ (p, f, λ r. ground (arith, f))
    ])
    | inr moved ↦
        let (p, f, le) =
          chunk_at g.mem_load_ptrs segment (inside (λ z. ground (arith, z, moved))) in
        rw moved (p, f, λ r. omega (arith, le r))
  ]

  pub launch_on-Sound :
      (k l q : Option ℕ) (loop_count traffic : ℕ) (s : ZeSession)
      → s.gpu.kernel ≡ k
      → s.gpu.cmd_list ≡ l
      → s.gpu.queue ≡ q
      → Sound s
      → Sound (launch_on driver k l q loop_count traffic s).session
  launch_on-Sound none l q loop_count traffic s ke le qe v = v
  launch_on-Sound (some k) none q loop_count traffic s ke le qe v = v
  launch_on-Sound (some k) (some l) none loop_count traffic s ke le qe v = v
  launch_on-Sound (some k) (some l) (some q) loop_count traffic s ke le qe v =
      let loops = max loop_count 1 in
      let n = next s.gpu.sweep loops traffic kernel_threads in
      let layout : KeepsLayout (length s.gpu.mem_load_ptrs) s.gpu.sweep.windows n =
        next-KeepsLayout (length s.gpu.mem_load_ptrs) s.gpu.sweep loops traffic kernel_threads
          v.tidy.swept in
      let has_out : is_some s.gpu.out_ptr ≡ true = ground (arith, v.ready, v.tidy.closed, ke) in
      let (p, e, held_p) = argument-owned s.gpu n.args.words n.args.segment has_out layout.named in
      let t = with_gpu (record s.gpu { sweep = n.sweep }) s in
      let calls = launch_calls k l q (some p) in
      let done : Holds (λ r. owned_by r s.gpu) (attempt_all driver calls t).session =
        attempt_all-Holds driver calls t (λ r. owned_by r s.gpu)
          (launch_calls-Keeps k l q p (λ r. owned_by r s.gpu) (λ r. ground (arith, ke))
            (λ r. ground (arith, le)) (λ r. ground (arith, qe)) held_p)
          v.owns in
      let same : (attempt_all driver calls t).session.gpu ≡ t.gpu =
        attempt_all-gpu driver calls t in
      rw e (record {
        owns = λ r. done r ∙ ap (λ (g : IntelDevice). some (owned_by r g)) (sym same);
        tidy = rw same (record {
          unloaded = v.tidy.unloaded;
          closed = v.tidy.closed;
          swept = rw layout.kept v.tidy.swept;
        });
        ready = rw same v.ready;
      })

  launch_with-Sound :
      (has_api : Bool) (loop_count traffic : ℕ) (s : ZeSession)
      → Sound s
      → Sound (launch_with driver has_api loop_count traffic s).session
  launch_with-Sound false loop_count traffic s v = v
  launch_with-Sound true loop_count traffic s v =
      launch_on-Sound s.gpu.kernel s.gpu.cmd_list s.gpu.queue loop_count traffic s refl refl refl v

  pub run_kernel-Sound :
      (loop_count traffic : ℕ) (s : ZeSession)
      → Sound s
      → Sound (run_kernel driver loop_count traffic s).session
  unfolding run_kernel
  run_kernel-Sound loop_count traffic s v = launch_with-Sound s.gpu.has_api loop_count traffic s v
