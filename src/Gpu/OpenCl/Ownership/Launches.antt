-- ===== src/Gpu/OpenCl/Ownership/Launches.antt =====
-- RunKernel of OpenClDevice uses only what the device holds.
use loadmaster.Prelude.{
  ℕ, ◌%◌, ◌^◌, ◌≤◌, ◌<◌, max, ◌≡◌, ◌≢◌, refl, sym, ap, ◌∙◌, Bool, true, false, Option, none, some,
  List, [], ◌∷◌, arith, if◌then◌else◌, ◌==◌, length, get_elem?, All, Bool-cases, Option-cases, inl,
  inr,
}
use loadmaster.Gpu.Driver.{
  Resource, Entry, kernel, memory, queue, after_effects, used, owned, is_some, with_gpu, chunk_at,
  logged, answer, fails,
}
use loadmaster.Gpu.Sweep.{SweepArgs, next}
use loadmaster.Gpu.Sweep.Windows.{next-KeepsLayout, KeepsLayout}
use loadmaster.Gpu.OpenCl.Device.{
  ClCall, cl_enqueue_nd_range_kernel, cl_finish, cl_effects, OpenClDevice, ClSession,
}
use loadmaster.Gpu.OpenCl.Launch.{
  global_size, launch_calls, attempt_all, launch_on, launch_with, run_kernel,
}
use loadmaster.Gpu.OpenCl.Ownership.{owned_by, Holds, Sound}

-- A call that acquires and releases nothing, and uses only what is held.
abbrev Keeps : (Resource → ℕ) → ClCall → Type 0
Keeps n c =
    (r : Resource) (a : Option ℕ) → after_effects r (cl_effects c a) (some (n r)) ≡ some (n r)

launch_calls-Keeps :
    (k q group loops p : ℕ) (args : SweepArgs) (n : Resource → ℕ)
    → ((r : Resource) → owned r kernel (some k) ≤ n r)
    → ((r : Resource) → owned r queue (some q) ≤ n r)
    → ((r : Resource) → owned r memory (some p) ≤ n r)
    → All (Keeps n) (launch_calls k q group loops (some p) args)
launch_calls-Keeps k q group loops p args n kn qn pn =
    let value : (r : Resource) → after_effects r (used kernel (some k)) (some (n r)) ≡ some (n r) =
      λ r. ground (arith, kn r) in
    let launch : Keeps n (cl_enqueue_nd_range_kernel q k (global_size group) group) =
      λ r a. ground (arith, qn r, kn r) in
    let ends : All (Keeps n)
        (cl_enqueue_nd_range_kernel q k (global_size group) group ∷ cl_finish q ∷ []) =
      (launch, (λ r a. ground (arith, qn r), tt)) in
    (
      λ r a. value r,
      (
        λ r a. ground (arith, kn r, pn r),
        (λ r a. value r, (λ r a. value r, (λ r a. value r, (λ r a. value r, ends)))),
      ),
    )

-- What argument 2 is set to is held: the scratch buffer, or with traffic a chunk.
argument-owned :
    (g : OpenClDevice) (words segment : ℕ)
    → is_some g.out_buf ≡ true
    → (words ≢ 0 → segment < length g.mem_load_bufs)
    → (p : ℕ) × ((if words == 0 then g.out_buf else get_elem? g.mem_load_bufs segment) ≡ some p)
      × ((r : Resource) → owned r memory (some p) ≤ owned_by r g)
argument-owned g words segment e inside = elim (Bool-cases (words == 0)) [
  | inl none_moved ↦ rw none_moved (elim (Option-cases g.out_buf) [
    | inl f ↦ absurd (cc (f, e))
    | inr (p, f) ↦ (p, f, λ r. ground (arith, f))
  ])
  | inr moved ↦
      let (p, f, le) = chunk_at g.mem_load_bufs segment (inside (λ z. ground (arith, z, moved))) in
      rw moved (p, f, λ r. omega (arith, le r))
]

module _ (driver : List (Entry ClCall (Option ℕ)) → ClCall → Option ℕ) where
  attempt_all-Holds :
      (cs : List ClCall) (s : ClSession) (n : Resource → ℕ)
      → All (Keeps n) cs
      → Holds n s
      → Holds n (attempt_all driver cs s).session
  attempt_all-Holds [] s n k h = h
  attempt_all-Holds (c ∷ cs) s n k h =
      let next : Holds n (logged driver c s) = λ r. rw (h r) (k.0 r (answer driver c s)) in
      elim (is_some (answer driver c s))
        as (λ b.
          Holds n
            (if b
              then attempt_all driver cs (logged driver c s)
              else fails (logged driver c s)).session) [
                | true ↦ attempt_all-Holds cs (logged driver c s) n k.1 next
                | false ↦ next
              ]

  attempt_all-gpu :
      (cs : List ClCall) (s : ClSession) → (attempt_all driver cs s).session.gpu ≡ s.gpu
  attempt_all-gpu [] s = refl
  attempt_all-gpu (c ∷ cs) s =
      elim (is_some (answer driver c s))
        as (λ b.
          (if b
            then attempt_all driver cs (logged driver c s)
            else fails (logged driver c s)).session.gpu
          ≡ s.gpu) [ true ↦ attempt_all-gpu cs (logged driver c s) | false ↦ refl ]

  launch_on-Sound :
      (k q : Option ℕ) (loop_count traffic : ℕ) (s : ClSession)
      → s.gpu.kernel ≡ k
      → s.gpu.queue ≡ q
      → s.gpu.has_api ≡ true
      → Sound s
      → Sound (launch_on driver k q loop_count traffic s).session
  launch_on-Sound none q loop_count traffic s ke qe h v = v
  launch_on-Sound (some k) none loop_count traffic s ke qe h v = v
  launch_on-Sound (some k) (some q) loop_count traffic s ke qe h v =
      let loops = max loop_count 1 in
      let threads = global_size s.gpu.local_size % 2 ^ 32 in
      let n = next s.gpu.sweep loops traffic threads in
      let layout : KeepsLayout (length s.gpu.mem_load_bufs) s.gpu.sweep.windows n =
        next-KeepsLayout (length s.gpu.mem_load_bufs) s.gpu.sweep loops traffic threads v.swept in
      let has_out : is_some s.gpu.out_buf ≡ true = ground (arith, v.ready, ke) in
      let (p, e, held_p) = argument-owned s.gpu n.args.words n.args.segment has_out layout.named in
      let t = with_gpu (record s.gpu { sweep = n.sweep }) s in
      let calls = launch_calls k q s.gpu.local_size loops (some p) n.args in
      let done : Holds (λ r. owned_by r s.gpu) (attempt_all driver calls t).session =
        attempt_all-Holds calls t (λ r. owned_by r s.gpu)
          (launch_calls-Keeps k q s.gpu.local_size loops p n.args (λ r. owned_by r s.gpu)
            (λ r. ground (arith, ke)) (λ r. ground (arith, qe)) held_p)
          v.owns in
      let same : (attempt_all driver calls t).session.gpu ≡ t.gpu = attempt_all-gpu calls t in
      rw e (record {
        owns = λ r. done r ∙ ap (λ (g : OpenClDevice). some (owned_by r g)) (sym same);
        unloaded = rw same v.unloaded;
        swept = rw same (rw layout.kept v.swept);
        ready = rw same v.ready;
      })

  launch_with-Sound :
      (has_api : Bool) (loop_count traffic : ℕ) (s : ClSession)
      → s.gpu.has_api ≡ has_api
      → Sound s
      → Sound (launch_with driver has_api loop_count traffic s).session
  launch_with-Sound false loop_count traffic s h v = v
  launch_with-Sound true loop_count traffic s h v =
      launch_on-Sound s.gpu.kernel s.gpu.queue loop_count traffic s refl refl h v

  pub run_kernel-Sound :
      (loop_count traffic : ℕ) (s : ClSession)
      → Sound s
      → Sound (run_kernel driver loop_count traffic s).session
  unfolding run_kernel
  run_kernel-Sound loop_count traffic s v =
      launch_with-Sound s.gpu.has_api loop_count traffic s refl v
