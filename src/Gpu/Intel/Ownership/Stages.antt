-- ===== src/Gpu/Intel/Ownership/Stages.antt =====
-- What holds of IntelDevice between operations, and the stages of Init from the module on.
use loadmaster.Prelude.{
  ℕ, ◌+◌, ◌*◌, ◌≤◌, ◌≡◌, refl, ap, ◌∙◌, Bool, true, false, ◌&&◌, not, Option, none, some, List,
  ◌++◌, arith,
}
use loadmaster.Gpu.Driver.{
  Kind, Resource, Entry, context, code, kernel, memory, build_log, after_effects, acquired, used,
  owned, is_some, after-uses, after-acquired, logged, with_gpu, answer,
}
use loadmaster.Gpu.Intel.{
  ZeCall, ze_module_build_log_get_string, ze_module_build_log_destroy, ze_kernel_create,
  ze_kernel_set_group_size, ze_kernel_set_argument_pointer, ze_mem_alloc_device, ZeAnswer,
  ze_effects, IntelDevice, ZeSession, attempt, destroy,
}
use loadmaster.Gpu.Intel.Start.{
  finish, init_scratch, init_group, init_kernel, read_text, read_build_log, drop_build_log,
  init_module,
}
use loadmaster.Gpu.Intel.Ownership.{
  owned_by, Holds, Owns, Tidy, destroy-Owns, destroy-Tidy, destroy-IsEmpty,
}

-- A device with a context has all that a launch needs.
abbrev pub IsReady : IntelDevice → Type 0
IsReady g =
    (is_some g.context
      && not (is_some g.out_ptr && (is_some g.kernel && (is_some g.cmd_list && is_some g.queue))))
    ≡ false

-- What holds between operations.
pub record Sound (s : ZeSession) : Type 0 where
  pub owns : Owns s
  pub tidy : Tidy s.gpu
  pub ready : IsReady s.gpu

-- The answer `a`, a resource of kind `k` if any, is not stored yet.
abbrev pub Owes : Kind → Option ℕ → ZeSession → Type 0
Owes k a s = Holds (λ r. owned r k a + owned_by r s.gpu) s

-- Init at work in the context `c`.
pub record IsIn (c : ℕ) (g : IntelDevice) : Type 0 where
  pub made : g.context ≡ some c
  pub loaded : g.has_api ≡ true
  pub tidy : Tidy g

module _ (driver : List (Entry ZeCall ZeAnswer) → ZeCall → ZeAnswer) where
  pub destroyed-Sound : (s : ZeSession) → Owns s → Tidy s.gpu → Sound (destroy driver s)
  destroyed-Sound s o t = record {
    owns = destroy-Owns driver s o;
    tidy = destroy-Tidy driver s t;
    ready = ground (arith, destroy-IsEmpty driver s t);
  }

  pub settled-Owns : (k : Kind) (s : ZeSession) → Owes k none s → Owns s
  settled-Owns k s o = λ r. o r ∙ ap some (omega arith)

  -- A call that uses `x`, which is held, and hands out a resource.
  pub acquire-Owes :
      (k u : Kind) (x : ℕ) (m : ZeCall) (s : ZeSession)
      → ((a : ZeAnswer) → ze_effects m a ≡ used u (some x) ++ acquired k a.handle)
      → ((r : Resource) → owned r u (some x) ≤ owned_by r s.gpu)
      → Owns s
      → Owes k (answer driver m s).handle (logged driver m s)
  acquire-Owes k u x m s e le o = λ r.
      rw (e (answer driver m s), o r)
        (ap (after_effects r (acquired k (answer driver m s).handle))
            (after-uses r (record { kind = u; handle = x }) (owned_by r s.gpu) (le r))
          ∙ after-acquired r k (answer driver m s).handle (owned_by r s.gpu))

  finish-Sound : (ok : Bool) (s : ZeSession) → Sound s → Sound (finish driver ok s).session
  finish-Sound true s v = v
  finish-Sound false s v = destroyed-Sound s v.owns v.tidy

  init_scratch-Sound :
      (c k : ℕ) (p : Option ℕ) (s : ZeSession)
      → Owes memory p s
      → IsIn c s.gpu
      → s.gpu.out_ptr ≡ none
      → s.gpu.kernel ≡ some k
      → (is_some s.gpu.cmd_list && is_some s.gpu.queue) ≡ true
      → Sound (init_scratch driver k p s).session
  init_scratch-Sound c k none s o i e f w = destroyed-Sound s (settled-Owns memory s o) i.tidy
  init_scratch-Sound c k (some p) s o i e f w =
      let t = with_gpu (record s.gpu { out_ptr = some p }) s in
      let stored : Owns t = λ r. rw (o r) (ground (arith, e)) in
      let m = ze_kernel_set_argument_pointer k 0 (some p) in
      finish-Sound (attempt driver m t).ok (logged driver m t) (record {
        owns = λ r. rw (stored r) (ground (arith, f));
        tidy = record {
          unloaded = λ x. cc i.loaded;
          closed = λ x. cc i.made;
          swept = i.tidy.swept;
        };
        ready = ground (arith, f, w);
      })

  init_group-Sound :
      (c k : ℕ) (ok : Bool) (s : ZeSession)
      → Owns s
      → IsIn c s.gpu
      → s.gpu.out_ptr ≡ none
      → s.gpu.kernel ≡ some k
      → (is_some s.gpu.cmd_list && is_some s.gpu.queue) ≡ true
      → Sound (init_group driver c k ok s).session
  init_group-Sound c k false s o i e f w = destroyed-Sound s o i.tidy
  init_group-Sound c k true s o i e f w =
      let out_bytes = 1024 * 256 * 4 in
      let t = with_gpu (record s.gpu { out_bytes = out_bytes }) s in
      let m = ze_mem_alloc_device c out_bytes in
      init_scratch-Sound c k (answer driver m t).handle (logged driver m t)
        (acquire-Owes memory context c m t (λ a. refl) (λ r. ground (arith, i.made)) o)
        (record {
          made = i.made;
          loaded = i.loaded;
          tidy = record {
            unloaded = i.tidy.unloaded;
            closed = i.tidy.closed;
            swept = i.tidy.swept;
          };
        })
        e f w

  init_kernel-Sound :
      (c : ℕ) (k : Option ℕ) (s : ZeSession)
      → Owes kernel k s
      → IsIn c s.gpu
      → s.gpu.out_ptr ≡ none
      → s.gpu.kernel ≡ none
      → (is_some s.gpu.cmd_list && is_some s.gpu.queue) ≡ true
      → Sound (init_kernel driver c k s).session
  init_kernel-Sound c none s o i e f w = destroyed-Sound s (settled-Owns kernel s o) i.tidy
  init_kernel-Sound c (some k) s o i e f w =
      let t = with_gpu (record s.gpu { kernel = some k }) s in
      let stored : Owns t = λ r. rw (o r) (ground (arith, f)) in
      let m = ze_kernel_set_group_size k in
      init_group-Sound c k (attempt driver m t).ok (logged driver m t)
        (λ r. rw (stored r) (ground arith))
        (record {
          made = i.made;
          loaded = i.loaded;
          tidy = record {
            unloaded = λ x. cc i.loaded;
            closed = λ x. cc i.made;
            swept = i.tidy.swept;
          };
        })
        e refl w

  read_text-Owes :
      (b : ℕ) (more : Bool) (s : ZeSession)
      → Owes build_log (some b) s
      → Owes build_log (some b) (read_text driver b more s)
  read_text-Owes b false s o = o
  read_text-Owes b true s o = λ r. rw (o r) (ground arith)

  read_text-gpu : (b : ℕ) (more : Bool) (s : ZeSession) → (read_text driver b more s).gpu ≡ s.gpu
  read_text-gpu b false s = refl
  read_text-gpu b true s = refl

  drop-Owns :
      (b : ℕ) (s : ZeSession)
      → Owes build_log (some b) s
      → Owns (logged driver (ze_module_build_log_destroy b) s)
  drop-Owns b s o = λ r. rw (o r) (ground arith)

  read_build_log-Owns :
      (log : Option ℕ) (s : ZeSession) → Owes build_log log s → Owns (read_build_log driver log s)
  read_build_log-Owns none s o = settled-Owns build_log s o
  read_build_log-Owns (some b) s o =
      let m = ze_module_build_log_get_string b in
      let once : Owes build_log (some b) (logged driver m s) = λ r. rw (o r) (ground arith) in
      let more = is_some (answer driver m s).handle in
      drop-Owns b (read_text driver b more (logged driver m s))
        (read_text-Owes b more (logged driver m s) once)

  drop_build_log-Owns :
      (log : Option ℕ) (s : ZeSession) → Owes build_log log s → Owns (drop_build_log driver log s)
  drop_build_log-Owns none s o = settled-Owns build_log s o
  drop_build_log-Owns (some b) s o = drop-Owns b s o

  read_build_log-gpu : (log : Option ℕ) (s : ZeSession) → (read_build_log driver log s).gpu ≡ s.gpu
  read_build_log-gpu none s = refl
  read_build_log-gpu (some b) s =
      let m = ze_module_build_log_get_string b in
      read_text-gpu b (is_some (answer driver m s).handle) (logged driver m s)

  drop_build_log-gpu : (log : Option ℕ) (s : ZeSession) → (drop_build_log driver log s).gpu ≡ s.gpu
  drop_build_log-gpu none s = refl
  drop_build_log-gpu (some b) s = refl

  pub init_module-Sound :
      (c : ℕ) (m log : Option ℕ) (s : ZeSession)
      → Holds (λ r. owned r code m + (owned r build_log log + owned_by r s.gpu)) s
      → IsIn c s.gpu
      → s.gpu.out_ptr ≡ none
      → s.gpu.kernel ≡ none
      → s.gpu.code_module ≡ none
      → (is_some s.gpu.cmd_list && is_some s.gpu.queue) ≡ true
      → Sound (init_module driver c m log s).session
  init_module-Sound c none log s o i e f g w =
      let read = read_build_log driver log s in
      let kept : Tidy read.gpu = rw (read_build_log-gpu log s) i.tidy in
      destroyed-Sound read (read_build_log-Owns log s (λ r. o r ∙ ap some (omega arith))) kept
  init_module-Sound c (some m) log s o i e f g w =
      let u = with_gpu (record s.gpu { code_module = some m }) s in
      let owing : Owes build_log log u = λ r. rw (o r) (ground (arith, g)) in
      let t = drop_build_log driver log u in
      let same : t.gpu ≡ u.gpu = drop_build_log-gpu log u in
      let inside : IsIn c u.gpu = record {
        made = i.made;
        loaded = i.loaded;
        tidy = record {
          unloaded = λ x. cc i.loaded;
          closed = λ x. cc i.made;
          swept = i.tidy.swept;
        };
      } in
      let k = ze_kernel_create m in
      let made : t.gpu.code_module ≡ some m = ap (λ (x : IntelDevice). x.code_module) same in
      init_kernel-Sound c (answer driver k t).handle (logged driver k t)
        (acquire-Owes kernel code m k t (λ a. refl) (λ r. ground (arith, made))
          (drop_build_log-Owns log u owing))
        (rw same inside) (ap (λ (x : IntelDevice). x.out_ptr) same ∙ e)
        (ap (λ (x : IntelDevice). x.kernel) same ∙ f)
        (ap (λ (x : IntelDevice). is_some x.cmd_list && is_some x.queue) same ∙ w)
