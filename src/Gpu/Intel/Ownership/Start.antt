-- ===== src/Gpu/Intel/Ownership/Start.antt =====
-- IntelDevice::Init holds nothing more than its pointers say, wherever it ends.
use loadmaster.Prelude.{
  ℕ, ◌+◌, ◌≡◌, refl, ap, ◌∙◌, Bool, true, false, Option, none, some, List, ◌++◌, arith,
}
use loadmaster.Prelude.Int.{ℤ}
use loadmaster.Gpu.Driver.{
  Resource, Entry, context, code, queue, command_list, build_log, after_effects, acquired, owned,
  is_some, after-uses, after-acquired, logged, with_gpu, answer,
}
use loadmaster.Gpu.Intel.{
  ZeCall, ze_device_get_properties, ze_context_create, ze_command_queue_create,
  ze_command_list_create, ze_module_create, ZeAnswer, IntelDevice, ZeSession,
}
use loadmaster.Gpu.Intel.Start.{
  ZeDriver, DriverDevicePair, collect_gpu_devices, pair_at, init_list, init_queue, init_context,
  read_max_alloc, init_pair, init,
}
use loadmaster.Gpu.Intel.Ownership.{owned_by, Holds, Owns, IsEmpty, Tidy}
use loadmaster.Gpu.Intel.Ownership.Stages.{
  Sound, Owes, IsIn, destroyed-Sound, settled-Owns, acquire-Owes, init_module-Sound,
}

-- A module with its build log.
after-acquired_both :
    (r : Resource) (m l : Option ℕ) (n : ℕ)
    → after_effects r (acquired code m ++ acquired build_log l) (some n)
      ≡ some (owned r code m + (owned r build_log l + n))
after-acquired_both r none none n = ap some (omega arith)
after-acquired_both r none (some l) n = ap some (omega arith)
after-acquired_both r (some m) none n = ap some (omega arith)
after-acquired_both r (some m) (some l) n = ap some (omega arith)

module _ (driver : List (Entry ZeCall ZeAnswer) → ZeCall → ZeAnswer) where
  init_list-Sound :
      (c : ℕ) (l : Option ℕ) (s : ZeSession)
      → Owes command_list l s
      → IsIn c s.gpu
      → s.gpu.out_ptr ≡ none
      → s.gpu.kernel ≡ none
      → s.gpu.code_module ≡ none
      → s.gpu.cmd_list ≡ none
      → is_some s.gpu.queue ≡ true
      → Sound (init_list driver c l s).session
  init_list-Sound c none s o i e f g h w =
      destroyed-Sound driver s (settled-Owns driver command_list s o) i.tidy
  init_list-Sound c (some l) s o i e f g h w =
      let t = with_gpu (record s.gpu { cmd_list = some l }) s in
      let stored : Owns t = λ r. rw (o r) (ground (arith, h)) in
      let m = ze_module_create c in
      let a = answer driver m t in
      let owing : Holds
          (λ r. owned r code a.handle + (owned r build_log a.build_log + owned_by r t.gpu))
          (logged driver m t) =
        λ r. rw (stored r) (
          ap (after_effects r (acquired code a.handle ++ acquired build_log a.build_log)) (
            after-uses r (record { kind = context; handle = c }) (owned_by r t.gpu)
              (ground (arith, i.made)))
          ∙ after-acquired_both r a.handle a.build_log (owned_by r t.gpu)) in
      init_module-Sound driver c a.handle a.build_log (logged driver m t) owing
        (record {
          made = i.made;
          loaded = i.loaded;
          tidy = record {
            unloaded = λ x. cc i.loaded;
            closed = λ x. cc i.made;
            swept = i.tidy.swept;
          };
        })
        e f g w

  init_queue-Sound :
      (c : ℕ) (q : Option ℕ) (s : ZeSession)
      → Owes queue q s
      → IsIn c s.gpu
      → s.gpu.out_ptr ≡ none
      → s.gpu.kernel ≡ none
      → s.gpu.code_module ≡ none
      → s.gpu.cmd_list ≡ none
      → s.gpu.queue ≡ none
      → Sound (init_queue driver c q s).session
  init_queue-Sound c none s o i e f g h w =
      destroyed-Sound driver s (settled-Owns driver queue s o) i.tidy
  init_queue-Sound c (some q) s o i e f g h w =
      let t = with_gpu (record s.gpu { queue = some q }) s in
      let stored : Owns t = λ r. rw (o r) (ground (arith, w)) in
      let m = ze_command_list_create c in
      init_list-Sound c (answer driver m t).handle (logged driver m t)
        (acquire-Owes driver command_list context c m t (λ a. refl) (λ r. ground (arith, i.made))
          stored)
        (record {
          made = i.made;
          loaded = i.loaded;
          tidy = record {
            unloaded = λ x. cc i.loaded;
            closed = λ x. cc i.made;
            swept = i.tidy.swept;
          };
        })
        e f g h refl

  init_context-Sound :
      (c : Option ℕ) (s : ZeSession)
      → Owes context c s
      → IsEmpty s.gpu
      → s.gpu.has_api ≡ true
      → Tidy s.gpu
      → Sound (init_context driver c s).session
  init_context-Sound none s o e h t = record {
    owns = settled-Owns driver context s o;
    tidy = t;
    ready = ground (arith, e);
  }
  init_context-Sound (some c) s o (chunks, out, ker, mod_none, lst, que, ctx) h t =
      let u = with_gpu (record s.gpu { context = some c }) s in
      let stored : Owns u = λ r. rw (o r) (ground (arith, ctx)) in
      let m = ze_command_queue_create c in
      init_queue-Sound c (answer driver m u).handle (logged driver m u)
        (acquire-Owes driver queue context c m u (λ a. refl) (λ r. ground arith) stored)
        (record {
          made = refl;
          loaded = h;
          tidy = record { unloaded = λ x. cc h; closed = λ x. cc; swept = t.swept };
        })
        out ker mod_none lst que

  -- Reading the properties moves no pointer.
  read_max_alloc-IsEmpty :
      (n : Option ℕ) (g : IntelDevice) → IsEmpty g → IsEmpty (read_max_alloc driver n g)
  read_max_alloc-IsEmpty none g e = e
  read_max_alloc-IsEmpty (some n) g e = e

  read_max_alloc-owned_by :
      (r : Resource) (n : Option ℕ) (g : IntelDevice)
      → owned_by r g ≡ owned_by r (read_max_alloc driver n g)
  read_max_alloc-owned_by r none g = refl
  read_max_alloc-owned_by r (some n) g = refl

  read_max_alloc-has_api :
      (n : Option ℕ) (g : IntelDevice) → (read_max_alloc driver n g).has_api ≡ g.has_api
  read_max_alloc-has_api none g = refl
  read_max_alloc-has_api (some n) g = refl

  read_max_alloc-Tidy : (n : Option ℕ) (g : IntelDevice) → Tidy g → Tidy (read_max_alloc driver n g)
  read_max_alloc-Tidy none g t = t
  read_max_alloc-Tidy (some n) g t = record {
    unloaded = t.unloaded;
    closed = t.closed;
    swept = t.swept;
  }

  init_pair-Sound :
      (p : Option DriverDevicePair) (s : ZeSession)
      → Owns s
      → IsEmpty s.gpu
      → s.gpu.has_api ≡ true
      → Tidy s.gpu
      → Sound (init_pair driver p s).session
  init_pair-Sound none s o e h t = record { owns = o; tidy = t; ready = ground (arith, e) }
  init_pair-Sound (some p) s o e h t =
      let g = record s.gpu { device = p.device } in
      let m = ze_device_get_properties p.device in
      let n = (answer driver m (with_gpu g s)).handle in
      let u = with_gpu (read_max_alloc driver n g) (logged driver m (with_gpu g s)) in
      let c = ze_context_create p.driver in
      let owns : Owns u = λ r. o r ∙ ap some (read_max_alloc-owned_by r n g) in
      init_context-Sound (answer driver c u).handle (logged driver c u)
        (λ r. rw (owns r) (after-acquired r context (answer driver c u).handle (owned_by r u.gpu)))
        (read_max_alloc-IsEmpty n g e) (read_max_alloc-has_api n g ∙ h)
        (read_max_alloc-Tidy n g
          (record { unloaded = t.unloaded; closed = t.closed; swept = t.swept }))

  -- `Init`, however far the driver lets it come.
  pub init-Sound :
      (available loaded : Bool) (reported : Option (List ZeDriver)) (device_index : ℤ)
      (s : ZeSession)
      → Sound s
      → IsEmpty s.gpu
      → Sound (init driver available loaded reported device_index s).session
  unfolding init
  init-Sound false loaded reported i s v e = v
  init-Sound true false reported i s v e = v
  init-Sound true true reported i s v e =
      init_pair-Sound (pair_at (collect_gpu_devices reported) i)
        (with_gpu (record s.gpu { has_api = true }) s) v.owns e refl
        (record { unloaded = λ x. cc; closed = λ x. e; swept = v.tidy.swept })
