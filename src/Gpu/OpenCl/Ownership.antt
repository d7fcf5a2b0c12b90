-- ===== src/Gpu/OpenCl/Ownership.antt =====
-- What OpenClDevice holds from the OpenCL library: the accounts, ReleaseMemory and Destroy.
pub mod Start
pub mod Blocks
pub mod Launches
pub mod Life
use loadmaster.Prelude.{
  ℕ, ◌+◌, ◌≤◌, ◌<◌, ◌≡◌, refl, ap, ◌∙◌, Bool, true, false, ◌&&◌, not, Option, none, some, List, [],
  ◌∷◌, ◌++◌, arith, length, All,
}
use loadmaster.Gpu.Driver.{
  Kind, Resource, Entry, context, kernel, program, memory, queue, held_after, after_effects,
  acquired, used, owned, owned_all, is_some, after-uses, after-acquired, logged, with_gpu, answer,
}
use loadmaster.Gpu.Sweep.{Window, clear}
use loadmaster.Gpu.OpenCl.Device.{
  ClCall, cl_release_mem_object, cl_effects, OpenClDevice, ClSession, release_bufs, release_with,
  release_memory, release_out, release_kernel, release_program, release_queue, release_context,
  destroy_rest, destroy_on, destroy,
}

-- How often the pointers beside the chunks account for an object.
abbrev pub owned_fixed : Resource → OpenClDevice → ℕ
owned_fixed r g =
    owned r memory g.out_buf
    + (owned r kernel g.kernel
        + (owned r program g.program + (owned r queue g.queue + owned r context g.context)))

abbrev pub owned_by : Resource → OpenClDevice → ℕ
owned_by r g = owned_all r memory g.mem_load_bufs + owned_fixed r g

abbrev pub held : Resource → ClSession → Option ℕ
held r s = held_after cl_effects r s.log

-- So much of each object is held, without a fault so far.
abbrev pub Holds : (Resource → ℕ) → ClSession → Type 0
Holds n s = (r : Resource) → held r s ≡ some (n r)

abbrev pub Owns : ClSession → Type 0
Owns s = Holds (λ r. owned_by r s.gpu) s

-- The device has no pointer.
abbrev pub IsEmpty : OpenClDevice → Type 0
IsEmpty g =
    (g.mem_load_bufs ≡ [])
    × (g.out_buf ≡ none)
    × (g.kernel ≡ none)
    × (g.program ≡ none)
    × (g.queue ≡ none)
    × (g.context ≡ none)

-- The windows to sweep lie in the chunks.
abbrev pub SweepsChunks : OpenClDevice → Type 0
SweepsChunks g = All (λ (w : Window). w.segment < length g.mem_load_bufs) g.sweep.windows

-- A device with a kernel has its scratch buffer.
abbrev pub IsReady : OpenClDevice → Type 0
IsReady g = (is_some g.kernel && not (is_some g.out_buf)) ≡ false

-- What holds between operations: no pointer without the library.
pub record Sound (s : ClSession) : Type 0 where
  pub owns : Owns s
  pub unloaded : s.gpu.has_api ≡ false → IsEmpty s.gpu
  pub swept : SweepsChunks s.gpu
  pub ready : IsReady s.gpu

-- The answer `a`, an object of kind `k` if any, is not stored yet.
abbrev pub Owes : Kind → Option ℕ → ClSession → Type 0
Owes k a s = Holds (λ r. owned r k a + owned_by r s.gpu) s

module _ (driver : List (Entry ClCall (Option ℕ)) → ClCall → Option ℕ) where
  release_bufs-Holds :
      (ps : List ℕ) (s : ClSession) (n : Resource → ℕ)
      → Holds (λ r. owned_all r memory ps + n r) s
      → Holds n (release_bufs driver ps s)
  release_bufs-Holds [] s n h = λ r. h r ∙ ap some (omega arith)
  release_bufs-Holds (p ∷ ps) s n h =
      release_bufs-Holds ps (logged driver (cl_release_mem_object p) s) n
        (λ r. rw (h r) (ground arith))

  release_with-Owns :
      (has_api : Bool) (s : ClSession) → Owns s → Owns (release_with driver has_api s)
  release_with-Owns false s o = o
  release_with-Owns true s o = λ r.
      release_bufs-Holds s.gpu.mem_load_bufs s (λ r. owned_fixed r s.gpu) o r
      ∙ ap some (omega arith)

  release_with-Sound :
      (has_api : Bool) (s : ClSession) → Sound s → Sound (release_with driver has_api s)
  unfolding clear
  release_with-Sound false s v = v
  release_with-Sound true s v = record {
    owns = release_with-Owns true s v.owns;
    unloaded = λ e. ground (arith, v.unloaded e);
    swept = tt;
    ready = v.ready;
  }

  pub release_memory-Sound : (s : ClSession) → Sound s → Sound (release_memory driver s)
  unfolding release_memory
  release_memory-Sound s v = release_with-Sound s.gpu.has_api s v

  release_out-Owns :
      (p : Option ℕ) (s : ClSession) → s.gpu.out_buf ≡ p → Owns s → Owns (release_out driver p s)
  release_out-Owns none s e o = o
  release_out-Owns (some p) s e o = λ r. rw (o r) (ground (arith, e))

  release_kernel-Owns :
      (p : Option ℕ) (s : ClSession) → s.gpu.kernel ≡ p → Owns s → Owns (release_kernel driver p s)
  release_kernel-Owns none s e o = o
  release_kernel-Owns (some p) s e o = λ r. rw (o r) (ground (arith, e))

  release_program-Owns :
      (p : Option ℕ) (s : ClSession)
      → s.gpu.program ≡ p
      → Owns s
      → Owns (release_program driver p s)
  release_program-Owns none s e o = o
  release_program-Owns (some p) s e o = λ r. rw (o r) (ground (arith, e))

  release_queue-Owns :
      (p : Option ℕ) (s : ClSession) → s.gpu.queue ≡ p → Owns s → Owns (release_queue driver p s)
  release_queue-Owns none s e o = o
  release_queue-Owns (some p) s e o = λ r. rw (o r) (ground (arith, e))

  release_context-Owns :
      (p : Option ℕ) (s : ClSession)
      → s.gpu.context ≡ p
      → Owns s
      → Owns (release_context driver p s)
  release_context-Owns none s e o = o
  release_context-Owns (some p) s e o = λ r. rw (o r) (ground (arith, e))

  destroy_rest-Owns : (s : ClSession) → Owns s → Owns (destroy_rest driver s)
  destroy_rest-Owns s o = release_context-Owns _ _ refl (
      release_queue-Owns _ _ refl (
        release_program-Owns _ _ refl (release_kernel-Owns _ _ refl (release_out-Owns _ s refl o))))

  destroy_rest-IsEmpty :
      (s : ClSession) → s.gpu.mem_load_bufs ≡ [] → IsEmpty (destroy_rest driver s).gpu
  destroy_rest-IsEmpty s e = ground (arith, e)

  destroy_rest-sweep : (s : ClSession) → (destroy_rest driver s).gpu.sweep ≡ s.gpu.sweep
  destroy_rest-sweep s = ground arith

  -- Destroy, with the library there.
  loaded-Sound : (s : ClSession) → Owns s → Sound (destroy_rest driver (release_with driver true s))
  unfolding clear
  loaded-Sound s o =
      let t = release_with driver true s in
      let empty : IsEmpty (destroy_rest driver t).gpu = destroy_rest-IsEmpty t refl in
      record {
        owns = destroy_rest-Owns t (release_with-Owns true s o);
        unloaded = λ e. empty;
        swept = rw (destroy_rest-sweep t) tt;
        ready = ground (arith, empty);
      }

  rest-Sound :
      (b : Bool) (s : ClSession)
      → b ≡ true
      → Owns s
      → Sound (destroy_rest driver (release_with driver b s))
  rest-Sound true s e o = loaded-Sound s o
  rest-Sound false s e o = cc

  rest-IsEmpty :
      (b : Bool) (s : ClSession)
      → b ≡ true
      → IsEmpty (destroy_rest driver (release_with driver b s)).gpu
  rest-IsEmpty true s e = destroy_rest-IsEmpty (release_with driver true s) refl
  rest-IsEmpty false s e = cc

  destroy_on-owned :
      (has_api : Bool) (s : ClSession)
      → has_api ≡ true
      → s.gpu.has_api ≡ true
      → Owns s
      → Sound (destroy_on driver has_api s)
  unfolding release_memory
  destroy_on-owned true s e h o = rest-Sound s.gpu.has_api s h o
  destroy_on-owned false s e h o = cc

  -- During Init, whatever the pointers.
  pub destroyed-Sound : (s : ClSession) → Owns s → s.gpu.has_api ≡ true → Sound (destroy driver s)
  unfolding destroy
  destroyed-Sound s o e = destroy_on-owned s.gpu.has_api s e e o

  destroy_on-Sound :
      (has_api : Bool) (s : ClSession)
      → s.gpu.has_api ≡ has_api
      → Sound s
      → Sound (destroy_on driver has_api s)
  destroy_on-Sound false s e v = v
  destroy_on-Sound true s e v = destroy_on-owned true s refl e v.owns

  pub destroy-Sound : (s : ClSession) → Sound s → Sound (destroy driver s)
  unfolding destroy
  destroy-Sound s v = destroy_on-Sound s.gpu.has_api s refl v

  destroy_on-IsEmpty :
      (has_api : Bool) (s : ClSession)
      → s.gpu.has_api ≡ has_api
      → Sound s
      → IsEmpty (destroy_on driver has_api s).gpu
  unfolding release_memory
  destroy_on-IsEmpty false s e v = v.unloaded e
  destroy_on-IsEmpty true s e v = rest-IsEmpty s.gpu.has_api s e

  pub destroy-IsEmpty : (s : ClSession) → Sound s → IsEmpty (destroy driver s).gpu
  unfolding destroy
  destroy-IsEmpty s v = destroy_on-IsEmpty s.gpu.has_api s refl v

  pub settled-Owns : (k : Kind) (s : ClSession) → Owes k none s → Owns s
  settled-Owns k s o = λ r. o r ∙ ap some (omega arith)

  -- A call that uses `x`, which is held, and hands out an object.
  pub acquire-Owes :
      (k u : Kind) (x : ℕ) (m : ClCall) (s : ClSession)
      → ((a : Option ℕ) → cl_effects m a ≡ used u (some x) ++ acquired k a)
      → ((r : Resource) → owned r u (some x) ≤ owned_by r s.gpu)
      → Owns s
      → Owes k (answer driver m s) (logged driver m s)
  acquire-Owes k u x m s e le o = λ r.
      rw (e (answer driver m s), o r)
        (ap (after_effects r (acquired k (answer driver m s)))
            (after-uses r (record { kind = u; handle = x }) (owned_by r s.gpu) (le r))
          ∙ after-acquired r k (answer driver m s) (owned_by r s.gpu))
