-- ===== src/Gpu/Intel/Ownership.antt =====
-- What IntelDevice holds from the driver: the accounts, ReleaseMemory and Destroy.
pub mod Stages
pub mod Start
pub mod Chunks
pub mod Blocks
pub mod Launches
pub mod Life
use loadmaster.Prelude.{
  ℕ, ◌+◌, ◌≤◌, ◌<◌, ◌≡◌, refl, ap, ◌∙◌, Bool, true, false, ◌&&◌, not, Option, none, some, List, [],
  ◌∷◌, ◌++◌, arith, length, All, if◌then◌else◌,
}
use loadmaster.Gpu.Driver.{
  owned_all, Kind, Resource, Entry, context, code, kernel, memory, queue, command_list, build_log,
  tally, held_after, after_effects, acquired, owned, is_some, after-acquired, logged, fails,
  with_gpu, answer,
}
use loadmaster.Gpu.Sweep.{Window, clear}
use loadmaster.Gpu.Intel.{
  ZeCall, ze_mem_free, ZeAnswer, ze_effects, IntelDevice, ZeSession, attempt_all, free_chunks,
  release_on, release_with, release_memory, free_out, destroy_kernel, destroy_module, destroy_list,
  destroy_queue, destroy_context, destroy_rest, destroy_on, destroy, no_chunks,
}

-- How often the pointers beside the chunks account for a resource.
abbrev pub owned_fixed : Resource → IntelDevice → ℕ
owned_fixed r g =
    owned r memory g.out_ptr
    + (owned r kernel g.kernel
        + (owned r code g.code_module
            + (owned r command_list g.cmd_list
                + (owned r queue g.queue + owned r context g.context))))

abbrev pub owned_by : Resource → IntelDevice → ℕ
owned_by r g = owned_all r memory g.mem_load_ptrs + owned_fixed r g

abbrev pub held : Resource → ZeSession → Option ℕ
held r s = held_after ze_effects r s.log

-- So much of each resource is held, without a fault so far.
abbrev pub Holds : (Resource → ℕ) → ZeSession → Type 0
Holds n s = (r : Resource) → held r s ≡ some (n r)

abbrev pub Owns : ZeSession → Type 0
Owns s = Holds (λ r. owned_by r s.gpu) s

-- The device has no pointer.
abbrev pub IsEmpty : IntelDevice → Type 0
IsEmpty g =
    (g.mem_load_ptrs ≡ [])
    × (g.out_ptr ≡ none)
    × (g.kernel ≡ none)
    × (g.code_module ≡ none)
    × (g.cmd_list ≡ none)
    × (g.queue ≡ none)
    × (g.context ≡ none)

-- The windows to sweep lie in the chunks.
abbrev pub SweepsChunks : IntelDevice → Type 0
SweepsChunks g = All (λ (w : Window). w.segment < length g.mem_load_ptrs) g.sweep.windows

-- No pointer without a context, and no context without the loader's library.
pub record Tidy (g : IntelDevice) : Type 0 where
  pub unloaded : g.has_api ≡ false → g.context ≡ none
  pub closed : g.context ≡ none → IsEmpty g
  pub swept : SweepsChunks g

module _ (driver : List (Entry ZeCall ZeAnswer) → ZeCall → ZeAnswer) where
  pub free_chunks-Holds :
      (c : ℕ) (ps : List ℕ) (s : ZeSession) (n : Resource → ℕ)
      → ((r : Resource) → owned r context (some c) ≤ n r)
      → Holds (λ r. owned_all r memory ps + n r) s
      → Holds n (free_chunks driver c ps s)
  free_chunks-Holds c [] s n le h = λ r. h r ∙ ap some (omega arith)
  free_chunks-Holds c (p ∷ ps) s n le h =
      free_chunks-Holds c ps (logged driver (ze_mem_free c p) s) n le
        (λ r. rw (h r) (ground (arith, le r)))

  pub free_chunks-gpu :
      (c : ℕ) (ps : List ℕ) (s : ZeSession) → (free_chunks driver c ps s).gpu ≡ s.gpu
  free_chunks-gpu c [] s = refl
  free_chunks-gpu c (p ∷ ps) s = free_chunks-gpu c ps (logged driver (ze_mem_free c p) s)

  -- A call that acquires and releases nothing, and uses only what is held.
  abbrev pub Keeps : (Resource → ℕ) → ZeCall → Type 0
  Keeps n c =
      (r : Resource) (a : ZeAnswer) → after_effects r (ze_effects c a) (some (n r)) ≡ some (n r)

  pub attempt_all-Holds :
      (cs : List ZeCall) (s : ZeSession) (n : Resource → ℕ)
      → All (Keeps n) cs
      → Holds n s
      → Holds n (attempt_all driver cs s).session
  attempt_all-Holds [] s n k h = h
  attempt_all-Holds (c ∷ cs) s n k h =
      let next : Holds n (logged driver c s) = λ r. rw (h r) (k.0 r (answer driver c s)) in
      elim (is_some (answer driver c s).handle)
        as (λ b.
          Holds n
            (if b
              then attempt_all driver cs (logged driver c s)
              else fails (logged driver c s)).session) [
                | true ↦ attempt_all-Holds cs (logged driver c s) n k.1 next
                | false ↦ next
              ]

  release_on-Owns :
      (c : Option ℕ) (s : ZeSession) → s.gpu.context ≡ c → Owns s → Owns (release_on driver c s)
  release_on-Owns none s e o = o
  release_on-Owns (some c) s e o = λ r.
      free_chunks-Holds c s.gpu.mem_load_ptrs s (λ r. owned_fixed r s.gpu) (λ r. ground (arith, e))
        o r
      ∙ ap some (omega arith)

  release_on-Tidy : (c : Option ℕ) (s : ZeSession) → Tidy s.gpu → Tidy (release_on driver c s).gpu
  unfolding clear
  release_on-Tidy none s t = t
  release_on-Tidy (some c) s t = record {
    unloaded = t.unloaded;
    closed = λ e. ground (arith, t.closed e);
    swept = tt;
  }

  free_out-Owns :
      (p c : Option ℕ) (s : ZeSession)
      → s.gpu.out_ptr ≡ p
      → s.gpu.context ≡ c
      → Owns s
      → Owns (free_out driver p c s)
  free_out-Owns none c s e f o = o
  free_out-Owns (some p) none s e f o = o
  free_out-Owns (some p) (some c) s e f o = λ r. rw (o r) (ground (arith, e, f))

  destroy_kernel-Owns :
      (p : Option ℕ) (s : ZeSession) → s.gpu.kernel ≡ p → Owns s → Owns (destroy_kernel driver p s)
  destroy_kernel-Owns none s e o = o
  destroy_kernel-Owns (some p) s e o = λ r. rw (o r) (ground (arith, e))

  destroy_module-Owns :
      (p : Option ℕ) (s : ZeSession)
      → s.gpu.code_module ≡ p
      → Owns s
      → Owns (destroy_module driver p s)
  destroy_module-Owns none s e o = o
  destroy_module-Owns (some p) s e o = λ r. rw (o r) (ground (arith, e))

  destroy_list-Owns :
      (p : Option ℕ) (s : ZeSession) → s.gpu.cmd_list ≡ p → Owns s → Owns (destroy_list driver p s)
  destroy_list-Owns none s e o = o
  destroy_list-Owns (some p) s e o = λ r. rw (o r) (ground (arith, e))

  destroy_queue-Owns :
      (p : Option ℕ) (s : ZeSession) → s.gpu.queue ≡ p → Owns s → Owns (destroy_queue driver p s)
  destroy_queue-Owns none s e o = o
  destroy_queue-Owns (some p) s e o = λ r. rw (o r) (ground (arith, e))

  destroy_context-Owns :
      (p : Option ℕ) (s : ZeSession)
      → s.gpu.context ≡ p
      → Owns s
      → Owns (destroy_context driver p s)
  destroy_context-Owns none s e o = o
  destroy_context-Owns (some p) s e o = λ r. rw (o r) (ground (arith, e))

  destroy_rest-Owns : (s : ZeSession) → Owns s → Owns (destroy_rest driver s)
  destroy_rest-Owns s o = destroy_context-Owns _ _ refl (
      destroy_queue-Owns _ _ refl (
        destroy_list-Owns _ _ refl (
          destroy_module-Owns _ _ refl
            (destroy_kernel-Owns _ _ refl (free_out-Owns _ _ s refl refl o)))))

  destroy_rest-IsEmpty :
      (s : ZeSession)
      → s.gpu.mem_load_ptrs ≡ []
      → (s.gpu.context ≡ none → IsEmpty s.gpu)
      → IsEmpty (destroy_rest driver s).gpu
  destroy_rest-IsEmpty s e closed = ground (arith, e)

  destroy_rest-SweepsChunks :
      (s : ZeSession) → SweepsChunks s.gpu → SweepsChunks (destroy_rest driver s).gpu
  destroy_rest-SweepsChunks s w =
      let same_sweep : (destroy_rest driver s).gpu.sweep ≡ s.gpu.sweep = ground arith in
      let same_chunks : (destroy_rest driver s).gpu.mem_load_ptrs ≡ s.gpu.mem_load_ptrs =
        ground arith in
      rw (same_sweep, same_chunks) w

  destroy_rest-Tidy :
      (s : ZeSession) → s.gpu.mem_load_ptrs ≡ [] → Tidy s.gpu → Tidy (destroy_rest driver s).gpu
  destroy_rest-Tidy s e t =
      let empty : IsEmpty (destroy_rest driver s).gpu = destroy_rest-IsEmpty s e t.closed in
      record {
        unloaded = λ f. ground (arith, empty);
        closed = λ f. empty;
        swept = destroy_rest-SweepsChunks s t.swept;
      }

  release_with-Owns :
      (has_api : Bool) (s : ZeSession) → Owns s → Owns (release_with driver has_api s)
  release_with-Owns false s o = o
  release_with-Owns true s o = release_on-Owns s.gpu.context s refl o

  release_with-Tidy :
      (has_api : Bool) (s : ZeSession) → Tidy s.gpu → Tidy (release_with driver has_api s).gpu
  release_with-Tidy false s t = t
  release_with-Tidy true s t = release_on-Tidy s.gpu.context s t

  release_on-empties :
      (c : Option ℕ) (s : ZeSession)
      → s.gpu.context ≡ c
      → Tidy s.gpu
      → (release_on driver c s).gpu.mem_load_ptrs ≡ []
  release_on-empties none s e t = (t.closed e).0
  release_on-empties (some c) s e t = refl

  release_with-empties :
      (has_api : Bool) (s : ZeSession)
      → s.gpu.has_api ≡ has_api
      → Tidy s.gpu
      → (release_with driver has_api s).gpu.mem_load_ptrs ≡ []
  release_with-empties false s e t = (t.closed (t.unloaded e)).0
  release_with-empties true s e t = release_on-empties s.gpu.context s refl t

  pub release_memory-Owns : (s : ZeSession) → Owns s → Owns (release_memory driver s)
  unfolding release_memory
  release_memory-Owns s o = release_with-Owns s.gpu.has_api s o

  pub release_memory-Tidy : (s : ZeSession) → Tidy s.gpu → Tidy (release_memory driver s).gpu
  unfolding release_memory
  release_memory-Tidy s t = release_with-Tidy s.gpu.has_api s t

  pub release_memory-empties :
      (s : ZeSession) → Tidy s.gpu → (release_memory driver s).gpu.mem_load_ptrs ≡ []
  unfolding release_memory
  release_memory-empties s t = release_with-empties s.gpu.has_api s refl t

  destroy_on-Owns : (has_api : Bool) (s : ZeSession) → Owns s → Owns (destroy_on driver has_api s)
  destroy_on-Owns false s o = o
  destroy_on-Owns true s o = destroy_rest-Owns (release_memory driver s) (release_memory-Owns s o)

  pub destroy-Owns : (s : ZeSession) → Owns s → Owns (destroy driver s)
  unfolding destroy
  destroy-Owns s o = destroy_on-Owns s.gpu.has_api s o

  destroy_on-IsEmpty :
      (has_api : Bool) (s : ZeSession)
      → s.gpu.has_api ≡ has_api
      → Tidy s.gpu
      → IsEmpty (destroy_on driver has_api s).gpu
  destroy_on-IsEmpty false s e t = t.closed (t.unloaded e)
  destroy_on-IsEmpty true s e t =
      destroy_rest-IsEmpty (release_memory driver s) (release_memory-empties s t)
        (release_memory-Tidy s t).closed

  pub destroy-IsEmpty : (s : ZeSession) → Tidy s.gpu → IsEmpty (destroy driver s).gpu
  unfolding destroy
  destroy-IsEmpty s t = destroy_on-IsEmpty s.gpu.has_api s refl t

  destroy_on-Tidy :
      (has_api : Bool) (s : ZeSession) → Tidy s.gpu → Tidy (destroy_on driver has_api s).gpu
  destroy_on-Tidy false s t = t
  destroy_on-Tidy true s t =
      destroy_rest-Tidy (release_memory driver s) (release_memory-empties s t)
        (release_memory-Tidy s t)

  pub destroy-Tidy : (s : ZeSession) → Tidy s.gpu → Tidy (destroy driver s).gpu
  unfolding destroy
  destroy-Tidy s t = destroy_on-Tidy s.gpu.has_api s t
