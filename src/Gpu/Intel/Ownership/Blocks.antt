-- ===== src/Gpu/Intel/Ownership/Blocks.antt =====
-- AllocateMemory, ReleaseMemory and RunKernel of IntelDevice keep the accounts.
use loadmaster.Prelude.{
  ℕ, ◌+◌, ◌≤◌, ◌≡◌, refl, sym, ap, subst, ◌∙◌, Bool, true, false, Option, none, some, List, [], ◌∷◌,
  arith, if◌then◌else◌, length, All,
}
use loadmaster.Gpu.Driver.{
  owned_all, Resource, Entry, context, memory, queue, command_list, owned, is_some, logged, answer,
  fails,
}
use loadmaster.Gpu.Sweep.{reset}
use loadmaster.Gpu.Sweep.Windows.{reset-IsBelow, IsBelow}
use loadmaster.Gpu.Intel.{
  ZeCall, ze_command_list_create, ze_command_list_close, ZeAnswer, IntelDevice, ZeSession, attempt,
  attempt_all, chunk_loop, release_memory,
}
use loadmaster.Gpu.Intel.Allocate.{
  handle_or_null, fill_calls, run_calls, run_list, close_list, run_fill, commit, commit_chunks,
  max_chunk_of, allocate_on, allocate_with, allocate_memory,
}
use loadmaster.Gpu.Intel.Ownership.{
  owned_by, Holds, Tidy, Keeps, attempt_all-Holds, release_memory-empties,
}
use loadmaster.Gpu.Intel.Ownership.Stages.{Sound, IsReady, Owes, acquire-Owes, settled-Owns}
use loadmaster.Gpu.Intel.Ownership.Chunks.{
  Growing, Looped, chunk_loop-Looped, no_windows, release_memory-Sound, release_memory-context,
}

module _ (driver : List (Entry ZeCall ZeAnswer) → ZeCall → ZeAnswer) where
  pub attempt_all-gpu :
      (cs : List ZeCall) (s : ZeSession) → (attempt_all driver cs s).session.gpu ≡ s.gpu
  attempt_all-gpu [] s = refl
  attempt_all-gpu (c ∷ cs) s =
      elim (is_some (answer driver c s).handle)
        as (λ b.
          (if b
            then attempt_all driver cs (logged driver c s)
            else fails (logged driver c s)).session.gpu
          ≡ s.gpu) [ true ↦ attempt_all-gpu cs (logged driver c s) | false ↦ refl ]

  fill_calls-Keeps :
      (tmp : ℕ) (ps chunks : List ℕ) (n : Resource → ℕ)
      → ((r : Resource) → owned r command_list (some tmp) + owned_all r memory ps ≤ n r)
      → All (Keeps driver n) (fill_calls tmp ps chunks)
  fill_calls-Keeps tmp [] chunks n le = tt
  fill_calls-Keeps tmp (p ∷ ps) [] n le = tt
  fill_calls-Keeps tmp (p ∷ ps) (m ∷ ms) n le =
      (λ r a. ground (arith, le r), fill_calls-Keeps tmp ps ms n (λ r. omega (arith, le r)))

  run_list-gpu : (tmp q : ℕ) (ok : Bool) (s : ZeSession) → (run_list driver ok tmp q s).gpu ≡ s.gpu
  run_list-gpu tmp q false s = refl
  run_list-gpu tmp q true s = attempt_all-gpu (run_calls q tmp) s

  close_list-gpu :
      (tmp q : ℕ) (ok : Bool) (s : ZeSession) → (close_list driver ok tmp q s).gpu ≡ s.gpu
  close_list-gpu tmp q false s = refl
  close_list-gpu tmp q true s =
      let c = ze_command_list_close tmp in
      run_list-gpu tmp q (attempt driver c s).ok (logged driver c s)

  -- What a call may hold on to: the transient list beside what the device has.
  module _ (tmp q : ℕ) (n : Resource → ℕ)
      (le_list : (r : Resource) → owned r command_list (some tmp) ≤ n r)
      (le_queue : (r : Resource) → owned r queue (some q) ≤ n r) where
    run_list-Holds : (ok : Bool) (s : ZeSession) → Holds n s → Holds n (run_list driver ok tmp q s)
    run_list-Holds false s h = h
    run_list-Holds true s h =
        attempt_all-Holds driver (run_calls q tmp) s n
          (λ r a. ground (arith, le_list r, le_queue r), (λ r a. ground (arith, le_queue r), tt)) h

    close_list-Holds :
        (ok : Bool) (s : ZeSession) → Holds n s → Holds n (close_list driver ok tmp q s)
    close_list-Holds false s h = h
    close_list-Holds true s h =
        let c = ze_command_list_close tmp in
        run_list-Holds (attempt driver c s).ok (logged driver c s)
          (λ r. rw (h r) (ground (arith, le_list r)))

  pub commit-gpu :
      (tmp : Option ℕ) (chunks : List ℕ) (s : ZeSession) → (commit driver tmp chunks s).gpu ≡ s.gpu
  commit-gpu none chunks s = refl
  commit-gpu (some tmp) chunks s =
      let fills = fill_calls tmp s.gpu.mem_load_ptrs chunks in
      let filled = attempt_all driver fills s in
      close_list-gpu tmp (handle_or_null s.gpu.queue) filled.ok filled.session
      ∙ attempt_all-gpu fills s

  -- The transient list is given back, whether the fill worked or not.
  commit-Holds :
      (tmp : Option ℕ) (chunks : List ℕ) (s : ZeSession)
      → is_some s.gpu.queue ≡ true
      → Owes command_list tmp s
      → Holds (λ r. owned_by r s.gpu) (commit driver tmp chunks s)
  commit-Holds none chunks s e o = settled-Owns driver command_list s o
  commit-Holds (some tmp) chunks s e o =
      let fills = fill_calls tmp s.gpu.mem_load_ptrs chunks in
      let filled = attempt_all driver fills s in
      let n : Resource → ℕ = λ r. owned r command_list (some tmp) + owned_by r s.gpu in
      let done : Holds n (run_fill driver tmp (handle_or_null s.gpu.queue) fills s) =
        close_list-Holds tmp (handle_or_null s.gpu.queue) n (λ r. omega arith)
          (λ r. ground (arith, e)) filled.ok filled.session
          (attempt_all-Holds driver fills s n
            (fill_calls-Keeps tmp s.gpu.mem_load_ptrs chunks n (λ r. omega arith)) o) in
      λ r. rw (done r) (ground arith)

  commit_chunks-Sound :
      (ok : Bool) (c : ℕ) (chunks : List ℕ) (s : ZeSession)
      → Sound s
      → (ok ≡ true → Growing c chunks s.gpu)
      → Sound (commit_chunks driver ok c chunks s).session
  commit_chunks-Sound false c chunks s v grown = v
  commit_chunks-Sound true c chunks s v grown =
      let w = grown refl in
      let m = ze_command_list_create c in
      let tmp = (answer driver m s).handle in
      let t = commit driver tmp chunks (logged driver m s) in
      let same : t.gpu ≡ s.gpu = commit-gpu tmp chunks (logged driver m s) in
      let has_queue : is_some s.gpu.queue ≡ true = ground (arith, v.ready, w.made) in
      let done : Holds (λ r. owned_by r s.gpu) t =
        commit-Holds tmp chunks (logged driver m s) has_queue (
          acquire-Owes driver command_list context c m s (λ x. refl) (λ r. ground (arith, w.made))
            v.owns) in
      let as_many : length chunks ≡ length t.gpu.mem_load_ptrs =
        sym w.sized ∙ ap (λ (g : IntelDevice). length g.mem_load_ptrs) (sym same) in
      let kept : Tidy t.gpu = rw same v.tidy in
      let still : IsReady t.gpu = rw same v.ready in
      record {
        owns = λ r. done r ∙ ap (λ (g : IntelDevice). some (owned_by r g)) (sym same);
        tidy = record {
          unloaded = kept.unloaded;
          closed = kept.closed;
          swept =
              subst (λ n. All (IsBelow n) (reset t.gpu.sweep chunks).windows) as_many
                (reset-IsBelow t.gpu.sweep chunks);
        };
        ready = still;
      }

  max_chunk_of_lem : (max_alloc bytes : ℕ) → 1 ≤ bytes → 1 ≤ max_chunk_of driver max_alloc bytes
  max_chunk_of_lem max_alloc bytes h = ground arith

  -- The loop of AllocateMemory in the context `c`.
  pub allocate-Looped :
      (c bytes : ℕ) (s : ZeSession)
      → s.gpu.context ≡ some c
      → Sound s
      → let t = release_memory driver s in
        let max_chunk = max_chunk_of driver t.gpu.max_alloc_bytes bytes in
        Looped c max_chunk bytes (chunk_loop driver bytes c max_chunk bytes [] t)
  allocate-Looped c bytes s e v =
      let t = release_memory driver s in
      let max_chunk = max_chunk_of driver t.gpu.max_alloc_bytes bytes in
      let freed : Sound t = release_memory-Sound driver s v in
      let none_left : t.gpu.mem_load_ptrs ≡ [] = release_memory-empties driver s v.tidy in
      let start : Growing c [] t.gpu = record {
        tidy = freed.tidy;
        ready = freed.ready;
        made = release_memory-context driver s ∙ e;
        sized = ap length none_left;
        fresh = no_windows t.gpu.sweep.windows (rw none_left at freed.tidy.swept);
      } in
      chunk_loop-Looped driver c max_chunk bytes (max_chunk_of_lem t.gpu.max_alloc_bytes bytes)
        bytes bytes [] t (omega arith) freed.owns start (omega arith) tt

  allocate_on-Sound :
      (c : Option ℕ) (bytes : ℕ) (s : ZeSession)
      → s.gpu.context ≡ c
      → Sound s
      → Sound (allocate_on driver c bytes s).session
  allocate_on-Sound none bytes s e v = v
  allocate_on-Sound (some c) bytes s e v =
      let t = release_memory driver s in
      let max_chunk = max_chunk_of driver t.gpu.max_alloc_bytes bytes in
      let l = chunk_loop driver bytes c max_chunk bytes [] t in
      let k : Looped c max_chunk bytes l = allocate-Looped c bytes s e v in
      commit_chunks-Sound l.ok c l.chunk_bytes l.session k.sound k.grown

  allocate_with-Sound :
      (has_api : Bool) (bytes : ℕ) (s : ZeSession)
      → Sound s
      → Sound (allocate_with driver has_api bytes s).session
  allocate_with-Sound false bytes s v = v
  allocate_with-Sound true bytes s v = allocate_on-Sound s.gpu.context bytes s refl v

  pub allocate_memory-Sound :
      (bytes : ℕ) (s : ZeSession) → Sound s → Sound (allocate_memory driver bytes s).session
  unfolding allocate_memory
  allocate_memory-Sound bytes s v = allocate_with-Sound s.gpu.has_api bytes s v
