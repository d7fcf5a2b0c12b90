-- ===== src/Gpu/Intel/Ownership/Life.antt =====
-- IntelDevice from its constructor to its destructor.
use loadmaster.Prelude.{◌≡◌, refl, ap, ◌∙◌, Bool, Option, some, List, [], ◌∷◌, arith}
use loadmaster.Prelude.Int.{ℤ}
use loadmaster.Gpu.Driver.{Request, allocate, release, run, Resource, Entry}
use loadmaster.Gpu.Intel.{
  ZeCall, ZeAnswer, IntelDevice, ZeSession, new_device, destroy, release_memory,
}
use loadmaster.Gpu.Intel.Allocate.{allocate_memory}
use loadmaster.Gpu.Intel.Start.{ZeDriver, init}
use loadmaster.Gpu.Intel.Launch.{run_kernel}
use loadmaster.Gpu.Intel.Ownership.{owned_by, held, Owns, IsEmpty, destroy-Owns, destroy-IsEmpty}
use loadmaster.Gpu.Intel.Ownership.Stages.{Sound}
use loadmaster.Gpu.Intel.Ownership.Start.{init-Sound}
use loadmaster.Gpu.Intel.Ownership.Chunks.{release_memory-Sound}
use loadmaster.Gpu.Intel.Ownership.Blocks.{allocate_memory-Sound}
use loadmaster.Gpu.Intel.Ownership.Launches.{run_kernel-Sound}

abbrev pub new_session : ZeSession
new_session = record { log = []; gpu = new_device }

module _ (driver : List (Entry ZeCall ZeAnswer) → ZeCall → ZeAnswer) where
  abbrev pub serve : Request → ZeSession → ZeSession
  serve (allocate bytes) s = (allocate_memory driver bytes s).session
  serve release s = release_memory driver s
  serve (run loop_count traffic) s = (run_kernel driver loop_count traffic s).session

  abbrev pub serve_all : List Request → ZeSession → ZeSession
  serve_all [] s = s
  serve_all (q ∷ qs) s = serve_all qs (serve q s)

  -- A device from its constructor to its destructor.
  abbrev pub lifetime : Bool → Bool → Option (List ZeDriver) → ℤ → List Request → ZeSession
  lifetime available loaded reported device_index requests =
      destroy driver (
        serve_all requests (init driver available loaded reported device_index new_session).session)

  serve-Sound : (q : Request) (s : ZeSession) → Sound s → Sound (serve q s)
  serve-Sound (allocate bytes) s v = allocate_memory-Sound driver bytes s v
  serve-Sound release s v = release_memory-Sound driver s v
  serve-Sound (run loop_count traffic) s v = run_kernel-Sound driver loop_count traffic s v

  serve_all-Sound : (qs : List Request) (s : ZeSession) → Sound s → Sound (serve_all qs s)
  serve_all-Sound [] s v = v
  serve_all-Sound (q ∷ qs) s v = serve_all-Sound qs (serve q s) (serve-Sound q s v)

  pub new_session-IsEmpty : IsEmpty new_device
  new_session-IsEmpty = (refl, refl, refl, refl, refl, refl, refl)

  pub new_session-Sound : Sound new_session
  new_session-Sound = record {
    owns = λ r. ap some (omega arith);
    tidy = record { unloaded = λ f. refl; closed = λ f. new_session-IsEmpty; swept = tt };
    ready = refl;
  }

  empty-owned_by : (r : Resource) (g : IntelDevice) → IsEmpty g → owned_by r g ≡ 0
  empty-owned_by r g e = ground (arith, e)

  -- Over the whole life of a Level Zero device, whatever the driver answers and whatever the worker
  -- asks for, every context, queue, command list, module, build log, kernel and piece of memory
  -- that the driver hands out is given back exactly once, and none is used before it is handed out
  -- or after it is given back; a launch with traffic finds the chunk that it names.
  pub lifetime-gives_all_back :
      (available loaded : Bool) (reported : Option (List ZeDriver)) (device_index : ℤ)
      (requests : List Request) (r : Resource)
      → held r (lifetime available loaded reported device_index requests) ≡ some 0
  lifetime-gives_all_back available loaded reported device_index requests r =
      let started : Sound (init driver available loaded reported device_index new_session).session =
        init-Sound driver available loaded reported device_index new_session new_session-Sound
          new_session-IsEmpty in
      let used =
        serve_all requests
          (init driver available loaded reported device_index new_session).session in
      let v : Sound used = serve_all-Sound requests _ started in
      let ended : Owns (destroy driver used) = destroy-Owns driver used v.owns in
      ended r
      ∙ ap some (empty-owned_by r (destroy driver used).gpu (destroy-IsEmpty driver used v.tidy))
