-- ===== src/Gpu/OpenCl/Ownership/Life.antt =====
-- OpenClDevice from its constructor to its destructor.
use loadmaster.Prelude.{ℕ, ◌≡◌, refl, ap, ◌∙◌, Option, some, List, [], ◌∷◌, arith}
use loadmaster.Prelude.Int.{ℤ}
use loadmaster.Gpu.Driver.{Request, allocate, release, run, Resource, Entry}
use loadmaster.Gpu.OpenCl.{ClApi}
use loadmaster.Gpu.OpenCl.Device.{
  ClCall, OpenClDevice, ClSession, new_device, destroy, release_memory, allocate_memory,
}
use loadmaster.Gpu.OpenCl.Start.{init}
use loadmaster.Gpu.OpenCl.Launch.{run_kernel}
use loadmaster.Gpu.OpenCl.Ownership.{
  owned_by, held, IsEmpty, Sound, release_memory-Sound, destroy-Sound, destroy-IsEmpty,
}
use loadmaster.Gpu.OpenCl.Ownership.Start.{init-Sound}
use loadmaster.Gpu.OpenCl.Ownership.Blocks.{allocate_memory-Sound}
use loadmaster.Gpu.OpenCl.Ownership.Launches.{run_kernel-Sound}

abbrev pub new_session : ClSession
new_session = record { log = []; gpu = new_device }

pub new_session-IsEmpty : IsEmpty new_device
new_session-IsEmpty = (refl, refl, refl, refl, refl, refl)

pub new_session-Sound : Sound new_session
new_session-Sound = record {
  owns = λ r. ap some (omega arith);
  unloaded = λ f. new_session-IsEmpty;
  swept = tt;
  ready = refl;
}

empty-owned_by : (r : Resource) (g : OpenClDevice) → IsEmpty g → owned_by r g ≡ 0
empty-owned_by r g e = ground (arith, e)

module _ (driver : List (Entry ClCall (Option ℕ)) → ClCall → Option ℕ) where
  abbrev pub serve : Request → ClSession → ClSession
  serve (allocate bytes) s = (allocate_memory driver bytes s).session
  serve release s = release_memory driver s
  serve (run loop_count traffic) s = (run_kernel driver loop_count traffic s).session

  abbrev pub serve_all : List Request → ClSession → ClSession
  serve_all [] s = s
  serve_all (q ∷ qs) s = serve_all qs (serve q s)

  -- A device from its constructor to its destructor.
  abbrev pub lifetime : Option ClApi → ℤ → List Request → ClSession
  lifetime api device_index requests =
      destroy driver (serve_all requests (init driver api device_index new_session).session)

  serve-Sound : (q : Request) (s : ClSession) → Sound s → Sound (serve q s)
  serve-Sound (allocate bytes) s v = allocate_memory-Sound driver bytes s v
  serve-Sound release s v = release_memory-Sound driver s v
  serve-Sound (run loop_count traffic) s v = run_kernel-Sound driver loop_count traffic s v

  serve_all-Sound : (qs : List Request) (s : ClSession) → Sound s → Sound (serve_all qs s)
  serve_all-Sound [] s v = v
  serve_all-Sound (q ∷ qs) s v = serve_all-Sound qs (serve q s) (serve-Sound q s v)

  -- Over the whole life of an OpenCL device, whatever the library answers and whatever the worker
  -- asks for, every context, queue, program, kernel and buffer that the library hands out is
  -- released exactly once, and none is used before it is handed out or after it is released; a
  -- launch with traffic finds the chunk that it names.
  pub lifetime-releases_each :
      (api : Option ClApi) (device_index : ℤ) (requests : List Request) (r : Resource)
      → held r (lifetime api device_index requests) ≡ some 0
  lifetime-releases_each api device_index requests r =
      let started : Sound (init driver api device_index new_session).session =
        init-Sound driver api device_index new_session new_session-Sound new_session-IsEmpty in
      let used = serve_all requests (init driver api device_index new_session).session in
      let v : Sound used = serve_all-Sound requests _ started in
      (destroy-Sound driver used v).owns r
      ∙ ap some (empty-owned_by r (destroy driver used).gpu (destroy-IsEmpty driver used v))
