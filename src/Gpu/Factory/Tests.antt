-- ===== src/Gpu/Factory/Tests.antt =====
-- A host with an AMD and an Intel device, and the theorem at it.
use loadmaster.Prelude.{◌≡◌, refl, true, [], ◌∷◌, none, some}
use loadmaster.Prelude.Int.{pos}
use loadmaster.Core.Options.{amd, gpu_default, default_options}
use loadmaster.Gpu.Factory.{Backends, enumerate, find_devices, create_resource_manager}

abbrev host : Backends
host = record {
  cuda_devices = none;
  hip_devices = some (pos 2);
  spirv_available = true;
  ze_drivers = some (some (some true ∷ none ∷ []) ∷ none ∷ []);
  opencl_devices = pos 3;
}

create-auto :
    create_resource_manager host
      (record default_options { gpu_load = pos 50; gpu_indices = 1 ∷ [] })
    ≡ some (gpu_default, (amd, 1) ∷ [])
unfolding create_resource_manager find_devices enumerate
create-auto = refl

-- The wanted index is not AMD's: the next backend is not asked.
create-missing :
    create_resource_manager host
      (record default_options { gpu_load = pos 50; gpu_indices = 2 ∷ [] })
    ≡ none
unfolding create_resource_manager find_devices enumerate
create-missing = refl
