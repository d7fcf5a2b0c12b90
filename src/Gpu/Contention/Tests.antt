-- ===== src/Gpu/Contention/Tests.antt =====
-- Addresses and records of the operating systems, and the theorems at them.
use loadmaster.Prelude.{◌≡◌, refl, true, false, none, some, codes, [], arith}
use loadmaster.Prelude.Numbers.{is_digit}
use loadmaster.Gpu.Contention.Fdinfo.{parse_drm_fdinfo}
use loadmaster.Gpu.Contention.Scan.{take_hex}
use loadmaster.Gpu.Contention.Pci.{canonical_pci_bus_id}
use loadmaster.Gpu.Contention.Pci.Canonical.{IsAddress, canonical_idempotent}
use loadmaster.Gpu.Contention.Records.{kfd_property, maps_compute_runtime, is_compute_engine_type}

canonical_platform : canonical_pci_bus_id (codes "fec00000.v3d") ≡ []
unfolding canonical_pci_bus_id take_hex
canonical_platform = refl

kfd_second_line :
    kfd_property (codes "simd_count 4\nlocation_id 768\n") (codes "location_id") ≡ some 768
unfolding kfd_property is_digit
kfd_second_line = refl

example-IsAddress : IsAddress 1 10 2 3
example-IsAddress = record {
  domain_16 = omega arith;
  bus_8 = omega arith;
  device_5 = omega arith;
  function_3 = omega arith;
}

canonical_idempotent_example :
    canonical_pci_bus_id (canonical_pci_bus_id (codes "03:00.0"))
    ≡ canonical_pci_bus_id (codes "03:00.0")
canonical_idempotent_example = canonical_idempotent (codes "03:00.0")

-- A process with a driver for another vendor's GPUs does not count.
maps_other_vendor :
    maps_compute_runtime (codes "7f00 /usr/lib/libamdhip64.so") (codes "i915") ≡ false
unfolding maps_compute_runtime
maps_other_vendor = refl

compute_type : is_compute_engine_type (codes "Compute_0") ≡ true
compute_type = refl

-- One engine counts; its capacity and a class without total cycles do not.
fdinfo_amdgpu :
    parse_drm_fdinfo (
      codes
        "drm-driver:\tamdgpu\ndrm-client-id:\t7\ndrm-engine-gfx:\t120 ns\ndrm-engine-capacity-gfx:\t2\ndrm-cycles-rcs:\t5\n")
    ≡ some (record { client_id = 7; has_engine_ns = true; engine_ns = 120; cycles = [] })
unfolding parse_drm_fdinfo is_digit
fdinfo_amdgpu = refl

fdinfo_other_file : parse_drm_fdinfo (codes "pos:\t0\nflags:\t02\n") ≡ none
unfolding parse_drm_fdinfo is_digit
fdinfo_other_file = refl
