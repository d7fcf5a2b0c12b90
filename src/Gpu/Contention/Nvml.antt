-- ===== src/Gpu/Contention/Nvml.antt =====
-- NvmlSource, src/gpu/contention/nvml_source.cc: ComputePids, DeviceBusy and Sample. What the NVML
-- library answers during a poll is a record of functions. A busy percent is a `double`: its zero,
-- its sum and its division by a count are parameters; SampleValue is part of the answers. The two
-- maps of the source are association lists.
pub mod Counting
pub mod Handles
mod Tests
use loadmaster.Prelude.{
  ℕ, zero, suc, ◌+◌, max, Bool, true, false, not, ◌&&◌, Option, none, some, List, [], ◌∷◌, Text,
  text_eq, ltb, ◌==◌, if◌then◌else◌,
}
use loadmaster.Gpu.Contention.LinuxFs.{is_empty}
use loadmaster.Gpu.Contention.Monitor.{Verdict, unknown, idle, busy, Observation}

-- nvmlDeviceGetHandleByPciBusId: a handle, an answer that it is no NVIDIA device, or another error.
pub data Lookup : Type 0 where
  handle_found : ℕ → Lookup
  not_nvidia lookup_failed : Lookup

-- nvmlDeviceGetComputeRunningProcesses: the number of entries it needs, another error, or the pids.
pub data Processes : Type 0 where
  insufficient_size : ℕ → Processes
  processes_failed : Processes
  listed : List ℕ → Processes

-- The answers; the optional functions are `none` where the library lacks them. A sample has its time
-- and its value, if its type is known.
pub record Nvml (Share : Type 0) : Type 0 where
  pub lookup : Text → Lookup
  pub under_wddm : Option (ℕ → Bool)
  pub processes : ℕ → ℕ → Processes
  pub sample_count : Option (ℕ → ℕ → Option ℕ)
  pub samples : ℕ → ℕ → Option (List (ℕ × Option Share))
  pub utilization : Option (ℕ → Option Share)

-- `handles_`, where `none` is a null handle, and `last_sample_us_`.
pub record NvmlSource : Type 0 where
  pub handles : List (Text × Option ℕ)
  pub last_sample_us : List (ℕ × ℕ)

abbrev pub find_handle : Text → List (Text × Option ℕ) → Option (Option ℕ)
find_handle pci [] = none
find_handle pci ((p, handle) ∷ more) = if text_eq p pci then some handle else find_handle pci more

abbrev pub last_of : ℕ → List (ℕ × ℕ) → ℕ
last_of device [] = 0
last_of device ((d, last) ∷ more) = if d == device then last else last_of device more

abbrev pub set_last : ℕ → ℕ → List (ℕ × ℕ) → List (ℕ × ℕ)
set_last device last [] = (device, last) ∷ []
set_last device last ((d, old) ∷ more) =
    let rest = set_last device last more in
    if d == device then (d, last) ∷ more else (d, old) ∷ rest

-- The loop over the pids: how many are not ours, the last of those, and whether ours is listed.
pub record Counted : Type 0 where
  pub others : ℕ
  pub other_pid : ℕ
  pub self_seen : Bool

abbrev pub count_pids : ℕ → List ℕ → Counted → Counted
count_pids self_pid [] c = c
count_pids self_pid (pid ∷ pids) c = count_pids self_pid pids (
    if pid == self_pid
    then record c { self_seen = true }
    else record c { others = suc c.others; other_pid = pid })

-- One entry is ours, under another number.
abbrev pub discount_on : Bool → ℕ → Counted → Counted
discount_on true zero c = c
discount_on true (suc zero) c = record c { others = 0; other_pid = 0 }
discount_on true (suc (suc n)) c = record c { others = suc n }
discount_on false n c = c

abbrev pub discount : Counted → Counted
discount c = discount_on (not c.self_seen) c.others c

abbrev pub verdict_on : ℕ → Verdict
verdict_on zero = idle
verdict_on (suc n) = busy

-- Only a device that others use is given its busy percent.
abbrev pub with_measure :
    {Share : Type 0} → ℕ → Option Share → Observation Share → Observation Share
with_measure zero measured o = o
with_measure (suc n) measured o = record o { device_busy = measured }

module _ {Share : Type 0} (zero_share : Share) (add : Share → Share → Share)
    (divide : Share → ℕ → Share) where
  -- The samples that are averaged: their sum, their number, and the latest time.
  pub record Averaged : Type 0 where
    pub total : Share
    pub used : ℕ
    pub last : ℕ

  abbrev pub average_samples : List (ℕ × Option Share) → Averaged → Averaged
  average_samples [] a = a
  average_samples ((time, none) ∷ more) a = average_samples more a
  average_samples ((time, some value) ∷ more) a =
      average_samples more
        (record { total = add a.total value; used = suc a.used; last = max a.last time })

  module _ (api : Nvml Share) where
    -- ComputePids: `attempts` are left, and `count` is what the last one asked for.
    abbrev pub on_processes : (ℕ → Option (List ℕ)) → Processes → Option (List ℕ)
    on_processes again (insufficient_size needed) = again needed
    on_processes again processes_failed = none
    on_processes again (listed pids) = some pids

    abbrev pub attempt : ℕ → ℕ → ℕ → Option (List ℕ)
    attempt zero device count = none
    attempt (suc attempts) device count =
        on_processes (attempt attempts device) (api.processes device (count + 8))

    unfoldable pub compute_pids : ℕ → Option (List ℕ)
    compute_pids device = attempt 2 device 16

    -- DeviceBusy: the current reading.
    abbrev pub current_on : Option (ℕ → Option Share) → ℕ → Option Share
    current_on none device = none
    current_on (some utilization) device = utilization device

    -- On the samples read: their average, and `last_sample_us_[device]` after them.
    abbrev pub average_on : ℕ → Averaged → ℕ → Option Share × ℕ
    average_on device a zero = (current_on api.utilization device, a.last)
    average_on device a (suc n) = (some (divide a.total (suc n)), a.last)

    abbrev pub on_samples : Option (List (ℕ × Option Share)) → ℕ → ℕ → Option Share × ℕ
    on_samples none device last = (current_on api.utilization device, last)
    on_samples (some samples) device last =
        let a = average_samples samples (record { total = zero_share; used = 0; last = last }) in
        average_on device a a.used

    abbrev pub on_count : Option ℕ → ℕ → ℕ → Option Share × ℕ
    on_count none device last = (current_on api.utilization device, last)
    on_count (some zero) device last = (current_on api.utilization device, last)
    on_count (some (suc n)) device last = on_samples (api.samples device last) device last

    abbrev pub busy_on : Option (ℕ → ℕ → Option ℕ) → ℕ → List (ℕ × ℕ) → Option Share × List (ℕ × ℕ)
    busy_on none device lasts = (current_on api.utilization device, lasts)
    busy_on (some sample_count) device lasts =
        let last = last_of device lasts in
        let read = on_count (sample_count device last) device last in
        (read.0, set_last device read.1 lasts)

    unfoldable pub device_busy_of : ℕ → List (ℕ × ℕ) → Option Share × List (ℕ × ℕ)
    device_busy_of device lasts = busy_on api.sample_count device lasts

    -- A device under WDDM is left to the counters.
    abbrev pub model_on : Option (ℕ → Bool) → ℕ → Option ℕ
    model_on none handle = some handle
    model_on (some under_wddm) handle = if under_wddm handle then none else some handle

    -- The handle that is remembered; `none` if nothing is.
    abbrev pub settle : Lookup → Option (Option ℕ)
    settle (handle_found handle) = some (model_on api.under_wddm handle)
    settle not_nvidia = some none
    settle lookup_failed = none

    -- On the pids of the device.
    abbrev pub observe_pids :
        ℕ → ℕ → Option (List ℕ) → NvmlSource → Observation Share → Observation Share × NvmlSource
    observe_pids self_pid device none s o = (o, s)
    observe_pids self_pid device (some pids) s o =
        let c =
          discount
            (count_pids self_pid pids (record { others = 0; other_pid = 0; self_seen = false })) in
        let measured = device_busy_of device s.last_sample_us in
        (
          with_measure c.others measured.0
              (record o { verdict = verdict_on c.others; pid = c.other_pid }),
          record s { last_sample_us = measured.1 },
        )

    abbrev pub observe_handle :
        ℕ → Option ℕ → NvmlSource → Observation Share → Observation Share × NvmlSource
    observe_handle self_pid none s o = (o, s)
    observe_handle self_pid (some device) s o =
        observe_pids self_pid device (compute_pids device) s o

    -- A look-up that settles the handle is remembered.
    abbrev pub observe_settled :
        ℕ
        → Text
        → Option (Option ℕ)
        → NvmlSource
        → Observation Share
        → Observation Share × NvmlSource
    observe_settled self_pid pci none s o = (o, s)
    observe_settled self_pid pci (some handle) s o =
        observe_handle self_pid handle (record s { handles = (pci, handle) ∷ s.handles }) o

    abbrev pub observe_found :
        ℕ
        → Text
        → Option (Option ℕ)
        → NvmlSource
        → Observation Share
        → Observation Share × NvmlSource
    observe_found self_pid pci none s o = observe_settled self_pid pci (settle (api.lookup pci)) s o
    observe_found self_pid pci (some handle) s o = observe_handle self_pid handle s o

    -- One device, by its address.
    unfoldable pub observe_device :
        ℕ → Text → NvmlSource → Observation Share → Observation Share × NvmlSource
    observe_device self_pid pci s o =
        if is_empty pci then (o, s) else observe_found self_pid pci (find_handle pci s.handles) s o

    -- The loop over the devices.
    abbrev pub sample_devices :
        ℕ
        → List Text
        → NvmlSource
        → List (Observation Share)
        → List (Observation Share) × NvmlSource
    sample_devices self_pid [] s os = (os, s)
    sample_devices self_pid (pci ∷ pcis) s [] = ([], s)
    sample_devices self_pid (pci ∷ pcis) s (o ∷ os) =
        let first = observe_device self_pid pci s o in
        let rest = sample_devices self_pid pcis first.1 os in (first.0 ∷ rest.0, rest.1)

    -- Sample, on whether the library is ready.
    abbrev pub sample :
        Bool
        → ℕ
        → List Text
        → NvmlSource
        → List (Observation Share)
        → List (Observation Share) × NvmlSource
    sample false self_pid pcis s os = (os, s)
    sample true self_pid pcis s os = sample_devices self_pid pcis s os
