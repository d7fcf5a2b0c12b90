-- ===== src/Lib.antt =====
-- Verification of loadmaster, a generator of CPU, memory and GPU load (src/ of the repository).
--
-- The program reads its command line into core::Options, builds one resource manager per module
-- (CPU, memory, GPU), and a main loop calls each manager's Schedule every 100 ms. The managers set
-- the load of worker threads; a monitor watches for other processes that use a GPU.
--
--   Cli, Cli/*            src/cli/cli.cc: ExtractArguments, ReadInt, ReadStringView and
--                         ParseCommandLineArguments, as functions on the list of arguments.
--   Core/Options, /*      src/core/options.cc: ProcessCliArguments as the chain of its checks
--                         (set_cpu_load to set_gpu_algorithm, fit_cpu_load), ParseGpuIndices, and
--                         Logger::SetLevel of src/util/log.cc.
--   Cpu/Workers           src/cpu/manager.cc: SetWorkerLoadWithTotalLoad (set_total_load).
--   Cpu/Schedule          src/cpu/manager.cc: Schedule up to the numbers that the load comes from.
--   Cpu/Calibration       src/cpu/manager.cc: FindAccurateBaseLoopCount (bisect); the measured time
--                         is a parameter.
--   Cpu/Stat, /*          src/cpu/stat_linux.cc: BusyJiffies, ReadBusyJiffies, ParseCgroupCpuMax and
--                         CoreCount; what the files hold is a parameter.
--   Cpu/Controller        src/cpu/load_controller.cc: Update, over exact fractions of a percent in
--                         place of `double`, in any unit.
--   Cpu/Start             Init of src/cpu/manager_default.cc and manager_random_normal.cc.
--   Cpu/Points            src/cpu/manager_random_normal.cc: UpdateLoadTarget; the shuffle is a
--                         parameter that permutes.
--   Gpu/Sweep, /*         src/gpu/mem_sweep.cc: Reset, Clear and Next, with 32- and 64-bit wrap; Kernel is
--                         the walk of the busy kernel of src/gpu/opencl/cl_kernel.h, which that of
--                         src/gpu/intel/busy_kernel.cl is too.
--   Gpu/Factory           src/gpu/factory.cc: CreateResourceManager and the Enumerate functions, as built
--                         for Linux and Windows; what the drivers report is a parameter.
--   Gpu/Worker            src/gpu/worker.cc: SyncMemory.
--   Gpu/Worker/Loop       the same: Loop, as the sequence of its ticks; what happens between two
--                         ticks, and whether a launch works, is the input of the tick.
--   Gpu/Worker/Calibrate  the same: CalibrateBaseLoopCount with its helpers, over exact nanoseconds;
--                         the time of a launch is a parameter.
--   Gpu/Driver            an account of what a vendor's driver hands out and takes back, kept by the
--                         functions that call it; the driver's answers are parameters.
--   Gpu/Nvidia            src/gpu/nvidia/nvidia_device.cc, over that account.
--   Gpu/Intel, /*         src/gpu/intel/intel_device.cc, over that account: Start is Init with its
--                         stages, Allocate the chunks of AllocateMemory, Launch RunKernel.
--   Gpu/OpenCl            src/gpu/opencl/opencl_device.cc: DeviceIdentity, CollectGpuDevices and
--                         DeviceCount; the library's answers are a record of functions.
--   Gpu/OpenCl/Device, Start, Launch
--                         the same: a device over the account of driver resources; Start is Init
--                         with its stages, Launch RunKernel.
--   Gpu/Manager, /*       src/gpu/manager.cc: Init, and the orders to the threads; a device, what its
--                         calibration finds and what a monitor's first poll reports are parameters.
--   Gpu/Devices           src/gpu/manager_random_normal.cc: AdvanceDevice.
--   Gpu/Contention/Fdinfo src/gpu/contention/parse.cc: ParseDrmFdinfo.
--   Gpu/Contention/Gate   src/gpu/contention/monitor.cc: ShareGate::Update.
--   Gpu/Contention/Monitor
--                         the same: Poll, from the sources' observations to the calls of the
--                         listener, with the devices' own shares as an input.
--   Gpu/Contention/LinuxFs
--                         src/gpu/contention/linux_fs.cc: BaseName and ListNumericDir.
--   Gpu/Contention/Kfd, /*
--                         src/gpu/contention/kfd_source.cc: the constructor and Sample.
--   Gpu/Contention/Nvml, /*
--                         src/gpu/contention/nvml_source.cc: ComputePids, DeviceBusy and Sample.
--   Gpu/Contention/Scan   src/gpu/contention/parse.cc: TakeHex, TakeChar, TakePrefix, TakeDecimal.
--   Gpu/Contention/Pci    the same: FormatPciBusId, CanonicalPciBusId, KfdPciBusId.
--   Gpu/Contention/Records
--                         the same: KfdProperty, MapsComputeRuntime, ParseGpuEngineInstance,
--                         IsComputeEngineType, ParseUserClientCreator.
--   Memory/Block          src/memory/allocator.cc: the block and Fill.
--   Memory/Manager        src/memory/manager_default.cc: Schedule and its background thread, as steps
--                         that any order may interleave.
--   Core/Runtime          src/core/runtime.cc: NextSchedulingTime, and in Lifecycle Run with its stages.
--   Core/Signals          src/core/signal_flag.h over src/util/atomic_bitmap.h, and DealSignals and
--                         MainLoop of src/core/runtime.cc.
--   Util/RollingSampler   src/util/rolling_sampler.h, over any type with a sum.
--   Util/Obfuscate        src/util/obfuscate.h: a byte is a number below 256.
--   Prelude, /*           Boolean tests, lists over native numbers, signed integers, texts as byte
--                         lists, std::from_chars for `int` by its documented grammar, and in Bits
--                         the binary digits of a number.
--
-- Fuel and bounds: the inner loop of Reset runs on fuel bytes / 2^30 + 2, which reset-Covers shows to
-- be enough, since it reaches the end of every segment; the search of Next runs on the number of
-- windows, as its own counter does; the loop of ParseGpuIndices runs on the length of the text,
-- since each round takes a comma off it, and parse-comma_list shows results come out; the
-- search for a KFD property and the loop over fdinfo lines run on
-- the length of their text; the
-- calibration of a CPU worker runs on the number of iterations that the source passes. The
-- growth of a GPU worker's loop count runs on 11 rounds, from 1024 by factors of 4 to 10^9, which
-- calibrate_total shows to be enough. The walk
-- of CoreCount to the root runs on the length of the path and two more rounds, since each parent but
-- the root is shorter. The loops over the chunks of a Level Zero block and of an OpenCL block run on the
-- bytes that are left, since every round takes at least one.
--
-- Not modelled: the adaptation of the workers in floating point (the loop count, the
-- mean traffic of a launch), the threads themselves, the statistics of a process and of systems other
-- than Linux, the devices of AMD and Metal, the sources of the contention monitor beside KFD and NVML,
-- and what -h and -v print. A `double` share of a GPU is only compared, so it is a type with a total order.
pub mod Prelude
pub mod Core
pub mod Cli
pub mod Cpu
pub mod Gpu
pub mod Memory
pub mod Util
