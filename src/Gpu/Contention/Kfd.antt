-- ===== src/Gpu/Contention/Kfd.antt =====
-- KfdSource, src/gpu/contention/kfd_source.cc. A set of numbers is its elements in increasing order,
-- a map an association list. The averaged busy percent of whole devices, a `double`, is a parameter.
pub mod Owners
pub mod Users
mod Tests
use loadmaster.Prelude.{
  ℕ, zero, suc, ◌%◌, ◌^◌, Bool, true, false, not, ◌&&◌, ◌||◌, Option, none, some, List, [], ◌∷◌,
  ◌++◌, Text, codes, text_eq, length, ltb, ◌==◌, if◌then◌else◌,
}
use loadmaster.Prelude.Numbers.{decimal}
use loadmaster.Gpu.Contention.LinuxFs.{Files, list_numeric_dir, strtoul, is_empty}
use loadmaster.Gpu.Contention.Pci.{kfd_pci_bus_id}
use loadmaster.Gpu.Contention.Records.{kfd_property}
use loadmaster.Gpu.Contention.Monitor.{Verdict, unknown, idle, busy, Observation}

-- DeviceLocator, as far as this source reads it.
pub record DeviceLocator : Type 0 where
  pub pci_bus_id : Text
  pub kfd_client : Bool

abbrev pub insert_number : ℕ → List ℕ → List ℕ
insert_number n [] = n ∷ []
insert_number n (x ∷ xs) =
    let rest = insert_number n xs in
    if n == x then x ∷ xs else if ltb n x then n ∷ x ∷ xs else x ∷ rest

abbrev pub insert_all : List ℕ → List ℕ → List ℕ
insert_all [] set = set
insert_all (n ∷ ns) set = insert_all ns (insert_number n set)

-- `gpu_ids_[pci].insert(gpu_id)`, and its look-up.
abbrev pub add_gpu : Text → ℕ → List (Text × List ℕ) → List (Text × List ℕ)
add_gpu pci gpu [] = (pci, gpu ∷ []) ∷ []
add_gpu pci gpu ((p, gpus) ∷ more) =
    let rest = add_gpu pci gpu more in
    if text_eq p pci then (p, insert_number gpu gpus) ∷ more else (p, gpus) ∷ rest

abbrev pub find_gpus : Text → List (Text × List ℕ) → Option (List ℕ)
find_gpus pci [] = none
find_gpus pci ((p, gpus) ∷ more) = if text_eq p pci then some gpus else find_gpus pci more

-- `owners[gpu].insert(pid)`, and its look-up.
abbrev pub add_owner : ℕ → ℕ → List (ℕ × List ℕ) → List (ℕ × List ℕ)
add_owner gpu pid [] = (gpu, pid ∷ []) ∷ []
add_owner gpu pid ((g, pids) ∷ more) =
    let rest = add_owner gpu pid more in
    if g == gpu then (g, insert_number pid pids) ∷ more else (g, pids) ∷ rest

abbrev pub owners_of : ℕ → List (ℕ × List ℕ) → List ℕ
owners_of gpu [] = []
owners_of gpu ((g, pids) ∷ more) = if g == gpu then pids else owners_of gpu more

-- The last byte becomes `0`.
abbrev pub without_function : Text → Text
without_function [] = []
without_function (c ∷ []) = b'0' ∷ []
without_function (c ∷ d ∷ s) = c ∷ without_function (d ∷ s)

abbrev pub or_zero : Option ℕ → ℕ
or_zero none = 0
or_zero (some n) = n

-- A node of the topology, on its location and on its id.
abbrev pub on_location : Option ℕ → Option ℕ → ℕ → List (Text × List ℕ) → List (Text × List ℕ)
on_location domain none gpu ids = ids
on_location domain (some location) gpu ids =
    if gpu == 0
    then ids
    else add_gpu (without_function (kfd_pci_bus_id (or_zero domain % 2 ^ 32) (location % 2 ^ 32)))
        gpu ids

abbrev pub on_node : Option Text → Option Text → List (Text × List ℕ) → List (Text × List ℕ)
on_node none properties ids = ids
on_node (some gpu_id) none ids = ids
on_node (some gpu_id) (some properties) ids =
    on_location (kfd_property properties (codes "domain"))
      (kfd_property properties (codes "location_id")) (strtoul gpu_id % 2 ^ 32) ids

module _ (files : Files) (root : Text) (self_pid : ℕ) where
  abbrev pub node_dir : ℕ → Text
  node_dir node = root ++ (codes "/sys/class/kfd/kfd/topology/nodes/" ++ decimal node)

  -- The constructor: the loop over the nodes.
  abbrev pub read_nodes : List ℕ → List (Text × List ℕ) → List (Text × List ℕ)
  read_nodes [] ids = ids
  read_nodes (node ∷ nodes) ids = read_nodes nodes (
      on_node (files.read_file (node_dir node ++ codes "/gpu_id"))
        (files.read_file (node_dir node ++ codes "/properties")) ids)

  abbrev pub gpu_ids : List (Text × List ℕ)
  gpu_ids =
      read_nodes (list_numeric_dir files (root ++ codes "/sys/class/kfd/kfd/topology/nodes")) []

  abbrev pub procs : Text
  procs = root ++ codes "/sys/class/kfd/kfd/proc"

  abbrev pub queues_dir : ℕ → Text
  queues_dir pid = procs ++ (codes "/" ++ (decimal pid ++ codes "/queues"))

  abbrev pub queue_file : ℕ → ℕ → Text
  queue_file pid queue = queues_dir pid ++ (codes "/" ++ (decimal queue ++ codes "/gpuid"))

  -- A queue, on the text of its device.
  abbrev pub on_queue : Option Text → ℕ → List (ℕ × List ℕ) → List (ℕ × List ℕ)
  on_queue none pid owners = owners
  on_queue (some text) pid owners = add_owner (strtoul text % 2 ^ 32) pid owners

  abbrev pub scan_queues : List ℕ → ℕ → List (ℕ × List ℕ) → List (ℕ × List ℕ)
  scan_queues [] pid owners = owners
  scan_queues (q ∷ qs) pid owners =
      scan_queues qs pid (on_queue (files.read_file (queue_file pid q)) pid owners)

  -- The loop over the processes: our own is passed over.
  abbrev pub scan_pids : List ℕ → List (ℕ × List ℕ) → List (ℕ × List ℕ)
  scan_pids [] owners = owners
  scan_pids (pid ∷ pids) owners = scan_pids pids (
      if pid == self_pid
      then owners
      else scan_queues (list_numeric_dir files (queues_dir pid)) pid owners)

  -- `self_seen`
  abbrev pub is_listed : List ℕ → Bool
  is_listed [] = false
  is_listed (pid ∷ pids) = pid == self_pid || is_listed pids

-- `pids`: the union over the device's ids.
abbrev pub union_of : List ℕ → List (ℕ × List ℕ) → List ℕ → List ℕ
union_of [] owners set = set
union_of (gpu ∷ gpus) owners set = union_of gpus owners (insert_all (owners_of gpu owners) set)

-- `others`: an anonymous entry of ours is discounted.
abbrev pub discounted : Bool → ℕ → ℕ
discounted true zero = zero
discounted true (suc n) = n
discounted false n = n

abbrev pub first_pid : List ℕ → ℕ
first_pid [] = 0
first_pid (pid ∷ pids) = pid

module _ {Share : Type 0} where
  abbrev pub judge_on : ℕ → List ℕ → Observation Share → Observation Share
  judge_on zero pids o = record o { verdict = idle; pid = 0 }
  judge_on (suc n) pids o = record o { verdict = busy; pid = first_pid pids }

  abbrev pub judge : Bool → List ℕ → Observation Share → Observation Share
  judge discount pids o = judge_on (discounted discount (length pids)) pids o

  -- One device, on its ids.
  abbrev pub observe_on :
      Option (List ℕ)
      → Bool
      → DeviceLocator
      → List (ℕ × List ℕ)
      → Observation Share
      → Observation Share
  observe_on none self_seen device owners o = o
  observe_on (some gpus) self_seen device owners o =
      if is_empty device.pci_bus_id
      then o
      else judge (not self_seen && device.kfd_client) (union_of gpus owners []) o

  unfoldable pub observe :
      List (Text × List ℕ)
      → Bool
      → List (ℕ × List ℕ)
      → DeviceLocator
      → Observation Share
      → Observation Share
  observe ids self_seen owners device o =
      observe_on (find_gpus (without_function device.pci_bus_id) ids) self_seen device owners o

  -- The loop over the devices.
  abbrev pub observe_all :
      List (Text × List ℕ)
      → Bool
      → List (ℕ × List ℕ)
      → List DeviceLocator
      → List (Observation Share)
      → List (Observation Share)
  observe_all ids self_seen owners [] os = os
  observe_all ids self_seen owners (d ∷ ds) [] = []
  observe_all ids self_seen owners (d ∷ ds) (o ∷ os) =
      observe ids self_seen owners d o ∷ observe_all ids self_seen owners ds os

  abbrev pub find_share : Text → List (Text × Share) → Option Share
  find_share pci [] = none
  find_share pci ((p, share) ∷ more) = if text_eq p pci then some share else find_share pci more

  -- The busy percent of the whole device, for one that is busy.
  abbrev pub measure : Verdict → Option Share → Observation Share → Observation Share
  measure unknown percent o = o
  measure idle percent o = o
  measure busy none o = o
  measure busy (some percent) o = record o { device_busy = some percent }

  abbrev pub measure_all :
      List (Text × Share) → List DeviceLocator → List (Observation Share) → List (Observation Share)
  measure_all averages [] os = os
  measure_all averages (d ∷ ds) [] = []
  measure_all averages (d ∷ ds) (o ∷ os) =
      measure o.verdict (find_share d.pci_bus_id averages) o ∷ measure_all averages ds os

-- The addresses of the devices found busy.
abbrev pub is_used : Option (List ℕ) → Bool → DeviceLocator → List (ℕ × List ℕ) → Bool
is_used none self_seen device owners = false
is_used (some gpus) self_seen device owners =
    not (is_empty device.pci_bus_id)
    && ltb 0 (discounted (not self_seen && device.kfd_client) (length (union_of gpus owners [])))

abbrev pub busy_pcis :
    List (Text × List ℕ) → Bool → List (ℕ × List ℕ) → List DeviceLocator → List Text
busy_pcis ids self_seen owners [] = []
busy_pcis ids self_seen owners (d ∷ ds) =
    let rest = busy_pcis ids self_seen owners ds in
    if is_used (find_gpus (without_function d.pci_bus_id) ids) self_seen d owners
    then d.pci_bus_id ∷ rest
    else rest

module _ {Share : Type 0} (average : List Text → List (Text × Share)) where
  -- On whether there is a device to measure.
  abbrev pub measure_busy :
      List Text → List DeviceLocator → List (Observation Share) → List (Observation Share)
  measure_busy [] devices os = os
  measure_busy (pci ∷ pcis) devices os = measure_all (average (pci ∷ pcis)) devices os

  -- Sample, with the ids that the constructor found.
  unfoldable pub sample :
      Files
      → Text
      → ℕ
      → List (Text × List ℕ)
      → List DeviceLocator
      → List (Observation Share)
      → List (Observation Share)
  sample files root self_pid ids devices os =
      let pids = list_numeric_dir files (procs files root self_pid) in
      let owners = scan_pids files root self_pid pids [] in
      let self_seen = is_listed files root self_pid pids in
      measure_busy (busy_pcis ids self_seen owners devices) devices
        (observe_all ids self_seen owners devices os)
