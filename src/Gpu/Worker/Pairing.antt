-- ===== src/Gpu/Worker/Pairing.antt =====
-- What SyncMemory asks of the device.
use loadmaster.Prelude.{
  ◌≡◌, refl, Bool, true, false, ◌&&◌, ◌||◌, not, List, [], ◌∷◌, ◌++◌, arith, ◌==◌,
}
use loadmaster.Gpu.Worker.{
  Worker, DeviceCall, allocated, allocation_failed, released, Synced, release, hold, sync_on,
  sync_memory,
}

-- The calls of a device whose block is held or not: an allocation only without a block, a release
-- only of one.
abbrev pub WellPaired : Bool → List DeviceCall → Type 0
WellPaired held [] = Unit
WellPaired held (allocated ∷ calls) = (held ≡ false) × WellPaired true calls
WellPaired held (allocation_failed ∷ calls) = (held ≡ false) × WellPaired false calls
WellPaired held (released ∷ calls) = (held ≡ true) × WellPaired false calls

-- Calls from one worker to the next, in front of any calls that fit the next.
abbrev pub Leads : Worker → Synced → Type 0
Leads w s =
    (more : List DeviceCall)
    → WellPaired s.worker.memory_held more
    → WellPaired w.memory_held (s.calls ++ more)

release-Leads : (held : Bool) (w : Worker) → w.memory_held ≡ held → Leads w (release held w)
release-Leads true w e = λ more p. rw e (refl, p)
release-Leads false w e = λ more p. p

free : (a b : Bool) → (a || b) ≡ false → a ≡ false
free true b h = h
free false b h = refl

hold-Leads :
    (busy : Bool) (w : Worker) (has_room : Bool)
    → (w.memory_held || w.memory_failed) ≡ busy
    → Leads w (hold busy w has_room)
hold-Leads true w has_room e = λ more p. p
hold-Leads false w true e = λ more p. (free w.memory_held w.memory_failed e, p)
hold-Leads false w false e = λ more p. (free w.memory_held w.memory_failed e, p)

sync_on-Leads :
    (absent sharing : Bool) (w : Worker) (has_room : Bool)
    → Leads w (sync_on absent sharing w has_room)
sync_on-Leads true sharing w has_room = λ more p. p
sync_on-Leads false true w has_room = release-Leads w.memory_held w refl
sync_on-Leads false false w has_room = hold-Leads (w.memory_held || w.memory_failed) w has_room refl

-- What a call of SyncMemory asks of the device fits before and after.
pub sync_memory-Leads :
    (w : Worker) (sharing has_room : Bool) → Leads w (sync_memory w sharing has_room)
unfolding sync_memory
sync_memory-Leads w sharing has_room =
    sync_on-Leads (not w.has_device || w.memory_bytes == 0) sharing w has_room

-- A block is held only on a device that is there, and with memory to hold.
abbrev pub IsHolder : Worker → Type 0
IsHolder w = (w.memory_held && (not w.has_device || w.memory_bytes == 0)) ≡ false

pub sync_memory-IsHolder :
    (w : Worker) (sharing has_room : Bool)
    → IsHolder w
    → IsHolder (sync_memory w sharing has_room).worker
unfolding sync_memory
sync_memory-IsHolder w sharing has_room h = ground arith

-- With others on the device no block is left.
pub sync_memory-frees :
    (w : Worker) (has_room : Bool)
    → IsHolder w
    → (sync_memory w true has_room).worker.memory_held ≡ false
unfolding sync_memory
sync_memory-frees w has_room h = ground arith

pub sync_memory-has_device :
    (w : Worker) (sharing has_room : Bool)
    → (sync_memory w sharing has_room).worker.has_device ≡ w.has_device
unfolding sync_memory
sync_memory-has_device w sharing has_room = ground arith
