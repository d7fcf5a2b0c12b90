-- ===== src/Gpu/Driver.antt =====
-- The account of what a GPU backend holds from its vendor's driver (src/gpu/nvidia, amd, intel and
-- opencl). A backend's calls and their answers are kept in a log, newest first; what a driver
-- answers is a parameter that may depend on the whole log.
use loadmaster.Prelude.{
  ℕ, ◌+◌, ◌-◌, ◌≤◌, ◌≡◌, refl, ap, Bool, true, false, ◌&&◌, Option, none, some, List, [], ◌∷◌,
  arith, leb, ◌==◌, if◌then◌else◌, zero, suc, ◌<◌, ◌++◌, length, get_elem?,
}

-- What a driver hands out, each with its destructor.
pub data Kind : Type 0 where
  context code kernel program memory queue command_list build_log : Kind

pub record Resource : Type 0 where
  pub kind : Kind
  pub handle : ℕ

-- What a call does with a resource; `null_use` passes a null pointer where one is dereferenced.
pub data Effect : Type 0 where
  acquires releases uses : Resource → Effect
  null_use : Effect

pub record Entry (Call Answer : Type 0) : Type 0 where
  pub call : Call
  pub answer : Answer

-- A backend's device with the log of its calls.
pub record Session (Call Answer Gpu : Type 0) : Type 0 where
  pub log : List (Entry Call Answer)
  pub gpu : Gpu

-- What an operation that may fail returns.
pub record Outcome (Call Answer Gpu : Type 0) : Type 0 where
  pub session : Session Call Answer Gpu
  pub ok : Bool

module _ {Call Answer Gpu : Type 0} where
  abbrev pub fails : Session Call Answer Gpu → Outcome Call Answer Gpu
  fails s = record { session = s; ok = false }

  abbrev pub succeeds : Session Call Answer Gpu → Outcome Call Answer Gpu
  succeeds s = record { session = s; ok = true }

  abbrev pub with_gpu : Gpu → Session Call Answer Gpu → Session Call Answer Gpu
  with_gpu g s = record s { gpu = g }

  module _ (driver : List (Entry Call Answer) → Call → Answer) where
    abbrev pub answer : Call → Session Call Answer Gpu → Answer
    answer c s = driver s.log c

    abbrev pub logged : Call → Session Call Answer Gpu → Session Call Answer Gpu
    logged c s = record s { log = record { call = c; answer = driver s.log c } ∷ s.log }

kind_number : Kind → ℕ
kind_number context = 0
kind_number code = 1
kind_number kernel = 2
kind_number program = 3
kind_number memory = 4
kind_number queue = 5
kind_number command_list = 6
kind_number build_log = 7

-- 1 if they are the same resource.
unfoldable pub tally : Resource → Resource → ℕ
unfolding kind_number
tally r x = if kind_number r.kind == kind_number x.kind && r.handle == x.handle then 1 else 0

-- How often `r` is held after an effect; `none` is a fault: a release or a use of what is not held.
abbrev pub after_effect : Resource → Effect → Option ℕ → Option ℕ
after_effect r e none = none
after_effect r (acquires x) (some n) = some (tally r x + n)
after_effect r (releases x) (some n) = if leb (tally r x) n then some (n - tally r x) else none
after_effect r (uses x) (some n) = if leb (tally r x) n then some n else none
after_effect r null_use (some n) = none

abbrev pub after_effects : Resource → List Effect → Option ℕ → Option ℕ
after_effects r [] held = held
after_effects r (e ∷ es) held = after_effects r es (after_effect r e held)

-- How often `r` is held at the end of a log.
module _ {Call Answer : Type 0} (effects : Call → Answer → List Effect) where
  abbrev pub held_after : Resource → List (Entry Call Answer) → Option ℕ
  held_after r [] = some 0
  held_after r (e ∷ older) = after_effects r (effects e.call e.answer) (held_after r older)

-- What a pointer of the backend accounts for.
abbrev pub owned : Resource → Kind → Option ℕ → ℕ
owned r k none = 0
owned r k (some h) = tally r (record { kind = k; handle = h })

abbrev pub acquired : Kind → Option ℕ → List Effect
acquired k none = []
acquired k (some h) = acquires (record { kind = k; handle = h }) ∷ []

abbrev pub released : Kind → ℕ → List Effect
released k h = releases (record { kind = k; handle = h }) ∷ []

abbrev pub used : Kind → Option ℕ → List Effect
used k none = null_use ∷ []
used k (some h) = uses (record { kind = k; handle = h }) ∷ []

abbrev pub is_some : Option ℕ → Bool
is_some none = false
is_some (some h) = true

pub after-acquires :
    (r x : Resource) (n : ℕ) → after_effect r (acquires x) (some n) ≡ some (tally r x + n)
after-acquires r x n = refl

-- Giving up what is held, with `n` of other holdings.
pub after-releases :
    (r x : Resource) (m n : ℕ) → m ≡ tally r x + n → after_effect r (releases x) (some m) ≡ some n
after-releases r x m n e = ground arith

pub after-uses :
    (r x : Resource) (m : ℕ) → tally r x ≤ m → after_effect r (uses x) (some m) ≡ some m
after-uses r x m h = ground arith

pub after-acquired :
    (r : Resource) (k : Kind) (a : Option ℕ) (n : ℕ)
    → after_effects r (acquired k a) (some n) ≡ some (owned r k a + n)
after-acquired r k none n = ap some (omega arith)
after-acquired r k (some h) n = refl

-- What a list of pointers accounts for.
abbrev pub owned_all : Resource → Kind → List ℕ → ℕ
owned_all r k [] = 0
owned_all r k (h ∷ hs) = owned r k (some h) + owned_all r k hs

pub owned_all-append :
    (r : Resource) (k : Kind) (xs ys : List ℕ)
    → owned_all r k (xs ++ ys) ≡ owned_all r k xs + owned_all r k ys
owned_all-append r k [] ys = omega arith
owned_all-append r k (x ∷ xs) ys = omega (arith, owned_all-append r k xs ys)

pub chunk_at :
    (ps : List ℕ) (i : ℕ)
    → i < length ps
    → (p : ℕ) × (get_elem? ps i ≡ some p)
      × ((r : Resource) → owned r memory (some p) ≤ owned_all r memory ps)
chunk_at [] i h = absurd (omega arith)
chunk_at (p ∷ ps) zero h = (p, refl, λ r. omega arith)
chunk_at (p ∷ ps) (suc i) h =
    let (q, e, le) = chunk_at ps i (omega arith) in (q, e, λ r. omega (arith, le r))

-- What a worker asks of its device (GpuDevice, src/gpu/device.h): a block of so many bytes, its
-- release, or a launch of so many iterations with so much traffic.
pub data Request : Type 0 where
  allocate : ℕ → Request
  release : Request
  run : ℕ → ℕ → Request
