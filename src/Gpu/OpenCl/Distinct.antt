-- ===== src/Gpu/OpenCl/Distinct.antt =====
-- A device that several platforms expose is found once.
use loadmaster.Prelude.{
  ℕ, zero, suc, ◌+◌, ◌≤◌, ◌≡◌, refl, min, Bool, true, false, ◌||◌, ◌&&◌, Option, none, some, List,
  [], ◌∷◌, ◌++◌, Text, text_eq, text_eq_iff, arith, ltb, ◌==◌, if◌then◌else◌,
}
use loadmaster.Gpu.OpenCl.{
  ClApi, device_identity, is_empty, is_seen, Found, Collected, push_on, push_device, push_devices,
  push_ids, push_count, push_platforms, collect_ids, collect_count, collect_gpu_devices,
}

is_seen-append :
    (id x : Text) (xs : List Text) → is_seen id (xs ++ x ∷ []) ≡ (text_eq x id || is_seen id xs)
is_seen-append id x [] = refl
is_seen-append id x (y ∷ ys) = ground (arith, is_seen-append id x ys)

empty_text : (id : Text) → is_empty id ≡ true → id ≡ []
empty_text [] e = refl
empty_text (c ∷ cs) e = absurd (ground (arith, e))

module _ (api : ClApi) where
  -- How many devices of a list have an identity, and how often a device stands in it.
  abbrev times : Text → List Found → ℕ
  times id [] = 0
  times id (x ∷ xs) = (if text_eq (device_identity api x.1) id then 1 else 0) + times id xs

  abbrev pub occurrences : Found → List Found → ℕ
  occurrences y [] = 0
  occurrences y (x ∷ xs) = (if (x.0 == y.0) && (x.1 == y.1) then 1 else 0) + occurrences y xs

  times-append :
      (id : Text) (xs : List Found) (x : Found)
      → times id (xs ++ x ∷ []) ≡ times id xs + times id (x ∷ [])
  times-append id [] x = omega arith
  times-append id (y ∷ ys) x = omega (arith, times-append id ys x)

  occurrences-append :
      (y : Found) (xs : List Found) (x : Found)
      → occurrences y (xs ++ x ∷ []) ≡ occurrences y xs + occurrences y (x ∷ [])
  occurrences-append y [] x = omega arith
  occurrences-append y (z ∷ zs) x = omega (arith, occurrences-append y zs x)

  -- What was collected from the devices that were listed.
  pub record Merged (listed out : List Found) : Type 0 where
    pub once : (id : Text) → is_empty id ≡ false → times id out ≡ min 1 (times id listed)
    pub unidentified : times [] out ≡ times [] listed
    pub listed_only : (x : Found) → occurrences x out ≤ occurrences x listed

  record Sound (listed : List Found) (c : Collected) : Type 0 where
    merged : Merged listed c.out
    knows : (id : Text) → is_empty id ≡ false → is_seen id c.seen ≡ ltb 0 (times id listed)

  -- The identity of a device is another than one that differs in being empty.
  other_identity : (a b : Text) → is_empty a ≡ true → is_empty b ≡ false → text_eq a b ≡ false
  other_identity a b e n = ground (arith, text_eq_iff a b, e, n)

  push_on-Sound :
      (empty known : Bool) (x : Found) (listed : List Found) (c : Collected)
      → is_empty (device_identity api x.1) ≡ empty
      → is_seen (device_identity api x.1) c.seen ≡ known
      → Sound listed c
      → Sound (listed ++ x ∷ []) (push_on empty known (device_identity api x.1) x c)
  push_on-Sound true known x listed c e k s =
      let id = device_identity api x.1 in
      record {
        merged = record {
          once = λ other n. ground (
            arith,
            times-append other listed x,
            times-append other c.out x,
            other_identity id other e n,
            s.merged.once other n,
          );
          unidentified =
              ground
                (arith, times-append [] listed x, times-append [] c.out x, s.merged.unidentified);
          listed_only = λ y. ground (
            arith,
            occurrences-append y listed x,
            occurrences-append y c.out x,
            s.merged.listed_only y,
          );
        };
        knows = λ other n.
            ground
              (arith, times-append other listed x, other_identity id other e n, s.knows other n);
      }
  push_on-Sound false true x listed c e k s =
      let id = device_identity api x.1 in
      record {
        merged = record {
          once = λ other n. ground (
            arith,
            times-append other listed x,
            text_eq_iff id other,
            s.merged.once other n,
            s.knows other n,
            k,
          );
          unidentified =
              ground (arith, times-append [] listed x, text_eq_iff id [], e, s.merged.unidentified);
          listed_only = λ y. ground (arith, occurrences-append y listed x, s.merged.listed_only y);
        };
        knows = λ other n.
            ground (arith, times-append other listed x, text_eq_iff id other, s.knows other n, k);
      }
  push_on-Sound false false x listed c e k s =
      let id = device_identity api x.1 in
      record {
        merged = record {
          once = λ other n. ground (
            arith,
            times-append other listed x,
            times-append other c.out x,
            text_eq_iff id other,
            s.merged.once other n,
            s.knows other n,
            k,
          );
          unidentified =
              ground
                (arith, times-append [] listed x, times-append [] c.out x, s.merged.unidentified);
          listed_only = λ y. ground (
            arith,
            occurrences-append y listed x,
            occurrences-append y c.out x,
            s.merged.listed_only y,
          );
        };
        knows = λ other n.
            ground
              (arith, times-append other listed x, is_seen-append other id c.seen, s.knows other n);
      }

  push_device-Sound :
      (x : Found) (listed : List Found) (c : Collected)
      → Sound listed c
      → Sound (listed ++ x ∷ []) (push_device api x c)
  unfolding push_device
  push_device-Sound x listed c s =
      let id = device_identity api x.1 in
      push_on-Sound (is_empty id) (is_seen id c.seen) x listed c refl refl s

  -- The devices listed, those of a platform behind the others.
  abbrev listed_devices : ℕ → List ℕ → List Found → List Found
  listed_devices p [] listed = listed
  listed_devices p (d ∷ ds) listed = listed_devices p ds (listed ++ (p, d) ∷ [])

  abbrev or_nothing : Option (List ℕ) → List ℕ
  or_nothing none = []
  or_nothing (some ds) = ds

  -- What a platform lists, if it answers, on the count that it gave.
  abbrev answered : ℕ → Option ℕ → List ℕ
  answered p none = []
  answered p (some zero) = []
  answered p (some (suc n)) = or_nothing (api.device_ids p (suc n))

  abbrev listed_by : List ℕ → List Found → List Found
  listed_by [] listed = listed
  listed_by (p ∷ ps) listed =
      listed_by ps (listed_devices p (answered p (api.device_count p)) listed)

  abbrev platforms_on : Option ℕ → List ℕ
  platforms_on none = []
  platforms_on (some zero) = []
  platforms_on (some (suc n)) = or_nothing (api.platform_ids (suc n))

  -- Every device that any platform lists.
  abbrev pub all_listed : List Found
  all_listed = listed_by (platforms_on api.platform_count) []

  push_devices-Sound :
      (p : ℕ) (ds : List ℕ) (listed : List Found) (c : Collected)
      → Sound listed c
      → Sound (listed_devices p ds listed) (push_devices api p ds c)
  push_devices-Sound p [] listed c s = s
  push_devices-Sound p (d ∷ ds) listed c s =
      push_devices-Sound p ds (listed ++ (p, d) ∷ []) (push_device api (p, d) c)
        (push_device-Sound (p, d) listed c s)

  push_ids-Sound :
      (p : ℕ) (ids : Option (List ℕ)) (listed : List Found) (c : Collected)
      → Sound listed c
      → Sound (listed_devices p (or_nothing ids) listed) (push_ids api p ids c)
  push_ids-Sound p none listed c s = s
  push_ids-Sound p (some ds) listed c s = push_devices-Sound p ds listed c s

  push_count-Sound :
      (p : ℕ) (n : Option ℕ) (listed : List Found) (c : Collected)
      → Sound listed c
      → Sound (listed_devices p (answered p n) listed) (push_count api p n c)
  push_count-Sound p none listed c s = s
  push_count-Sound p (some zero) listed c s = s
  push_count-Sound p (some (suc n)) listed c s =
      push_ids-Sound p (api.device_ids p (suc n)) listed c s

  push_platforms-Sound :
      (ps : List ℕ) (listed : List Found) (c : Collected)
      → Sound listed c
      → Sound (listed_by ps listed) (push_platforms api ps c)
  push_platforms-Sound [] listed c s = s
  push_platforms-Sound (p ∷ ps) listed c s =
      push_platforms-Sound ps (listed_devices p (answered p (api.device_count p)) listed)
        (push_count api p (api.device_count p) c)
        (push_count-Sound p (api.device_count p) listed c s)

  empty-Sound : Sound [] (record { seen = []; out = [] })
  empty-Sound = record {
    merged = record { once = λ id n. refl; unidentified = refl; listed_only = λ x. omega arith };
    knows = λ id n. refl;
  }

  collect_ids-Merged :
      (ids : Option (List ℕ)) → Merged (listed_by (or_nothing ids) []) (collect_ids api ids)
  collect_ids-Merged none = empty-Sound.merged
  collect_ids-Merged (some ps) =
      let s : Sound (listed_by ps []) (push_platforms api ps (record { seen = []; out = [] })) =
        push_platforms-Sound ps [] (record { seen = []; out = [] }) empty-Sound in
      s.merged

  collect_count-Merged :
      (n : Option ℕ) → Merged (listed_by (platforms_on n) []) (collect_count api n)
  collect_count-Merged none = empty-Sound.merged
  collect_count-Merged (some zero) = empty-Sound.merged
  collect_count-Merged (some (suc n)) = collect_ids-Merged (api.platform_ids (suc n))

-- Whatever the platforms answer: of the devices listed that have the same identity, exactly one is
-- found; all those without an identity are found; and no device is found more often than it is
-- listed.
pub collect_gpu_devices-Merged :
    (api : ClApi) → Merged api (all_listed api) (collect_gpu_devices (some api))
collect_gpu_devices-Merged api = collect_count-Merged api api.platform_count
