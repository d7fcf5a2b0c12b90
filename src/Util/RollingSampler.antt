-- ===== src/Util/RollingSampler.antt =====
-- RollingSampler, src/util/rolling_sampler.h: a ring buffer with a running sum. The type of the
-- values is a parameter, with its sum, its difference and its mean of a sum over a count, which
-- rounds for integers.
pub mod Mean
mod Tests
use loadmaster.Prelude.{
  ℕ, suc, Bool, true, false, List, [], ◌∷◌, ◌++◌, ltb, leb, if◌then◌else◌, length, get_or, set,
}

pub record Sampler (Value : Type 0) : Type 0 where
  pub capacity : ℕ
  pub index : ℕ
  pub values : List Value
  pub sum : Value
  pub mean_cached : Value

module _ {Value : Type 0} (zero_value : Value) (add sub : Value → Value → Value)
    (mean : Value → ℕ → Value) where
  abbrev pub new_sampler : ℕ → Sampler Value
  new_sampler size = record {
    capacity = size;
    index = 0;
    values = [];
    sum = zero_value;
    mean_cached = zero_value;
  }

  -- On whether there is room left.
  abbrev pub put_on : Bool → Value → Sampler Value → Sampler Value
  put_on true v s = record s { values = s.values ++ v ∷ []; sum = add s.sum v }
  put_on false v s = record s {
    sum = add (sub s.sum (get_or s.values s.index zero_value)) v;
    values = set s.values s.index v;
    index = if leb s.capacity (suc s.index) then 0 else suc s.index;
  }

  abbrev pub with_mean : Sampler Value → Sampler Value
  with_mean s = record s { mean_cached = mean s.sum (length s.values) }

  unfoldable pub insert_value : Value → Sampler Value → Sampler Value
  insert_value v s = with_mean (put_on (ltb (length s.values) s.capacity) v s)

  -- The values in their order.
  abbrev pub insert_values : List Value → Sampler Value → Sampler Value
  insert_values [] s = s
  insert_values (v ∷ vs) s = insert_values vs (insert_value v s)
