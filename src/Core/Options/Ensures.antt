-- ===== src/Core/Options/Ensures.antt =====
-- Postconditions of the checks in ProcessCliArguments: what a success ensures.
use mathlib.Core.Option
use loadmaster.Prelude.{◌≡◌, refl, Bool, true, false, Option, none, some, if◌then◌else◌}
use loadmaster.Prelude.Int.{ℤ}
use loadmaster.Prelude.Numbers.{IsInt}
use loadmaster.Core.Options.{Options, when_given, ◌>>=◌}

-- What a success ensures.
abbrev pub Ensures {ℓ κ} : {A : Type ℓ} → (A → Type κ) → Option A → Type κ
Ensures P none = Unit
Ensures P (some a) = P a

module _ {ℓ κ μ} {A : Type ℓ} {B : Type κ} (P : A → Type μ) (Q : B → Type μ) where
  pub Ensures-bind :
      (m : Option A) (f : A → Option B)
      → Ensures P m
      → ((a : A) → P a → Ensures Q (f a))
      → Ensures Q (m >>= f)
  Ensures-bind none f h k = tt
  Ensures-bind (some a) f h k = k a h

module _ {ℓ} {A : Type ℓ} (P : Options → Type 0) (o : Options) where
  pub Ensures-when_given :
      (given : Option A) (f : A → Option Options)
      → P o
      → ((v : A) → Ensures P (f v))
      → Ensures P (when_given given o f)
  Ensures-when_given none f h k = h
  Ensures-when_given (some v) f h k = k v

pub Ensures-unless {ℓ κ} :
    {A : Type ℓ} (P : A → Type κ) (refused : Bool) (r : Option A)
    → (refused ≡ false → Ensures P r)
    → Ensures P (if refused then none else r)
Ensures-unless P true r h = tt
Ensures-unless P false r h = h refl

pub Ensures-map {ℓ κ μ} :
    {A : Type ℓ} {B : Type κ} (P : B → Type μ) (f : A → B) (r : Option A)
    → ((a : A) → r ≡ some a → P (f a))
    → Ensures P (Option.map f r)
Ensures-map P f none h = tt
Ensures-map P f (some a) h = h a refl

pub anything {ℓ} : {A : Type ℓ} (r : Option A) → Ensures (λ _. Unit {0}) r
anything none = tt
anything (some a) = tt

-- What a given argument is.
abbrev pub Given {ℓ κ} : {A : Type ℓ} → (A → Type κ) → Option A → Type κ
Given P none = Unit
Given P (some a) = P a

pub given_int :
    (P : Options → Type 0) (o : Options) (given : Option ℤ) (f : ℤ → Option Options)
    → Given IsInt given
    → P o
    → ((v : ℤ) → IsInt v → Ensures P (f v))
    → Ensures P (when_given given o f)
given_int P o none f g h k = h
given_int P o (some v) f g h k = k v g
