-- ===== src/Base/Outcome.antt =====
-- The outcome of a Go function: a value, an error value, a run-time panic, or fuel that ran out.
use Prim.Native.Nat.{ℕ, ◌<◌}
use mathlib.Core.Path.{◌≡◌}
use mathlib.Core.List.{List}
use mathlib.Core.Option.{Option, none, some}
use Prim.Native.Nat.{◌≤◌, ◌^◌}
use mathlib.Core.Bool.{◌||◌}
use native.Mathlib.Omega.{arith}
use snake_42tokyo_tuning.Base.Test.{ltb, if◌then◌else◌, lt→ltb}
use snake_42tokyo_tuning.Base.Lists.{length, set, replicate}
use snake_42tokyo_tuning.Base.Word.{lt_int}

pub data Run {ℓ κ} (E : Type ℓ) (A : Type κ) : Type (ℓ ⊔ κ) where
  ok : A → Run E A
  err : E → Run E A
  panic : Run E A
  no_fuel : Run E A

infixl 1 ◌>>=◌
abbrev pub ◌>>=◌ {ℓ κ μ} :
    {E : Type ℓ} {A : Type κ} {B : Type μ} → Run E A → (A → Run E B) → Run E B
ok a >>= f = f a
err e >>= f = err e
panic >>= f = panic
no_fuel >>= f = no_fuel

-- An index out of range panics.
abbrev pub index {ℓ κ} : {E : Type ℓ} {A : Type κ} → Option A → Run E A
index none = panic
index (some a) = ok a

-- The run neither panics nor runs out of fuel; a value satisfies `P` and an error satisfies `Q`.
pub data Ends {ℓ κ μ ν} {E : Type ℓ} {A : Type κ} (Q : E → Type μ) (P : A → Type ν)
    : Run E A → Type (ℓ ⊔ κ ⊔ μ ⊔ ν) where
  value : {a : A} → P a → Ends Q P (ok a)
  error : {e : E} → Q e → Ends Q P (err e)

module _ {ℓ κ μ ν} {E : Type ℓ} {A : Type κ} {Q : E → Type μ} {P : A → Type ν} where
  pub Ends-bind {κ' ν'} :
      {B : Type κ'} {R : B → Type ν'} {r : Run E A} {f : A → Run E B}
      → Ends Q P r
      → ((a : A) → P a → Ends Q R (f a))
      → Ends Q R (r >>= f)
  Ends-bind (value p) k = k _ p
  Ends-bind (error q) k = error q

  pub Ends-map {ν'} :
      {R : A → Type ν'} {r : Run E A} → Ends Q P r → ((a : A) → P a → R a) → Ends Q R r
  Ends-map (value p) k = value (k _ p)
  Ends-map (error q) k = error q

  pub Ends-error {μ'} :
      {Q' : E → Type μ'} {r : Run E A} → Ends Q P r → ((e : E) → Q e → Q' e) → Ends Q' P r
  Ends-error (value p) k = value p
  Ends-error (error q) k = error (k _ q)

-- A write out of range panics.
unfoldable pub store {ℓ κ} : {E : Type ℓ} {A : Type κ} → List A → ℕ → A → Run E (List A)
store xs i v = if ltb i (length xs) then ok (set xs i v) else panic

pub store-eq-ok {ℓ κ} :
    {E : Type ℓ} {A : Type κ} (xs : List A) (i : ℕ) (v : A)
    → i < length xs
    → store {E = E} xs i v ≡ ok (set xs i v)
unfolding store
store-eq-ok xs i v h = rw (lt→ltb i (length xs) h)

-- The longest slice of 8-byte elements that `make` allocates: Go on a 64-bit Linux hands out at most
-- 2 ^ 48 bytes at once.
abbrev pub max_ints : ℕ
max_ints = 2 ^ 45

-- `make([]int, n)`, with every element set to `a`. A negative length panics, and so does one beyond what
-- can be allocated.
unfoldable pub make_ints {ℓ κ} : {E : Type ℓ} {A : Type κ} → (n : ℕ) → A → Run E (List A)
make_ints n a = if lt_int n 0 || ltb max_ints n then panic else ok (replicate n a)

pub make_ints-ok {ℓ κ} :
    {E : Type ℓ} {A : Type κ} (n : ℕ) (a : A)
    → n ≤ max_ints
    → make_ints {E = E} n a ≡ ok (replicate n a)
unfolding make_ints lt_int
make_ints-ok n a h = ground arith

pub make_ints-panic {ℓ κ} :
    {E : Type ℓ} {A : Type κ} (n : ℕ) (a : A) → max_ints < n → make_ints {E = E} n a ≡ panic
unfolding make_ints lt_int
make_ints-panic n a h = ground arith
