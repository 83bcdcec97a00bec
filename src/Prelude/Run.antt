-- ===== src/Prelude/Run.antt =====
-- How a call into the kernel ends: it returns, it reaches `_panic` (a loop that halts the machine),
-- it does what C gives no meaning to, or a loop has not ended within its fuel.
use mathlib.Core.Option.{Option, none, some}

pub data Run {ℓ} (A : Type ℓ) : Type ℓ where
  done : A → Run A
  panic : Run A
  undefined : Run A
  out_of_fuel : Run A

infixl 5 ◌>>=◌ ◌>>◌
abbrev pub ◌>>=◌ {ℓ κ} : {A : Type ℓ} {B : Type κ} → Run A → (A → Run B) → Run B
done a >>= f = f a
panic >>= f = panic
undefined >>= f = undefined
out_of_fuel >>= f = out_of_fuel

abbrev pub ◌>>◌ {ℓ} : {B : Type ℓ} → Run (Unit {0}) → Run B → Run B
m >> k = m >>= λ _. k

-- A loop with fuel that gives an option.
abbrev pub from_loop {ℓ} : {A : Type ℓ} → Option A → Run A
from_loop none = out_of_fuel
from_loop (some a) = done a
