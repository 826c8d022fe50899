-- ===== src/Memory/Run.antt =====
-- How a call of the directory controller ends: with a value, in an assertion or `LOG_PRINT_ERROR`,
-- or by the end of the fuel that stands for the depth of calls; and the rules to reason about such
-- calls.
use model_lib.Prelude.{Bool, Option, false, if◌then◌else◌, none, refl, some, subst, true, ◌≡◌, ◌≢◌}

pub data Run (A : Type 0) : Type 0 where
  done : A → Run A
  failed : Run A
  exhausted : Run A

infixl 5 ◌>>=◌ ◌>>◌
abbrev pub ◌>>=◌ : {A B : Type 0} → Run A → (A → Run B) → Run B
done a >>= f = f a
failed >>= f = failed
exhausted >>= f = exhausted

abbrev pub ◌>>◌ : {B : Type 0} → Run (Unit {0}) → Run B → Run B
m >> k = m >>= λ _. k

-- `assert(b)`
abbrev pub require : Bool → Run (Unit {0})
require true = done tt
require false = failed

-- A call of a part whose assertions are modelled by `none`.
abbrev pub check : {A : Type 0} → Option A → Run A
check (some a) = done a
check none = failed

-- The run does not exhaust its fuel, and if no assertion fails, its value satisfies `P`.
pub data Ensures {A : Type 0} (P : A → Type 0) : Run A → Type 0 where
  by_value : {a : A} → P a → Ensures P (done a)
  by_failure : Ensures P failed

module _ {A B : Type 0} (P : B → Type 0) where
  pub Ensures-bind :
      (Q : A → Type 0) (m : Run A) (f : A → Run B)
      → Ensures Q m
      → ((a : A) → Q a → Ensures P (f a))
      → Ensures P (m >>= f)
  Ensures-bind Q _ f (by_value q) k = k _ q
  Ensures-bind Q _ f by_failure k = by_failure

  pub Ensures-check :
      (o : Option A) (f : A → Run B)
      → ((a : A) → o ≡ some a → Ensures P (f a))
      → Ensures P (check o >>= f)
  Ensures-check (some a) f k = k a refl
  Ensures-check none f k = by_failure

module _ {B : Type 0} (P : B → Type 0) where
  pub Ensures-require :
      (b : Bool) (m : Run B) → (b ≡ true → Ensures P m) → Ensures P (require b >> m)
  Ensures-require true m k = k refl
  Ensures-require false m k = by_failure

  pub Ensures-if :
      (b : Bool) (m n : Run B)
      → (b ≡ true → Ensures P m)
      → (b ≡ false → Ensures P n)
      → Ensures P (if b then m else n)
  Ensures-if true m n k l = k refl
  Ensures-if false m n k l = l refl

  pub Ensures-weaken :
      (Q : B → Type 0) (m : Run B) → Ensures Q m → ((b : B) → Q b → P b) → Ensures P m
  Ensures-weaken Q _ (by_value q) k = by_value (k _ q)
  Ensures-weaken Q _ by_failure k = by_failure

  pub Ensures-value : (b : B) (m : Run B) → Ensures P m → m ≡ done b → P b
  Ensures-value b _ (by_value {a} p) e = subst P (cc) p
  Ensures-value b _ by_failure e = cc

  pub Ensures-exhausted : (m : Run B) → Ensures P m → m ≢ exhausted
  Ensures-exhausted _ (by_value p) e = cc
  Ensures-exhausted _ by_failure e = cc
