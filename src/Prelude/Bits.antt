-- ===== src/Prelude/Bits.antt =====
-- Masks of low bits as remainders, at every width.
use Prim.Native.Nat.{
  ℕ, zero, suc, ◌+◌, ◌*◌, ◌-◌, ◌/◌, ◌%◌, ◌^◌, ◌≤◌, ◌<◌, min, bit_and, digits, bit_and-bitwise,
}
use mathlib.Core.Path.{◌≡◌, refl, sym, ap, ◌∙◌}
use native.Mathlib.Omega.{arith}
use native.Mathlib.Nat.{
  pow-suc, one-le-pow, div-add-mod, mod-eq_of_lt, mod-lt, add-mul-mod_self_left, pow-succ',
  div-div-eq-div-mul, div-lt_iff_lt-mul, mul_assoc,
}

-- The library's recursion on binary digits, at `min`; it stops when its fuel or `a` runs out.
abbrev and_to : ℕ → ℕ → ℕ → ℕ
and_to fuel a b = digits (λ _. zero) min fuel a b

-- Any two amounts of fuel that are enough give the same digits.
and_to_same : (f g a b : ℕ) → a ≤ f → a ≤ g → and_to f a b ≡ and_to g a b
and_to_same zero zero zero b h k = refl
and_to_same zero (suc g) zero b h k = refl
and_to_same (suc f) zero zero b h k = refl
and_to_same (suc f) (suc g) zero b h k = refl
and_to_same zero g (suc a) b h k = absurd (omega arith)
and_to_same (suc f) zero (suc a) b h k = absurd (omega arith)
and_to_same (suc f) (suc g) (suc a) b h k =
    let rest = and_to_same f g (suc a / 2) (b / 2) (omega arith) (omega arith) in
    omega (arith, rest)

-- The lowest digit and the others.
pub bit_and-digit : (a b : ℕ) → bit_and a b ≡ bit_and (a / 2) (b / 2) * 2 + min (a % 2) (b % 2)
bit_and-digit zero b = omega (arith, bit_and-bitwise 0 b, bit_and-bitwise 0 (b / 2))
bit_and-digit (suc a) b =
    let rest = and_to_same a (suc a / 2) (suc a / 2) (b / 2) (omega arith) (omega arith) in
    omega (arith, bit_and-bitwise (suc a) b, bit_and-bitwise (suc a / 2) (b / 2), rest)

none_below : (n a : ℕ) → a < n → bit_and a 0 ≡ 0
none_below zero a h = absurd (omega arith)
none_below (suc n) zero h = refl
none_below (suc n) (suc a) h =
    omega (arith, bit_and-digit (suc a) 0, none_below n (suc a / 2) (omega arith))

mod-double : (a p : ℕ) → 0 < p → a % (p * 2) ≡ (a / 2) % p * 2 + a % 2
mod-double a p h =
    let low = (a / 2) % p * 2 + a % 2 in
    let split : a ≡ low + p * 2 * (a / 2 / p) =
      omega (arith, ap (λ (x : ℕ). x * 2) (div-add-mod (a / 2) p)) in
    let fits : low < p * 2 = omega (arith, mod-lt (a / 2) h) in
    ap (λ x. x % (p * 2)) split ∙ add-mul-mod_self_left low (p * 2) (a / 2 / p) ∙ mod-eq_of_lt fits

-- A mask of `k` ones keeps the remainder by `2 ^ k`.
pub bit_and-ones : (k a : ℕ) → bit_and a (2 ^ k - 1) ≡ a % 2 ^ k
bit_and-ones zero a = omega (arith, none_below (suc a) a (omega arith))
bit_and-ones (suc k) a =
    let half : (2 ^ suc k - 1) / 2 ≡ 2 ^ k - 1 =
      omega (arith, pow-suc 2 k, one-le-pow k 2 (omega arith)) in
    let odd : (2 ^ suc k - 1) % 2 ≡ 1 = omega (arith, pow-suc 2 k, one-le-pow k 2 (omega arith)) in
    let rest : bit_and (a / 2) ((2 ^ suc k - 1) / 2) ≡ (a / 2) % 2 ^ k =
      ap (bit_and (a / 2)) half ∙ bit_and-ones k (a / 2) in
    bit_and-digit a (2 ^ suc k - 1)
    ∙ omega (arith, rest, odd)
    ∙ sym (mod-double a (2 ^ k) (one-le-pow k 2 (omega arith)))
    ∙ ap (λ x. a % x) (sym (pow-suc 2 k))

pub pow-add : (a b : ℕ) → 2 ^ (a + b) ≡ 2 ^ a * 2 ^ b
pow-add a zero = let e : a + 0 ≡ a = omega arith in rw e (omega arith)
pow-add a (suc b) =
    let e : a + suc b ≡ suc (a + b) = omega arith in
    rw (e, pow-suc 2 (a + b), pow-suc 2 b, pow-add a b) (omega arith)

-- A mask moved up by `k` bits.
pub bit_and_shifted : (k n m : ℕ) → bit_and n (m * 2 ^ k) ≡ bit_and (n / 2 ^ k) m * 2 ^ k
bit_and_shifted zero n m =
    let e : n / 1 ≡ n = omega arith in let f : m * 1 ≡ m = omega arith in rw (e, f) (omega arith)
bit_and_shifted (suc k) n m =
    let double : m * 2 ^ suc k ≡ 2 * (m * 2 ^ k) =
      omega (arith, ap (λ (x : ℕ). m * x) (pow-suc 2 k)) in
    let half : m * 2 ^ suc k / 2 ≡ m * 2 ^ k = omega arith in
    let twice : n / 2 ^ suc k ≡ n / 2 / 2 ^ k =
      (ap (λ x. n / x) (pow-succ' 2 k)) ∙ sym (div-div-eq-div-mul n 2 (2 ^ k)) in
    let twice_out : bit_and (n / 2 ^ suc k) m * 2 ^ suc k ≡ bit_and (n / 2 / 2 ^ k) m * 2 ^ k * 2 =
      rw (twice, pow-suc 2 k) (sym (mul_assoc _ (2 ^ k) 2)) in
    let rest : bit_and (n / 2) (m * 2 ^ suc k / 2) ≡ bit_and (n / 2 / 2 ^ k) m * 2 ^ k =
      ap (bit_and (n / 2)) half ∙ bit_and_shifted k (n / 2) m in
    bit_and-digit n (m * 2 ^ suc k) ∙ omega (arith, rest, double, twice_out)

-- A mask of `j` ones above `k` bits keeps what stands above them, if nothing stands higher.
pub bit_and_high :
    (k j n : ℕ) → n < 2 ^ (k + j) → bit_and n ((2 ^ j - 1) * 2 ^ k) ≡ n / 2 ^ k * 2 ^ k
bit_and_high k j n h =
    let fits : n / 2 ^ k < 2 ^ j =
      (div-lt_iff_lt-mul (one-le-pow k 2 (omega arith))).1 (omega (arith, pow-add k j)) in
    bit_and_shifted k n (2 ^ j - 1)
    ∙ ap (λ x. x * 2 ^ k) (bit_and-ones j (n / 2 ^ k) ∙ mod-eq_of_lt fits)
