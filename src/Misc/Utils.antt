-- ===== src/Misc/Utils.antt =====
-- utils.cc: logarithms of 32-bit numbers by a binary search on the bits.
use model_lib.Prelude.{
  Bool-cases, Option, ap, arith, false, if◌then◌else◌, inl, inr, none, refl, some, ℕ, ◌%◌, ◌*◌, ◌+◌,
  ◌-◌, ◌/◌, ◌<◌, ◌==◌, ◌^◌, ◌∙◌, ◌≡◌, ◌≤◌,
}
use model_lib.Prelude.Bits.{bit_and_high, pow-add}
use native.Mathlib.Nat.{
  one-le-pow, div-div-eq-div-mul, div-lt_iff_lt-mul, div-add-mod', mod-lt, lt-div-mul-add,
}
use Prim.Native.Nat.{bit_and}

-- `if (n & mask) { p += k; n >>= k; }` on the pair of `p` and `n`.
pub halve : ℕ → ℕ → ℕ × ℕ → ℕ × ℕ
halve mask k (p, n) = if bit_and n mask == 0 then (p, n) else (p + k, n / 2 ^ k)

-- The last test, which does not shift.
pub last_bit : ℕ × ℕ → ℕ
last_bit (p, n) = if bit_and n 0x2 == 0 then p else p + 1

-- `none` is the result -1.
pub floor_log2 : ℕ → Option ℕ
floor_log2 n =
    if n == 0
    then none
    else some (last_bit (halve 0xc 2 (halve 0xf0 4 (halve 0xff00 8 (halve 0xffff_0000 16 (0, n))))))

-- `floorLog2(n - 1) + 1` on 32-bit words.
abbrev pub ceil_log2 : ℕ → ℕ
ceil_log2 n = elim (floor_log2 ((n + 2 ^ 32 - 1) % 2 ^ 32)) [ none ↦ 0 | some p ↦ p + 1 ]

floor_log2_pos :
    (n : ℕ)
    → (n == 0) ≡ false
    → floor_log2 n
      ≡ some (last_bit (halve 0xc 2 (halve 0xf0 4 (halve 0xff00 8 (halve 0xffff_0000 16 (0, n))))))
unfolding floor_log2
floor_log2_pos n h = rw (h, floor_log2)

-- What holds between two tests: `n` is the input `x` shifted by `p`, and has at most `w` bits.
abbrev Shifted : ℕ → ℕ → ℕ × ℕ → Type 0
Shifted x w (p, n) = (n ≡ x / 2 ^ p) × (n < 2 ^ w) × (0 < n)

halve-Shifted :
    (x mask k : ℕ) (s : ℕ × ℕ)
    → mask ≡ (2 ^ k - 1) * 2 ^ k
    → Shifted x (k + k) s
    → Shifted x k (halve mask k s)
unfolding halve
halve-Shifted x mask k (p, n) e (at, small, pos) =
    let high : bit_and n mask ≡ n / 2 ^ k * 2 ^ k = rw e (bit_and_high k k n small) in
    let fits : n / 2 ^ k < 2 ^ k =
      (div-lt_iff_lt-mul (one-le-pow k 2 (omega arith))).1 (omega (arith, pow-add k k)) in
    let moved : n / 2 ^ k ≡ x / 2 ^ (p + k) =
      rw (at, div-div-eq-div-mul x (2 ^ p) (2 ^ k), pow-add p k) in
    elim (Bool-cases (n / 2 ^ k == 0)) [
      | inl z ↦
          let q : n / 2 ^ k ≡ 0 = ground arith in
          let clear : bit_and n mask ≡ 0 = high ∙ rw q (omega arith) in
          let under : n < 2 ^ k = omega (
            arith,
            lt-div-mul-add {a = n} (one-le-pow k 2 (omega arith)),
            ap (λ (y : ℕ). y * 2 ^ k) q,
          ) in
          rw clear (at, under, pos)
      | inr z ↦
          let q : 0 < n / 2 ^ k = ground arith in
          let hit : (bit_and n mask == 0) ≡ false =
            rw high (positive (n / 2 ^ k) (2 ^ k) q (one-le-pow k 2 (omega arith))) in
          rw hit (moved, fits, q)
    ]
  where
    positive : (a b : ℕ) → 0 < a → 0 < b → (a * b == 0) ≡ false
    positive a b h h' = let g : 0 < a * b = grind arith in ground arith

-- The start of the search, for a 32-bit number.
start-Shifted : (n : ℕ) → 0 < n → n < 2 ^ 32 → Shifted n 32 (0, n)
start-Shifted n h small = (omega arith, small, h)

last_bit_lem : (x : ℕ) (s : ℕ × ℕ) → Shifted x 2 s → x / 2 ^ last_bit s ≡ 1
unfolding last_bit
last_bit_lem x (p, n) (at, small, pos) =
    let high : bit_and n 2 ≡ n / 2 * 2 = bit_and_high 1 1 n small in
    let moved : x / 2 ^ (p + 1) ≡ n / 2 = rw (pow-add p 1, ← div-div-eq-div-mul x (2 ^ p) 2, at) in
    ground (arith, high, moved)

floor_of_div : (x p : ℕ) → x / 2 ^ p ≡ 1 → (2 ^ p ≤ x) × (x < 2 ^ (p + 1))
floor_of_div x p e =
    let whole = div-add-mod' x (2 ^ p) in
    let one : x / 2 ^ p * 2 ^ p ≡ 2 ^ p = rw e (omega arith) in
    let rest = mod-lt x {m = 2 ^ p} (one-le-pow p 2 (omega arith)) in
    (omega (arith, whole, one), omega (arith, whole, one, rest, pow-add p 1))

-- The search finds the place of the highest bit of every positive 32-bit number.
pub floor_log2_bounds :
    (n : ℕ)
    → 0 < n
    → n < 2 ^ 32
    → (p : ℕ) × (floor_log2 n ≡ some p) × (2 ^ p ≤ n) × (n < 2 ^ (p + 1))
floor_log2_bounds n h small =
    let s16 = halve-Shifted n 0xffff_0000 16 (0, n) refl (start-Shifted n h small) in
    let s8 = halve-Shifted n 0xff00 8 _ refl s16 in
    let s4 = halve-Shifted n 0xf0 4 _ refl s8 in
    let s2 = halve-Shifted n 0xc 2 _ refl s4 in
    let at = last_bit_lem n _ s2 in
    let some_n : (n == 0) ≡ false = ground arith in
    let p = last_bit (halve 0xc 2 (halve 0xf0 4 (halve 0xff00 8 (halve 0xffff_0000 16 (0, n))))) in
    let bounds = floor_of_div n p at in (p, floor_log2_pos n some_n, bounds.0, bounds.1)
