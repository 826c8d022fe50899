-- ===== src/System/Futex/DoOp.antt =====
-- `futexDoOp` of syscall_server.cc on the old value of the word that it changes.
use Prim.Native.Nat.{bit_and, bit_or, bit_xor}
use model_lib.Prelude.{
  Bool, Option, [], arith, get_elem?, if◌then◌else◌, inl, inr, ltb, none, not, refl, some, subst, ℕ,
  ◌%◌, ◌*◌, ◌+◌, ◌-◌, ◌/◌, ◌<◌, ◌==◌, ◌>>=◌, ◌^◌, ◌∷◌, ◌≡◌, ◌≤◌, ◌⊎◌,
}

-- The twelve low bits, with their sign, in 32 bits.
abbrev sign_extend : ℕ → ℕ
sign_extend x = let low = x % 2 ^ 12 in if ltb low (2 ^ 11) then low else low + (2 ^ 32 - 2 ^ 12)

-- `op`, `cmp`, `oparg` and `cmparg` of an encoded operation.
pub record FutexOp : Type 0 where
  pub op : ℕ
  pub cmp : ℕ
  pub oparg : ℕ
  pub cmparg : ℕ

unfoldable pub decode_op : ℕ → FutexOp
decode_op encoded_op = record {
  op = encoded_op / 2 ^ 28 % 8;
  cmp = encoded_op / 2 ^ 24 % 16;
  oparg = sign_extend (encoded_op / 2 ^ 12);
  cmparg = sign_extend encoded_op;
}

-- `1 << oparg`, where C defines it.
abbrev shifted_arg : ℕ → ℕ → Option ℕ
shifted_arg encoded_op oparg =
    if ltb (encoded_op % 2 ^ 32) (2 ^ 31)
    then some oparg
    else if ltb oparg 32
    then some (2 ^ oparg)
    else none

-- FUTEX_OP_SET, FUTEX_OP_ADD, FUTEX_OP_OR, FUTEX_OP_ANDN and FUTEX_OP_XOR
abbrev new_value : ℕ → ℕ → ℕ → Option ℕ
new_value op oldval oparg =
    get_elem?
      (oparg
        ∷ (oldval + oparg) % 2 ^ 32
        ∷ bit_or oldval oparg
        ∷ bit_and oldval (2 ^ 32 - 1 - oparg)
        ∷ bit_xor oldval oparg
        ∷ [])
      op

-- `int` values are ordered as words after a turn of their sign.
abbrev signed_ltb : ℕ → ℕ → Bool
signed_ltb a b = ltb ((a + 2 ^ 31) % 2 ^ 32) ((b + 2 ^ 31) % 2 ^ 32)

-- FUTEX_OP_CMP_EQ, FUTEX_OP_CMP_NE, FUTEX_OP_CMP_LT, FUTEX_OP_CMP_LE, FUTEX_OP_CMP_GT and
-- FUTEX_OP_CMP_GE
abbrev compared : ℕ → ℕ → ℕ → Option Bool
compared cmp oldval cmparg =
    get_elem?
      ((oldval == cmparg)
        ∷ not (oldval == cmparg)
        ∷ signed_ltb oldval cmparg
        ∷ not (signed_ltb cmparg oldval)
        ∷ signed_ltb cmparg oldval
        ∷ not (signed_ltb oldval cmparg)
        ∷ [])
      cmp

-- The result of the comparison, and the new value of the word.
unfoldable pub futex_do_op : ℕ → ℕ → Option (Bool × ℕ)
futex_do_op encoded_op oldval = do
  let d = decode_op encoded_op
  oparg ← shifted_arg encoded_op d.oparg
  newval ← new_value d.op oldval oparg
  ret ← compared d.cmp oldval d.cmparg
  some (ret, newval)

-- The macro FUTEX_OP of linux/futex.h, with the flag FUTEX_OP_OPARG_SHIFT.
abbrev pub encode : Bool → FutexOp → ℕ
encode shift d =
    (if shift then 2 ^ 31 else 0)
    + d.op * 2 ^ 28
    + d.cmp * 2 ^ 24
    + d.oparg % 2 ^ 12 * 2 ^ 12
    + d.cmparg % 2 ^ 12

-- The 32-bit word of a signed number of twelve bits.
abbrev pub IsShort : ℕ → Type 0
IsShort x = (x < 2 ^ 11) ⊎ ((2 ^ 32 - 2 ^ 11 ≤ x) × (x < 2 ^ 32))

sign_extend-short : (x y : ℕ) → IsShort x → y % 2 ^ 12 ≡ x % 2 ^ 12 → sign_extend y ≡ x
sign_extend-short x y (inl h) e = ground arith
sign_extend-short x y (inr h) e = ground arith

-- The fields of a word that is written as its digits.
digits_of :
    (g op cmp h k : ℕ)
    → op < 8
    → cmp < 16
    → h < 4096
    → k < 4096
    → let n = g * 2147483648 + op * 268435456 + cmp * 16777216 + h * 4096 + k in
      (n / 268435456 % 8 ≡ op) × (n / 16777216 % 16 ≡ cmp) × (n / 4096 % 4096 ≡ h) × (n % 4096 ≡ k)
digits_of g op cmp h k o c a b = (omega arith, omega arith, omega arith, omega arith)

-- `futexDoOp` reads back the fields of an operation that was encoded, with or without a shift: an
-- operation below 8, a comparison below 16, and arguments that are signed numbers of twelve bits.
pub decode_op-encode :
    (shift : Bool) (d : FutexOp)
    → d.op < 8
    → d.cmp < 16
    → IsShort d.oparg
    → IsShort d.cmparg
    → decode_op (encode shift d) ≡ d
unfolding decode_op
decode_op-encode shift d o c a b =
    let n = encode shift d in
    let (op, cmp, oparg, cmparg) =
      digits_of (if shift then 1 else 0) d.op d.cmp (d.oparg % 4096) (d.cmparg % 4096) o c
        (omega arith) (omega arith) in
    let same : (if shift then 1 else 0) * 2147483648
          + d.op * 268435456
          + d.cmp * 16777216
          + d.oparg % 4096 * 4096
          + d.cmparg % 4096
        ≡ n =
      ground arith in
    let oparg' =
      sign_extend-short d.oparg (n / 4096) a
        (subst (λ m. m / 4096 % 4096 ≡ d.oparg % 4096) same oparg) in
    let cmparg' =
      sign_extend-short d.cmparg n b (subst (λ m. m % 4096 ≡ d.cmparg % 4096) same cmparg) in
    let op' = subst (λ m. m / 268435456 % 8 ≡ d.op) same op in
    let cmp' = subst (λ m. m / 16777216 % 16 ≡ d.cmp) same cmp in
    rw (op', cmp', oparg', cmparg') refl
