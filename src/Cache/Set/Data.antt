-- ===== src/Cache/Set/Data.antt =====
-- The bytes that `write_line` and `read_line` of cache_set.cc copy, in a cache that keeps its data.
use model_lib.Prelude.{
  Bool, List, Option-cases, [], ap, arith, drop, false, guard, inl, inr, leb, length, length-take,
  refl, some, sym, take, true, ℕ, ◌*◌, ◌++◌, ◌+◌, ◌<◌, ◌>>◌, ◌∙◌, ◌∷◌, ◌≡◌, ◌≤◌,
}
use native.Mathlib.Nat.{mul-le-mul_right, suc-mul}
use model_lib.Cache.Replacement.{update_replacement_index}
use model_lib.Cache.Set.{
  CacheSet, copy_in, copy_out, read_into, write_from, read_line, write_line, update_if,
}

take-append {ℓ} : {A : Type ℓ} (xs ys : List A) → take (length xs) (xs ++ ys) ≡ xs
take-append [] ys = refl
take-append (x ∷ xs) ys = ap (λ zs. x ∷ zs) (take-append xs ys)

take_all {ℓ} : {A : Type ℓ} (xs : List A) → take (length xs) xs ≡ xs
take_all [] = refl
take_all (x ∷ xs) = ap (λ zs. x ∷ zs) (take_all xs)

drop-append {ℓ} : {A : Type ℓ} (xs ys : List A) → drop (length xs) (xs ++ ys) ≡ ys
drop-append [] ys = refl
drop-append (x ∷ xs) ys = drop-append xs ys

-- What was copied into an array is copied out again.
copy_out-copy_in :
    (bytes data' : List ℕ) (from : ℕ)
    → from ≤ length bytes
    → copy_out (copy_in bytes from data') from (length data') ≡ data'
copy_out-copy_in bytes data' from h =
    let size : length (take from bytes) ≡ from = omega (arith, length-take from bytes) in
    let rest = data' ++ drop (from + length data') bytes in
    let shifted =
      ap (λ k. drop k (take from bytes ++ rest)) (sym size) ∙ drop-append (take from bytes) rest in
    ap (take (length data')) shifted ∙ take-append data' (drop (from + length data') bytes)

-- A replacement update leaves the data alone.
update_if-content :
    (update : Bool) (access : List ℕ) (s : CacheSet) (w : ℕ) (r : List ℕ × CacheSet)
    → update_if update access s w ≡ some r
    → (r.1.content ≡ s.content) × (r.1.blocksize ≡ s.blocksize)
update_if-content false access s w r e = ground arith
update_if-content true access s w r e =
    elim (Option-cases (update_replacement_index (length s.blocks) access s.policy w)) [
      | inl n ↦ absurd (ground arith)
      | inr (q, f) ↦ ground arith
    ]

-- In a set that keeps its data, bytes inside a line can always be written, and whatever the
-- replacement update does, `read_line` at the same place then gives them back, in front of the rest of
-- the reader's buffer.
pub read_line-write_line :
    (access : List ℕ) (s : CacheSet) (bytes data' out : List ℕ) (line offset : ℕ)
    → s.content ≡ some bytes
    → length bytes ≡ length s.blocks * s.blocksize
    → line < length s.blocks
    → offset + length data' ≤ s.blocksize
    → ((s' : CacheSet) × (write_line access s line offset (some data') (length data') false
          ≡ some (access, s')))
      × ((update : Bool) (access' : List ℕ) (s' : CacheSet)
          → write_line access s line offset (some data') (length data') update ≡ some (access', s')
          → read_line access' s' line offset (some out) (length data') false
            ≡ some (some (data' ++ drop (length data') out), access', s'))
unfolding write_from read_into
read_line-write_line access s bytes data' out line offset c size inside fits =
    let room : leb (offset + length data') s.blocksize ≡ true = ground arith in
    let at = line * s.blocksize + offset in
    let below : line * s.blocksize + s.blocksize ≤ length s.blocks * s.blocksize =
      omega (arith, mul-le-mul_right s.blocksize inside, suc-mul line s.blocksize) in
    let written : write_from s.content at (some data') (length data')
        ≡ some (copy_in bytes at data') =
      rw c (ap (λ d. some (copy_in bytes at d)) (take_all data')) in
    let again = copy_out-copy_in bytes data' at (omega (arith, below, size)) in
    (
      (record s { content = write_from s.content at (some data') (length data') }, rw room refl),
      λ update access' s' e.
          let (content, block) =
            update_if-content update access
              (record s { content = write_from s.content at (some data') (length data') }) line
              (access', s') (ground (arith, room)) in
          let held : s'.content ≡ some (copy_in bytes at data') = content ∙ written in
          let first : 0 + length data' ≡ length data' = omega arith in
          let read : read_into s'.content (some out) at (length data')
              ≡ some (data' ++ drop (length data') out) =
            rw held (
              ap (λ d. some (copy_in out 0 d)) again
              ∙ ap (λ k. some (data' ++ drop k out)) first) in
          ap
            (λ k.
              guard (leb (offset + length data') k)
              >> some
                  (read_into s'.content (some out) (line * k + offset) (length data'), access', s'))
            block
          ∙ rw room (ap (λ b. some (b, access', s')) read),
    )
