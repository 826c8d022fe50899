-- ===== src/Memory/RequestQueues/Sizes.antt =====
-- How the operations change the numbers of requests that are queued.
use model_lib.Prelude.{
  ==_iff, ==_refl, Bool-cases, List, Option, [], arith, if◌then◌else◌, inl, inr, length,
  length-append, length-set, none, refl, some, subst, subst_some, suc, sym, true, ℕ, ◌++◌, ◌-◌,
  ◌==◌, ◌∷◌, ◌≡◌, ◌≤◌,
}
use model_lib.Memory.RequestQueues.{
  ReqQueueList, queue_or_new, enqueue, queue_left, dequeue_from, dequeue, size, is_empty,
  replace_front, set_front, front, front_of,
}

module _ {R : Type 0} where
  size-queue_left : (l : List R) → length (queue_or_new (queue_left l)) ≡ length l
  size-queue_left [] = refl
  size-queue_left (r ∷ rs) = refl

  pub size-enqueue :
      (q : ReqQueueList R) (a : ℕ) (r : R) (b : ℕ)
      → size (enqueue q a r) b ≡ (if a == b then suc (size q b) else size q b)
  unfolding size enqueue
  size-enqueue q a r b = elim (Bool-cases (a == b)) [
    | inl e ↦
        let same : a ≡ b = (==_iff a b).0 e in
        rw e (
          subst (λ t. length (queue_or_new (q t) ++ r ∷ []) ≡ suc (length (queue_or_new (q b))))
            (sym same) (omega (arith, length-append (queue_or_new (q b)) (r ∷ []))))
    | inr e ↦ rw e refl
  ]

  dequeue_from-size :
      (q : ReqQueueList R) (a : ℕ) (o : Option (List R)) (b : ℕ) {r : R × ReqQueueList R}
      → q a ≡ o
      → dequeue_from q a o ≡ some r
      → size r.1 b ≡ (if a == b then size q b - 1 else size q b)
  unfolding size
  dequeue_from-size q a none b h e = cc
  dequeue_from-size q a (some []) b h e = cc
  dequeue_from-size q a (some (x ∷ xs)) b h e =
      subst_some
        (λ (r : R × ReqQueueList R). size r.1 b ≡ (if a == b then size q b - 1 else size q b)) e
        (elim (Bool-cases (a == b)) [
          | inl t ↦
              let full : q b ≡ some (x ∷ xs) =
                subst (λ c. q c ≡ some (x ∷ xs)) ((==_iff a b).0 t) h in
              rw (t, full) (omega (arith, size-queue_left xs))
          | inr t ↦ rw t refl
        ])

  pub size-dequeue :
      (q : ReqQueueList R) (a b : ℕ) {r : R × ReqQueueList R}
      → dequeue q a ≡ some r
      → size r.1 b ≡ (if a == b then size q b - 1 else size q b)
  unfolding dequeue
  size-dequeue q a b e = dequeue_from-size q a (q a) b refl e

  replace_front-length :
      (r : R) (o : Option (List R))
      → length (queue_or_new (replace_front r o)) ≡ length (queue_or_new o)
  replace_front-length r none = refl
  replace_front-length r (some l) = length-set l 0 r

  pub size-set_front :
      (q : ReqQueueList R) (a : ℕ) (r : R) (b : ℕ) → size (set_front q a r) b ≡ size q b
  unfolding size set_front
  size-set_front q a r b = elim (Bool-cases (a == b)) [
    | inl e ↦ rw e (
        subst (λ t. length (queue_or_new (replace_front r (q t))) ≡ length (queue_or_new (q b)))
          (sym ((==_iff a b).0 e)) (replace_front-length r (q b)))
    | inr e ↦ rw e refl
  ]

  -- A queue of one request is gone after `dequeue`.
  dequeue_from-is_empty :
      (q : ReqQueueList R) (a : ℕ) (o : Option (List R)) {r : R × ReqQueueList R}
      → length (queue_or_new o) ≡ 1
      → dequeue_from q a o ≡ some r
      → is_empty r.1 a ≡ true
  unfolding is_empty
  dequeue_from-is_empty q a none h e = cc
  dequeue_from-is_empty q a (some []) h e = cc
  dequeue_from-is_empty q a (some (x ∷ [])) h e =
      subst_some (λ (r : R × ReqQueueList R). is_empty r.1 a ≡ true) e (rw (==_refl a) refl)
  dequeue_from-is_empty q a (some (x ∷ y ∷ ys)) h e = absurd (omega arith)

  pub is_empty-dequeue :
      (q : ReqQueueList R) (a : ℕ) {r : R × ReqQueueList R}
      → size q a ≡ 1
      → dequeue q a ≡ some r
      → is_empty r.1 a ≡ true
  unfolding dequeue size
  is_empty-dequeue q a h e = dequeue_from-is_empty q a (q a) h e

  front_of-size : (o : Option (List R)) {r : R} → front_of o ≡ some r → 1 ≤ length (queue_or_new o)
  front_of-size none e = cc
  front_of-size (some []) e = cc
  front_of-size (some (x ∷ xs)) e = omega arith

  pub front-size : (q : ReqQueueList R) (a : ℕ) {r : R} → front q a ≡ some r → 1 ≤ size q a
  unfolding front size
  front-size q a e = front_of-size (q a) e
