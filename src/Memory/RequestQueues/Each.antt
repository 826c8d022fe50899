-- ===== src/Memory/RequestQueues/Each.antt =====
-- A property of every queued request and the address that it is queued for.
use model_lib.Prelude.{
  ==_iff, All, All-append, All-get_elem?, All-set, Bool-cases, List, Option, [], inl, inr, none,
  some, subst, subst_some, ℕ, ◌++◌, ◌==◌, ◌∷◌, ◌≡◌,
}
use model_lib.Memory.RequestQueues.{
  ReqQueueList, queue_or_new, enqueue, queue_left, dequeue_from, dequeue, replace_front, set_front,
  front_of, front,
}

module _ {R : Type 0} (P : ℕ → R → Type 0) where
  abbrev pub Each : ReqQueueList R → Type 0
  Each q = (a : ℕ) → All (P a) (queue_or_new (q a))

  pub Each-enqueue : (q : ReqQueueList R) (a : ℕ) (r : R) → Each q → P a r → Each (enqueue q a r)
  unfolding enqueue
  Each-enqueue q a r h p b = elim (Bool-cases (a == b)) [
    | inl e ↦ rw e (
        subst (λ t. All (P t) (queue_or_new (q a) ++ r ∷ [])) ((==_iff a b).0 e)
          (All-append (P a) (queue_or_new (q a)) _ (h a) (p, tt)))
    | inr e ↦ rw e (h b)
  ]

  replace_front-All :
      (a : ℕ) (r : R) (o : Option (List R))
      → All (P a) (queue_or_new o)
      → P a r
      → All (P a) (queue_or_new (replace_front r o))
  replace_front-All a r none h p = tt
  replace_front-All a r (some l) h p = All-set (P a) l 0 r h p

  pub Each-set_front :
      (q : ReqQueueList R) (a : ℕ) (r : R) → Each q → P a r → Each (set_front q a r)
  unfolding set_front
  Each-set_front q a r h p b = elim (Bool-cases (a == b)) [
    | inl e ↦ rw e (
        subst (λ t. All (P t) (queue_or_new (replace_front r (q a)))) ((==_iff a b).0 e)
          (replace_front-All a r (q a) (h a) p))
    | inr e ↦ rw e (h b)
  ]

  queue_left-All : (a : ℕ) (l : List R) → All (P a) l → All (P a) (queue_or_new (queue_left l))
  queue_left-All a [] h = tt
  queue_left-All a (r ∷ rs) h = h

  dequeue_from-Each :
      (q : ReqQueueList R) (a : ℕ) (o : Option (List R)) {r : R × ReqQueueList R}
      → Each q
      → All (P a) (queue_or_new o)
      → dequeue_from q a o ≡ some r
      → Each r.1
  dequeue_from-Each q a none h k e = cc
  dequeue_from-Each q a (some []) h k e = cc
  dequeue_from-Each q a (some (x ∷ xs)) h k e =
      subst_some (λ (y : R × ReqQueueList R). Each y.1) e
        λ b. elim (Bool-cases (a == b)) [
          | inl t ↦ rw t (
              subst (λ c. All (P c) (queue_or_new (queue_left xs))) ((==_iff a b).0 t)
                (queue_left-All a xs k.1))
          | inr t ↦ rw t (h b)
        ]

  pub Each-dequeue :
      (q : ReqQueueList R) (a : ℕ) {r : R × ReqQueueList R}
      → Each q
      → dequeue q a ≡ some r
      → Each r.1
  unfolding dequeue
  Each-dequeue q a h e = dequeue_from-Each q a (q a) h (h a) e

  front_of-All :
      (a : ℕ) (o : Option (List R)) {r : R}
      → All (P a) (queue_or_new o)
      → front_of o ≡ some r
      → P a r
  front_of-All a none h e = cc
  front_of-All a (some l) h e = All-get_elem? (P a) l 0 _ h e

  pub Each-front : (q : ReqQueueList R) (a : ℕ) {r : R} → Each q → front q a ≡ some r → P a r
  unfolding front
  Each-front q a h e = front_of-All a (q a) (h a) e
