-- ===== src/Memory/RequestQueues/Fifo.antt =====
-- The request queues as lists.
use model_lib.Prelude.{
  ==_iff, ==_refl, Bool-cases, List, Option, [], ap, get_elem?, if◌then◌else◌, inl, inr, length,
  none, refl, some, subst_some, sym, true, ℕ, ◌++◌, ◌==◌, ◌↔◌, ◌∙◌, ◌∷◌, ◌≡◌, ◌≢◌,
}
use model_lib.Memory.RequestQueues.{
  ReqQueueList, is_absent, is_empty, no_requests, queue_or_new, enqueue, queue_left, dequeue_from,
  dequeue, front_of, front, size,
}

module _ {R : Type 0} where
  -- The requests that are queued for an address.
  abbrev pub queued : ReqQueueList R → ℕ → List R
  queued q a = queue_or_new (q a)

  queue_left-queued : (l : List R) → queue_or_new (queue_left l) ≡ l
  queue_left-queued [] = refl
  queue_left-queued (r ∷ rs) = refl

  -- A queue that gives its first request, and leaves the others.
  abbrev pub Dequeued : ReqQueueList R → ℕ → R → List R → Option (R × ReqQueueList R) → Type 0
  Dequeued q a r rs o =
      (q' : ReqQueueList R) × (o ≡ some (r, q'))
      × (queued q' a ≡ rs)
      × ((b : ℕ) → b ≢ a → queued q' b ≡ queued q b)

  dequeue_from-Dequeued :
      (q : ReqQueueList R) (a : ℕ) (o : Option (List R)) (r : R) (rs : List R)
      → queue_or_new o ≡ r ∷ rs
      → Dequeued q a r rs (dequeue_from q a o)
  dequeue_from-Dequeued q a none r rs h = cc
  dequeue_from-Dequeued q a (some []) r rs h = cc
  dequeue_from-Dequeued q a (some (x ∷ xs)) r rs h =
      let first : x ≡ r = cc in
      let others : xs ≡ rs = cc in
      (
        λ b. if a == b then queue_left xs else q b,
        ap (λ y. some (y, λ b. if a == b then queue_left xs else q b)) first,
        rw (==_refl a) (queue_left-queued xs ∙ others),
        λ b ne. elim (Bool-cases (a == b)) [
          | inl t ↦ absurd (ne (sym ((==_iff a b).0 t)))
          | inr t ↦ rw t refl
        ],
      )

  front_of-first :
      (o : Option (List R)) (r : R) (rs : List R) → queue_or_new o ≡ r ∷ rs → front_of o ≡ some r
  front_of-first none r rs h = cc
  front_of-first (some l) r rs h = ap (λ l. get_elem? l 0) h

  -- No queue without requests is kept: `dequeue` erases it.
  abbrev pub IsTidy : ReqQueueList R → Type 0
  IsTidy q = (a : ℕ) → q a ≢ some []

  at_or_elsewhere :
      (q : ReqQueueList R) (a : ℕ) (o : Option (List R))
      → o ≢ some []
      → IsTidy q
      → IsTidy (λ b. if a == b then o else q b)
  at_or_elsewhere q a o h t b = elim (Bool-cases (a == b)) [ inl e ↦ rw e h | inr e ↦ rw e (t b) ]

  append_filled : (l : List R) (r : R) → some (l ++ r ∷ []) ≢ some []
  append_filled [] r e = cc
  append_filled (x ∷ l) r e = cc

  queue_left_filled : (l : List R) → queue_left l ≢ some []
  queue_left_filled [] e = cc
  queue_left_filled (r ∷ rs) e = cc

  pub no_requests-IsTidy : IsTidy (no_requests {R = R})
  no_requests-IsTidy a e = cc

  pub enqueue-IsTidy : (q : ReqQueueList R) (a : ℕ) (r : R) → IsTidy q → IsTidy (enqueue q a r)
  unfolding enqueue
  enqueue-IsTidy q a r t =
      at_or_elsewhere q a (some (queue_or_new (q a) ++ r ∷ []))
        (append_filled (queue_or_new (q a)) r) t

  dequeue_from-IsTidy :
      (q : ReqQueueList R) (a : ℕ) (o : Option (List R)) (p : R × ReqQueueList R)
      → dequeue_from q a o ≡ some p
      → IsTidy q
      → IsTidy p.1
  dequeue_from-IsTidy q a none p e t = cc
  dequeue_from-IsTidy q a (some []) p e t = cc
  dequeue_from-IsTidy q a (some (r ∷ rs)) p e t =
      subst_some (λ (x : R × ReqQueueList R). IsTidy x.1) e
        (at_or_elsewhere q a (queue_left rs) (queue_left_filled rs) t)

  nothing_first :
      (q : ReqQueueList R) (a : ℕ) (o : Option (List R))
      → queue_or_new o ≡ []
      → (front_of o ≡ none) × (dequeue_from q a o ≡ none)
  nothing_first q a none h = (refl, refl)
  nothing_first q a (some []) h = (refl, refl)
  nothing_first q a (some (r ∷ rs)) h = cc

  absent-empty : (o : Option (List R)) → o ≢ some [] → (is_absent o ≡ true) ↔ (queue_or_new o ≡ [])
  absent-empty none h = (λ e. refl, λ e. refl)
  absent-empty (some []) h = absurd (h refl)
  absent-empty (some (r ∷ rs)) h = (λ e. cc, λ e. cc)

  -- In a table without empty queues the queue of an address is a list: `enqueue` appends to it,
  -- `empty` says whether it has no request, `size` is its length; if it has a first request,
  -- `front` reads that and `dequeue` takes it away, and both fail otherwise. The queues of other
  -- addresses stay, and no empty queue is left behind.
  pub queues_refine_lists :
      (q : ReqQueueList R) (a : ℕ)
      → IsTidy q
      → ((r : R)
          → (queued (enqueue q a r) a ≡ queued q a ++ r ∷ [])
            × ((b : ℕ) → b ≢ a → queued (enqueue q a r) b ≡ queued q b)
            × IsTidy (enqueue q a r))
        × (size q a ≡ length (queued q a))
        × ((is_empty q a ≡ true) ↔ (queued q a ≡ []))
        × ((r : R) (rs : List R)
            → queued q a ≡ r ∷ rs
            → (front q a ≡ some r) × Dequeued q a r rs (dequeue q a))
        × (queued q a ≡ [] → (front q a ≡ none) × (dequeue q a ≡ none))
        × ((p : R × ReqQueueList R) → dequeue q a ≡ some p → IsTidy p.1)
  unfolding dequeue enqueue size front is_empty
  queues_refine_lists q a tidy = (
    λ r. (
      rw (==_refl a) refl,
      (λ b ne. elim (Bool-cases (a == b)) [
        | inl t ↦ absurd (ne (sym ((==_iff a b).0 t)))
        | inr t ↦ rw t refl
      ]),
      unfold enqueue in enqueue-IsTidy q a r tidy,
    ),
    refl,
    absent-empty (q a) (tidy a),
    (λ r rs h. (front_of-first (q a) r rs h, dequeue_from-Dequeued q a (q a) r rs h)),
    (λ h. nothing_first q a (q a) h),
    λ p e. dequeue_from-IsTidy q a (q a) p e tidy,
  )
