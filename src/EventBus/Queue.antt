-- ===== src/EventBus/Queue.antt =====
-- The `asyncio.Queue(maxsize=SUBSCRIBER_QUEUE_SIZE)` operations that event_bus.py uses, on the
-- messages that the queue holds, oldest first.
use shadow_trust_security.Prelude.{
  ℕ, ◌+◌, ◌≤◌, ◌-◌, ◌≡◌, refl, ap, sym, ◌∙◌, Option, none, some, List, [], ◌∷◌, ◌++◌, arith, leb,
  if◌then◌else◌, length, length-append, last_n, drop, length-drop, drop-add, drop-append,
  Bool-cases, inl, inr, leb→le,
}

abbrev pub subscriber_queue_size : ℕ
subscriber_queue_size = 256

module _ {ℓ} {A : Type ℓ} where
  -- `none` is QueueFull.
  unfoldable pub put_nowait : A → List A → Option (List A)
  put_nowait m q = if leb subscriber_queue_size (length q) then none else some (q ++ m ∷ [])

  -- `none` is QueueEmpty.
  unfoldable pub get_nowait : List A → Option (A × List A)
  get_nowait [] = none
  get_nowait (m ∷ q) = some (m, q)

  -- The body of the inner `try`: drop the oldest message, then put; `except Exception: pass`
  -- keeps what was done before.
  unfoldable pub make_room : A → List A → List A
  unfolding put_nowait get_nowait
  make_room m q = elim (get_nowait q) [
    | none ↦ q
    | some (oldest, rest) ↦ elim (put_nowait m rest) [ none ↦ rest | some q' ↦ q' ]
  ]

  -- The queue after one message is offered, and how many messages were dropped.
  unfoldable pub offer : A → List A → List A × ℕ
  unfolding put_nowait make_room
  offer m q = elim (put_nowait m q) [ some q' ↦ (q', 0) | none ↦ (make_room m q, 1) ]

  pub last_n-all : (n : ℕ) (xs : List A) → length xs ≤ n → last_n n xs ≡ xs
  unfolding last_n
  last_n-all n xs h = let e : length xs - n ≡ 0 = omega arith in rw e refl

  -- Keeping the last `n` at each step keeps the last `n` of all.
  pub last_n-append : (n : ℕ) (xs ys : List A) → last_n n (last_n n xs ++ ys) ≡ last_n n (xs ++ ys)
  unfolding last_n
  last_n-append n xs ys =
      let a = length xs - n in
      let k = length (drop a xs ++ ys) - n in
      let split : drop a xs ++ ys ≡ drop a (xs ++ ys) = sym (drop-append a xs ys (omega arith)) in
      let e : a + k ≡ length (xs ++ ys) - n =
        omega (arith, length-append xs ys, length-append (drop a xs) ys, length-drop a xs) in
      ap (drop k) split ∙ (drop-add a k (xs ++ ys) ∙ ap (λ j. drop j (xs ++ ys)) e)

  pub make_room-last_n :
      (m : A) (q : List A)
      → length q ≡ subscriber_queue_size
      → make_room m q ≡ last_n subscriber_queue_size (q ++ m ∷ [])
  unfolding make_room last_n
  make_room-last_n m [] h = absurd (omega arith)
  make_room-last_n m (x ∷ q) h =
      let e : length (x ∷ q ++ m ∷ []) - subscriber_queue_size ≡ 1 =
        omega (arith, length-append q (m ∷ [])) in
      rw e (ground arith)

  -- An offer to a queue within its bound keeps the newest messages.
  pub offer-last_n :
      (m : A) (q : List A)
      → length q ≤ subscriber_queue_size
      → (offer m q).0 ≡ last_n subscriber_queue_size (q ++ m ∷ [])
  unfolding offer
  offer-last_n m q h = elim (Bool-cases (leb subscriber_queue_size (length q))) [
    | inl full ↦
        let e : length q ≡ subscriber_queue_size = omega (arith, leb→le _ _ full) in
        rw (full, offer) (make_room-last_n m q e)
    | inr free ↦
        let fits : length (q ++ m ∷ []) ≤ subscriber_queue_size =
          ground (arith, length-append q (m ∷ [])) in
        rw (free, offer) (sym (last_n-all _ _ fits))
  ]

  -- What is in the queue afterwards and what was dropped add up.
  pub length-offer :
      (m : A) (q : List A)
      → length q ≤ subscriber_queue_size
      → (length (offer m q).0 + (offer m q).1 ≡ length q + 1)
        × (length (offer m q).0 ≤ subscriber_queue_size)
  unfolding offer
  length-offer m [] h = omega arith
  length-offer m (x ∷ q) h = ground (arith, length-append q (m ∷ []))
