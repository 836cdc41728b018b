-- ===== src/EventBus/Delivery.antt =====
-- What a subscriber of the bus finds in its queue.
use shadow_trust_security.Prelude.{
  ℕ, ◌≤◌, ◌≡◌, refl, ap, sym, ◌∙◌, Bool, true, false, Option, none, some, List, [], ◌∷◌, ◌++◌,
  arith, ◌==◌, if◌then◌else◌, length, keep, keep-append, last_n, append_assoc, append-nil,
}
use shadow_trust_security.EventBus.Queue.{
  subscriber_queue_size, offer-last_n, length-offer, last_n-all, last_n-append,
}
use shadow_trust_security.EventBus.{
  Message, Subscriber, EventBus, wants, deliver, deliver_all, publish,
}

abbrev pub over {ℓ} : {A : Type ℓ} → (A → A) → Option A → Option A
over f none = none
over f (some a) = some (f a)

over-if {ℓ} :
    {A : Type ℓ} (b : Bool) (f : A → A) (a : A) (o : Option A)
    → (if b then some (f a) else over f o) ≡ over f (if b then some a else o)
over-if true f a o = refl
over-if false f a o = refl

module _ {P : Type 0} where
  -- The entry of queue `i`.
  abbrev pub find : ℕ → List (Subscriber P) → Option (Subscriber P)
  find i [] = none
  find i (s ∷ ss) = if s.id == i then some s else find i ss

  -- A publication of messages on any channels, one after the other.
  unfoldable pub publish_all : EventBus P → List (Message P) → EventBus P
  publish_all b [] = b
  publish_all b (m ∷ ms) = publish_all (publish b m.1 m.0) ms

  -- The messages that a subscriber is registered for.
  abbrev pub wanted : Subscriber P → List (Message P) → List (Message P)
  wanted s = keep (λ m. wants s.channels m.0)

  -- What the subscriber should hold once `ms` are published and it has received nothing.
  abbrev pub holding : List (Message P) → Subscriber P → Subscriber P
  holding ms s = record s { queue = last_n subscriber_queue_size (s.queue ++ wanted s ms) }

  abbrev pub AreBounded : List (Subscriber P) → Type 0
  AreBounded [] = Unit
  AreBounded (s ∷ ss) = (length s.queue ≤ subscriber_queue_size) × AreBounded ss

  deliver_bounded :
      (m : Message P) (s : Subscriber P)
      → length s.queue ≤ subscriber_queue_size
      → length (deliver m s).0.queue ≤ subscriber_queue_size
  unfolding deliver
  deliver_bounded m s h = ground (arith, length-offer m s.queue)

  deliver-holding :
      (m : Message P) (s : Subscriber P)
      → length s.queue ≤ subscriber_queue_size
      → (deliver m s).0 ≡ holding (m ∷ []) s
  unfolding deliver
  deliver-holding m s h = ground (
    arith,
    offer-last_n m s.queue h,
    append-nil s.queue,
    last_n-all subscriber_queue_size s.queue h,
  )

  holding-holding :
      (m : Message P) (ms : List (Message P)) (s : Subscriber P)
      → holding ms (holding (m ∷ []) s) ≡ holding (m ∷ ms) s
  holding-holding m ms s =
      let one = wanted s (m ∷ []) in
      ap (λ q. record s { queue = q })
        (last_n-append subscriber_queue_size (s.queue ++ one) (wanted s ms)
          ∙ ap (last_n subscriber_queue_size) (
              append_assoc s.queue one (wanted s ms)
              ∙ ap (λ q. s.queue ++ q) (sym (keep-append (λ x. wants s.channels x.0) (m ∷ []) ms))))

  pub deliver_all_bounded :
      (m : Message P) (ss : List (Subscriber P)) → AreBounded ss → AreBounded (deliver_all m ss).0
  unfolding deliver_all
  deliver_all_bounded m [] h = tt
  deliver_all_bounded m (s ∷ ss) h = (deliver_bounded m s h.0, deliver_all_bounded m ss h.1)

  pub id-deliver : (m : Message P) (s : Subscriber P) → (deliver m s).0.id ≡ s.id
  unfolding deliver
  id-deliver m s = ground arith

  find-deliver_all :
      (m : Message P) (i : ℕ) (ss : List (Subscriber P))
      → AreBounded ss
      → find i (deliver_all m ss).0 ≡ over (holding (m ∷ [])) (find i ss)
  unfolding deliver_all
  find-deliver_all m i [] h = refl
  find-deliver_all m i (s ∷ ss) h =
      rw (id-deliver m s, deliver-holding m s h.0, find-deliver_all m i ss h.1)
        (over-if (s.id == i) (holding (m ∷ [])) s (find i ss))

  find-publish :
      (m : Message P) (b : EventBus P) (i : ℕ)
      → AreBounded b.subscribers
      → find i (publish b m.1 m.0).subscribers ≡ over (holding (m ∷ [])) (find i b.subscribers)
  unfolding publish
  find-publish m b i h = find-deliver_all m i b.subscribers h

  pub publish_all_bounded :
      (b : EventBus P) (ms : List (Message P))
      → AreBounded b.subscribers
      → AreBounded (publish_all b ms).subscribers
  unfolding publish_all publish
  publish_all_bounded b [] h = h
  publish_all_bounded b (m ∷ ms) h =
      publish_all_bounded (publish b m.1 m.0) ms (deliver_all_bounded m b.subscribers h)

  over-holding :
      (m : Message P) (ms : List (Message P)) (o : Option (Subscriber P))
      → over (holding ms) (over (holding (m ∷ [])) o) ≡ over (holding (m ∷ ms)) o
  over-holding m ms none = refl
  over-holding m ms (some s) = ap some (holding-holding m ms s)

  over-holding_nil :
      (i : ℕ) (ss : List (Subscriber P)) → AreBounded ss → find i ss ≡ over (holding []) (find i ss)
  over-holding_nil i [] h = refl
  over-holding_nil i (s ∷ ss) h = ground (
    arith,
    over-holding_nil i ss h.1,
    append-nil s.queue,
    last_n-all subscriber_queue_size s.queue h.0,
  )

  -- Messages on any channels are published to a bus whose queues are within their bound. Each
  -- subscriber then holds exactly the newest 256 of what it held followed by the messages of its
  -- channels, in the order of publication, and nothing of any other channel; its registration is
  -- unchanged, and a queue that was not registered still is not.
  pub find-publish_all :
      (b : EventBus P) (ms : List (Message P)) (i : ℕ)
      → AreBounded b.subscribers
      → find i (publish_all b ms).subscribers ≡ over (holding ms) (find i b.subscribers)
  unfolding publish_all
  find-publish_all b [] i h = over-holding_nil i b.subscribers h
  find-publish_all b (m ∷ ms) i h =
      find-publish_all (publish b m.1 m.0) ms i (publish_all_bounded b (m ∷ []) h)
      ∙ (ap (over (holding ms)) (find-publish m b i h) ∙ over-holding m ms (find i b.subscribers))
