-- ===== src/EventBus/Accounting.antt =====
-- Where the messages of the bus went, and what closing leaves.
use shadow_trust_security.Prelude.{
  ℕ, suc, ◌+◌, ◌*◌, ◌<◌, ◌≡◌, ◌≢◌, refl, ap, String, none, List, [], ◌∷◌, arith, if◌then◌else◌,
  length, get-put, eq_iff,
}
use shadow_trust_security.EventBus.Queue.{length-offer}
use shadow_trust_security.EventBus.{
  Message, Subscriber, EventBus, wants, deliver, deliver_all, publish, publish_many, remove_id,
  close, published_count,
}
use shadow_trust_security.EventBus.Delivery.{find, AreBounded, deliver_all_bounded}
use shadow_trust_security.EventBus.Counters.{Ascending, IsValid}

module _ {P : Type 0} where
  -- The messages that wait in all queues.
  abbrev pub waiting : List (Subscriber P) → ℕ
  waiting [] = 0
  waiting (s ∷ ss) = length s.queue + waiting ss

  -- The subscribers of a channel.
  abbrev pub audience : String → List (Subscriber P) → ℕ
  audience channel [] = 0
  audience channel (s ∷ ss) = (if wants s.channels channel then 1 else 0) + audience channel ss

  deliver_accounts :
      (m : Message P) (s : Subscriber P)
      → AreBounded (s ∷ [])
      → length (deliver m s).0.queue + (deliver m s).1
        ≡ length s.queue + (if wants s.channels m.0 then 1 else 0)
  unfolding deliver
  deliver_accounts m s h = ground (arith, length-offer m s.queue h.0)

  deliver_all_accounts :
      (m : Message P) (ss : List (Subscriber P))
      → AreBounded ss
      → waiting (deliver_all m ss).0 + (deliver_all m ss).1 ≡ waiting ss + audience m.0 ss
  unfolding deliver_all
  deliver_all_accounts m [] h = refl
  deliver_all_accounts m (s ∷ ss) h =
      omega (arith, deliver_accounts m s (h.0, tt), deliver_all_accounts m ss h.1)

  publish_accounts :
      (b : EventBus P) (p : P) (channel : String)
      → AreBounded b.subscribers
      → waiting (publish b p channel).subscribers + (publish b p channel).dropped
        ≡ waiting b.subscribers + b.dropped + audience channel b.subscribers
  unfolding publish
  publish_accounts b p channel h = omega (arith, deliver_all_accounts (channel, p) b.subscribers h)

  audience-deliver_all :
      (m : Message P) (channel : String) (ss : List (Subscriber P))
      → audience channel (deliver_all m ss).0 ≡ audience channel ss
  unfolding deliver_all deliver
  audience-deliver_all m channel [] = refl
  audience-deliver_all m channel (s ∷ ss) = ground (arith, audience-deliver_all m channel ss)

  audience-publish :
      (b : EventBus P) (p : P) (channel : String)
      → audience channel (publish b p channel).subscribers ≡ audience channel b.subscribers
  unfolding publish
  audience-publish b p channel = audience-deliver_all (channel, p) channel b.subscribers

  publish_bounded :
      (b : EventBus P) (p : P) (channel : String)
      → AreBounded b.subscribers
      → AreBounded (publish b p channel).subscribers
  unfolding publish
  publish_bounded b p channel h = deliver_all_bounded (channel, p) b.subscribers h

  published_count-publish :
      (b : EventBus P) (p : P) (channel : String)
      → published_count channel (publish b p channel).published
        ≡ published_count channel b.published + 1
  unfolding publish published_count
  published_count-publish b p channel = ground (
    arith,
    eq_iff channel channel,
    get-put b.published channel channel (published_count channel b.published + 1),
  )

  -- A batch of payloads is published on one channel of a bus whose queues are within their bound.
  -- What waits in the queues and what was counted as dropped grow together by one for each payload
  -- and each subscriber of the channel, and the channel's counter grows by the number of payloads:
  -- no message is lost without being counted.
  pub publish_many_accounts :
      (b : EventBus P) (ps : List P) (channel : String)
      → AreBounded b.subscribers
      → let b' = publish_many b ps channel in
        (waiting b'.subscribers + b'.dropped
          ≡ waiting b.subscribers + b.dropped + length ps * audience channel b.subscribers)
        × (published_count channel b'.published ≡ published_count channel b.published + length ps)
  unfolding publish_many
  publish_many_accounts b [] channel h = omega arith
  publish_many_accounts b (p ∷ ps) channel h =
      let b' = publish b p channel in
      let ih = publish_many_accounts b' ps channel (publish_bounded b p channel h) in
      let same : length ps * audience channel b'.subscribers
          ≡ length ps * audience channel b.subscribers =
        ap (λ k. length ps * k) (audience-publish b p channel) in
      (
        omega (arith, ih.0, same, publish_accounts b p channel h),
        omega (arith, ih.1, published_count-publish b p channel),
      )

  find_absent :
      (i lo hi : ℕ) (ss : List (Subscriber P)) → Ascending lo ss hi → i < lo → find i ss ≡ none
  find_absent i lo hi [] a h = refl
  find_absent i lo hi (s ∷ ss) a h = ground (arith, find_absent i (suc s.id) hi ss a.1)

  find-remove_id :
      (i lo hi : ℕ) (ss : List (Subscriber P)) → Ascending lo ss hi → find i (remove_id i ss) ≡ none
  unfolding remove_id
  find-remove_id i lo hi [] a = refl
  find-remove_id i lo hi (s ∷ ss) a =
      ground (arith, find-remove_id i (suc s.id) hi ss a.1, find_absent i (suc s.id) hi ss a.1)

  find-remove_id_ne :
      (i j : ℕ) (ss : List (Subscriber P)) → i ≢ j → find j (remove_id i ss) ≡ find j ss
  unfolding remove_id
  find-remove_id_ne i j [] n = refl
  find-remove_id_ne i j (s ∷ ss) n = ground (arith, find-remove_id_ne i j ss n)

  -- Closing a queue of a valid bus unregisters it and leaves every other registration, with the
  -- messages that wait there, as it was.
  pub find-close :
      (b : EventBus P) (i : ℕ)
      → IsValid b
      → (find i (close b i).subscribers ≡ none)
        × ((j : ℕ) → i ≢ j → find j (close b i).subscribers ≡ find j b.subscribers)
  unfolding close
  find-close b i v = (
    find-remove_id i 0 b.next_id b.subscribers v.distinct,
    λ j n. find-remove_id_ne i j b.subscribers n,
  )
