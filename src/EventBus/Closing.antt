-- ===== src/EventBus/Closing.antt =====
-- What a closed queue and the queues beside it get afterwards.
use shadow_trust_security.Prelude.{ℕ, ◌≡◌, ◌≢◌, ap, sym, ◌∙◌, none, List}
use shadow_trust_security.EventBus.{Message, EventBus, close}
use shadow_trust_security.EventBus.Delivery.{
  find, over, holding, publish_all, find-publish_all, AreBounded,
}
use shadow_trust_security.EventBus.Counters.{IsValid, remove_id_bounded}
use shadow_trust_security.EventBus.Accounting.{find-close}

module _ {P : Type 0} where
  close_bounded :
      (b : EventBus P) (i : ℕ) → AreBounded b.subscribers → AreBounded (close b i).subscribers
  unfolding close
  close_bounded b i h = remove_id_bounded i b.subscribers h

  -- A queue of a bus whose queues are within their bound and have distinct identities is closed, and
  -- any messages are published afterwards on any channels. The closed queue is not registered then,
  -- and every other queue holds what it would hold if the first one had not been closed.
  pub publish_all-close :
      (b : EventBus P) (i : ℕ) (ms : List (Message P))
      → IsValid b
      → (find i (publish_all (close b i) ms).subscribers ≡ none)
        × ((j : ℕ)
            → i ≢ j
            → find j (publish_all (close b i) ms).subscribers
              ≡ find j (publish_all b ms).subscribers)
  publish_all-close b i ms v =
      let (gone, kept) = find-close b i v in
      let bounded = close_bounded b i v.bounded in
      (
        find-publish_all (close b i) ms i bounded ∙ ap (over (holding ms)) gone,
        λ j other.
            find-publish_all (close b i) ms j bounded
            ∙ ap (over (holding ms)) (kept j other)
            ∙ sym (find-publish_all b ms j v.bounded),
      )
