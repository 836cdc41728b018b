-- ===== src/EventBus/Examples.antt =====
-- The theorems on the event bus at concrete inputs, and tests.
use shadow_trust_security.Prelude.{ℕ, ◌+◌, ◌*◌, ◌≡◌, ◌≢◌, refl, none, some, [], ◌∷◌, arith}
use shadow_trust_security.EventBus.{
  EventBus, publish, publish_many, close, published_count, receive,
}
use shadow_trust_security.EventBus.Queue.{offer}
use shadow_trust_security.EventBus.Delivery.{find, over, holding, publish_all, find-publish_all}
use shadow_trust_security.EventBus.Counters.{IsValid}
use shadow_trust_security.EventBus.Closing.{publish_all-close}
use shadow_trust_security.EventBus.Accounting.{waiting, audience, publish_many_accounts}

-- Two subscribers, the second of the "event" channel only, with a message waiting.
abbrev two : EventBus ℕ
two = record {
  subscribers =
      record { id = 0; channels = none; queue = [] }
      ∷ record { id = 3; channels = some ("event" ∷ []); queue = ("event", 1) ∷ [] }
      ∷ [];
  dropped = 0;
  published = ("event", 1) ∷ [];
  next_id = 4;
}

two-IsValid : IsValid two
two-IsValid = record { bounded = omega arith; distinct = omega arith }

publish_many_test :
    (publish_many two (2 ∷ 3 ∷ []) "metrics").subscribers
    ≡ record { id = 0; channels = none; queue = ("metrics", 2) ∷ ("metrics", 3) ∷ [] }
      ∷ record { id = 3; channels = some ("event" ∷ []); queue = ("event", 1) ∷ [] }
      ∷ []
unfolding publish_many publish offer
publish_many_test = refl

receive_test : (receive two 3).1 ≡ some ("event", 1)
unfolding receive
receive_test = refl

find-publish_all_example :
    find 3 (publish_all two (("metrics", 5) ∷ ("event", 6) ∷ [])).subscribers
    ≡ over (holding (("metrics", 5) ∷ ("event", 6) ∷ [])) (find 3 two.subscribers)
find-publish_all_example =
    find-publish_all two (("metrics", 5) ∷ ("event", 6) ∷ []) 3 two-IsValid.bounded

publish_many_accounts_example :
    let b' = publish_many two (2 ∷ 3 ∷ []) "event" in
    (waiting b'.subscribers + b'.dropped
      ≡ waiting two.subscribers + two.dropped + 2 * audience "event" two.subscribers)
    × (published_count "event" b'.published ≡ published_count "event" two.published + 2)
publish_many_accounts_example = publish_many_accounts two (2 ∷ 3 ∷ []) "event" two-IsValid.bounded

publish_all-close_example :
    (find 3 (publish_all (close two 3) (("event", 6) ∷ [])).subscribers ≡ none)
    × ((j : ℕ)
        → 3 ≢ j
        → find j (publish_all (close two 3) (("event", 6) ∷ [])).subscribers
          ≡ find j (publish_all two (("event", 6) ∷ [])).subscribers)
publish_all-close_example = publish_all-close two 3 (("event", 6) ∷ []) two-IsValid
