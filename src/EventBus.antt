-- ===== src/EventBus.antt =====
-- backend/app/services/event_bus.py: the in-process fan-out of live messages. A subscriber is a
-- bounded `asyncio.Queue` with the channels it wants; the payload type is a parameter.
pub mod Queue
pub mod Delivery
pub mod Counters
pub mod Accounting
pub mod Closing
mod Examples
use shadow_trust_security.Prelude.{
  ℕ, suc, ◌+◌, String, Bool, true, Option, none, some, List, [], ◌∷◌, ◌++◌, ◌==◌, if◌then◌else◌,
  elem, get, put,
}
use Queue.{offer, get_nowait}

-- `(channel, payload)`
abbrev pub Message : Type 0 → Type 0
Message P = String × P

-- An entry of `_subscribers`: the queue (its identity and its content, oldest first) and the
-- channels it is registered for, `none` for every channel.
pub record Subscriber (P : Type 0) : Type 0 where
  pub id : ℕ
  pub channels : Option (List String)
  pub queue : List (Message P)

-- `next_id` stands for the identity that a new queue object gets.
pub record EventBus (P : Type 0) : Type 0 where
  pub subscribers : List (Subscriber P)
  pub dropped : ℕ
  pub published : List (String × ℕ)
  pub next_id : ℕ

-- `channels is None or channel in channels`
abbrev pub wants : Option (List String) → String → Bool
wants none channel = true
wants (some channels) channel = elem channel channels

-- `self._published.get(channel, 0)`
unfoldable pub published_count : String → List (String × ℕ) → ℕ
published_count channel counts = elim (get counts channel) [ none ↦ 0 | some n ↦ n ]

module _ {P : Type 0} where
  -- One round of the loop in `publish`: a queue that does not want the channel is passed over.
  unfoldable pub deliver : Message P → Subscriber P → Subscriber P × ℕ
  deliver m s =
      let (q, lost) = offer m s.queue in
      if wants s.channels m.0 then (record s { queue = q }, lost) else (s, 0)

  unfoldable pub deliver_all : Message P → List (Subscriber P) → List (Subscriber P) × ℕ
  unfolding deliver
  deliver_all m [] = ([], 0)
  deliver_all m (s ∷ ss) =
      let (s', lost) = deliver m s in let (ss', more) = deliver_all m ss in (s' ∷ ss', lost + more)

  unfoldable pub publish : EventBus P → P → String → EventBus P
  unfolding deliver_all
  publish b payload channel =
      let (ss, lost) = deliver_all (channel, payload) b.subscribers in
      record b {
        subscribers = ss;
        dropped = b.dropped + lost;
        published = put b.published channel (published_count channel b.published + 1);
      }

  unfoldable pub publish_many : EventBus P → List P → String → EventBus P
  publish_many b [] channel = b
  publish_many b (p ∷ ps) channel = publish_many (publish b p channel) ps channel

  -- `open`: a new queue is registered behind the others.
  unfoldable pub open_queue : EventBus P → Option (List String) → EventBus P × ℕ
  open_queue b channels = (
    record b {
      subscribers =
          b.subscribers ++ record { id = b.next_id; channels = channels; queue = [] } ∷ [];
      next_id = suc b.next_id;
    },
    b.next_id,
  )

  -- `dict.pop(queue, None)`
  unfoldable pub remove_id : ℕ → List (Subscriber P) → List (Subscriber P)
  remove_id i [] = []
  remove_id i (s ∷ ss) = if s.id == i then ss else s ∷ remove_id i ss

  unfoldable pub close : EventBus P → ℕ → EventBus P
  unfolding remove_id
  close b i = record b { subscribers = remove_id i b.subscribers }

  -- A client's `await queue.get()` on queue `i`: the oldest message, `none` while there is none.
  unfoldable pub get_first : ℕ → List (Subscriber P) → List (Subscriber P) × Option (Message P)
  unfolding get_nowait
  get_first i [] = ([], none)
  get_first i (s ∷ ss) =
      let (ss', r) = get_first i ss in
      if s.id == i
      then elim (get_nowait s.queue) [
        | none ↦ (s ∷ ss, none)
        | some (m, q) ↦ (record s { queue = q } ∷ ss, some m)
      ]
      else (s ∷ ss', r)

  unfoldable pub receive : EventBus P → ℕ → EventBus P × Option (Message P)
  unfolding get_first
  receive b i = let (ss, r) = get_first i b.subscribers in (record b { subscribers = ss }, r)
