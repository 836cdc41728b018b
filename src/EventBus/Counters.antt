-- ===== src/EventBus/Counters.antt =====
-- The registrations and the counters of the bus, over any history of calls.
use shadow_trust_security.Prelude.{
  ℕ, suc, ◌≤◌, ◌≡◌, String, Option, some, List, [], ◌∷◌, ◌++◌, arith, length,
}
use shadow_trust_security.EventBus.Queue.{get_nowait}
use shadow_trust_security.EventBus.{
  Message, Subscriber, EventBus, deliver_all, publish, open_queue, remove_id, close, get_first,
  receive,
}
use shadow_trust_security.EventBus.Delivery.{AreBounded, deliver_all_bounded, id-deliver}

-- Identities rise along the list and lie between the bounds.
abbrev pub Ascending : {P : Type 0} → ℕ → List (Subscriber P) → ℕ → Type 0
Ascending lo [] hi = lo ≤ hi
Ascending lo (s ∷ ss) hi = (lo ≤ s.id) × Ascending (suc s.id) ss hi

pub record IsValid {P : Type 0} (b : EventBus P) : Type 0 where
  pub bounded : AreBounded b.subscribers
  pub distinct : Ascending 0 b.subscribers b.next_id

-- The calls that reach a bus.
pub data Call (P : Type 0) : Type 0 where
  publishes : P → String → Call P
  opens : Option (List String) → Call P
  closes : ℕ → Call P
  receives : ℕ → Call P

module _ {P : Type 0} where
  unfoldable pub init : EventBus P
  init = record { subscribers = []; dropped = 0; published = []; next_id = 0 }

  unfoldable pub step : EventBus P → Call P → EventBus P
  unfolding publish open_queue close receive
  step b (publishes p channel) = publish b p channel
  step b (opens channels) = (open_queue b channels).0
  step b (closes i) = close b i
  step b (receives i) = (receive b i).0

  unfoldable pub run : EventBus P → List (Call P) → EventBus P
  run b [] = b
  run b (c ∷ cs) = run (step b c) cs

  pub Ascending-le : (lo hi : ℕ) (ss : List (Subscriber P)) → Ascending lo ss hi → lo ≤ hi
  Ascending-le lo hi [] h = h
  Ascending-le lo hi (s ∷ ss) h = omega (arith, Ascending-le (suc s.id) hi ss h.1)

  Ascending-mono :
      (lo lo' hi : ℕ) (ss : List (Subscriber P))
      → lo' ≤ lo
      → Ascending lo ss hi
      → Ascending lo' ss hi
  Ascending-mono lo lo' hi [] h a = omega arith
  Ascending-mono lo lo' hi (s ∷ ss) h a = (omega arith, a.1)

  deliver_all-Ascending :
      (m : Message P) (lo hi : ℕ) (ss : List (Subscriber P))
      → Ascending lo ss hi
      → Ascending lo (deliver_all m ss).0 hi
  unfolding deliver_all
  deliver_all-Ascending m lo hi [] a = a
  deliver_all-Ascending m lo hi (s ∷ ss) a =
      rw (id-deliver m s) (a.0, deliver_all-Ascending m (suc s.id) hi ss a.1)

  open_Ascending :
      (c : Option (List String)) (lo hi : ℕ) (ss : List (Subscriber P))
      → Ascending lo ss hi
      → Ascending lo (ss ++ record { id = hi; channels = c; queue = [] } ∷ []) (suc hi)
  open_Ascending c lo hi [] a = omega arith
  open_Ascending c lo hi (s ∷ ss) a = (a.0, open_Ascending c (suc s.id) hi ss a.1)

  open_bounded :
      (c : Option (List String)) (i : ℕ) (ss : List (Subscriber P))
      → AreBounded ss
      → AreBounded (ss ++ record { id = i; channels = c; queue = [] } ∷ [])
  open_bounded c i [] h = omega arith
  open_bounded c i (s ∷ ss) h = (h.0, open_bounded c i ss h.1)

  remove_id-Ascending :
      (i lo hi : ℕ) (ss : List (Subscriber P))
      → Ascending lo ss hi
      → Ascending lo (remove_id i ss) hi
  unfolding remove_id
  remove_id-Ascending i lo hi [] a = a
  remove_id-Ascending i lo hi (s ∷ ss) a =
      ground (arith, remove_id-Ascending i (suc s.id) hi ss a.1, Ascending-mono (suc s.id) lo hi ss)

  pub remove_id_bounded :
      (i : ℕ) (ss : List (Subscriber P)) → AreBounded ss → AreBounded (remove_id i ss)
  unfolding remove_id
  remove_id_bounded i [] h = tt
  remove_id_bounded i (s ∷ ss) h = ground (arith, remove_id_bounded i ss h.1)

  get_nowait_bounded :
      (q q' : List (Message P)) (m : Message P)
      → get_nowait q ≡ some (m, q')
      → suc (length q') ≡ length q
  unfolding get_nowait
  get_nowait_bounded [] q' m h = cc
  get_nowait_bounded (x ∷ q) q' m h = ground arith

  get_first-Ascending :
      (i lo hi : ℕ) (ss : List (Subscriber P))
      → Ascending lo ss hi
      → Ascending lo (get_first i ss).0 hi
  unfolding get_first
  get_first-Ascending i lo hi [] a = a
  get_first-Ascending i lo hi (s ∷ ss) a =
      ground (arith, get_first-Ascending i (suc s.id) hi ss a.1)

  get_first_bounded :
      (i : ℕ) (ss : List (Subscriber P)) → AreBounded ss → AreBounded (get_first i ss).0
  unfolding get_first
  get_first_bounded i [] h = tt
  get_first_bounded i (s ∷ ss) h = ground (arith, get_first_bounded i ss h.1)

  step-IsValid : (b : EventBus P) (c : Call P) → IsValid b → IsValid (step b c)
  unfolding step
  step-IsValid b (publishes p channel) v = record {
    bounded = deliver_all_bounded (channel, p) b.subscribers v.bounded;
    distinct = deliver_all-Ascending (channel, p) 0 b.next_id b.subscribers v.distinct;
  }
  step-IsValid b (opens channels) v = record {
    bounded = open_bounded channels b.next_id b.subscribers v.bounded;
    distinct = open_Ascending channels 0 b.next_id b.subscribers v.distinct;
  }
  step-IsValid b (closes i) v = record {
    bounded = remove_id_bounded i b.subscribers v.bounded;
    distinct = remove_id-Ascending i 0 b.next_id b.subscribers v.distinct;
  }
  step-IsValid b (receives i) v = record {
    bounded = get_first_bounded i b.subscribers v.bounded;
    distinct = get_first-Ascending i 0 b.next_id b.subscribers v.distinct;
  }

  run_keeps : (b : EventBus P) (cs : List (Call P)) → IsValid b → IsValid (run b cs)
  unfolding run
  run_keeps b [] v = v
  run_keeps b (c ∷ cs) v = run_keeps (step b c) cs (step-IsValid b c v)

  -- After any history of publications, openings, closings and receipts from the new bus, no queue
  -- holds more than 256 messages and no two registrations have one identity.
  pub run-IsValid : (cs : List (Call P)) → IsValid (run init cs)
  unfolding init
  run-IsValid cs = run_keeps init cs (record { bounded = tt; distinct = omega arith })
