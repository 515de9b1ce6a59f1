-- ===== src/Events.antt =====
-- src/threading/queue.h and src/threading/threadqueue.cpp: events from other threads, which the
-- game's thread runs.
pub mod Order
pub mod Master
mod Tests
use raid_super_blt.Base.{ℕ, ◌≡◌, Bool, true, false, List, [], ◌∷◌, ◌++◌}

-- `EventItem`: a function, by its number, and its data.
pub record EventItem : Type 0 where
  pub run_function : ℕ
  pub data_value : ℕ

-- Where the game's thread is in ProcessEvents: not in it, in the loop that empties the queue under
-- the lock, or in the loop that calls the events.
pub data Phase : Type 0 where
  outside draining calling : Phase

-- `EventQueue`: `eventQueue`, `localQueue` of the call in progress, and, in order, the events
-- that were called.
pub record EventQueue : Type 0 where
  pub event_queue : List EventItem
  pub local_queue : List EventItem
  pub phase : Phase
  pub called : List EventItem

abbrev pub empty_queue : EventQueue
empty_queue = record { event_queue = []; local_queue = []; phase = outside; called = [] }

-- The mutex is held by the game's thread in its first loop; AddToQueue waits then.
abbrev pub is_locked : EventQueue → Bool
is_locked q = elim q.phase [ outside ↦ false | draining ↦ true | calling ↦ false ]

-- What a thread does next: AddToQueue, or one step of ProcessEvents.
pub data Action : Type 0 where
  adds : EventItem → Action
  processes : Action

-- `Step q a r`: the steps of the threads, as the mutex lets them interleave.
pub data Step : EventQueue → Action → EventQueue → Type 0 where
  add_to_queue :
      (q : EventQueue) (e : EventItem)
      → is_locked q ≡ false
      → Step q (adds e) (record q { event_queue = q.event_queue ++ e ∷ [] })
  enter :
      (events called : List EventItem)
      → Step
          (record { event_queue = events; local_queue = []; phase = outside; called = called })
          processes
          (record { event_queue = events; local_queue = []; phase = draining; called = called })
  move_front :
      (e : EventItem) (events local called : List EventItem)
      → Step
          (record {
            event_queue = e ∷ events;
            local_queue = local;
            phase = draining;
            called = called;
          })
          processes
          (record {
            event_queue = events;
            local_queue = local ++ e ∷ [];
            phase = draining;
            called = called;
          })
  unlock :
      (local called : List EventItem)
      → Step
          (record { event_queue = []; local_queue = local; phase = draining; called = called })
          processes
          (record { event_queue = []; local_queue = local; phase = calling; called = called })
  call_front :
      (e : EventItem) (events local called : List EventItem)
      → Step
          (record {
            event_queue = events;
            local_queue = e ∷ local;
            phase = calling;
            called = called;
          })
          processes
          (record {
            event_queue = events;
            local_queue = local;
            phase = calling;
            called = called ++ e ∷ [];
          })
  leave :
      (events called : List EventItem)
      → Step
          (record { event_queue = events; local_queue = []; phase = calling; called = called })
          processes
          (record { event_queue = events; local_queue = []; phase = outside; called = called })

-- Histories of steps.
pub data Steps : EventQueue → List Action → EventQueue → Type 0 where
  stay : (q : EventQueue) → Steps q [] q
  then_step :
      (q r s : EventQueue) (a : Action) (acts : List Action)
      → Step q a r
      → Steps r acts s
      → Steps q (a ∷ acts) s

-- The events that a history adds, in order.
unfoldable pub added : List Action → List EventItem
added [] = []
added (adds e ∷ acts) = e ∷ added acts
added (processes ∷ acts) = added acts
