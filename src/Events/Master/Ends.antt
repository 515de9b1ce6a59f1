-- ===== src/Events/Master/Ends.antt =====
-- The loop of src/threading/threadqueue.cpp comes to its end.
use raid_super_blt.Base.{ℕ, List, [], ◌∷◌, ◌++◌, length}
use raid_super_blt.Events.{EventItem, EventQueue, draining, calling}
use raid_super_blt.Events.Order
use raid_super_blt.Events.Master.{Turn, idle, inside, Master, MasterAction, MasterSteps}

-- Some steps lead from one state to another.
abbrev Leads : Master → Master → Type 0
Leads m n = (history : List MasterAction) × MasterSteps m history n

module _ (front back : List EventQueue) where
  abbrev i : ℕ
  i = length front

  abbrev with_queue : Turn → EventQueue → Master
  with_queue t q = record { queues = front ++ q ∷ back; turn = t }

  abbrev in_drain : List EventItem → List EventItem → List EventItem → Master
  in_drain events local called =
      with_queue (inside i)
        (record { event_queue = events; local_queue = local; phase = draining; called = called })

  abbrev in_calls : List EventItem → List EventItem → Master
  in_calls local called =
      with_queue (inside i)
        (record { event_queue = []; local_queue = local; phase = calling; called = called })

-- A queue by what waits in it and what it has called, before and after the loop.
abbrev pub waiting : List EventItem × List EventItem → EventQueue
waiting (events, called) = Order.idle events called

abbrev pub emptied : List EventItem × List EventItem → EventQueue
emptied (events, called) = Order.idle [] (called ++ events)
