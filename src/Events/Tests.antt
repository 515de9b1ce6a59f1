-- ===== src/Events/Tests.antt =====
-- Two threads on the queue of src/threading/queue.h: an event is added while another is called.
use raid_super_blt.Base.{◌≡◌, refl, List, [], ◌∷◌, ◌++◌}
use raid_super_blt.Events.{
  EventItem, EventQueue, empty_queue, Action, adds, processes, Steps, stay, then_step, add_to_queue,
  enter, move_front, unlock, call_front, calling, added,
}
use raid_super_blt.Events.Order.{Steps-order, process_events_ends, idle, one_call}

abbrev first : EventItem
first = record { run_function = 1; data_value = 10 }

abbrev second : EventItem
second = record { run_function = 2; data_value = 20 }

abbrev history : List Action
history = adds first ∷ processes ∷ processes ∷ processes ∷ adds second ∷ processes ∷ []

abbrev reached : EventQueue
reached = record {
  event_queue = second ∷ [];
  local_queue = [];
  phase = calling;
  called = first ∷ [];
}

history-Steps : Steps empty_queue history reached
history-Steps = then_step _ _ _ _ _ (add_to_queue empty_queue first refl) (
    then_step _ _ _ _ _ (enter (first ∷ []) []) (
      then_step _ _ _ _ _ (move_front first [] [] []) (
        then_step _ _ _ _ _ (unlock (first ∷ []) []) (
          then_step _ _ _ _ _
            (add_to_queue
              (record { event_queue = []; local_queue = first ∷ []; phase = calling; called = [] })
              second refl)
            (then_step _ _ _ _ _ (call_front first (second ∷ []) [] []) (stay _))))))

Steps-order_example :
    reached.called ++ (reached.local_queue ++ reached.event_queue) ≡ first ∷ second ∷ []
unfolding added
Steps-order_example = Steps-order reached history history-Steps

process_events_ends_example :
    Steps (idle (first ∷ second ∷ []) []) (one_call 2) (idle [] (first ∷ second ∷ []))
process_events_ends_example = process_events_ends (first ∷ second ∷ []) []
