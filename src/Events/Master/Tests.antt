-- ===== src/Events/Master/Tests.antt =====
-- Two queues of src/threading/threadqueue.cpp, of which the second has an event.
use raid_super_blt.Base.{◌++◌, some, get_elem?, ◌≡◌, refl, List, [], ◌∷◌}
use raid_super_blt.Events.{
  Step, move_front, EventItem, EventQueue, outside, draining, calling, empty_queue, adds, processes,
  add_to_queue, enter, unlock, call_front, leave,
}
use raid_super_blt.Events.Master.{
  MasterStep, leave_loop, Turned, Turn, idle, before, Master, no_queues, MasterAction, registers,
  acts, any_time, calls, continues, returns, register_queue, enter_loop, act, MasterSteps, stay,
  then_step,
}
use raid_super_blt.Events.Master.Calls.{process_events_calls}

abbrev an_event : EventItem
an_event = record { run_function = 1; data_value = 10 }

abbrev waits : EventQueue
waits = record { event_queue = an_event ∷ []; local_queue = []; phase = outside; called = [] }

abbrev draining_nothing : EventQueue
draining_nothing = record { event_queue = []; local_queue = []; phase = draining; called = [] }

abbrev calling_nothing : EventQueue
calling_nothing = record { event_queue = []; local_queue = []; phase = calling; called = [] }

abbrev at_work : EventQueue
at_work = record { event_queue = an_event ∷ []; local_queue = []; phase = draining; called = [] }

abbrev took : EventQueue
took = record { event_queue = []; local_queue = an_event ∷ []; phase = draining; called = [] }

abbrev about_to_call : EventQueue
about_to_call = record {
  event_queue = [];
  local_queue = an_event ∷ [];
  phase = calling;
  called = [];
}

abbrev has_called : EventQueue
has_called = record { event_queue = []; local_queue = []; phase = calling; called = an_event ∷ [] }

abbrev at_rest : EventQueue
at_rest = record { event_queue = []; local_queue = []; phase = outside; called = an_event ∷ [] }

abbrev past : List MasterAction
past = registers ∷ registers ∷ acts 1 (adds an_event) ∷ []

abbrev ready : Master
ready = record { queues = empty_queue ∷ waits ∷ []; turn = idle }

past-MasterSteps : MasterSteps no_queues past ready
past-MasterSteps = then_step _ _ _ _ _ (register_queue no_queues) (
    then_step _ _ _ _ _ (register_queue (record { queues = empty_queue ∷ []; turn = idle })) (
      then_step _ _ _ _ _
        (act (empty_queue ∷ empty_queue ∷ []) idle idle 1 (adds an_event) empty_queue waits refl
          (add_to_queue empty_queue an_event refl) (any_time idle 1 an_event waits))
        (stay _)))

abbrev during : List MasterAction
during =
    acts 0 processes
    ∷ acts 0 processes
    ∷ acts 0 processes
    ∷ acts 1 processes
    ∷ acts 1 processes
    ∷ acts 1 processes
    ∷ acts 1 processes
    ∷ acts 1 processes
    ∷ []

-- A step of the first queue in its call, and one of the second.
first_acts :
    (t u : Turn) (q r : EventQueue)
    → Step q processes r
    → Turned t 0 processes r u
    → MasterStep
        (record { queues = q ∷ waits ∷ []; turn = t })
        (acts 0 processes)
        (record { queues = r ∷ waits ∷ []; turn = u })
first_acts t u q r s turned = act (q ∷ waits ∷ []) t u 0 processes q r refl s turned

second_acts :
    (t u : Turn) (q r : EventQueue)
    → Step q processes r
    → Turned t 1 processes r u
    → MasterStep
        (record { queues = empty_queue ∷ q ∷ []; turn = t })
        (acts 1 processes)
        (record { queues = empty_queue ∷ r ∷ []; turn = u })
second_acts t u q r s turned = act (empty_queue ∷ q ∷ []) t u 1 processes q r refl s turned

abbrev called_all : Master
called_all = record { queues = empty_queue ∷ at_rest ∷ []; turn = before 2 }

during-MasterSteps :
    MasterSteps (record { queues = empty_queue ∷ waits ∷ []; turn = before 0 }) during called_all
during-MasterSteps =
    then_step _ _ _ _ _ (first_acts _ _ _ _ (enter [] []) (calls 0 draining_nothing)) (
      then_step _ _ _ _ _
        (first_acts _ _ _ _ (unlock [] []) (continues 0 calling_nothing (λ e. cc)))
        (then_step _ _ _ _ _ (first_acts _ _ _ _ (leave [] []) (returns 0 empty_queue refl)) (
          then_step _ _ _ _ _ (second_acts _ _ _ _ (enter (an_event ∷ []) []) (calls 1 at_work)) (
            then_step _ _ _ _ _
              (second_acts _ _ _ _ (move_front an_event [] [] []) (continues 1 took (λ e. cc)))
              (then_step _ _ _ _ _
                (second_acts _ _ _ _ (unlock (an_event ∷ []) [])
                  (continues 1 about_to_call (λ e. cc)))
                (then_step _ _ _ _ _
                  (second_acts _ _ _ _ (call_front an_event [] [] [])
                    (continues 1 has_called (λ e. cc)))
                  (then_step _ _ _ _ _
                    (second_acts _ _ _ _ (leave [] (an_event ∷ [])) (returns 1 at_rest refl))
                    (stay _))))))))

abbrev after : Master
after = record { queues = empty_queue ∷ at_rest ∷ []; turn = idle }

process_events_calls_example :
    (r : EventQueue) × (rest : List EventItem) × (get_elem? after.queues 1 ≡ some r)
    × (r.called ≡ (an_event ∷ []) ++ rest)
process_events_calls_example =
    process_events_calls ready _ called_all after past during 1 waits past-MasterSteps refl
      (enter_loop (empty_queue ∷ waits ∷ [])) during-MasterSteps
      (
        (λ e. cc),
        (
          (λ e. cc),
          ((λ e. cc), ((λ e. cc), ((λ e. cc), ((λ e. cc), ((λ e. cc), ((λ e. cc), tt)))))),
        ),
      )
      (leave_loop (empty_queue ∷ at_rest ∷ []) 2 refl) refl
