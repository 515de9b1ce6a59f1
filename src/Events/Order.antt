-- ===== src/Events/Order.antt =====
-- The queue of src/threading/queue.h calls events in the order in which they were added.
use raid_super_blt.Base.{
  ℕ, ◌≡◌, refl, sym, ap, ◌∙◌, subst, List, [], ◌∷◌, ◌++◌, append_assoc, append-nil, length,
  replicate,
}
use raid_super_blt.Events.{
  EventItem, EventQueue, outside, draining, calling, empty_queue, Action, adds, processes, Step,
  add_to_queue, enter, move_front, unlock, call_front, leave, Steps, stay, then_step, added,
}

-- Everything that the queue was given: called, in the call in progress, or waiting.
abbrev pub everything : EventQueue → List EventItem
everything q = q.called ++ (q.local_queue ++ q.event_queue)

abbrev new_in : Action → List EventItem
new_in (adds e) = e ∷ []
new_in processes = []

append_unit : (xs : List EventItem) → xs ≡ xs ++ []
append_unit xs = sym (append-nil xs)

Step-everything :
    (q r : EventQueue) (a : Action) → Step q a r → everything r ≡ everything q ++ new_in a
Step-everything q r a (add_to_queue q' e free) =
    ap (λ t. q.called ++ t) (sym (append_assoc q.local_queue q.event_queue (e ∷ [])))
    ∙ sym (append_assoc q.called (q.local_queue ++ q.event_queue) (e ∷ []))
Step-everything q r a (enter events called) = append_unit (called ++ events)
Step-everything q r a (move_front e events local called) =
    ap (λ t. called ++ t) (append_assoc local (e ∷ []) events)
    ∙ append_unit (called ++ (local ++ e ∷ events))
Step-everything q r a (unlock local called) = append_unit (called ++ (local ++ []))
Step-everything q r a (call_front e events local called) =
    append_assoc called (e ∷ []) (local ++ events) ∙ append_unit (called ++ (e ∷ (local ++ events)))
Step-everything q r a (leave events called) = append_unit (called ++ events)

new-added : (a : Action) (acts : List Action) → added (a ∷ acts) ≡ new_in a ++ added acts
unfolding added
new-added (adds e) acts = refl
new-added processes acts = refl

Steps-everything :
    (q s : EventQueue) (acts : List Action)
    → Steps q acts s
    → everything s ≡ everything q ++ added acts
unfolding added
Steps-everything q s acts (stay q') = append_unit (everything q)
Steps-everything q s acts (then_step q' r s' a acts' step rest) =
    Steps-everything r s acts' rest
    ∙ (ap (λ t. t ++ added acts') (Step-everything q r a step)
        ∙ (append_assoc (everything q) (new_in a) (added acts')
            ∙ ap (λ t. everything q ++ t) (sym (new-added a acts'))))

-- However the threads interleave, the events that were called, those that the call in progress
-- has taken and those that wait are together the events that were added, in that order: none is
-- lost, none is called twice, and none overtakes another.
pub Steps-order :
    (q : EventQueue) (acts : List Action)
    → Steps empty_queue acts q
    → q.called ++ (q.local_queue ++ q.event_queue) ≡ added acts
Steps-order q acts steps = Steps-everything empty_queue q acts steps

-- One after the other.
Steps-append :
    (q r s : EventQueue) (acts bs : List Action)
    → Steps q acts r
    → Steps r bs s
    → Steps q (acts ++ bs) s
Steps-append q r s acts bs (stay q') rest = rest
Steps-append q r s acts bs (then_step q' p r' a acts' step steps) rest =
    then_step q p s a (acts' ++ bs) step (Steps-append p r s acts' bs steps rest)

-- What ProcessEvents does, in so many steps.
drain :
    (events local called : List EventItem)
    → Steps
        (record { event_queue = events; local_queue = local; phase = draining; called = called })
        (replicate (length events) processes)
        (record {
          event_queue = [];
          local_queue = local ++ events;
          phase = draining;
          called = called;
        })
drain [] local called =
    subst
      (λ t.
        Steps (record { event_queue = []; local_queue = local; phase = draining; called = called })
          [] (record { event_queue = []; local_queue = t; phase = draining; called = called }))
      (append_unit local) (stay _)
drain (e ∷ events) local called =
    then_step _ _ _ processes (replicate (length events) processes)
      (move_front e events local called)
      (subst
        (λ t.
          Steps
            (record {
              event_queue = events;
              local_queue = local ++ e ∷ [];
              phase = draining;
              called = called;
            })
            (replicate (length events) processes)
            (record { event_queue = []; local_queue = t; phase = draining; called = called }))
        (append_assoc local (e ∷ []) events) (drain events (local ++ e ∷ []) called))

call_all :
    (events local called : List EventItem)
    → Steps
        (record { event_queue = events; local_queue = local; phase = calling; called = called })
        (replicate (length local) processes)
        (record {
          event_queue = events;
          local_queue = [];
          phase = calling;
          called = called ++ local;
        })
call_all events [] called =
    subst
      (λ t.
        Steps (record { event_queue = events; local_queue = []; phase = calling; called = called })
          [] (record { event_queue = events; local_queue = []; phase = calling; called = t }))
      (append_unit called) (stay _)
call_all events (e ∷ local) called =
    then_step _ _ _ processes (replicate (length local) processes)
      (call_front e events local called)
      (subst
        (λ t.
          Steps
            (record {
              event_queue = events;
              local_queue = local;
              phase = calling;
              called = called ++ e ∷ [];
            })
            (replicate (length local) processes)
            (record { event_queue = events; local_queue = []; phase = calling; called = t }))
        (append_assoc called (e ∷ []) local) (call_all events local (called ++ e ∷ [])))

-- The queue between two calls of ProcessEvents.
abbrev pub idle : List EventItem → List EventItem → EventQueue
idle events called = record {
  event_queue = events;
  local_queue = [];
  phase = outside;
  called = called;
}

-- The steps of one call of ProcessEvents on so many events: the game's thread is never stuck.
abbrev pub one_call : ℕ → List Action
one_call n =
    processes ∷ (replicate n processes ++ processes ∷ (replicate n processes ++ processes ∷ []))

-- A call of ProcessEvents with no other thread in between comes to its end: it empties the queue
-- and calls every event that waited, in order.
pub process_events_ends :
    (events called : List EventItem)
    → Steps (idle events called) (one_call (length events)) (idle [] (called ++ events))
process_events_ends events called =
    let n = length events in
    then_step _ _ _ processes _ (enter events called) (
      Steps-append _ _ _ (replicate n processes) _ (drain events [] called) (
        then_step _ _ _ processes _ (unlock events called) (
          Steps-append _ _ _ (replicate n processes) _ (call_all [] events called)
            (then_step _ _ _ processes [] (leave [] (called ++ events)) (stay _)))))
