-- ===== src/Events/Master.antt =====
-- EventQueueMaster of src/threading/queue.h and src/threading/threadqueue.cpp, which calls the
-- queues one after the other.
pub mod Turns
pub mod Calls
pub mod Ends
pub mod Progress
mod Tests
use raid_super_blt.Base.{
  ℕ, suc, ◌≡◌, ◌≢◌, Option, none, some, List, [], ◌∷◌, ◌++◌, get_elem?, set, ◌==◌, if◌then◌else◌,
}
use raid_super_blt.Events.{
  EventItem, EventQueue, Phase, outside, draining, calling, empty_queue, Action, adds, processes,
  Step, added,
}

-- Where the game's thread is in `EventQueueMaster::ProcessEvents`: not in it, about to call the
-- queue of a number, or in the call of that queue.
pub data Turn : Type 0 where
  idle : Turn
  before inside : ℕ → Turn

-- `EventQueueMaster`
pub record Master : Type 0 where
  pub queues : List EventQueue
  pub turn : Turn

abbrev pub no_queues : Master
no_queues = record { queues = []; turn = idle }

-- What a step does: `registerQueue`, a move of the loop between two queues, or an action on the
-- queue of a number.
pub data MasterAction : Type 0 where
  registers turns : MasterAction
  acts : ℕ → Action → MasterAction

-- `Turned t i a r u`: the loop lets action `a`, which makes queue `i` into `r`, happen at turn `t`,
-- and is then at turn `u`.
pub data Turned : Turn → ℕ → Action → EventQueue → Turn → Type 0 where
  any_time : (t : Turn) (i : ℕ) (e : EventItem) (r : EventQueue) → Turned t i (adds e) r t
  calls : (i : ℕ) (r : EventQueue) → Turned (before i) i processes r (inside i)
  continues :
      (i : ℕ) (r : EventQueue) → r.phase ≢ outside → Turned (inside i) i processes r (inside i)
  returns :
      (i : ℕ) (r : EventQueue)
      → r.phase ≡ outside
      → Turned (inside i) i processes r (before (suc i))

pub data MasterStep : Master → MasterAction → Master → Type 0 where
  register_queue :
      (m : Master) → MasterStep m registers (record m { queues = m.queues ++ empty_queue ∷ [] })
  enter_loop :
      (queues : List EventQueue)
      → MasterStep
          (record { queues = queues; turn = idle })
          turns
          (record { queues = queues; turn = before 0 })
  leave_loop :
      (queues : List EventQueue) (i : ℕ)
      → get_elem? queues i ≡ none
      → MasterStep
          (record { queues = queues; turn = before i })
          turns
          (record { queues = queues; turn = idle })
  act :
      (queues : List EventQueue) (t u : Turn) (i : ℕ) (a : Action) (q r : EventQueue)
      → get_elem? queues i ≡ some q
      → Step q a r
      → Turned t i a r u
      → MasterStep
          (record { queues = queues; turn = t })
          (acts i a)
          (record { queues = set queues i r; turn = u })

pub data MasterSteps : Master → List MasterAction → Master → Type 0 where
  stay : (m : Master) → MasterSteps m [] m
  then_step :
      (m n o : Master) (a : MasterAction) (as_after : List MasterAction)
      → MasterStep m a n
      → MasterSteps n as_after o
      → MasterSteps m (a ∷ as_after) o
