-- ===== src/AsyncIo.antt =====
-- The pool of threads of src/luautil/LuaAsyncIO.cpp, which runs reads and writes for Lua.
pub mod Order
pub mod Count
mod Tests
use raid_super_blt.Base.{
  ℕ, suc, ◌+◌, ◌-◌, Bool, true, false, ◌&&◌, ◌||◌, List, [], ◌∷◌, ◌++◌, length, ltb, ◌==◌,
  if◌then◌else◌,
}

abbrev pub max_threads : ℕ
max_threads = 4

-- Where a thread is: in its wait for a task, in the call of a task, or behind the loop, which it
-- left because no task came in time, and before it takes itself off the count.
pub data Worker : Type 0 where
  waiting leaving : Worker
  running : ℕ → Worker

-- `task_list`, with a task by its number, and `thread_count`; the threads, and, in order, the tasks
-- whose calls were begun.
pub record Pool : Type 0 where
  pub task_list : List ℕ
  pub thread_count : ℕ
  pub workers : List Worker
  pub begun : List ℕ

abbrev pub no_threads : Pool
no_threads = record { task_list = []; thread_count = 0; workers = []; begun = [] }

unfoldable pub start_task_thread : Pool → Pool
start_task_thread p = record p {
  thread_count = suc p.thread_count;
  workers = p.workers ++ waiting ∷ [];
}

-- Under the mutex.
unfoldable pub dispatch_task : ℕ → Pool → Pool
dispatch_task task p =
    let pushed : Pool = record p { task_list = p.task_list ++ task ∷ [] } in
    if (p.thread_count == 0) || (ltb p.thread_count max_threads && ltb 5 (length pushed.task_list))
    then start_task_thread pushed
    else pushed

-- What happens next: a dispatch, or a move of a thread.
pub data PoolAction : Type 0 where
  dispatches : ℕ → PoolAction
  moves : PoolAction

-- The steps of the threads, as the mutex lets them interleave. A wait ends without a task only when
-- there is none.
pub data PoolStep : Pool → PoolAction → Pool → Type 0 where
  dispatch : (task : ℕ) (p : Pool) → PoolStep p (dispatches task) (dispatch_task task p)
  take_front :
      (task : ℕ) (tasks : List ℕ) (n : ℕ) (before after : List Worker) (begun : List ℕ)
      → PoolStep
          (record {
            task_list = task ∷ tasks;
            thread_count = n;
            workers = before ++ waiting ∷ after;
            begun = begun;
          })
          moves
          (record {
            task_list = tasks;
            thread_count = n;
            workers = before ++ running task ∷ after;
            begun = begun ++ task ∷ [];
          })
  finish :
      (task : ℕ) (tasks : List ℕ) (n : ℕ) (before after : List Worker) (begun : List ℕ)
      → PoolStep
          (record {
            task_list = tasks;
            thread_count = n;
            workers = before ++ running task ∷ after;
            begun = begun;
          })
          moves
          (record {
            task_list = tasks;
            thread_count = n;
            workers = before ++ waiting ∷ after;
            begun = begun;
          })
  time_out :
      (n : ℕ) (before after : List Worker) (begun : List ℕ)
      → PoolStep
          (record {
            task_list = [];
            thread_count = n;
            workers = before ++ waiting ∷ after;
            begun = begun;
          })
          moves
          (record {
            task_list = [];
            thread_count = n;
            workers = before ++ leaving ∷ after;
            begun = begun;
          })
  exit :
      (tasks : List ℕ) (n : ℕ) (before after : List Worker) (begun : List ℕ)
      → PoolStep
          (record {
            task_list = tasks;
            thread_count = n;
            workers = before ++ leaving ∷ after;
            begun = begun;
          })
          moves
          (record {
            task_list = tasks;
            thread_count = n - 1;
            workers = before ++ after;
            begun = begun;
          })

pub data PoolSteps : Pool → List PoolAction → Pool → Type 0 where
  stay : (p : Pool) → PoolSteps p [] p
  then_step :
      (p q r : Pool) (a : PoolAction) (rest : List PoolAction)
      → PoolStep p a q
      → PoolSteps q rest r
      → PoolSteps p (a ∷ rest) r

-- The tasks that a history dispatches, in order.
unfoldable pub dispatched : List PoolAction → List ℕ
dispatched [] = []
dispatched (dispatches task ∷ rest) = task ∷ dispatched rest
dispatched (moves ∷ rest) = dispatched rest
