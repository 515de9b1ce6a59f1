-- ===== src/AsyncIo/Tests.antt =====
-- A thread of src/luautil/LuaAsyncIO.cpp is about to exit when a task is dispatched. It is still
-- counted, so that no thread is started, and the task is left to itself.
use raid_super_blt.Base.{◌≡◌, ◌≤◌, List, [], ◌∷◌, length}
use raid_super_blt.AsyncIo.{
  leaving, Pool, no_threads, start_task_thread, dispatch_task, PoolAction, dispatches, moves,
  dispatch, take_front, finish, time_out, exit, PoolSteps, stay, then_step, dispatched,
}
use raid_super_blt.AsyncIo.Count.{PoolSteps-sound}

abbrev history : List PoolAction
history = dispatches 7 ∷ moves ∷ moves ∷ moves ∷ dispatches 8 ∷ moves ∷ []

abbrev stranded : Pool
stranded = record { task_list = 8 ∷ []; thread_count = 0; workers = []; begun = 7 ∷ [] }

history-PoolSteps : PoolSteps no_threads history stranded
unfolding dispatch_task start_task_thread
history-PoolSteps = then_step _ _ _ _ _ (dispatch 7 no_threads) (
    then_step _ _ _ _ _ (take_front 7 [] 1 [] [] []) (
      then_step _ _ _ _ _ (finish 7 [] 1 [] [] (7 ∷ [])) (
        then_step _ _ _ _ _ (time_out 1 [] [] (7 ∷ [])) (
          then_step _ _ _ _ _
            (dispatch 8
              (record { task_list = []; thread_count = 1; workers = leaving ∷ []; begun = 7 ∷ [] }))
            (then_step _ _ _ _ _ (exit (8 ∷ []) 1 [] [] (7 ∷ [])) (stay _))))))

PoolSteps-sound_example :
    (7 ∷ 8 ∷ [] ≡ dispatched history) × (0 ≡ length stranded.workers) × (0 ≤ 4)
PoolSteps-sound_example = PoolSteps-sound stranded history history-PoolSteps
