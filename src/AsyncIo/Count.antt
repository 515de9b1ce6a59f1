-- ===== src/AsyncIo/Count.antt =====
-- `thread_count` of src/luautil/LuaAsyncIO.cpp is right, and bounded.
use raid_super_blt.Base.{
  ℕ, Bool, suc, ◌≤◌, ◌≡◌, refl, sym, ◌∙◌, true, inl, inr, List, [], ◌∷◌, ◌++◌, length,
  length-append, ltb, ◌==◌, ◌&&◌, ◌||◌, Bool-cases, arith,
}
use raid_super_blt.AsyncIo.{
  Worker, Pool, no_threads, start_task_thread, dispatch_task, max_threads, PoolAction, waiting,
  running, leaving, PoolStep, dispatch, take_front, finish, time_out, exit, PoolSteps, stay,
  then_step, dispatched,
}
use raid_super_blt.AsyncIo.Order.{PoolSteps-order}

-- What the count promises.
abbrev IsCounted : Pool → Type 0
IsCounted p = (p.thread_count ≡ length p.workers) × (p.thread_count ≤ max_threads)

not_full :
    (n : ℕ) (many : Bool) → (n == 0) || (ltb n max_threads && many) ≡ true → suc n ≤ max_threads
not_full n many e = ground (arith, e)

dispatch_task-IsCounted : (task : ℕ) (p : Pool) → IsCounted p → IsCounted (dispatch_task task p)
unfolding dispatch_task start_task_thread
dispatch_task-IsCounted task p (count, bound) =
    elim (Bool-cases (
      (p.thread_count == 0)
      || (ltb p.thread_count max_threads && ltb 5 (length (p.task_list ++ task ∷ []))))) [
        | inl e ↦
            rw (dispatch_task, e)
              (
                omega (arith, count, length-append p.workers (waiting ∷ [])),
                not_full p.thread_count _ e,
              )
        | inr e ↦ rw (dispatch_task, e) (count, bound)
      ]

same_length :
    (before after : List Worker) (v w : Worker)
    → length (before ++ v ∷ after) ≡ length (before ++ w ∷ after)
same_length before after v w =
    length-append before (v ∷ after) ∙ sym (length-append before (w ∷ after))

PoolStep-IsCounted : (p q : Pool) (a : PoolAction) → PoolStep p a q → IsCounted p → IsCounted q
PoolStep-IsCounted p q a (dispatch task p') h = dispatch_task-IsCounted task p h
PoolStep-IsCounted p q a (take_front task tasks n before after begun) (count, bound) =
    (count ∙ same_length before after waiting (running task), bound)
PoolStep-IsCounted p q a (finish task tasks n before after begun) (count, bound) =
    (count ∙ same_length before after (running task) waiting, bound)
PoolStep-IsCounted p q a (time_out n before after begun) (count, bound) =
    (count ∙ same_length before after waiting leaving, bound)
PoolStep-IsCounted p q a (exit tasks n before after begun) (count, bound) = (
  omega (arith, count, length-append before (leaving ∷ after), length-append before after),
  omega arith,
)

PoolSteps-IsCounted :
    (p r : Pool) (history : List PoolAction) → PoolSteps p history r → IsCounted p → IsCounted r
PoolSteps-IsCounted p r history (stay p') h = h
PoolSteps-IsCounted p r history (then_step p' q r' a rest step later) h =
    PoolSteps-IsCounted q r rest later (PoolStep-IsCounted p q a step h)

-- However dispatches and threads interleave, the tasks that were begun and those that still wait are
-- together the tasks that were dispatched, in that order: none is lost, none is begun twice, and
-- none overtakes another. And `thread_count` is the number of threads that there are, those that are
-- about to exit included, and at most MAX_THREADS.
pub PoolSteps-sound :
    (p : Pool) (history : List PoolAction)
    → PoolSteps no_threads history p
    → (p.begun ++ p.task_list ≡ dispatched history)
      × (p.thread_count ≡ length p.workers)
      × (p.thread_count ≤ max_threads)
PoolSteps-sound p history steps =
    let (count, bound) = PoolSteps-IsCounted no_threads p history steps (refl, omega arith) in
    (PoolSteps-order p history steps, count, bound)
