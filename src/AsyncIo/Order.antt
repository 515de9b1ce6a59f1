-- ===== src/AsyncIo/Order.antt =====
-- The pool of src/luautil/LuaAsyncIO.cpp begins tasks in the order in which they are dispatched.
use raid_super_blt.Base.{
  ℕ, ◌≡◌, refl, sym, ap, ◌∙◌, inl, inr, List, [], ◌∷◌, ◌++◌, append_assoc, append-nil, length, ltb,
  ◌==◌, ◌&&◌, ◌||◌, Bool-cases,
}
use raid_super_blt.AsyncIo.{
  Pool, no_threads, start_task_thread, dispatch_task, max_threads, PoolAction, dispatches, moves,
  PoolStep, dispatch, take_front, finish, time_out, exit, PoolSteps, stay, then_step, dispatched,
}

abbrev given : Pool → List ℕ
given p = p.begun ++ p.task_list

abbrev new_in : PoolAction → List ℕ
new_in (dispatches task) = task ∷ []
new_in moves = []

dispatch_task-given : (task : ℕ) (p : Pool) → given (dispatch_task task p) ≡ given p ++ task ∷ []
unfolding dispatch_task start_task_thread
dispatch_task-given task p =
    elim (Bool-cases (
      (p.thread_count == 0)
      || (ltb p.thread_count max_threads && ltb 5 (length (p.task_list ++ task ∷ []))))) [
        | inl e ↦ rw (dispatch_task, e) (sym (append_assoc p.begun p.task_list (task ∷ [])))
        | inr e ↦ rw (dispatch_task, e) (sym (append_assoc p.begun p.task_list (task ∷ [])))
      ]

PoolStep-given : (p q : Pool) (a : PoolAction) → PoolStep p a q → given q ≡ given p ++ new_in a
PoolStep-given p q a (dispatch task p') = dispatch_task-given task p
PoolStep-given p q a (take_front task tasks n before after begun) =
    append_assoc begun (task ∷ []) tasks ∙ sym (append-nil (begun ++ task ∷ tasks))
PoolStep-given p q a (finish task tasks n before after begun) = sym (append-nil (begun ++ tasks))
PoolStep-given p q a (time_out n before after begun) = sym (append-nil (begun ++ []))
PoolStep-given p q a (exit tasks n before after begun) = sym (append-nil (begun ++ tasks))

dispatched-new :
    (a : PoolAction) (rest : List PoolAction) → dispatched (a ∷ rest) ≡ new_in a ++ dispatched rest
unfolding dispatched
dispatched-new (dispatches task) rest = refl
dispatched-new moves rest = refl

PoolSteps-given :
    (p r : Pool) (history : List PoolAction)
    → PoolSteps p history r
    → given r ≡ given p ++ dispatched history
unfolding dispatched
PoolSteps-given p r history (stay p') = sym (append-nil (given p))
PoolSteps-given p r history (then_step p' q r' a rest step later) =
    PoolSteps-given q r rest later
    ∙ (ap (λ t. t ++ dispatched rest) (PoolStep-given p q a step)
        ∙ (append_assoc (given p) (new_in a) (dispatched rest)
            ∙ ap (λ t. given p ++ t) (sym (dispatched-new a rest))))

-- What was begun and what waits, in a history from the start.
pub PoolSteps-order :
    (p : Pool) (history : List PoolAction)
    → PoolSteps no_threads history p
    → p.begun ++ p.task_list ≡ dispatched history
PoolSteps-order p history steps = PoolSteps-given no_threads p history steps
