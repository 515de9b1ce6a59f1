-- ===== src/Events/Master/Progress.antt =====
-- How far the events of a queue of src/threading/threadqueue.cpp have come at a turn of the loop.
use raid_super_blt.Base.{
  ℕ, ◌<◌, ◌≤◌, ◌≡◌, ◌≢◌, refl, sym, ap, ◌∙◌, subst, List, [], ◌∷◌, ◌++◌, append_assoc, append-nil,
  arith,
}
use raid_super_blt.Events.{
  EventItem, EventQueue, Phase, outside, draining, calling, empty_queue, Action, adds, processes,
  Step, add_to_queue, enter, move_front, unlock, call_front, leave,
}
use raid_super_blt.Events.Order.{everything}
use raid_super_blt.Events.Master.{
  Turn, idle, before, inside, Turned, any_time, calls, continues, returns,
}

-- `xs` begins with `ps`.
abbrev pub Begins : List EventItem → List EventItem → Type 0
Begins ps xs = (rest : List EventItem) × (xs ≡ ps ++ rest)

Begins-append : (ps xs ys : List EventItem) → Begins ps xs → Begins ps (xs ++ ys)
Begins-append ps xs ys (rest, e) = (rest ++ ys, ap (λ t. t ++ ys) e ∙ append_assoc ps rest ys)

-- How far the events `ps`, which the queue had when the loop began, have come by the time the queue
-- is called, while it is in its call, and afterwards.
abbrev pub Ahead : List EventItem → EventQueue → Type 0
Ahead ps q = (q.phase ≡ outside) × Begins ps (q.called ++ (q.local_queue ++ q.event_queue))

abbrev pub Done : List EventItem → EventQueue → Type 0
Done ps q = Begins ps q.called

abbrev pub BusyIn : Phase → List EventItem → EventQueue → Type 0
BusyIn outside ps q = Begins ps q.called
BusyIn draining ps q = Begins ps (q.called ++ (q.local_queue ++ q.event_queue))
BusyIn calling ps q = Begins ps (q.called ++ q.local_queue)

abbrev pub Busy : List EventItem → EventQueue → Type 0
Busy ps q = BusyIn q.phase ps q

with_event : EventQueue → EventItem → EventQueue
with_event q e = record q { event_queue = q.event_queue ++ e ∷ [] }

all_with_event :
    (q : EventQueue) (e : EventItem)
    → everything q ++ e ∷ [] ≡ q.called ++ (q.local_queue ++ (q.event_queue ++ e ∷ []))
all_with_event q e =
    append_assoc q.called (q.local_queue ++ q.event_queue) (e ∷ [])
    ∙ ap (λ t. q.called ++ t) (append_assoc q.local_queue q.event_queue (e ∷ []))

BusyIn-adds :
    (phase : Phase) (ps : List EventItem) (q : EventQueue) (e : EventItem)
    → BusyIn phase ps q
    → BusyIn phase ps (with_event q e)
unfolding with_event
BusyIn-adds outside ps q e b = b
BusyIn-adds draining ps q e b =
    subst (Begins ps) (all_with_event q e) (Begins-append ps (everything q) (e ∷ []) b)
BusyIn-adds calling ps q e b = b

Ahead-adds :
    (ps : List EventItem) (q r : EventQueue) (e : EventItem)
    → Step q (adds e) r
    → Ahead ps q
    → Ahead ps r
Ahead-adds ps q r e (add_to_queue q' e' free) (p, b) =
    (p, subst (Begins ps) (all_with_event q e) (Begins-append ps (everything q) (e ∷ []) b))

Step-Done :
    (ps : List EventItem) (q r : EventQueue) (a : Action) → Step q a r → Done ps q → Done ps r
Step-Done ps q r a (add_to_queue q' e' free) b = b
Step-Done ps q r a (enter events called) b = b
Step-Done ps q r a (move_front e events local called) b = b
Step-Done ps q r a (unlock local called) b = b
Step-Done ps q r a (call_front e events local called) b = Begins-append ps called (e ∷ []) b
Step-Done ps q r a (leave events called) b = b

Step-Busy :
    (ps : List EventItem) (q r : EventQueue) (a : Action) → Step q a r → Busy ps q → Busy ps r
unfolding with_event
Step-Busy ps q r a (add_to_queue q' e free) b = BusyIn-adds q.phase ps q e b
Step-Busy ps q r a (enter events called) b = Begins-append ps called ([] ++ events) b
Step-Busy ps q r a (move_front e events local called) b =
    subst (Begins ps) (ap (λ t. called ++ t) (sym (append_assoc local (e ∷ []) events))) b
Step-Busy ps q r a (unlock local called) b =
    subst (Begins ps) (ap (λ t. called ++ t) (append-nil local)) b
Step-Busy ps q r a (call_front e events local called) b =
    subst (Begins ps) (sym (append_assoc called (e ∷ []) local)) b
Step-Busy ps q r a (leave events called) b = subst (Begins ps) (append-nil called) b

Ahead-enters :
    (ps : List EventItem) (q r : EventQueue) → Step q processes r → Ahead ps q → Busy ps r
Ahead-enters ps q r (enter events called) (p, b) = b
Ahead-enters ps q r (move_front e events local called) (p, b) = absurd (cc)
Ahead-enters ps q r (unlock local called) (p, b) = absurd (cc)
Ahead-enters ps q r (call_front e events local called) (p, b) = absurd (cc)
Ahead-enters ps q r (leave events called) (p, b) = absurd (cc)

Busy-returns : (ps : List EventItem) (q : EventQueue) → q.phase ≡ outside → Busy ps q → Done ps q
Busy-returns ps q e b = subst (λ t. BusyIn t ps q) e b

-- The state of queue `j`, whose events at the beginning were `ps`, at a turn of the loop.
abbrev pub At : Turn → ℕ → List EventItem → EventQueue → Type 0
At idle j ps q = Done ps q
At (before i) j ps q = (j < i → Done ps q) × (i ≤ j → Ahead ps q)
At (inside i) j ps q = (j < i → Done ps q) × (j ≡ i → Busy ps q) × (i < j → Ahead ps q)

pub At-empty : (t : Turn) (j : ℕ) → At t j [] empty_queue
At-empty idle j = ([], refl)
At-empty (before i) j = (λ h. ([], refl), λ h. (refl, ([], refl)))
At-empty (inside i) j = (λ h. ([], refl), λ h. ([], refl), λ h. (refl, ([], refl)))

At-adds :
    (t : Turn) (j : ℕ) (ps : List EventItem) (q r : EventQueue) (e : EventItem)
    → Step q (adds e) r
    → At t j ps q
    → At t j ps r
At-adds idle j ps q r e s h = Step-Done ps q r (adds e) s h
At-adds (before i) j ps q r e s (done, ahead) =
    (λ h. Step-Done ps q r (adds e) s (done h), λ h. Ahead-adds ps q r e s (ahead h))
At-adds (inside i) j ps q r e s (done, busy, ahead) = (
  λ h. Step-Done ps q r (adds e) s (done h),
  λ h. Step-Busy ps q r (adds e) s (busy h),
  λ h. Ahead-adds ps q r e s (ahead h),
)

-- The queue that acts.
pub At-self :
    (t u : Turn) (i : ℕ) (a : Action) (ps : List EventItem) (q r : EventQueue)
    → Step q a r
    → Turned t i a r u
    → At t i ps q
    → At u i ps r
At-self t u i a ps q r s (any_time t' i' e r') h = At-adds t i ps q r e s h
At-self t u i a ps q r s (calls i' r') (done, ahead) = (
  λ h. absurd (omega arith),
  λ h. Ahead-enters ps q r s (ahead (omega arith)),
  λ h. absurd (omega arith),
)
At-self t u i a ps q r s (continues i' r' n) (done, busy, ahead) = (
  λ h. absurd (omega arith),
  λ h. Step-Busy ps q r processes s (busy refl),
  λ h. absurd (omega arith),
)
At-self t u i a ps q r s (returns i' r' p) (done, busy, ahead) =
    (λ h. Busy-returns ps r p (Step-Busy ps q r processes s (busy refl)), λ h. absurd (omega arith))

-- Another queue.
pub At-other :
    (t u : Turn) (i j : ℕ) (a : Action) (ps : List EventItem) (q r : EventQueue)
    → Turned t i a r u
    → i ≢ j
    → At t j ps q
    → At u j ps q
At-other t u i j a ps q r (any_time t' i' e r') n h = h
At-other t u i j a ps q r (calls i' r') n (done, ahead) =
    (done, λ e. absurd (n (sym e)), λ h. ahead (omega arith))
At-other t u i j a ps q r (continues i' r' m) n h = h
At-other t u i j a ps q r (returns i' r' p) n (done, busy, ahead) =
    (λ h. done (omega (arith, n)), λ h. ahead (omega arith))
