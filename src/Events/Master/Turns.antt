-- ===== src/Events/Master/Turns.antt =====
-- The queues of src/threading/threadqueue.cpp are processed one at a time.
use raid_super_blt.Base.{
  ℕ, ◌≡◌, ◌≢◌, refl, sym, ap, ◌∙◌, ◌⊎◌, inl, inr, some, some-injective, List, get_elem?,
  get_elem?-append_inv, get_elem?-set_self, get_elem?-lt, true, get_elem?-set_ne, set, Bool-cases,
  ◌==◌, ==→eq, arith,
}
use raid_super_blt.Events.{
  EventItem, EventQueue, outside, empty_queue, Action, adds, Step, add_to_queue,
}
use raid_super_blt.Events.Master.{
  Turn, inside, Master, MasterAction, Turned, any_time, calls, continues, returns, MasterStep,
  register_queue, enter_loop, leave_loop, act, MasterSteps, stay, then_step,
}

-- A queue that is being processed is the one that the loop has called.
abbrev pub OneAtATime : Master → Type 0
OneAtATime m =
    (j : ℕ) (q : EventQueue)
    → get_elem? m.queues j ≡ some q
    → (q.phase ≡ outside) ⊎ (m.turn ≡ inside j)

kept_phase : (q r : EventQueue) (e : EventItem) → Step q (adds e) r → r.phase ≡ q.phase
kept_phase q r e (add_to_queue q' e' free) = refl

-- The queue that acts.
Turned-self :
    (t u : Turn) (i : ℕ) (a : Action) (q r : EventQueue)
    → Step q a r
    → Turned t i a r u
    → (q.phase ≡ outside) ⊎ (t ≡ inside i)
    → (r.phase ≡ outside) ⊎ (u ≡ inside i)
Turned-self t u i a q r s (any_time t' i' e r') (inl p) = inl (kept_phase q r e s ∙ p)
Turned-self t u i a q r s (any_time t' i' e r') (inr p) = inr p
Turned-self t u i a q r s (calls i' r') h = inr refl
Turned-self t u i a q r s (continues i' r' n) h = inr refl
Turned-self t u i a q r s (returns i' r' p) h = inl p

inside-injective : (i j : ℕ) → inside i ≡ inside j → i ≡ j
inside-injective i j e = cc

-- Another queue.
Turned-other :
    (t u : Turn) (i j : ℕ) (a : Action) (r : EventQueue)
    → Turned t i a r u
    → i ≢ j
    → t ≡ inside j
    → u ≡ inside j
Turned-other t u i j a r (any_time t' i' e r') n p = p
Turned-other t u i j a r (calls i' r') n p = absurd (cc)
Turned-other t u i j a r (continues i' r' m) n p = absurd (n (inside-injective i j p))
Turned-other t u i j a r (returns i' r' m) n p = absurd (n (inside-injective i j p))

pub became :
    (queues : List EventQueue) (i j : ℕ) (q r o : EventQueue)
    → (i == j) ≡ true
    → get_elem? queues i ≡ some q
    → get_elem? (set queues i r) j ≡ some o
    → r ≡ o
became queues i j q r o e at there = some-injective r o (
    sym (get_elem?-set_self queues i r (get_elem?-lt queues i q at))
    ∙ (ap (λ k. get_elem? (set queues i r) k) (==→eq i j e) ∙ there))

MasterStep-OneAtATime :
    (m n : Master) (a : MasterAction) → MasterStep m a n → OneAtATime m → OneAtATime n
MasterStep-OneAtATime m n a (register_queue m') inv j q there =
    elim (get_elem?-append_inv m.queues empty_queue j q there) [
      | inl old ↦ inv j q old
      | inr (p, e) ↦ inl (ap (λ (t : EventQueue). t.phase) (sym e))
    ]
MasterStep-OneAtATime m n a (enter_loop queues) inv j q there = elim (inv j q there) [
  | inl p ↦ inl p
  | inr p ↦ absurd (cc)
]
MasterStep-OneAtATime m n a (leave_loop queues i last) inv j q there = elim (inv j q there) [
  | inl p ↦ inl p
  | inr p ↦ absurd (cc)
]
MasterStep-OneAtATime m n a (act queues t u i b q r at s turned) inv j o there =
    elim (Bool-cases (i == j)) [
      | inl e ↦
          let same = became queues i j q r o e at there in
          elim (Turned-self t u i b q r s turned (inv i q at)) [
            | inl quiet ↦ inl (ap (λ (x : EventQueue). x.phase) (sym same) ∙ quiet)
            | inr busy ↦ inr (busy ∙ ap inside (==→eq i j e))
          ]
      | inr e ↦
          let apart : i ≢ j = λ p. ground arith in
          elim (inv j o (sym (get_elem?-set_ne queues i j r apart) ∙ there)) [
            | inl quiet ↦ inl quiet
            | inr busy ↦ inr (Turned-other t u i j b r turned apart busy)
          ]
    ]

-- At any time at most one queue is being processed, the one that the loop of ProcessEvents has
-- called, whatever the other threads add and the loop has done before; the others are at rest.
pub MasterSteps-OneAtATime :
    (m n : Master) (history : List MasterAction)
    → MasterSteps m history n
    → OneAtATime m
    → OneAtATime n
MasterSteps-OneAtATime m n history (stay m') inv = inv
MasterSteps-OneAtATime m n history (then_step m' o n' a rest s later) inv =
    MasterSteps-OneAtATime o n' rest later (MasterStep-OneAtATime m' o a s inv)
