-- ===== src/Events/Master/Calls.antt =====
-- What one call of ProcessEvents of src/threading/threadqueue.cpp has done when it returns.
use raid_super_blt.Base.{
  ℕ, ◌<◌, ◌≤◌, ◌≡◌, ◌≢◌, refl, sym, ap, ◌∙◌, subst, inl, inr, none, some, List, [], ◌∷◌, ◌++◌,
  append-nil, length, get_elem?, get_elem?-append_inv, get_elem?-set_self, get_elem?-lt,
  get_elem?-set_ne, set, true, Bool-cases, Option-cases, ◌==◌, ==→eq, arith,
}
use raid_super_blt.Events.{EventItem, EventQueue, empty_queue, Action, Step}
use raid_super_blt.Events.Order.{everything}
use raid_super_blt.Events.Master.{
  Turn, idle, Master, no_queues, MasterAction, turns, Turned, any_time, calls, continues, returns,
  MasterStep, register_queue, enter_loop, leave_loop, act, MasterSteps, stay, then_step,
}
use raid_super_blt.Events.Master.Turns.{OneAtATime, MasterSteps-OneAtATime, became}
use raid_super_blt.Base.{
  All, ltb, get_elem?-append_left, Option, get_elem?-some, length-append, length-set,
}
use raid_super_blt.Events.Master.Progress.{Done, At, At-empty, At-self, At-other}

none-append :
    (queues : List EventQueue) (j : ℕ) (q : EventQueue)
    → get_elem? (queues ++ q ∷ []) j ≡ none
    → get_elem? queues j ≡ none
none-append queues j q e = elim (Option-cases (get_elem? queues j)) [
  | inl missing ↦ missing
  | inr (p, there) ↦
      let same = get_elem?-append_left queues (q ∷ []) j (get_elem?-lt queues j p there) in
      absurd (cc)
]

set-same :
    (queues : List EventQueue) (i j : ℕ) (q r : EventQueue)
    → (i == j) ≡ true
    → get_elem? queues i ≡ some q
    → (get_elem? queues j ≡ some q) × (get_elem? (set queues i r) j ≡ some r)
set-same queues i j q r e at = (
  ap (λ k. get_elem? queues k) (sym (==→eq i j e)) ∙ at,
  ap (λ k. get_elem? (set queues i r) k) (sym (==→eq i j e))
      ∙ get_elem?-set_self queues i r (get_elem?-lt queues i q at),
)

-- What the loop keeps, of which `given` are the events that the queues had at its beginning.
record IsUnderway (given : ℕ → List EventItem) (m : Master) : Type 0 where
  busy : m.turn ≢ idle
  known : (j : ℕ) (q : EventQueue) → get_elem? m.queues j ≡ some q → At m.turn j (given j) q
  unknown : (j : ℕ) → get_elem? m.queues j ≡ none → given j ≡ []

Turned-busy :
    (t u : Turn) (i : ℕ) (a : Action) (r : EventQueue) → Turned t i a r u → t ≢ idle → u ≢ idle
Turned-busy t u i a r (any_time t' i' e r') n = n
Turned-busy t u i a r (calls i' r') n = λ e. cc
Turned-busy t u i a r (continues i' r' m) n = λ e. cc
Turned-busy t u i a r (returns i' r' p) n = λ e. cc

before_none :
    (queues : List EventQueue) (i j : ℕ) (q : EventQueue)
    → get_elem? queues i ≡ none
    → get_elem? queues j ≡ some q
    → j < i
before_none queues i j q last there =
    let below = get_elem?-lt queues j q there in
    elim (Bool-cases (ltb j i)) [
      | inl e ↦ ground arith
      | inr e ↦ let (p, found) = get_elem?-some queues i (ground arith) in absurd (cc)
    ]

MasterStep-length :
    (m n : Master) (a : MasterAction) → MasterStep m a n → length m.queues ≤ length n.queues
MasterStep-length m n a (register_queue m') =
    omega (arith, length-append m.queues (empty_queue ∷ []))
MasterStep-length m n a (enter_loop queues) = omega arith
MasterStep-length m n a (leave_loop queues i last) = omega arith
MasterStep-length m n a (act queues t u i b q r at s turned) = omega (arith, length-set queues i r)

MasterSteps-length :
    (m n : Master) (history : List MasterAction)
    → MasterSteps m history n
    → length m.queues ≤ length n.queues
MasterSteps-length m n history (stay m') = omega arith
MasterSteps-length m n history (then_step m' o n' a rest s later) =
    omega (arith, MasterStep-length m o a s, MasterSteps-length o n' rest later)

module _ (given : ℕ → List EventItem) where
  register-IsUnderway :
      (m : Master)
      → IsUnderway given m
      → IsUnderway given (record m { queues = m.queues ++ empty_queue ∷ [] })
  register-IsUnderway m w = record {
    busy = w.busy;
    known = λ j q there. elim (get_elem?-append_inv m.queues empty_queue j q there) [
      | inl old ↦ w.known j q old
      | inr (at, new) ↦ elim (Option-cases (get_elem? m.queues j)) [
        | inl missing ↦
            subst (At m.turn j (given j)) new (
              subst (λ t. At m.turn j t empty_queue) (sym (w.unknown j missing))
                (At-empty m.turn j))
        | inr (p, old) ↦ let bound = get_elem?-lt m.queues j p old in absurd (omega arith)
      ]
    ];
    unknown = λ j missing. w.unknown j (none-append m.queues j empty_queue missing);
  }

  act-IsUnderway :
      (queues : List EventQueue) (t u : Turn) (i : ℕ) (a : Action) (q r : EventQueue)
      → get_elem? queues i ≡ some q
      → Step q a r
      → Turned t i a r u
      → IsUnderway given (record { queues = queues; turn = t })
      → IsUnderway given (record { queues = set queues i r; turn = u })
  act-IsUnderway queues t u i a q r at s turned w = record {
    busy = Turned-busy t u i a r turned w.busy;
    known = λ j o there. elim (Bool-cases (i == j)) [
      | inl e ↦ subst (At u j (given j)) (became queues i j q r o e at there) (
          subst (λ k. At u k (given k) r) (==→eq i j e)
            (At-self t u i a (given i) q r s turned (w.known i q at)))
      | inr e ↦
          let apart : i ≢ j = λ p. ground arith in
          At-other t u i j a (given j) o r turned apart
            (w.known j o (sym (get_elem?-set_ne queues i j r apart) ∙ there))
    ];
    unknown = λ j missing. elim (Bool-cases (i == j)) [
      | inl e ↦ let (_, now) = set-same queues i j q r e at in absurd (cc)
      | inr e ↦
          let apart : i ≢ j = λ p. ground arith in
          w.unknown j (sym (get_elem?-set_ne queues i j r apart) ∙ missing)
    ];
  }

  MasterStep-IsUnderway :
      (m n : Master) (a : MasterAction)
      → MasterStep m a n
      → a ≢ turns
      → IsUnderway given m
      → IsUnderway given n
  MasterStep-IsUnderway m n a (register_queue m') apart w = register-IsUnderway m w
  MasterStep-IsUnderway m n a (enter_loop queues) apart w = absurd (apart refl)
  MasterStep-IsUnderway m n a (leave_loop queues i last) apart w = absurd (apart refl)
  MasterStep-IsUnderway m n a (act queues t u i b q r at s turned) apart w =
      act-IsUnderway queues t u i b q r at s turned w

  MasterSteps-IsUnderway :
      (m n : Master) (history : List MasterAction)
      → MasterSteps m history n
      → All (λ a. a ≢ turns) history
      → IsUnderway given m
      → IsUnderway given n
  MasterSteps-IsUnderway m n history (stay m') h w = w
  MasterSteps-IsUnderway m n history (then_step m' o n' a rest s later) h w =
      MasterSteps-IsUnderway o n' rest later h.1 (MasterStep-IsUnderway m o a s h.0 w)

  -- The loop ends only behind the last queue.
  leave-Done :
      (p n : Master)
      → MasterStep p turns n
      → IsUnderway given p
      → (j : ℕ) (q : EventQueue) → get_elem? n.queues j ≡ some q
      → Done (given j) q
  leave-Done p n (enter_loop queues) w j q there = absurd (w.busy refl)
  leave-Done p n (leave_loop queues i last) w j q there =
      (w.known j q there).0 (before_none queues i j q last there)

-- What a queue has been given, called or not; nothing for one that is not registered.
given_to : Option EventQueue → List EventItem
given_to none = []
given_to (some q) = everything q

enter-IsUnderway :
    (m entered : Master)
    → m.turn ≡ idle
    → MasterStep m turns entered
    → OneAtATime m
    → IsUnderway (λ j. given_to (get_elem? m.queues j)) entered
unfolding given_to
enter-IsUnderway m entered at_idle (leave_loop queues i last) one = absurd (cc)
enter-IsUnderway m entered at_idle (enter_loop queues) one = record {
  busy = λ e. cc;
  known = λ j q there. (
    λ h. absurd (omega arith),
    λ h. elim (one j q there) [
      | inl quiet ↦
          (quiet, ([], ap given_to (sym there) ∙ sym (append-nil (given_to (get_elem? queues j)))))
      | inr other ↦ absurd (cc)
    ],
  );
  unknown = λ j missing. ap given_to missing;
}

-- When a call of ProcessEvents returns, every event that a queue had been given when the loop began
-- has been called, in the order in which it was given, whatever other threads have added and what
-- queues have been registered meanwhile.
pub process_events_calls :
    (m entered p n : Master) (past during : List MasterAction) (j : ℕ) (q : EventQueue)
    → MasterSteps no_queues past m
    → m.turn ≡ idle
    → MasterStep m turns entered
    → MasterSteps entered during p
    → All (λ a. a ≢ turns) during
    → MasterStep p turns n
    → get_elem? m.queues j ≡ some q
    → (r : EventQueue) × (rest : List EventItem) × (get_elem? n.queues j ≡ some r)
      × (r.called ≡ (q.called ++ (q.local_queue ++ q.event_queue)) ++ rest)
unfolding given_to
process_events_calls m entered p n past during j q before_it at_idle enters steps quiet leaves
      there =
    let given = λ (j : ℕ). given_to (get_elem? m.queues j) in
    let one = MasterSteps-OneAtATime no_queues m past before_it (λ j q e. cc) in
    let underway =
      MasterSteps-IsUnderway given entered p during steps quiet
        (enter-IsUnderway m entered at_idle enters one) in
    let (r, found) = get_elem?-some n.queues j (
      omega (
        arith,
        get_elem?-lt m.queues j q there,
        MasterStep-length m entered turns enters,
        MasterSteps-length entered p during steps,
        MasterStep-length p n turns leaves,
      )) in
    let (rest, e) = leave-Done given p n leaves underway j r found in
    (r, rest, found, e ∙ ap (λ t. given_to t ++ rest) there)
