-- ===== src/Udp/ActiveRequests/Laws.antt =====
-- The buffer never overflows, and what becomes of the tasks that it held.
use mathlib.Core.List.{append-nil}
use torrust_tracker.Prelude.{
  ℕ, ◌+◌, ◌≤◌, ◌<◌, Bool, true, false, ◌||◌, ◌≡◌, refl, Option, none, some, List, [], ◌∷◌, ◌++◌,
  arith, if◌then◌else◌, ltb, length, length-append, Bool-cases, ltb→lt, inl, inr,
}
use torrust_tracker.Udp.ActiveRequests.{ActiveRequests, capacity, Schedule, pop_loop, force_push}

-- Whether a task had finished when the loop looked at it for the last time.
abbrev pub has_finished : Schedule → ℕ → Bool
has_finished e t = e.first t || e.second t

-- The last task of a list that had not finished, or the given one.
abbrev pub last_unfinished : Schedule → List ℕ → Option ℕ → Option ℕ
last_unfinished e [] u = u
last_unfinished e (t ∷ ts) u = last_unfinished e ts (if has_finished e t then u else some t)

-- Once a finished task was found, the loop empties the buffer and keeps the last unfinished task.
pop_loop_past :
    (e : Schedule) (ts : List ℕ) (n : ℕ) (u : Option ℕ)
    → 0 < n
    → pop_loop e ts n u
      ≡ record { rest = []; unfinished_task = last_unfinished e ts u; aborted = none }
unfolding pop_loop
pop_loop_past e [] n u h = refl
pop_loop_past e (t ∷ ts) n u h =
    ground (arith, pop_loop_past e ts (n + 1) u, pop_loop_past e ts n (some t))

abbrev pub optional : Option ℕ → List ℕ
optional none = []
optional (some t) = t ∷ []

abbrev pub unless : Bool → ℕ → List ℕ
unless true t = []
unless false t = t ∷ []

module _ (e : Schedule) (new : ℕ) where
  -- With room in the buffer the new handle is put at its end, and nothing else happens.
  pub force_push_room :
      (s : ActiveRequests)
      → length s.rb < capacity
      → force_push e s new ≡ some (record { rb = s.rb ++ new ∷ [] }, none)
  unfolding force_push
  force_push_room s room = ground arith

  module _ (t : ℕ) (ts : List ℕ) (full : length (t ∷ ts) ≡ capacity) where
    -- On a full buffer whose oldest task has not finished, that task is aborted, the other handles
    -- stay, and the new handle is put behind them unless its task has already finished.
    pub force_push_aborts :
        has_finished e t ≡ false
        → force_push e (record { rb = t ∷ ts }) new
          ≡ some (record { rb = ts ++ unless e.incoming new }, some t)
    unfolding force_push
    force_push_aborts busy = ground (arith, append-nil ts)

    -- On a full buffer whose oldest task has finished, no task is aborted, and of all the handles
    -- only that of the last unfinished task stays, with that of the new task unless it has
    -- finished: the handles of the other unfinished tasks are lost while their tasks run on.
    pub force_push_forgets :
        has_finished e t ≡ true
        → force_push e (record { rb = t ∷ ts }) new
          ≡ some
              (record { rb = optional (last_unfinished e ts none) ++ unless e.incoming new }, none)
    unfolding force_push
    force_push_forgets idle = ground (arith, pop_loop_past e ts 1 none)

length-optional : (o : Option ℕ) → length (optional o) ≤ 1
length-optional none = omega arith
length-optional (some t) = omega arith

length-unless : (b : Bool) (t : ℕ) → length (unless b t) ≤ 1
length-unless true t = omega arith
length-unless false t = omega arith

-- From a buffer within its capacity a push never panics, and leaves the buffer within it.
pub force_push_total :
    (e : Schedule) (s : ActiveRequests) (new : ℕ)
    → length s.rb ≤ capacity
    → (s' : ActiveRequests) × (aborted : Option ℕ) × (force_push e s new ≡ some (s', aborted))
      × (length s'.rb ≤ capacity)
force_push_total e s new h = elim (Bool-cases (ltb (length s.rb) capacity)) [
  | inl room ↦ (
    record { rb = s.rb ++ new ∷ [] },
    none,
    force_push_room e new s (ltb→lt _ _ room),
    omega (arith, length-append s.rb (new ∷ []), ltb→lt _ _ room),
  )
  | inr full ↦ full_case s.rb (ground arith)
]
  where
    full_case :
        (rb : List ℕ)
        → length rb ≡ capacity
        → (s' : ActiveRequests) × (aborted : Option ℕ) × (force_push e (record { rb = rb }) new
            ≡ some (s', aborted))
          × (length s'.rb ≤ capacity)
    full_case [] l = absurd (omega arith)
    full_case (t ∷ ts) l = elim (Bool-cases (has_finished e t)) [
      | inl idle ↦ (
        _,
        _,
        force_push_forgets e new t ts l idle,
        omega (
          arith,
          length-append (optional (last_unfinished e ts none)) (unless e.incoming new),
          length-optional (last_unfinished e ts none),
          length-unless e.incoming new,
        ),
      )
      | inr busy ↦ (
        _,
        _,
        force_push_aborts e new t ts l busy,
        omega (arith, length-append ts (unless e.incoming new), length-unless e.incoming new),
      )
    ]
