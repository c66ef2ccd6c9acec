-- ===== src/Udp/ActiveRequests.antt =====
-- src/servers/udp/server/request_buffer.rs: the ring buffer of the handles of the active requests.
-- The tasks run beside the buffer: what `is_finished` answers at each point is an argument, chosen
-- by the scheduler. The ring buffer is a crate; `try_push` on a buffer of fixed capacity, and the
-- popping of its items from the oldest on, are all that is used of it.
pub mod Laws
use torrust_tracker.Prelude.{
  ℕ, ◌+◌, Bool, true, false, Option, none, some, List, [], ◌∷◌, ◌++◌, if◌then◌else◌, ltb, ◌==◌,
  length, Result, ok, err,
}

-- A handle is the number of its task; the oldest handle stands first.
pub record ActiveRequests : Type 0 where
  pub rb : List ℕ

abbrev pub capacity : ℕ
capacity = 50

unfoldable pub try_push : List ℕ → ℕ → Result ℕ (List ℕ)
try_push rb task = if ltb (length rb) capacity then ok (rb ++ task ∷ []) else err task

-- What the tasks answer: `first` and `second` before and after the yield of the loop, and
-- `incoming` for the new task at the end.
pub record Schedule : Type 0 where
  pub first : ℕ → Bool
  pub second : ℕ → Bool
  pub incoming : Bool

-- The variables of the loop at its end, with the handles that were not popped.
pub record Popped : Type 0 where
  pub rest : List ℕ
  pub unfinished_task : Option ℕ
  pub aborted : Option ℕ

-- The loop over `pop_iter`.
unfoldable pub pop_loop : Schedule → List ℕ → ℕ → Option ℕ → Popped
pop_loop e [] finished unfinished = record {
  rest = [];
  unfinished_task = unfinished;
  aborted = none;
}
pop_loop e (old_task ∷ rest) finished unfinished = elim (e.first old_task) [
  | true ↦ pop_loop e rest (finished + 1) unfinished
  | false ↦ elim (e.second old_task) [
    | true ↦ pop_loop e rest (finished + 1) unfinished
    | false ↦ elim (finished == 0) [
      | true ↦ record { rest = rest; unfinished_task = unfinished; aborted = some old_task }
      | false ↦ pop_loop e rest finished (some old_task)
    ]
  ]
]

-- `none` where an `expect` panics.
abbrev push_or_panic : Option ℕ → List ℕ → Option (List ℕ)
push_or_panic none rb = some rb
push_or_panic (some task) rb = elim (try_push rb task) [ ok rb' ↦ some rb' | err t ↦ none ]

abbrev push_new : Bool → ℕ → Option (List ℕ) → Option (List ℕ)
push_new finished task none = none
push_new true task (some rb) = some rb
push_new false task (some rb) = push_or_panic (some task) rb

abbrev result : Option ℕ → Option (List ℕ) → Option (ActiveRequests × Option ℕ)
result aborted none = none
result aborted (some rb) = some (record { rb = rb }, aborted)

-- The buffer after the call and the task that was aborted, if any: the call returns whether there
-- was one. `none` where the call panics.
unfoldable pub force_push : Schedule → ActiveRequests → ℕ → Option (ActiveRequests × Option ℕ)
unfolding try_push pop_loop
force_push e s new_task = elim (try_push s.rb new_task) [
  | ok rb ↦ some (record { rb = rb }, none)
  | err task ↦
      let p = pop_loop e s.rb 0 none in
      result p.aborted (push_new e.incoming task (push_or_panic p.unfinished_task p.rest))
]
