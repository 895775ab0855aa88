-- ===== src/Server/Logic/Threads.antt =====
-- server/Logic/Logic.cpp: the threads of the logic server, in `init`, `run` and `stop`. A worker whose wait for
-- messages is woken by `just_notify` takes turns; for each worker, the readings of the clock are of its turns
-- while `stop` waits for it. `none` is a fault, or a wait that does not end.
use rubo.Base.{ℕ, suc, true, false, List, [], ◌∷◌, ◌++◌, Option, none, some}
use rubo.Util.IThread.{
  Now, Running, Place, returned, not_started, is_over, start, thread_func, join, stop_and_join,
}
use rubo.Util.IThread
use rubo.Server.MysqlDb.{bytes}

-- `io` is absent before `init`.
pub record LogicThreads : Type 0 where
  pub io : Option Running
  pub workers : List Running

-- The one worker that `init` makes; `init` of a worker succeeds. `add_worker` gives it to the IO thread too.
unfoldable pub add_workers : LogicThreads → LogicThreads
add_workers l = record l { workers = l.workers ++ (not_started (bytes "LogicWorker 1") ∷ []) }

unfoldable pub start_all : Now → List Running → Option (List Running)
start_all now [] = some []
start_all now (w ∷ ws) = elim (start now w) [
  | none ↦ none
  | some w' ↦ elim (start_all now ws) [ none ↦ none | some ws' ↦ some (w' ∷ ws') ]
]

unfoldable pub start_io : Now → Option Running → Option (Option Running)
start_io now none = some none
start_io now (some r) = elim (start now r) [ none ↦ none | some r' ↦ some (some r') ]

unfoldable pub run : Now → LogicThreads → Option LogicThreads
run now l = elim (start_io now l.io) [
  | none ↦ none
  | some io ↦ elim (start_all now l.workers) [
    | none ↦ none
    | some workers ↦ some (record { io = io; workers = workers })
  ]
]

unfoldable pub stop_io : List Now → Option Running → Option (Option Running)
stop_io nows none = some none
stop_io nows (some r) = elim (stop_and_join nows r) [ none ↦ none | some r' ↦ some (some r') ]

unfoldable pub wait_worker : List Now → Running → Option Running
wait_worker [] w = elim (is_over w.thread) [ true ↦ some w | false ↦ none ]
wait_worker (now ∷ nows) w = elim (is_over w.thread) [
  | true ↦ some w
  | false ↦ wait_worker nows (thread_func now w)
]

-- The turns of a worker between `stop` and the first test of `is_over`, and those after it.
pub record Turns : Type 0 where
  pub between : List Now
  pub waited : List Now

unfoldable pub take_turns : List Now → Running → Running
take_turns [] w = w
take_turns (now ∷ nows) w = take_turns nows (thread_func now w)

-- A worker in the list is as it is when it is asked to stop: the turns that it takes while others are waited for
-- are those of its past. A worker that is over at the first test ends the loop: those behind it are not asked to
-- stop.
unfoldable pub stop_workers : (ℕ → Turns) → List Running → Option (List Running)
stop_workers turns [] = some []
stop_workers turns (w ∷ ws) =
    let w' : Running = take_turns (turns 0).between (record w { thread = IThread.stop w.thread }) in
    let rest = stop_workers (λ k. turns (suc k)) ws in
    elim (is_over w'.thread) [
      | true ↦ some (w' ∷ ws)
      | false ↦ elim (wait_worker (turns 0).waited w') [
        | none ↦ none
        | some w'' ↦ elim rest [ none ↦ none | some ws' ↦ some (w'' ∷ ws') ]
      ]
    ]

-- A thread that runs and was not asked to stop is never joined.
unfoldable pub join_worker : Running → Option Running
join_worker w = elim w.place [ returned ↦ join w | _ ↦ none ]

unfoldable pub join_workers : List Running → Option (List Running)
join_workers [] = some []
join_workers (w ∷ ws) = elim (join_worker w) [
  | none ↦ none
  | some w' ↦ elim (join_workers ws) [ none ↦ none | some ws' ↦ some (w' ∷ ws') ]
]

unfoldable pub stop_threads : (ℕ → Turns) → List Running → Option (List Running)
stop_threads turns ws = elim (stop_workers turns ws) [ none ↦ none | some ws' ↦ join_workers ws' ]

unfoldable pub stop : List Now → (ℕ → Turns) → LogicThreads → Option LogicThreads
stop nows turns l = elim (stop_io nows l.io) [
  | none ↦ none
  | some io ↦ elim (stop_threads turns l.workers) [
    | none ↦ none
    | some workers ↦ some (record { io = io; workers = workers })
  ]
]
