-- ===== src/Util/IThread.antt =====
-- util/IThread.hpp, util/IThread.cpp: a thread that runs rounds until it is asked to stop, and its
-- timer. What a subclass does in `thread_loop`, `unit` and the functions of the timer is a trace of
-- the calls, each of which returns; the readings of the clock are arguments. The owner and the thread
-- take turns in any order, at the granularity of the statements that read or write `_quit` and `_over`.
pub mod Lifecycle
pub mod Stopping
pub mod Timer
use rubo.Base.{
  ℕ, Bool, true, false, not, List, [], ◌∷◌, ◌++◌, Option, none, some, ◌==◌, if◌then◌else◌,
}
use rubo.Msgs.UserMsg.{Text}

-- The fields of `std::tm` that are read.
pub record Tm : Type 0 where
  pub tm_sec : ℕ
  pub tm_min : ℕ
  pub tm_hour : ℕ

-- One reading of the clock.
pub record Now : Type 0 where
  pub cur_ms : ℕ
  pub cur_s : ℕ
  pub cur_tm : Tm

pub record IThread : Type 0 where
  pub quit : Bool
  pub over : Bool
  pub name : Text
  pub last_ms : ℕ
  pub last_s : ℕ
  pub last_tm : Tm

pub data Hook : Type 0 where
  thread_loop on_next_second on_next_minute on_next_hour unit : Hook

unfoldable pub new_thread : Text → IThread
new_thread name = record {
  quit = false;
  over = true;
  name = name;
  last_ms = 0;
  last_s = 0;
  last_tm = record { tm_sec = 0; tm_min = 0; tm_hour = 0 };
}

unfoldable pub stop : IThread → IThread
stop t = record t { quit = true }

unfoldable pub tover : IThread → IThread
tover t = record t { over = true }

abbrev pub is_over : IThread → Bool
is_over t = t.over

abbrev pub is_running : IThread → Bool
is_running t = not t.quit

unfoldable pub set_tname : Text → IThread → IThread
set_tname name t = record t { name = name }

unfoldable pub init_time : Now → IThread → IThread
init_time now t = record t { last_ms = now.cur_ms; last_s = now.cur_s; last_tm = now.cur_tm }

-- A function that is called if a field changed.
unfoldable pub call_if : Hook → ℕ → ℕ → List Hook
call_if hook cur last = if cur == last then [] else hook ∷ []

unfoldable pub need_update : Tm → Tm → Bool
need_update cur last =
    if cur.tm_sec == last.tm_sec
    then (if cur.tm_min == last.tm_min then not (cur.tm_hour == last.tm_hour) else true)
    else true

-- The warning about a long round is only logged.
unfoldable pub timer_events : Now → IThread → IThread × List Hook
timer_events now t = (
  record t {
    last_tm = if need_update now.cur_tm t.last_tm then now.cur_tm else t.last_tm;
    last_s = now.cur_s;
    last_ms = now.cur_ms;
  },
  call_if on_next_second now.cur_tm.tm_sec t.last_tm.tm_sec
      ++ (call_if on_next_minute now.cur_tm.tm_min t.last_tm.tm_min
          ++ call_if on_next_hour now.cur_tm.tm_hour t.last_tm.tm_hour),
)

-- Where the thread is in `thread_func`. Without a thread, `_thread` can not be joined.
pub data Place : Type 0 where
  no_thread at_test in_loop in_timer in_unit in_tover returned : Place

pub record Running : Type 0 where
  pub thread : IThread
  pub place : Place
  pub hooks : List Hook

unfoldable pub not_started : Text → Running
not_started name = record { thread = new_thread name; place = no_thread; hooks = [] }

unfoldable pub test_running : Running → Running
test_running r =
    if is_running r.thread then record r { place = in_loop } else record r { place = in_unit }

unfoldable pub run_timer : Now → Running → Running
run_timer now r =
    let (thread, hooks) = timer_events now r.thread in
    record r { thread = thread; hooks = r.hooks ++ hooks; place = at_test }

-- The next statement of `thread_func`.
unfoldable pub thread_func : Now → Running → Running
thread_func now r = elim r.place [
  | no_thread ↦ r
  | at_test ↦ test_running r
  | in_loop ↦ record r { hooks = r.hooks ++ (thread_loop ∷ []); place = in_timer }
  | in_timer ↦ run_timer now r
  | in_unit ↦ record r { hooks = r.hooks ++ (unit ∷ []); place = in_tover }
  | in_tover ↦ record r { thread = tover r.thread; place = returned }
  | returned ↦ r
]

-- An assignment to a `std::thread` that can be joined terminates the program: `none`.
unfoldable pub start : Now → Running → Option Running
start now r = elim (is_running r.thread) [
  | false ↦ some r
  | true ↦ elim r.place [
    | no_thread ↦
        some
          (record r { thread = record (init_time now r.thread) { over = false }; place = at_test })
    | _ ↦ none
  ]
]

-- Without a thread `join` throws: `none`. It waits while the thread has not returned.
unfoldable pub join : Running → Option Running
join r = elim r.place [
  | no_thread ↦ none
  | returned ↦ some (record r { place = no_thread })
  | _ ↦ some r
]

-- What the owner calls, and the turns of the thread.
pub data Turn : Type 0 where
  starts : Now → Turn
  stops : Turn
  joins : Turn
  runs : Now → Turn

unfoldable pub turn : Turn → Running → Option Running
turn (starts now) r = start now r
turn stops r = some (record r { thread = stop r.thread })
turn joins r = join r
turn (runs now) r = some (thread_func now r)

-- How the servers stop a thread: `stop`, a wait for `is_over`, and `join`. Each reading is of a turn
-- of the thread during the wait; `none` is a fault, or that the turns do not suffice.
unfoldable pub wait_over : List Now → Running → Option Running
wait_over [] r = elim (is_over r.thread) [ true ↦ join r | false ↦ none ]
wait_over (now ∷ nows) r = elim (is_over r.thread) [
  | true ↦ join r
  | false ↦ wait_over nows (thread_func now r)
]

unfoldable pub stop_and_join : List Now → Running → Option Running
stop_and_join nows r = wait_over nows (record r { thread = stop r.thread })
