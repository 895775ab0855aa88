-- ===== src/Util/IThread/Lifecycle.antt =====
-- util/IThread.cpp: what holds of `_over`, `_quit` and the calls of `unit`, however the calls of the
-- owner and the turns of the thread interleave.
use rubo.Base.{
  ◌⊎◌, ℕ, suc, ◌+◌, ◌≤◌, ◌≡◌, refl, Bool, true, false, List, [], ◌∷◌, ◌++◌, some, arith, inl, inr,
}
use mathlib.Core.Path.{subst}
use mathlib.Core.Option.{some-injective}
use rubo.Msgs.UserMsg.{Text}
use rubo.Util.IThread.{
  Now, IThread, Hook, thread_loop, on_next_second, on_next_minute, on_next_hour, unit, new_thread,
  stop, tover, init_time, call_if, timer_events, Place, no_thread, at_test, in_loop, in_timer,
  in_unit, in_tover, returned, Running, not_started, test_running, run_timer, thread_func, start,
  join, Turn, starts, stops, joins, runs, turn,
}

pub data Reachable (name : Text) : Running → Type 0 where
  created : Reachable name (not_started name)
  then_turn :
      {r r' : Running} (t : Turn) → Reachable name r → turn t r ≡ some r' → Reachable name r'

-- How often `unit` was called.
abbrev pub units : List Hook → ℕ
units [] = 0
units (unit ∷ hooks) = suc (units hooks)
units (thread_loop ∷ hooks) = units hooks
units (on_next_second ∷ hooks) = units hooks
units (on_next_minute ∷ hooks) = units hooks
units (on_next_hour ∷ hooks) = units hooks

-- What `_over`, `_quit` and the number of calls of `unit` are at each place of the thread.
abbrev pub IsConsistent : Place → Bool → Bool → ℕ → Type 0
IsConsistent no_thread over quit n = (over ≡ true) × (n ≤ 1) × (n ≡ 0 ⊎ quit ≡ true)
IsConsistent at_test over quit n = (over ≡ false) × (n ≡ 0)
IsConsistent in_loop over quit n = (over ≡ false) × (n ≡ 0)
IsConsistent in_timer over quit n = (over ≡ false) × (n ≡ 0)
IsConsistent in_unit over quit n = (over ≡ false) × (n ≡ 0) × (quit ≡ true)
IsConsistent in_tover over quit n = (over ≡ false) × (n ≡ 1) × (quit ≡ true)
IsConsistent returned over quit n = (over ≡ true) × (n ≡ 1) × (quit ≡ true)

abbrev pub Consistent : Running → Type 0
Consistent r = IsConsistent r.place r.thread.over r.thread.quit (units r.hooks)

pub units-append : (a b : List Hook) → units (a ++ b) ≡ units a + units b
units-append [] b = omega arith
units-append (unit ∷ a) b = omega (arith, units-append a b)
units-append (thread_loop ∷ a) b = units-append a b
units-append (on_next_second ∷ a) b = units-append a b
units-append (on_next_minute ∷ a) b = units-append a b
units-append (on_next_hour ∷ a) b = units-append a b

units-timer_events : (now : Now) (t : IThread) → units (timer_events now t).1 ≡ 0
unfolding timer_events call_if
units-timer_events now t = ground arith

module _ (now : Now) (t : IThread) (hooks : List Hook) where
  pub thread_func-Consistent :
      (place : Place)
      → IsConsistent place t.over t.quit (units hooks)
      → Consistent (thread_func now (record { thread = t; place = place; hooks = hooks }))
  unfolding thread_func test_running tover run_timer timer_events
  thread_func-Consistent no_thread c = c
  thread_func-Consistent at_test c = ground arith
  thread_func-Consistent in_loop c = ground (arith, units-append hooks (thread_loop ∷ []))
  thread_func-Consistent in_timer c =
      ground (arith, units-append hooks (timer_events now t).1, units-timer_events now t)
  thread_func-Consistent in_unit c = ground (arith, units-append hooks (unit ∷ []))
  thread_func-Consistent in_tover c = ground arith
  thread_func-Consistent returned c = c

module _ (t : IThread) (hooks : List Hook) {r' : Running} where
  start-Consistent :
      (now : Now) (place : Place)
      → IsConsistent place t.over t.quit (units hooks)
      → start now (record { thread = t; place = place; hooks = hooks }) ≡ some r'
      → Consistent r'
  unfolding start init_time
  start-Consistent now no_thread c e = ground arith
  start-Consistent now at_test c e = ground arith
  start-Consistent now in_loop c e = ground arith
  start-Consistent now in_timer c e = ground arith
  start-Consistent now in_unit c e = ground arith
  start-Consistent now in_tover c e = ground arith
  start-Consistent now returned c e = ground arith

  join-Consistent :
      (place : Place)
      → IsConsistent place t.over t.quit (units hooks)
      → join (record { thread = t; place = place; hooks = hooks }) ≡ some r'
      → Consistent r'
  unfolding join
  join-Consistent no_thread c e = ground arith
  join-Consistent at_test c e = ground arith
  join-Consistent in_loop c e = ground arith
  join-Consistent in_timer c e = ground arith
  join-Consistent in_unit c e = ground arith
  join-Consistent in_tover c e = ground arith
  join-Consistent returned c e = ground arith

pub stop-Consistent :
    (t : IThread) (hooks : List Hook) (place : Place)
    → IsConsistent place t.over t.quit (units hooks)
    → IsConsistent place t.over true (units hooks)
stop-Consistent t hooks no_thread c = (c.0, c.1, inr refl)
stop-Consistent t hooks at_test c = c
stop-Consistent t hooks in_loop c = c
stop-Consistent t hooks in_timer c = c
stop-Consistent t hooks in_unit c = (c.0, c.1, refl)
stop-Consistent t hooks in_tover c = (c.0, c.1, refl)
stop-Consistent t hooks returned c = (c.0, c.1, refl)

some_eq {ℓ} : {A : Type ℓ} (P : A → Type 0) {a b : A} → P a → some a ≡ some b → P b
some_eq P {a} {b} h e = subst P (some-injective a b e) h

turn-Consistent :
    (t : Turn) (r : Running) {r' : Running} → Consistent r → turn t r ≡ some r' → Consistent r'
unfolding turn stop
turn-Consistent (starts now) r c e = start-Consistent r.thread r.hooks now r.place c e
turn-Consistent stops r c e = some_eq Consistent (stop-Consistent r.thread r.hooks r.place c) e
turn-Consistent joins r c e = join-Consistent r.thread r.hooks r.place c e
turn-Consistent (runs now) r c e =
    some_eq Consistent (thread_func-Consistent now r.thread r.hooks r.place c) e

-- However the calls of the owner and the turns of the thread interleave: `_over` is true exactly
-- while no thread runs or the thread has returned, `unit` was called at most once, and only after
-- `stop`, and a thread that has returned has called it once.
pub Reachable-Consistent : {name : Text} {r : Running} → Reachable name r → Consistent r
Reachable-Consistent created = unfold not_started new_thread in (refl, omega arith, inl refl)
Reachable-Consistent (then_turn {r} t reach e) = turn-Consistent t r (Reachable-Consistent reach) e
