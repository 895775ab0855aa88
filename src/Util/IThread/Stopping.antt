-- ===== src/Util/IThread/Stopping.antt =====
-- util/IThread.cpp, and the waits of server/Logic/Logic.cpp and server/Gate/Gate.cpp: stopping a thread and
-- joining it.
use rubo.Base.{
  Bool, ℕ, suc, ◌≤◌, ◌≡◌, ◌≢◌, refl, sym, ap, ◌∙◌, true, false, List, [], ◌∷◌, Option, none, some,
  arith, length, Bool-cases, inl, inr,
}
use mathlib.Core.Path.{subst}
use rubo.Msgs.UserMsg.{Text}
use rubo.Util.IThread.{
  Now, IThread, Hook, stop, tover, timer_events, Place, no_thread, at_test, in_loop, in_timer,
  in_unit, in_tover, returned, Running, test_running, run_timer, thread_func, join, wait_over,
  stop_and_join,
}
use rubo.Util.IThread.Lifecycle.{
  Reachable, units, Consistent, IsConsistent, thread_func-Consistent, stop-Consistent,
  Reachable-Consistent,
}

pub running-started :
    (place : Place) (quit : Bool) (n : ℕ) → IsConsistent place false quit n → place ≢ no_thread
running-started no_thread quit n c e = absurd (cc c.0)
running-started at_test quit n c e = cc
running-started in_loop quit n c e = cc
running-started in_timer quit n c e = cc
running-started in_unit quit n c e = cc
running-started in_tover quit n c e = cc
running-started returned quit n c e = cc

-- The turns until the thread has returned, once it was asked to stop.
abbrev pub turns_left : Place → ℕ
turns_left no_thread = 0
turns_left returned = 0
turns_left in_tover = 1
turns_left in_unit = 2
turns_left at_test = 3
turns_left in_timer = 4
turns_left in_loop = 5

-- A thread that was started and asked to stop.
pub record IsStopping (r : Running) : Type 0 where
  pub consistent : Consistent r
  pub asked : r.thread.quit ≡ true
  pub started : r.place ≢ no_thread

-- The thread was joined, and has called `unit` once.
pub record IsJoined (r : Running) : Type 0 where
  pub over : r.thread.over ≡ true
  pub gone : r.place ≡ no_thread
  pub unit_once : units r.hooks ≡ 1

module _ (t : IThread) (hooks : List Hook) where
  progress :
      (now : Now) (place : Place)
      → t.quit ≡ true
      → t.over ≡ false
      → IsStopping (record { thread = t; place = place; hooks = hooks })
      → let r = thread_func now (record { thread = t; place = place; hooks = hooks }) in
        (r.thread.quit ≡ true)
        × (r.place ≢ no_thread)
        × (suc (turns_left r.place) ≡ turns_left place)
  unfolding thread_func test_running run_timer timer_events tover
  progress now no_thread q o s = absurd (s.started refl)
  progress now at_test q o s = ground arith
  progress now in_loop q o s = ground arith
  progress now in_timer q o s = ground arith
  progress now in_unit q o s = ground arith
  progress now in_tover q o s = ground arith
  progress now returned q o s = ground (arith, s.consistent)

  pub join_over :
      (place : Place)
      → t.over ≡ true
      → IsStopping (record { thread = t; place = place; hooks = hooks })
      → (r' : Running) × (join (record { thread = t; place = place; hooks = hooks }) ≡ some r')
        × IsJoined r'
  unfolding join
  join_over no_thread o s = absurd (s.started refl)
  join_over at_test o s = absurd (cc (o, s.consistent.0))
  join_over in_loop o s = absurd (cc (o, s.consistent.0))
  join_over in_timer o s = absurd (cc (o, s.consistent.0))
  join_over in_unit o s = absurd (cc (o, s.consistent.0))
  join_over in_tover o s = absurd (cc (o, s.consistent.0))
  join_over returned o s = (
    record { thread = t; place = no_thread; hooks = hooks },
    refl,
    record { over = o; gone = refl; unit_once = s.consistent.1 },
  )

  pub not_over :
      (place : Place)
      → t.over ≡ false
      → IsStopping (record { thread = t; place = place; hooks = hooks })
      → 1 ≤ turns_left place
  not_over no_thread o s = absurd (s.started refl)
  not_over at_test o s = omega arith
  not_over in_loop o s = omega arith
  not_over in_timer o s = omega arith
  not_over in_unit o s = omega arith
  not_over in_tover o s = omega arith
  not_over returned o s = absurd (cc (o, s.consistent.0))

wait_over-over : (nows : List Now) (r : Running) → r.thread.over ≡ true → wait_over nows r ≡ join r
unfolding wait_over
wait_over-over [] r o = ap (λ b. elim b [ true ↦ join r | false ↦ none ]) o
wait_over-over (now ∷ nows) r o =
    ap (λ b. elim b [ true ↦ join r | false ↦ wait_over nows (thread_func now r) ]) o

wait_over-waits :
    (now : Now) (nows : List Now) (r : Running)
    → r.thread.over ≡ false
    → wait_over (now ∷ nows) r ≡ wait_over nows (thread_func now r)
unfolding wait_over
wait_over-waits now nows r o =
    ap (λ b. elim b [ true ↦ join r | false ↦ wait_over nows (thread_func now r) ]) o

-- The result of a wait that is over.
unfoldable pub Ends : Option Running → Type 0
Ends o = (r' : Running) × (o ≡ some r') × IsJoined r'

Ends-over :
    (nows : List Now) (r : Running) → IsStopping r → r.thread.over ≡ true → Ends (wait_over nows r)
unfolding Ends
Ends-over nows r s o =
    let (r', e, joined) = join_over r.thread r.hooks r.place o s in
    (r', wait_over-over nows r o ∙ e, joined)

pub still-IsStopping :
    (now : Now) (r : Running)
    → IsStopping r
    → r.thread.over ≡ false
    → IsStopping (thread_func now r)
      × (suc (turns_left (thread_func now r).place) ≡ turns_left r.place)
still-IsStopping now r s o =
    let (asked, started, fewer) = progress r.thread r.hooks now r.place s.asked o s in
    (
      record {
        consistent = thread_func-Consistent now r.thread r.hooks r.place s.consistent;
        asked = asked;
        started = started;
      },
      fewer,
    )

pub wait_over-Ends :
    (nows : List Now) (r : Running)
    → IsStopping r
    → turns_left r.place ≤ length nows
    → Ends (wait_over nows r)
wait_over-Ends [] r s enough = elim (Bool-cases r.thread.over) [
  | inl o ↦ Ends-over [] r s o
  | inr o ↦ absurd (omega (arith, not_over r.thread r.hooks r.place o s))
]
wait_over-Ends (now ∷ nows) r s enough = elim (Bool-cases r.thread.over) [
  | inl o ↦ Ends-over (now ∷ nows) r s o
  | inr o ↦
      let (s', fewer) = still-IsStopping now r s o in
      subst Ends (sym (wait_over-waits now nows r o))
        (wait_over-Ends nows (thread_func now r) s' (omega arith))
]

pub turns_left-le : (place : Place) → turns_left place ≤ 5
turns_left-le place = ground arith

-- A thread that was started, however its owner's calls and its own turns interleaved so far, is
-- stopped and joined by `stop`, the wait for `is_over` and `join`, if it gets at least five turns
-- during the wait; `unit` was then called exactly once.
pub stop_and_join-IsJoined :
    {name : Text} {r : Running} (nows : List Now)
    → Reachable name r
    → r.place ≢ no_thread
    → 5 ≤ length nows
    → (r' : Running) × (stop_and_join nows r ≡ some r') × IsJoined r'
unfolding stop_and_join stop Ends
stop_and_join-IsJoined {r} nows reach started enough =
    wait_over-Ends nows (record r { thread = stop r.thread })
      (record {
        consistent = stop-Consistent r.thread r.hooks r.place (Reachable-Consistent reach);
        asked = refl;
        started = started;
      })
      (omega (arith, turns_left-le r.place))

over_stays :
    (now : Now) (t : IThread) (hooks : List Hook) (place : Place)
    → t.over ≡ true
    → IsStopping (record { thread = t; place = place; hooks = hooks })
    → let r : Running = record { thread = t; place = place; hooks = hooks } in
      IsStopping (thread_func now r) × (turns_left (thread_func now r).place ≡ 0)
unfolding thread_func
over_stays now t hooks no_thread o s = absurd (s.started refl)
over_stays now t hooks at_test o s = absurd (cc (o, s.consistent.0))
over_stays now t hooks in_loop o s = absurd (cc (o, s.consistent.0))
over_stays now t hooks in_timer o s = absurd (cc (o, s.consistent.0))
over_stays now t hooks in_unit o s = absurd (cc (o, s.consistent.0))
over_stays now t hooks in_tover o s = absurd (cc (o, s.consistent.0))
over_stays now t hooks returned o s = (s, refl)

-- A thread that was asked to stop and is over has no turns left.
pub over-IsStopping :
    (now : Now) (r : Running)
    → IsStopping r
    → r.thread.over ≡ true
    → IsStopping (thread_func now r) × (turns_left (thread_func now r).place ≡ 0)
over-IsStopping now r s o = over_stays now r.thread r.hooks r.place o s

-- A thread of `run` that was not asked to stop before.
pub record IsWorking (w : Running) : Type 0 where
  pub name : Text
  pub reach : Reachable name w
  pub active : w.thread.over ≡ false

pub working-started : {w : Running} → IsWorking w → w.place ≢ no_thread
working-started {w} working = running-started w.place _ _ (
    subst (λ b. IsConsistent w.place b w.thread.quit (units w.hooks)) working.active
      (Reachable-Consistent working.reach))

pub working-IsStopping :
    (w : Running) → IsWorking w → IsStopping (record w { thread = stop w.thread })
unfolding stop
working-IsStopping w working = record {
  consistent = stop-Consistent w.thread w.hooks w.place (Reachable-Consistent working.reach);
  asked = refl;
  started = working-started working;
}

abbrev pub AllWork : List Running → Type 0
AllWork [] = Unit
AllWork (w ∷ ws) = IsWorking w × AllWork ws

-- The threads before and after.
abbrev pub AllJoined : List Running → List Running → Type 0
AllJoined [] [] = Unit
AllJoined (w ∷ ws) (w' ∷ ws') = IsJoined w' × AllJoined ws ws'
AllJoined [] (w' ∷ ws') = ⊥
AllJoined (w ∷ ws) [] = ⊥
