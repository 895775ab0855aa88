-- ===== src/Server/Gate/Threads.antt =====
-- server/Gate/Gate.cpp, `run` and `stop`: the thread of GateMngr, which is absent after a failed `init`. Its
-- `unit` is a call in the trace of the thread.
use mathlib.Core.Path.{subst}
use rubo.Base.{
  ℕ, ◌≤◌, ◌≡◌, refl, ap, ◌∙◌, inl, inr, Bool, true, false, List, [], ◌∷◌, ◌++◌, Option, none, some,
  arith, length, Bool-cases,
}
use rubo.Msgs.UserMsg.{Text}
use rubo.Util.IThread.{
  Now, Running, Place, no_thread, at_test, in_loop, in_timer, in_unit, in_tover, returned, unit,
  is_over, start, stop_and_join,
}
use rubo.Util.IThread.Lifecycle.{Reachable, units, units-append, IsConsistent, Reachable-Consistent}
use rubo.Util.IThread.Stopping.{running-started, stop_and_join-IsJoined}

-- `none` in the result is a fault, and in the argument that there is no GateMngr.
unfoldable pub run : Now → Option Running → Option (Option Running)
run now none = some none
run now (some r) = elim (start now r) [ none ↦ none | some r' ↦ some (some r') ]

unfoldable pub call_unit : Running → Running
call_unit r = record r { hooks = r.hooks ++ (unit ∷ []) }

unfoldable pub stop_mngr : List Now → Running → Option Running
stop_mngr nows r = elim (is_over r.thread) [
  | false ↦ stop_and_join nows r
  | true ↦ some (call_unit r)
]

unfoldable pub stop : List Now → Option Running → Option (Option Running)
stop nows none = some none
stop nows (some r) = elim (stop_mngr nows r) [ none ↦ none | some r' ↦ some (some r') ]

-- A thread that is over and has not called `unit` was never started.
over-no_thread :
    (place : Place) (quit : Bool) (n : ℕ)
    → IsConsistent place true quit n
    → n ≡ 0
    → place ≡ no_thread
over-no_thread no_thread quit n c z = refl
over-no_thread at_test quit n c z = absurd (cc c.0)
over-no_thread in_loop quit n c z = absurd (cc c.0)
over-no_thread in_timer quit n c z = absurd (cc c.0)
over-no_thread in_unit quit n c z = absurd (cc c.0)
over-no_thread in_tover quit n c z = absurd (cc c.0)
over-no_thread returned quit n c z = absurd (omega (arith, c.1))

-- The thread is gone, and `unit` was called once.
abbrev pub IsStopped : Running → Type 0
IsStopped r = (r.place ≡ no_thread) × (units r.hooks ≡ 1)

module _ {name : Text} (nows : List Now) (r : Running) where
  stop_mngr-over :
      Reachable name r
      → units r.hooks ≡ 0
      → r.thread.over ≡ true
      → (r' : Running) × (stop_mngr nows r ≡ some r') × IsStopped r'
  unfolding stop_mngr call_unit
  stop_mngr-over reach z o =
      let c =
        subst (λ b. IsConsistent r.place b r.thread.quit (units r.hooks)) o
          (Reachable-Consistent reach) in
      (
        record r { hooks = r.hooks ++ (unit ∷ []) },
        ap (λ b. elim b [ false ↦ stop_and_join nows r | true ↦ some (call_unit r) ]) o,
        (over-no_thread r.place _ _ c z, omega (arith, units-append r.hooks (unit ∷ []))),
      )

  stop_mngr-running :
      Reachable name r
      → r.thread.over ≡ false
      → 5 ≤ length nows
      → (r' : Running) × (stop_mngr nows r ≡ some r') × IsStopped r'
  unfolding stop_mngr
  stop_mngr-running reach o enough =
      let c =
        subst (λ b. IsConsistent r.place b r.thread.quit (units r.hooks)) o
          (Reachable-Consistent reach) in
      let (r', e, joined) =
        stop_and_join-IsJoined nows reach (running-started r.place _ _ c) enough in
      (
        r',
        ap (λ b. elim b [ false ↦ stop_and_join nows r | true ↦ some (call_unit r) ]) o ∙ e,
        (joined.gone, joined.unit_once),
      )

  -- If the thread of the gate has not called `unit` yet, however its owner's calls and its own
  -- turns interleaved so far, then with at least five turns during the wait `stop` returns with no
  -- thread left and `unit` called exactly once, whether the thread was started or not.
  pub stop-unit_once :
      Reachable name r
      → units r.hooks ≡ 0
      → 5 ≤ length nows
      → (r' : Running) × (stop nows (some r) ≡ some (some r')) × IsStopped r'
  unfolding stop
  stop-unit_once reach z enough =
      let (r', e, stopped) : (r' : Running) × (stop_mngr nows r ≡ some r') × IsStopped r' =
        elim (Bool-cases r.thread.over) [
          | inl o ↦ stop_mngr-over reach z o
          | inr o ↦ stop_mngr-running reach o enough
        ] in
      (r', ap (λ o. elim o [ none ↦ none | some r' ↦ some (some r') ]) e, stopped)
