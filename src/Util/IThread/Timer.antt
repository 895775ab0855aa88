-- ===== src/Util/IThread/Timer.antt =====
-- The timer of a thread over a sequence of rounds.
use rubo.Base.{ℕ, ◌+◌, ◌≡◌, refl, ap, ap₂, ◌∙◌, List, [], ◌∷◌, ◌++◌, arith, ◌==◌, if◌then◌else◌}
use rubo.Util.IThread.{
  Tm, Now, IThread, Hook, thread_loop, on_next_second, on_next_minute, on_next_hour, unit,
  init_time, call_if, need_update, timer_events,
}

-- The calls of the functions of the timer in the rounds with these readings.
unfoldable pub rounds : List Now → IThread → List Hook
rounds [] t = []
rounds (now ∷ nows) t = (timer_events now t).1 ++ rounds nows (timer_events now t).0

abbrev pub is_second : Hook → ℕ
is_second on_next_second = 1
is_second thread_loop = 0
is_second on_next_minute = 0
is_second on_next_hour = 0
is_second unit = 0

abbrev pub is_minute : Hook → ℕ
is_minute on_next_minute = 1
is_minute on_next_second = 0
is_minute thread_loop = 0
is_minute on_next_hour = 0
is_minute unit = 0

abbrev pub is_hour : Hook → ℕ
is_hour on_next_hour = 1
is_hour on_next_second = 0
is_hour on_next_minute = 0
is_hour thread_loop = 0
is_hour unit = 0

abbrev pub total : (Hook → ℕ) → List Hook → ℕ
total is [] = 0
total is (hook ∷ hooks) = is hook + total is hooks

-- How often a field differs from its value in the reading before.
abbrev pub changes : (Tm → ℕ) → Tm → List Now → ℕ
changes field last [] = 0
changes field last (now ∷ nows) =
    (if field now.cur_tm == field last then 0 else 1) + changes field now.cur_tm nows

total-append : (is : Hook → ℕ) (a b : List Hook) → total is (a ++ b) ≡ total is a + total is b
total-append is [] b = omega arith
total-append is (hook ∷ a) b = omega (arith, total-append is a b)

-- The reading is kept, or equals the one that is kept in every field that is read.
last_tm-timer_events : (now : Now) (t : IThread) → (timer_events now t).0.last_tm ≡ now.cur_tm
unfolding timer_events need_update
last_tm-timer_events now t = ground arith

module _ (now : Now) (t : IThread) where
  one_second :
      total is_second (timer_events now t).1
      ≡ (if now.cur_tm.tm_sec == t.last_tm.tm_sec then 0 else 1)
  unfolding timer_events call_if
  one_second = ground arith

  one_minute :
      total is_minute (timer_events now t).1
      ≡ (if now.cur_tm.tm_min == t.last_tm.tm_min then 0 else 1)
  unfolding timer_events call_if
  one_minute = ground arith

  one_hour :
      total is_hour (timer_events now t).1
      ≡ (if now.cur_tm.tm_hour == t.last_tm.tm_hour then 0 else 1)
  unfolding timer_events call_if
  one_hour = ground arith

-- A function of the timer that is called in a round exactly if its field changed.
rounds-changes :
    (is : Hook → ℕ) (field : Tm → ℕ)
    → ((now : Now) (t : IThread)
        → total is (timer_events now t).1 ≡ (if field now.cur_tm == field t.last_tm then 0 else 1))
    → (nows : List Now) (t : IThread) → total is (rounds nows t) ≡ changes field t.last_tm nows
unfolding rounds
rounds-changes is field one [] t = refl
rounds-changes is field one (now ∷ nows) t =
    total-append is (timer_events now t).1 (rounds nows (timer_events now t).0)
    ∙ ap₂ (λ a b. a + b) (one now t)
        (rounds-changes is field one nows (timer_events now t).0
          ∙ ap (λ last. changes field last nows) (last_tm-timer_events now t))

-- After `init_time`, over any rounds of the thread, `on_next_second`, `on_next_minute` and
-- `on_next_hour` are called exactly as often as the second, the minute and the hour differ from one
-- reading of the clock to the next.
pub rounds-init_time :
    (now : Now) (nows : List Now) (t : IThread)
    → (total is_second (rounds nows (init_time now t)) ≡ changes (λ tm. tm.tm_sec) now.cur_tm nows)
      × (total is_minute (rounds nows (init_time now t))
          ≡ changes (λ tm. tm.tm_min) now.cur_tm nows)
      × (total is_hour (rounds nows (init_time now t)) ≡ changes (λ tm. tm.tm_hour) now.cur_tm nows)
unfolding init_time
rounds-init_time now nows t = (
  rounds-changes is_second (λ tm. tm.tm_sec) one_second nows (init_time now t),
  rounds-changes is_minute (λ tm. tm.tm_min) one_minute nows (init_time now t),
  rounds-changes is_hour (λ tm. tm.tm_hour) one_hour nows (init_time now t),
)
