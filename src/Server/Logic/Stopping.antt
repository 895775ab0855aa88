-- ===== src/Server/Logic/Stopping.antt =====
-- server/Logic/Logic.cpp, the workers in `stop`: each is asked to stop, waited for, and joined.
use mathlib.Core.Option.{some-injective}
use rubo.Base.{
  ℕ, suc, ◌≤◌, ◌≡◌, refl, sym, ap, ◌∙◌, Bool, true, false, List, [], ◌∷◌, Option, none, some,
  length, arith, Bool-cases, inl, inr,
}
use rubo.Util.IThread.{
  Now, Running, Place, no_thread, at_test, in_loop, in_timer, in_unit, in_tover, returned, is_over,
  thread_func, join, wait_over, stop_and_join,
}
use rubo.Util.IThread
use rubo.Util.IThread.Stopping.{
  IsJoined, IsStopping, IsWorking, working-started, working-IsStopping, AllWork, AllJoined,
  stop_and_join-IsJoined, Ends, wait_over-Ends, turns_left, turns_left-le, join_over,
  still-IsStopping, over-IsStopping,
}
use rubo.Server.Logic.Threads.{
  Turns, take_turns, stop_io, wait_worker, stop_workers, join_worker, join_workers, stop_threads,
  stop,
}

-- The wait, and then `join`.
abbrev then_join : Option Running → Option Running
then_join none = none
then_join (some w) = join w

last_test :
    (b : Bool) (w : Running)
    → elim b [ true ↦ join w | false ↦ none ] ≡ then_join (elim b [ true ↦ some w | false ↦ none ])
last_test true w = refl
last_test false w = refl

one_test :
    (b : Bool) (w : Running) (waits : Option Running) (waits' : Option Running)
    → waits ≡ then_join waits'
    → elim b [ true ↦ join w | false ↦ waits ]
      ≡ then_join (elim b [ true ↦ some w | false ↦ waits' ])
one_test true w waits waits' e = refl
one_test false w waits waits' e = e

wait_over-wait_worker :
    (nows : List Now) (w : Running) → wait_over nows w ≡ then_join (wait_worker nows w)
unfolding wait_over wait_worker
wait_over-wait_worker [] w = last_test w.thread.over w
wait_over-wait_worker (now ∷ nows) w =
    one_test w.thread.over w _ _ (wait_over-wait_worker nows (thread_func now w))

-- A thread that is gone after `join` had returned before.
join-gone :
    (t : IThread.IThread) (hooks : List IThread.Hook) (place : Place) {r' : Running}
    → join (record { thread = t; place = place; hooks = hooks }) ≡ some r'
    → r'.place ≡ no_thread
    → join_worker (record { thread = t; place = place; hooks = hooks }) ≡ some r'
unfolding join join_worker
join-gone t hooks no_thread e gone = e
join-gone t hooks at_test e gone = absurd (cc (some-injective _ _ e, gone))
join-gone t hooks in_loop e gone = absurd (cc (some-injective _ _ e, gone))
join-gone t hooks in_timer e gone = absurd (cc (some-injective _ _ e, gone))
join-gone t hooks in_unit e gone = absurd (cc (some-injective _ _ e, gone))
join-gone t hooks in_tover e gone = absurd (cc (some-injective _ _ e, gone))
join-gone t hooks returned e gone = e

then_join-some :
    (o : Option Running) (r' : Running)
    → then_join o ≡ some r'
    → (w : Running) × (o ≡ some w) × (join w ≡ some r')
then_join-some none r' e = absurd (cc e)
then_join-some (some w) r' e = (w, refl, e)

stopping : Running → Running
stopping w = record w { thread = IThread.stop w.thread }

wait_worker-join :
    (nows : List Now) (w : Running)
    → IsStopping w
    → turns_left w.place ≤ length nows
    → (w' : Running) × (r' : Running) × (wait_worker nows w ≡ some w')
      × (join_worker w' ≡ some r')
      × IsJoined r'
unfolding Ends
wait_worker-join nows w s enough =
    let (r', e, joined) = wait_over-Ends nows w s enough in
    let (w', waited, e') = then_join-some _ r' (sym (wait_over-wait_worker nows w) ∙ e) in
    (w', r', waited, join-gone w'.thread w'.hooks w'.place e' joined.gone, joined)

one_turn :
    (now : Now) (w : Running)
    → IsStopping w
    → IsStopping (thread_func now w) × (turns_left (thread_func now w).place ≤ 5)
one_turn now w s = elim (Bool-cases w.thread.over) [
  | inl o ↦ ((over-IsStopping now w s o).0, turns_left-le (thread_func now w).place)
  | inr o ↦ ((still-IsStopping now w s o).0, turns_left-le (thread_func now w).place)
]

take_turns-IsStopping :
    (nows : List Now) (w : Running) → IsStopping w → IsStopping (take_turns nows w)
unfolding take_turns
take_turns-IsStopping [] w s = s
take_turns-IsStopping (now ∷ nows) w s =
    take_turns-IsStopping nows (thread_func now w) (one_turn now w s).0

-- At the first test a worker is not over, if it took no turn since `stop`; the last one may be.
abbrev pub Prompt : (ℕ → Turns) → List Running → Type 0
Prompt turns [] = Unit
Prompt turns (w ∷ []) = Unit
Prompt turns (w ∷ (v ∷ ws)) = ((turns 0).between ≡ []) × Prompt (λ k. turns (suc k)) (v ∷ ws)

step_waits :
    (turns : ℕ → Turns) (w w' : Running) (ws ws' : List Running)
    → (take_turns (turns 0).between (stopping w)).thread.over ≡ false
    → wait_worker (turns 0).waited (take_turns (turns 0).between (stopping w)) ≡ some w'
    → stop_workers (λ k. turns (suc k)) ws ≡ some ws'
    → stop_workers turns (w ∷ ws) ≡ some (w' ∷ ws')
unfolding stop_workers stopping
step_waits turns w w' ws ws' o e rest =
    let asked = take_turns (turns 0).between (stopping w) in
    let others = stop_workers (λ k. turns (suc k)) ws in
    ap
      (λ b. elim b [
        | true ↦ some (asked ∷ ws)
        | false ↦ elim (wait_worker (turns 0).waited asked) [
          | none ↦ none
          | some w'' ↦ elim others [ none ↦ none | some ws' ↦ some (w'' ∷ ws') ]
        ]
      ])
      o
    ∙ (ap
          (λ x. elim x [
            | none ↦ none
            | some w'' ↦ elim others [ none ↦ none | some ws' ↦ some (w'' ∷ ws') ]
          ])
          e
        ∙ ap (λ x. elim x [ none ↦ none | some ws' ↦ some (w' ∷ ws') ]) rest)

step_ends :
    (turns : ℕ → Turns) (w : Running) (ws : List Running)
    → (take_turns (turns 0).between (stopping w)).thread.over ≡ true
    → stop_workers turns (w ∷ ws) ≡ some (take_turns (turns 0).between (stopping w) ∷ ws)
unfolding stop_workers stopping
step_ends turns w ws o =
    let asked = take_turns (turns 0).between (stopping w) in
    ap
      (λ b. elim b [
        | true ↦ some (asked ∷ ws)
        | false ↦ elim (wait_worker (turns 0).waited asked) [
          | none ↦ none
          | some w'' ↦ elim (stop_workers (λ k. turns (suc k)) ws) [
            | none ↦ none
            | some ws' ↦ some (w'' ∷ ws')
          ]
        ]
      ])
      o

join_eq :
    (w w' : Running) (ws ws' : List Running)
    → join_worker w ≡ some w'
    → join_workers ws ≡ some ws'
    → join_workers (w ∷ ws) ≡ some (w' ∷ ws')
unfolding join_workers
join_eq w w' ws ws' e rest =
    ap
      (λ x. elim x [
        | none ↦ none
        | some w' ↦ elim (join_workers ws) [ none ↦ none | some ws' ↦ some (w' ∷ ws') ]
      ])
      e
    ∙ ap (λ x. elim x [ none ↦ none | some ws' ↦ some (w' ∷ ws') ]) rest

-- What the two loops leave.
Leaves : (ℕ → Turns) → List Running → Type 0
Leaves turns ws =
    (ws' : List Running) × (ws'' : List Running) × (stop_workers turns ws ≡ some ws')
    × (join_workers ws' ≡ some ws'')
    × AllJoined ws ws''

-- A worker that is waited for.
waits-Leaves :
    (turns : ℕ → Turns) (w : Running) (ws : List Running)
    → IsStopping (take_turns (turns 0).between (stopping w))
    → (take_turns (turns 0).between (stopping w)).thread.over ≡ false
    → 5 ≤ length (turns 0).waited
    → Leaves (λ k. turns (suc k)) ws
    → Leaves turns (w ∷ ws)
unfolding Leaves
waits-Leaves turns w ws s o enough (ws', rs', rest, es, all_joined) =
    let asked = take_turns (turns 0).between (stopping w) in
    let (w', r', waited, e, joined) =
      wait_worker-join (turns 0).waited asked s (omega (arith, turns_left-le asked.place)) in
    (
      w' ∷ ws',
      r' ∷ rs',
      step_waits turns w w' ws ws' o waited rest,
      join_eq w' r' ws' rs' e es,
      (joined, all_joined),
    )

-- The last worker, which may be over at the first test.
last-Leaves :
    (turns : ℕ → Turns) (w : Running)
    → IsStopping (take_turns (turns 0).between (stopping w))
    → 5 ≤ length (turns 0).waited
    → Leaves turns (w ∷ [])
unfolding Leaves
last-Leaves turns w s enough =
    let asked = take_turns (turns 0).between (stopping w) in
    elim (Bool-cases asked.thread.over) [
      | inl o ↦
          let (r', e, joined) = join_over asked.thread asked.hooks asked.place o s in
          (
            asked ∷ [],
            r' ∷ [],
            step_ends turns w [] o,
            join_eq asked r' [] [] (join-gone asked.thread asked.hooks asked.place e joined.gone)
                (unfold join_workers in refl),
            (joined, tt),
          )
      | inr o ↦
          waits-Leaves turns w [] s o enough
            ([], [], unfold stop_workers in refl, unfold join_workers in refl, tt)
    ]

asked-IsStopping :
    (nows : List Now) (w : Running) → IsWorking w → IsStopping (take_turns nows (stopping w))
unfolding stopping
asked-IsStopping nows w working = take_turns-IsStopping nows _ (working-IsStopping w working)

asked-waits :
    (nows : List Now) (w : Running)
    → IsWorking w
    → nows ≡ []
    → (take_turns nows (stopping w)).thread.over ≡ false
unfolding stopping take_turns IThread.stop
asked-waits nows w working none_yet =
    ap (λ l. (take_turns l (stopping w)).thread.over) none_yet ∙ working.active

workers-Leave :
    (turns : ℕ → Turns) (ws : List Running)
    → AllWork ws
    → Prompt turns ws
    → ((k : ℕ) → 5 ≤ length (turns k).waited)
    → Leaves turns ws
workers-Leave turns [] all prompt enough =
    unfold Leaves stop_workers join_workers in ([], [], refl, refl, tt)
workers-Leave turns (w ∷ []) (working, all) prompt enough =
    last-Leaves turns w (asked-IsStopping (turns 0).between w working) (enough 0)
workers-Leave turns (w ∷ (v ∷ ws)) (working, all) (at_once, prompt) enough =
    waits-Leaves turns w (v ∷ ws) (asked-IsStopping (turns 0).between w working)
      (asked-waits (turns 0).between w working at_once) (enough 0)
      (workers-Leave (λ k. turns (suc k)) (v ∷ ws) all prompt (λ k. enough (suc k)))

stop_threads-AllJoined :
    (turns : ℕ → Turns) (ws : List Running)
    → AllWork ws
    → Prompt turns ws
    → ((k : ℕ) → 5 ≤ length (turns k).waited)
    → (ws' : List Running) × (stop_threads turns ws ≡ some ws') × AllJoined ws ws'
unfolding stop_threads Leaves
stop_threads-AllJoined turns ws all prompt enough =
    let (ws', rs', e, es, joined) = workers-Leave turns ws all prompt enough in
    (rs', ap (λ x. elim x [ none ↦ none | some ws' ↦ join_workers ws' ]) e ∙ es, joined)

stop_io-IsJoined :
    (nows : List Now) (r : Running)
    → IsWorking r
    → 5 ≤ length nows
    → (r' : Running) × (stop_io nows (some r) ≡ some (some r')) × IsJoined r'
unfolding stop_io
stop_io-IsJoined nows r working enough =
    let (r', e, joined) =
      stop_and_join-IsJoined nows working.reach (working-started working) enough in
    (r', ap (λ x. elim x [ none ↦ none | some r' ↦ some (some r') ]) e, joined)

-- If the IO thread and all workers of the logic server were started and are not over when they are
-- asked to stop, however their owner's calls and their own turns interleaved so far, each gets at
-- least five turns while `stop` waits for it, and no worker but the last takes a turn between its
-- `stop` and the first test of `is_over`, then `stop` returns with all of them joined, each having
-- called `unit` exactly once. The server makes one worker, which may take any turns there.
pub stop-AllJoined :
    (nows : List Now) (turns : ℕ → Turns) (r : Running) (ws : List Running)
    → IsWorking r
    → AllWork ws
    → Prompt turns ws
    → 5 ≤ length nows
    → ((k : ℕ) → 5 ≤ length (turns k).waited)
    → (r' : Running) × (ws' : List Running) × (stop nows turns
          (record { io = some r; workers = ws })
        ≡ some (record { io = some r'; workers = ws' }))
      × IsJoined r'
      × AllJoined ws ws'
unfolding stop
stop-AllJoined nows turns r ws io_working all prompt enough all_enough =
    let (r', e, joined) = stop_io-IsJoined nows r io_working enough in
    let (ws', es, all_joined) = stop_threads-AllJoined turns ws all prompt all_enough in
    (
      r',
      ws',
      ap
            (λ x. elim x [
              | none ↦ none
              | some io ↦ elim (stop_threads turns ws) [
                | none ↦ none
                | some workers ↦ some (record { io = io; workers = workers })
              ]
            ])
            e
          ∙ ap
              (λ x. elim x [
                | none ↦ none
                | some workers ↦ some (record { io = some r'; workers = workers })
              ])
              es,
      joined,
      all_joined,
    )
